-- ===== src/Gateway/Server/Registration.antt =====
-- The registry of online daemons and the handlers of internal/gateway/server.go agree.
use agbridge.Prelude.{
  ◌≡◌, ◌↔◌, refl, ap, List, Bytes, bytes_eq, nat_eq, none, some, arith, inl, inr,
}
use agbridge.Prelude.Maps
use agbridge.Prelude.Maps.{
  Map, get-put, get-remove, get-empty, get-put_self, get-put_other, get-put_kept, get-remove_kept,
  get-remove_other, get-put-eq-some, get-remove-eq-some,
}
use agbridge.Config.{GatewayConfig}
use agbridge.Gateway.Creds.{lookup_agent, lookup_daemon}
use agbridge.Gateway.Registry.{ConnId, unregister, lookup}
use agbridge.Gateway.Server.State.{
  Pc, awaits_hello, daemon_auth, daemon_register, daemon_loop, daemon_unregister, bridge_auth,
  bridge_evict, bridge_lookup, bridge_loop, bridge_forward, finished, Gateway,
}
use agbridge.Gateway.Server.Handlers.{goto, Input, received, fails, proceeds}
use agbridge.Gateway.Server.Invariants.{run_lem}
use agbridge.Gateway.Server.Cases.{
  read_hello_cases, daemon_entry_cases, bridge_entry_cases, registered_cases, deliver_cases,
  evict_cases, target_found_cases, bridge_frame_cases,
}
use agbridge.Gateway.Server.{Move, advance, run, new_gateway}
use agbridge.Gateway.Server.Agreement.{
  holds, Agree, register-eq-ok, goto-Agree, register-Agree, unregister-Agree,
}

module _ (sha256 : Bytes → Bytes) (hmac : Bytes → Bytes → Bytes) (g : Gateway) (c : ConnId) where
  advance-Agree :
      (pc : Pc) (i : Input)
      → Maps.get g.handlers c ≡ some pc
      → Agree g
      → Agree (advance sha256 hmac pc g c i)
  unfolding advance unregister
  advance-Agree awaits_hello (received f) at r =
      read_hello_cases Agree g c f (goto-Agree c r _ _ at refl) (λ h. goto-Agree c r _ _ at refl)
        (λ h _. goto-Agree c r _ _ at refl) (λ h _. goto-Agree c r _ _ at refl)
  advance-Agree (daemon_auth h) i at r =
      daemon_entry_cases Agree g c sha256 h (lookup_daemon g.creds h.name)
        (goto-Agree c r _ _ at refl) (λ e _ _. goto-Agree c r _ _ at refl)
  advance-Agree (daemon_register h hash) i at r =
      registered_cases Agree g c h hash _ (goto-Agree c r _ _ at refl) (λ q e.
        let (free, put) = register-eq-ok g.registry h.name c q e in
        rw put (register-Agree c r _ _ h.name at refl refl free))
  advance-Agree (daemon_loop h id) (received f) at r =
      deliver_cases Agree g c f (Maps.get g.writers c) r (λ b _. r)
  advance-Agree (daemon_unregister h) i at r = unregister-Agree c r _ _ h.name at refl refl
  advance-Agree (bridge_auth h) i at r =
      bridge_entry_cases Agree g c sha256 h (lookup_agent g.creds h.name)
        (goto-Agree c r _ _ at refl) (goto-Agree c r _ _ at refl)
        (λ e _ _ _. goto-Agree c r _ _ at refl)
  advance-Agree (bridge_evict h id o) i at r =
      evict_cases Agree g c h id o (goto-Agree c r _ _ at refl)
        (λ old _. goto-Agree c r _ _ at refl)
  advance-Agree (bridge_lookup h id) i at r =
      target_found_cases Agree g c h id _ (goto-Agree c r _ _ at refl)
        (λ p _. goto-Agree c r _ _ at refl)
  advance-Agree (bridge_loop h id p) (received f) at r =
      bridge_frame_cases Agree g c hmac h id p f r (goto-Agree c r _ _ at refl)
        (λ inner _. goto-Agree c r _ _ at refl) (λ _. goto-Agree c r _ _ at refl)
  advance-Agree awaits_hello proceeds at r = r
  advance-Agree (daemon_loop h id) proceeds at r = r
  advance-Agree (bridge_loop h id p) proceeds at r = r
  advance-Agree finished i at r = r
  advance-Agree (bridge_forward h id p f) fails at r = goto-Agree c r _ _ at refl
  advance-Agree pc i at r = goto-Agree c r _ _ at refl

accept-Agree :
    (g : Gateway) (c : ConnId)
    → Maps.get g.handlers c ≡ none
    → Agree g
    → Agree (goto g c awaits_hello)
accept-Agree g c at r = record {
  sound = λ n p e.
      let (q, found, named) = r.sound n p e in
      (q, get-put_kept g.handlers c p awaits_hello q at found, named);
  complete = λ n p q found named. elim (get-put-eq-some g.handlers c p awaits_hello q found) [
    | inl (_, eq) ↦ ground (arith, ap holds eq)
    | inr (_, found') ↦ r.complete n p q found' named
  ];
}

new_gateway-Agree : (cfg : GatewayConfig) → Agree (new_gateway cfg)
unfolding new_gateway
new_gateway-Agree cfg = record {
  sound = λ n p e. ground (arith, get-empty {V = ConnId} n);
  complete = λ n p q found named. ground (arith, get-empty {V = Pc} p);
}

module _ (sha256 : Bytes → Bytes) (hmac : Bytes → Bytes → Bytes) where
  -- After any interleaving, a name looks up a connection in the registry just when the handler of
  -- that connection registered the name and has not yet unregistered it.
  pub run_registered :
      (cfg : GatewayConfig) (ms : List Move) (n : Bytes) (p : ConnId)
      → let g = run sha256 hmac (new_gateway cfg) ms in
        (lookup g.registry n ≡ some p)
        ↔ ((pc : Pc) × (Maps.get g.handlers p ≡ some pc) × (holds pc ≡ some n))
  unfolding lookup
  run_registered cfg ms n p =
      let r =
        run_lem sha256 hmac Agree accept-Agree (advance-Agree sha256 hmac) (λ g creds r. r)
          (λ g closed r. r) (new_gateway cfg) ms (new_gateway-Agree cfg) in
      (r.sound n p, λ (pc, at, named). r.complete n p pc at named)
