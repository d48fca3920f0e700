-- ===== src/Gateway/Server/Single.antt =====
-- One session for each bridge in every interleaving of internal/gateway/server.go.
use agbridge.Prelude.{
  ◌≡◌, ◌≤◌, refl, List, Bytes, bytes_beq, bytes_eq, nat_eq, ◌==◌, eq_iff, some, arith, Bool-cases,
  inl, inr, subst,
}
use agbridge.Prelude.Maps
use agbridge.Prelude.Maps.Entries.{count-empty}
use native.Mathlib.Nat.{le_trans}
use agbridge.Config.{GatewayConfig}
use agbridge.Gateway.Creds.{lookup_agent, lookup_daemon}
use agbridge.Gateway.Registry
use agbridge.Gateway.Registry.{ConnId}
use agbridge.Gateway.Sessions.{
  Session, SessionTable, bridge, daemon, is_session, replace_by_role_name,
}
use agbridge.Gateway.Sessions.Replace.{
  live, replace_lone, replace_others, release_live, registered_other,
}
use agbridge.Gateway.Server.State.{
  Pc, awaits_hello, daemon_auth, daemon_register, daemon_session, daemon_loop, daemon_release,
  bridge_auth, bridge_replace, bridge_evict, bridge_lookup, bridge_loop, bridge_forward,
  bridge_release, finished, Gateway,
}
use agbridge.Gateway.Server.Handlers.{Input, received, fails, proceeds}
use agbridge.Gateway.Server.Cases.{
  read_hello_cases, daemon_entry_cases, bridge_entry_cases, registered_cases, deliver_cases,
  evict_cases, target_found_cases, bridge_frame_cases,
}
use agbridge.Gateway.Server.Invariants.{run_lem}
use agbridge.Gateway.Server.{Move, advance, run, new_gateway}

module _ (name : Bytes) where
  abbrev Single : Gateway → Type 0
  Single g = live g.sessions bridge name ≤ 1

  replaced :
      (st : SessionTable) (s : Session)
      → s.role ≡ bridge
      → live st bridge name ≤ 1
      → live (replace_by_role_name st s).table bridge name ≤ 1
  replaced st s role one = elim (Bool-cases (s.name == name)) [
    | inl same ↦
        let n = (eq_iff s.name name).0 same in
        let t = (replace_by_role_name st s).table in
        let lone : live t s.role s.name ≤ 1 =
          omega (arith, (replace_lone st s (rw (role, n) one)).0) in
        subst (λ r. live t r name ≤ 1) role (subst (λ n. live t s.role n ≤ 1) n lone)
    | inr other ↦
        le_trans
          (replace_others st s bridge name
            (λ (_, e). ground (arith, other, (eq_iff s.name name).1 e)))
          one
  ]

  module _ (sha256 : Bytes → Bytes) (hmac : Bytes → Bytes → Bytes) (g : Gateway) (c : ConnId) where
    advance-Single :
        (pc : Pc) (i : Input)
        → Maps.get g.handlers c ≡ some pc
        → Single g
        → Single (advance sha256 hmac pc g c i)
    unfolding advance bytes_beq
    advance-Single awaits_hello (received f) at l =
        read_hello_cases Single g c f l (λ _. l) (λ _ _. l) (λ _ _. l)
    advance-Single (daemon_auth h) i at l =
        daemon_entry_cases Single g c sha256 h (lookup_daemon g.creds h.name) l (λ _ _ _. l)
    advance-Single (daemon_register h hash) i at l =
        registered_cases Single g c h hash (Registry.register g.registry h.name c) l (λ _ _. l)
    advance-Single (daemon_session h hash) i at l =
        le_trans
          (registered_other g.sessions
            (record { role = daemon; name = h.name; key_hash = hash; conn = c }) bridge name refl)
          l
    advance-Single (daemon_loop h id) (received f) at l =
        deliver_cases Single g c f (Maps.get g.writers c) l (λ _ _. l)
    advance-Single (daemon_release h id) i at l =
        le_trans (release_live g.sessions id bridge name) l
    advance-Single (bridge_auth h) i at l =
        bridge_entry_cases Single g c sha256 h (lookup_agent g.creds h.name) l l (λ _ _ _ _. l)
    advance-Single (bridge_replace h hash) i at l =
        replaced g.sessions (record { role = bridge; name = h.name; key_hash = hash; conn = c })
          refl l
    advance-Single (bridge_evict h id o) i at l = evict_cases Single g c h id o l (λ _ _. l)
    advance-Single (bridge_lookup h id) i at l =
        target_found_cases Single g c h id (Registry.lookup g.registry h.target_daemon) l (λ _ _. l)
    advance-Single (bridge_loop h id p) (received f) at l =
        bridge_frame_cases Single g c hmac h id p f l l (λ _ _. l) (λ _. l)
    advance-Single (bridge_release id) i at l = le_trans (release_live g.sessions id bridge name) l
    advance-Single awaits_hello proceeds at l = l
    advance-Single (daemon_loop h id) proceeds at l = l
    advance-Single (bridge_loop h id p) proceeds at l = l
    advance-Single finished i at l = l
    advance-Single (bridge_forward h id p f) fails at l = l
    advance-Single pc i at l = l

module _ (sha256 : Bytes → Bytes) (hmac : Bytes → Bytes → Bytes) where
  -- In every interleaving a name has at most one bridge session.
  pub run_single :
      (cfg : GatewayConfig) (ms : List Move) (name : Bytes)
      → live (run sha256 hmac (new_gateway cfg) ms).sessions bridge name ≤ 1
  unfolding new_gateway
  run_single cfg ms name =
      run_lem sha256 hmac (Single name) (λ g c at l. l) (advance-Single name sha256 hmac)
        (λ g creds l. l) (λ g closed l. l) (new_gateway cfg) ms
        (omega (arith, count-empty (is_session bridge name)))
