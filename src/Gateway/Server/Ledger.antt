-- ===== src/Gateway/Server/Ledger.antt =====
-- The audit log of internal/gateway/server.go as a ledger of connections.
use agbridge.Prelude.{
  ℕ, ◌+◌, ◌≡◌, List, [], ◌∷◌, Bytes, Bool, false, ◌&&◌, ◌==◌, bytes_eq, nat_eq, none, some, arith,
}
use agbridge.Prelude.Maps
use agbridge.Prelude.Maps.{Map}
use agbridge.Prelude.Maps.Entries.{
  weight, IsDistinct, put-IsDistinct, empty-IsDistinct, count-put_new, count-put_old, count-empty,
}
use agbridge.Config.{GatewayConfig}
use agbridge.Gateway.Creds.{lookup_agent, lookup_daemon}
use agbridge.Gateway.Registry.{ConnId}
use agbridge.Gateway.Sessions.{bridge, daemon}
use agbridge.Gateway.Server.State.{
  Event, auth_ok, conn_close, Pc, awaits_hello, daemon_auth, daemon_register, daemon_loop,
  daemon_leave, bridge_auth, bridge_evict, bridge_lookup, bridge_subscribe, bridge_loop,
  bridge_forward, bridge_unsubscribe, bridge_leave, finished, Gateway,
}
use agbridge.Gateway.Server.Handlers.{Input, received, fails, proceeds, goto}
use agbridge.Gateway.Server.Invariants.{run_lem}
use agbridge.Gateway.Server.Cases.{
  read_hello_cases, daemon_entry_cases, bridge_entry_cases, registered_cases, deliver_cases,
  evict_cases, target_found_cases, bridge_frame_cases,
}
use agbridge.Gateway.Server.{Move, advance, run, new_gateway}

module _ (role name : Bytes) where
  abbrev same : Bytes → Bytes → Bool
  same r n = r == role && n == name

  -- How often the log says that the role and name came, and that they went.
  abbrev pub opened : List Event → ℕ
  opened [] = 0
  opened (auth_ok r n t ∷ events) = weight (same r n) + opened events
  opened (_ ∷ events) = opened events

  abbrev pub ended : List Event → ℕ
  ended [] = 0
  ended (conn_close r n t ∷ events) = weight (same r n) + ended events
  ended (_ ∷ events) = ended events

  -- The handlers between the two records.
  abbrev pub is_open : ConnId → Pc → Bool
  is_open c (daemon_loop h id) = same daemon h.name
  is_open c (daemon_leave h id) = same daemon h.name
  is_open c (bridge_lookup h id) = same bridge h.name
  is_open c (bridge_subscribe h id p) = same bridge h.name
  is_open c (bridge_loop h id p) = same bridge h.name
  is_open c (bridge_forward h id p f) = same bridge h.name
  is_open c (bridge_unsubscribe h id p) = same bridge h.name
  is_open c (bridge_leave h id) = same bridge h.name
  is_open c _ = false

pub record IsLedger (handlers : Map ConnId Pc) (audit : List Event) : Type 0 where
  pub distinct : IsDistinct handlers
  pub balanced :
      (role name : Bytes)
      → opened role name audit ≡ ended role name audit + Maps.count (is_open role name) handlers

module _ {handlers : Map ConnId Pc} {audit : List Event} (c : ConnId)
    (l : IsLedger handlers audit) where
  -- A handler that moves on keeps the ledger if its records do.
  goto-IsLedger :
      (pc pc' : Pc) (audit' : List Event)
      → Maps.get handlers c ≡ some pc
      → ((role name : Bytes)
          → opened role name audit' + ended role name audit + weight (is_open role name c pc)
            ≡ ended role name audit' + opened role name audit + weight (is_open role name c pc'))
      → IsLedger (Maps.put handlers c pc') audit'
  goto-IsLedger pc pc' audit' at b = record {
    distinct = put-IsDistinct handlers c pc' l.distinct;
    balanced = λ role name. omega (
      arith,
      b role name,
      l.balanced role name,
      count-put_old (is_open role name) handlers c pc' pc l.distinct at,
    );
  }

abbrev Keeps : Gateway → Type 0
Keeps g = IsLedger g.handlers g.audit

module _ (sha256 : Bytes → Bytes) (hmac : Bytes → Bytes → Bytes) (g : Gateway) (c : ConnId) where
  advance-IsLedger :
      (pc : Pc) (i : Input)
      → Maps.get g.handlers c ≡ some pc
      → Keeps g
      → Keeps (advance sha256 hmac pc g c i)
  unfolding advance
  advance-IsLedger awaits_hello (received f) at l =
      read_hello_cases Keeps g c f (goto-IsLedger c l _ _ _ at λ role name. omega arith)
        (λ h. goto-IsLedger c l _ _ _ at λ role name. omega arith)
        (λ h _. goto-IsLedger c l _ _ _ at λ role name. omega arith)
        (λ h _. goto-IsLedger c l _ _ _ at λ role name. omega arith)
  advance-IsLedger (daemon_auth h) i at l =
      daemon_entry_cases Keeps g c sha256 h (lookup_daemon g.creds h.name)
        (goto-IsLedger c l _ _ _ at λ role name. omega arith)
        (λ e _ _. goto-IsLedger c l _ _ _ at λ role name. omega arith)
  advance-IsLedger (daemon_register h hash) i at l =
      registered_cases Keeps g c h hash _ (goto-IsLedger c l _ _ _ at λ role name. omega arith)
        (λ q _. goto-IsLedger c l _ _ _ at λ role name. omega arith)
  advance-IsLedger (daemon_loop h id) (received f) at l =
      deliver_cases Keeps g c f (Maps.get g.writers c) l (λ b _. l)
  advance-IsLedger (bridge_auth h) i at l =
      bridge_entry_cases Keeps g c sha256 h (lookup_agent g.creds h.name)
        (goto-IsLedger c l _ _ _ at λ role name. omega arith)
        (goto-IsLedger c l _ _ _ at λ role name. omega arith)
        (λ e _ _ _. goto-IsLedger c l _ _ _ at λ role name. omega arith)
  advance-IsLedger (bridge_evict h id o) i at l =
      evict_cases Keeps g c h id o (goto-IsLedger c l _ _ _ at λ role name. omega arith)
        (λ old _. goto-IsLedger c l _ _ _ at λ role name. omega arith)
  advance-IsLedger (bridge_lookup h id) i at l =
      target_found_cases Keeps g c h id _ (goto-IsLedger c l _ _ _ at λ role name. omega arith)
        (λ p _. goto-IsLedger c l _ _ _ at λ role name. omega arith)
  advance-IsLedger (bridge_loop h id p) (received f) at l =
      bridge_frame_cases Keeps g c hmac h id p f l
        (goto-IsLedger c l _ _ _ at λ role name. omega arith)
        (λ inner _. goto-IsLedger c l _ _ _ at λ role name. omega arith)
        (λ _. goto-IsLedger c l _ _ _ at λ role name. omega arith)
  advance-IsLedger awaits_hello proceeds at l = l
  advance-IsLedger (daemon_loop h id) proceeds at l = l
  advance-IsLedger (bridge_loop h id p) proceeds at l = l
  advance-IsLedger finished i at l = l
  advance-IsLedger (bridge_forward h id p f) fails at l =
      goto-IsLedger c l _ _ _ at λ role name. omega arith
  advance-IsLedger pc i at l = goto-IsLedger c l _ _ _ at λ role name. omega arith

accept-IsLedger :
    (g : Gateway) (c : ConnId)
    → Maps.get g.handlers c ≡ none
    → Keeps g
    → Keeps (goto g c awaits_hello)
accept-IsLedger g c at l = record {
  distinct = put-IsDistinct g.handlers c awaits_hello l.distinct;
  balanced = λ role name.
      omega (
        arith,
        l.balanced role name,
        count-put_new (is_open role name) g.handlers c awaits_hello at,
      );
}

new_gateway-IsLedger : (cfg : GatewayConfig) → Keeps (new_gateway cfg)
unfolding new_gateway
new_gateway-IsLedger cfg = record {
  distinct = empty-IsDistinct ConnId Pc;
  balanced = λ role name. omega (arith, count-empty (is_open role name));
}

module _ (sha256 : Bytes → Bytes) (hmac : Bytes → Bytes → Bytes) where
  -- After any interleaving, for every role and name, the log has as many connects as disconnects
  -- and handlers between the two taken together.
  pub run_balanced :
      (cfg : GatewayConfig) (ms : List Move) (role name : Bytes)
      → let g = run sha256 hmac (new_gateway cfg) ms in
        opened role name g.audit
        ≡ ended role name g.audit + Maps.count (is_open role name) g.handlers
  run_balanced cfg ms =
      (run_lem sha256 hmac Keeps accept-IsLedger (advance-IsLedger sha256 hmac) (λ g creds l. l)
        (λ g closed l. l) (new_gateway cfg) ms (new_gateway-IsLedger cfg)).balanced
