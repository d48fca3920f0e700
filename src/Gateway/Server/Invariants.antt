-- ===== src/Gateway/Server/Invariants.antt =====
-- Induction on the schedules of internal/gateway/server.go.
use mathlib.Core.List.{map}
use agbridge.Prelude.{◌≡◌, refl, List, [], ◌∷◌, ◌++◌, Bytes, nat_eq, Option, none, some}
use agbridge.Prelude.Maps
use agbridge.Gateway.Creds.{CredRegistry, replace, add_agent, add_daemon}
use agbridge.Gateway.Registry.{ConnId}
use agbridge.Gateway.Sessions.{revoke}
use agbridge.Gateway.Server.State.{Pc, awaits_hello, Gateway}
use agbridge.Gateway.Server.Handlers.{Input, goto}
use agbridge.Gateway.Server.{
  Move, accept, handler, reload, revoke_stale, enroll_agent, enroll_daemon, advance, advance_known,
  given, accepted, step, run,
}

module _ (sha256 : Bytes → Bytes) (hmac : Bytes → Bytes → Bytes) (P : Gateway → Type 0)
    (accepts : (g : Gateway) (c : ConnId)
      → Maps.get g.handlers c ≡ none
      → P g
      → P (goto g c awaits_hello))
    (advances : (g : Gateway) (c : ConnId) (pc : Pc) (i : Input)
      → Maps.get g.handlers c ≡ some pc
      → P g
      → P (advance sha256 hmac pc g c i)) where
  pub accepted_lem :
      (g : Gateway) (c : ConnId) (o : Option Pc)
      → Maps.get g.handlers c ≡ o
      → P g
      → P (accepted g c o)
  accepted_lem g c none at p = accepts g c at p
  accepted_lem g c (some pc) at p = p

  pub advance_known_lem :
      (g : Gateway) (c : ConnId) (i : Input) (o : Option Pc)
      → Maps.get g.handlers c ≡ o
      → P g
      → P (advance_known sha256 hmac o g c i)
  advance_known_lem g c i none at p = p
  advance_known_lem g c i (some pc) at p = advances g c pc i at p

  module _ (changes : (g : Gateway) (creds : CredRegistry) → P g → P (record g { creds = creds }))
      (revokes : (g : Gateway) (closed : List ConnId)
        → P g
        → P (record g { closed = closed })) where
    step_lem : (g : Gateway) (m : Move) → P g → P (step sha256 hmac g m)
    unfolding step
    step_lem g (accept c) p = accepted_lem g c _ refl p
    step_lem g (handler c i) p = advance_known_lem g c (given g c i) _ refl p
    step_lem g (reload cfg) p = changes g (replace g.creds cfg) p
    step_lem g revoke_stale p =
        revokes g (map (λ s. s.conn) (revoke g.sessions g.creds) ++ g.closed) p
    step_lem g (enroll_agent a) p = changes g (add_agent g.creds a) p
    step_lem g (enroll_daemon d) p = changes g (add_daemon g.creds d) p

    -- What the steps keep, a schedule keeps.
    pub run_lem : (g : Gateway) (ms : List Move) → P g → P (run sha256 hmac g ms)
    unfolding run
    run_lem g [] p = p
    run_lem g (m ∷ ms) p = run_lem (step sha256 hmac g m) ms (step_lem g m p)
