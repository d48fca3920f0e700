-- ===== src/Gateway/Server/Access.antt =====
-- Who is served, and what is forwarded, in every interleaving of internal/gateway/server.go.
use agbridge.Prelude.{◌≡◌, refl, List, [], ◌∷◌, All, Bytes, nat_eq, none, some, arith}
use agbridge.Prelude.Maps
use agbridge.Prelude.Maps.{get-empty}
use agbridge.Config.{AgentEntry, DaemonEntry, GatewayConfig}
use agbridge.Gateway.Creds.Vouched.{
  replace-Vouched, new_cred_registry-Vouched, add_agent-Vouched, add_daemon-Vouched,
}
use agbridge.Gateway.Registry.{ConnId}
use agbridge.Gateway.Server.State.{Pc, awaits_hello, Gateway}
use agbridge.Gateway.Server.Handlers.{goto}
use agbridge.Gateway.Server.Authorised.{Passed, Logged, Safe, goto-IsSafe, advance-Safe}
use agbridge.Gateway.Server.Invariants.{accepted_lem, advance_known_lem}
use agbridge.Gateway.Server.{
  Move, accept, handler, reload, revoke_stale, enroll_agent, enroll_daemon, given, step, run,
  new_gateway,
}

module _ (P : AgentEntry → Type 0) (Q : DaemonEntry → Type 0) where
  -- The rows that a move brings in are vouched for.
  abbrev pub Admits : Move → Type 0
  Admits (reload cfg) = All P cfg.agents × All Q cfg.daemons
  Admits (enroll_agent a) = P a
  Admits (enroll_daemon d) = Q d
  Admits _ = Unit

module _ (sha256 : Bytes → Bytes) (hmac : Bytes → Bytes → Bytes) (P : AgentEntry → Type 0)
    (Q : DaemonEntry → Type 0) where
  accept-Safe :
      (g : Gateway) (c : ConnId)
      → Maps.get g.handlers c ≡ none
      → Safe sha256 hmac P Q g
      → Safe sha256 hmac P Q (goto g c awaits_hello)
  accept-Safe g c at s = goto-IsSafe sha256 hmac P Q c awaits_hello s tt s.logged

  step-Safe :
      (g : Gateway) (m : Move)
      → Admits P Q m
      → Safe sha256 hmac P Q g
      → Safe sha256 hmac P Q (step sha256 hmac g m)
  unfolding step
  step-Safe g (accept c) a s =
      accepted_lem sha256 hmac (Safe sha256 hmac P Q) accept-Safe (advance-Safe sha256 hmac P Q) g c
        _ refl s
  step-Safe g (handler c i) a s =
      advance_known_lem sha256 hmac (Safe sha256 hmac P Q) accept-Safe
        (advance-Safe sha256 hmac P Q) g c (given g c i) _ refl s
  step-Safe g (reload cfg) (ps, qs) s = (record {
    creds_vouched = replace-Vouched P Q g.creds cfg ps qs;
    passed = s.passed;
    logged = s.logged;
  })
  step-Safe g revoke_stale a s = s
  step-Safe g (enroll_agent e) a s = (record {
    creds_vouched = add_agent-Vouched P Q g.creds e a s.creds_vouched;
    passed = s.passed;
    logged = s.logged;
  })
  step-Safe g (enroll_daemon e) a s = (record {
    creds_vouched = add_daemon-Vouched P Q g.creds e a s.creds_vouched;
    passed = s.passed;
    logged = s.logged;
  })

  run-Safe :
      (g : Gateway) (ms : List Move)
      → All (Admits P Q) ms
      → Safe sha256 hmac P Q g
      → Safe sha256 hmac P Q (run sha256 hmac g ms)
  unfolding run
  run-Safe g [] a s = s
  run-Safe g (m ∷ ms) (a, adm) s = run-Safe (step sha256 hmac g m) ms adm (step-Safe g m a s)

  new_gateway-Safe :
      (cfg : GatewayConfig)
      → All P cfg.agents
      → All Q cfg.daemons
      → Safe sha256 hmac P Q (new_gateway cfg)
  unfolding new_gateway
  new_gateway-Safe cfg ps qs = record {
    creds_vouched = new_cred_registry-Vouched P Q cfg ps qs;
    passed = λ c pc at. ground (arith, get-empty {V = Pc} c);
    logged = tt;
  }

  -- Let `P` and `Q` hold of the rows of the first configuration and of all that reloads and
  -- enrolments bring in. In every interleaving, a bridge's handler that is past authentication has
  -- a row with `P`, its name, a hash that its secret matches and its target among the allowed
  -- daemons; a daemon's has a row with `Q`, its name and a hash that its secret matches. A frame
  -- about to be forwarded is a noise frame, or a route frame whose payload is what `verify_frame`
  -- gave under the bridge's secret.
  pub run-Passed :
      (cfg : GatewayConfig) (ms : List Move) (c : ConnId) (pc : Pc)
      → All P cfg.agents
      → All Q cfg.daemons
      → All (Admits P Q) ms
      → Maps.get (run sha256 hmac (new_gateway cfg) ms).handlers c ≡ some pc
      → Passed sha256 hmac P Q pc
  run-Passed cfg ms c pc ps qs adm at =
      (run-Safe (new_gateway cfg) ms adm (new_gateway-Safe cfg ps qs)).passed c pc at

  -- Let the rows be vouched for as above, in any interleaving. Every record of the audit log that says
  -- that a bridge was let in, with its name and target, or that a frame of a bridge was routed or
  -- relayed to a target, is of a hello with that name and target and with a row with `P` of its name
  -- that its secret matches and that allows the target; one that says that a daemon was let in has no
  -- target, and is of a hello with that name and a row with `Q` of its name that its secret matches.
  pub run-Logged :
      (cfg : GatewayConfig) (ms : List Move)
      → All P cfg.agents
      → All Q cfg.daemons
      → All (Admits P Q) ms
      → All (Logged sha256 hmac P Q) (run sha256 hmac (new_gateway cfg) ms).audit
  run-Logged cfg ms ps qs adm =
      (run-Safe (new_gateway cfg) ms adm (new_gateway-Safe cfg ps qs)).logged
