-- ===== src/Tests/Server.antt =====
-- internal/gateway/server.go on a concrete configuration and schedule.
use agbridge.Prelude.{
  ◌+◌, ◌≡◌, ◌≤◌, ◌↔◌, refl, List, [], ◌∷◌, ◌++◌, bytes_beq, bytes_eq, nat_eq, codes, All, false,
  some,
}
use agbridge.Prelude.Maps
use agbridge.Prelude.Maps.{get, put, remove, empty, find, count, entries}
use agbridge.Prelude.Maps.Assoc.{lookup, without}
use agbridge.Hex
use agbridge.Proto.{Frame}
use agbridge.Proto.FrameType
use agbridge.Handshake.{read1, read2, decode_hello}
use agbridge.Auth.{secret_matches, verify_frame}
use agbridge.Config.{AgentEntry, DaemonEntry}
use agbridge.Gateway.Creds.{
  replace, new_cred_registry, agents_by_name, daemons_by_name, lookup_agent, lookup_daemon,
}
use agbridge.Gateway.Registry
use agbridge.Gateway.Registry.{set_writer}
use agbridge.Gateway.Sessions
use agbridge.Gateway.Sessions.{bridge, daemon, replace_by_role_name, new_session_table}
use agbridge.Gateway.Server.State.{
  Pc, bridge_loop, bridge_forward, bridge_unsubscribe, daemon_loop, Gateway,
}
use agbridge.Gateway.Server.Handlers.{received, proceeds, read_hello, bridge_frame, member}
use agbridge.Gateway.Server.{Move, handler, advance, step, run, new_gateway}
use agbridge.Gateway.Server.Authorised.{Passed, Logged}
use agbridge.Gateway.Server.Access.{run-Passed, run-Logged}
use agbridge.Gateway.Server.Agreement.{holds}
use agbridge.Gateway.Server.Registration.{run_registered}
use agbridge.Gateway.Server.Ledger.{opened, ended, is_open, run_balanced}
use agbridge.Gateway.Server.Single.{run_single}
use agbridge.Gateway.Server.Cutoff.{unsubscribe-cuts_off}
use agbridge.Gateway.Sessions.Replace.{live}
use agbridge.Tests.Fixtures.{
  repeat, toy_sha256, toy_hmac, two_peers, agent, daemon_entry, bridge_hello, daemon_hello,
  route_frame, daemon_joins, bridge_joins, bridge_routes,
}

abbrev unwrapped : Frame
unwrapped = record { type = FrameType.route; req_id = []; payload = codes "ls" }

abbrev after : List Move → Gateway
after ms = run toy_sha256 toy_hmac (new_gateway two_peers) ms

routes_forward :
    Maps.get (after bridge_routes).handlers 2 ≡ some (bridge_forward bridge_hello 1 1 unwrapped)
unfolding run step advance new_gateway new_cred_registry replace agents_by_name daemons_by_name get
    put remove empty find count lookup without read_hello bridge_frame decode_hello read1 read2
    secret_matches verify_frame Hex.encode repeat bytes_beq lookup_agent lookup_daemon
    Registry.register Registry.lookup set_writer Sessions.register replace_by_role_name
routes_forward = refl

abbrev Known : AgentEntry → Type 0
Known a = a ≡ agent

abbrev KnownDaemon : DaemonEntry → Type 0
KnownDaemon d = d ≡ daemon_entry

run-Passed_example :
    Passed toy_sha256 toy_hmac Known KnownDaemon (bridge_forward bridge_hello 1 1 unwrapped)
run-Passed_example =
    run-Passed toy_sha256 toy_hmac Known KnownDaemon two_peers bridge_routes 2
      (bridge_forward bridge_hello 1 1 unwrapped) (refl, tt) (refl, tt)
      (tt, (tt, (tt, (tt, (tt, (tt, (tt, (tt, (tt, (tt, (tt, (tt, (tt, (tt, (tt, tt)))))))))))))))
      routes_forward

run-Logged_example : All (Logged toy_sha256 toy_hmac Known KnownDaemon) (after bridge_routes).audit
run-Logged_example =
    run-Logged toy_sha256 toy_hmac Known KnownDaemon two_peers bridge_routes (refl, tt) (refl, tt)
      (tt, (tt, (tt, (tt, (tt, (tt, (tt, (tt, (tt, (tt, (tt, (tt, (tt, (tt, (tt, tt)))))))))))))))

run_registered_example : (Registry.lookup (after bridge_routes).registry (codes "d") ≡ some 1) ↔ (
    (pc : Pc) × (Maps.get (after bridge_routes).handlers 1 ≡ some pc)
    × (holds pc ≡ some (codes "d")))
run_registered_example = run_registered toy_sha256 toy_hmac two_peers bridge_routes (codes "d") 1

run_balanced_example :
    opened bridge (codes "a") (after bridge_routes).audit
    ≡ ended bridge (codes "a") (after bridge_routes).audit
      + Maps.count (is_open bridge (codes "a")) (after bridge_routes).handlers
run_balanced_example = run_balanced toy_sha256 toy_hmac two_peers bridge_routes bridge (codes "a")

-- A second connection of the bridge takes the place of the first.
abbrev bridge_again : List Move
bridge_again = daemon_joins ++ bridge_joins 2 ++ bridge_joins 3

run_single_example : live (after bridge_again).sessions bridge (codes "a") ≤ 1
run_single_example = run_single toy_sha256 toy_hmac two_peers bridge_again (codes "a")

-- The handler of the first connection, which was closed, sees its `Recv` fail.
abbrev evicted : List Move
evicted = bridge_again ++ handler 2 (received route_frame) ∷ []

evicted_leaves : Maps.get (after evicted).handlers 2 ≡ some (bridge_unsubscribe bridge_hello 1 1)
unfolding run step advance new_gateway new_cred_registry replace agents_by_name daemons_by_name get
    put remove empty find count lookup without read_hello bridge_frame decode_hello read1 read2
    secret_matches verify_frame Hex.encode repeat bytes_beq lookup_agent lookup_daemon
    Registry.register Registry.lookup set_writer Sessions.register replace_by_role_name
evicted_leaves = refl

evictor_stays : Maps.get (after evicted).handlers 3 ≡ some (bridge_loop bridge_hello 2 1)
unfolding run step advance new_gateway new_cred_registry replace agents_by_name daemons_by_name get
    put remove empty find count lookup without read_hello bridge_frame decode_hello read1 read2
    secret_matches verify_frame Hex.encode repeat bytes_beq lookup_agent lookup_daemon
    Registry.register Registry.lookup set_writer Sessions.register replace_by_role_name
evictor_stays = refl

daemon_stays : Maps.get (after evicted).handlers 1 ≡ some (daemon_loop daemon_hello 0)
unfolding run step advance new_gateway new_cred_registry replace agents_by_name daemons_by_name get
    put remove empty find count lookup without read_hello bridge_frame decode_hello read1 read2
    secret_matches verify_frame Hex.encode repeat bytes_beq lookup_agent lookup_daemon
    Registry.register Registry.lookup set_writer Sessions.register replace_by_role_name
daemon_stays = refl

daemon_alive : member (after evicted).closed 1 ≡ false
unfolding run step advance new_gateway new_cred_registry replace agents_by_name daemons_by_name get
    put remove empty find count lookup without read_hello bridge_frame decode_hello read1 read2
    secret_matches verify_frame Hex.encode repeat bytes_beq lookup_agent lookup_daemon
    Registry.register Registry.lookup set_writer Sessions.register replace_by_role_name
daemon_alive = refl

unsubscribe-cuts_off_example :
    (Maps.get
        (step toy_sha256 toy_hmac
          (step toy_sha256 toy_hmac (after evicted) (handler 2 proceeds))
          (handler 1 (received route_frame))).handlers
        3
      ≡ some (bridge_loop bridge_hello 2 1))
    × ((step toy_sha256 toy_hmac
          (step toy_sha256 toy_hmac (after evicted) (handler 2 proceeds))
          (handler 1 (received route_frame))).sent
        ≡ (after evicted).sent)
unsubscribe-cuts_off_example =
    unsubscribe-cuts_off toy_sha256 toy_hmac (after evicted) 2 3 1 bridge_hello bridge_hello
      daemon_hello 1 2 0 route_frame evicted_leaves evictor_stays daemon_stays daemon_alive
