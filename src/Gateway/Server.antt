-- ===== src/Gateway/Server.antt =====
-- internal/gateway/server.go: the handlers of all connections, interleaved.
-- One step of a handler goes to its next access to what the handlers share, so the steps of two
-- handlers interleave as finely as the locks let them. The schedule chooses the handler and what
-- `Recv`, or a send that is tested, gives it. SHA-256 and HMAC are the arguments `sha256`, `hmac`.
pub mod State
pub mod Handlers
pub mod Cases
pub mod Invariants
pub mod Ledger
pub mod Agreement
pub mod Registration
pub mod Cutoff
pub mod Authorised
pub mod Access
pub mod Single
use mathlib.Core.List.{foldl, map}
use agbridge.Prelude.{
  ℕ, List, [], ◌∷◌, ◌++◌, Bytes, codes, nat_eq, if◌then◌else◌, Option, none, some,
}
use agbridge.Prelude.Maps
use agbridge.Config.{AgentEntry, DaemonEntry, GatewayConfig}
use agbridge.Gateway.Creds.{
  lookup_agent, lookup_daemon, replace, add_agent, add_daemon, new_cred_registry,
}
use agbridge.Gateway.Registry
use agbridge.Gateway.Registry.{ConnId, set_writer}
use agbridge.Gateway.Sessions
use agbridge.Gateway.Sessions.{
  Session, Replaced, bridge, daemon, new_session_table, replace_by_role_name, revoke,
}
use State.{
  auth_ok, conn_close, Pc, awaits_hello, daemon_auth, daemon_register, daemon_session, daemon_ack,
  daemon_loop, daemon_leave, daemon_release, daemon_unregister, bridge_auth, bridge_replace,
  bridge_evict, bridge_ack, bridge_lookup, bridge_subscribe, bridge_loop, bridge_forward,
  bridge_unsubscribe, bridge_leave, bridge_release, closing, finished, Gateway, handshake_malformed,
}
use Handlers.{
  Input, received, fails, proceeds, goto, send, append, close, member, hello_ack, err_frame,
  read_hello, daemon_entry, bridge_entry, registered, deliver, evict, target_found, bridge_frame,
}

module _ (sha256 : Bytes → Bytes) (hmac : Bytes → Bytes → Bytes) where
  -- One step of the handler of `c`, which stands at the first argument. A handler that is blocked
  -- in `Recv` and given nothing stays where it is.
  unfoldable pub advance : Pc → Gateway → ConnId → Input → Gateway
  advance awaits_hello g c (received f) = read_hello g c f
  advance awaits_hello g c fails = goto (append g handshake_malformed) c closing
  advance awaits_hello g c proceeds = g
  advance (daemon_auth h) g c i = daemon_entry sha256 g c h (lookup_daemon g.creds h.name)
  advance (daemon_register h hash) g c i =
      registered g c h hash (Registry.register g.registry h.name c)
  advance (daemon_session h hash) g c i =
      let s : Session = record { role = daemon; name = h.name; key_hash = hash; conn = c } in
      let (table, id) = Sessions.register g.sessions s in
      goto (record g { sessions = table }) c (daemon_ack h id)
  advance (daemon_ack h id) g c i =
      goto (append (send g c c hello_ack) (auth_ok daemon h.name [])) c (daemon_loop h id)
  advance (daemon_loop h id) g c (received f) = deliver g c f (Maps.get g.writers c)
  advance (daemon_loop h id) g c fails = goto g c (daemon_leave h id)
  advance (daemon_loop h id) g c proceeds = g
  advance (daemon_leave h id) g c i =
      goto (append g (conn_close daemon h.name [])) c (daemon_release h id)
  advance (daemon_release h id) g c i =
      goto (record g { sessions = Sessions.release g.sessions id }) c (daemon_unregister h)
  advance (daemon_unregister h) g c i =
      goto (record g { registry = Registry.unregister g.registry h.name }) c closing
  advance (bridge_auth h) g c i = bridge_entry sha256 g c h (lookup_agent g.creds h.name)
  advance (bridge_replace h hash) g c i =
      let s : Session = record { role = bridge; name = h.name; key_hash = hash; conn = c } in
      let r = replace_by_role_name g.sessions s in
      goto (record g { sessions = r.table }) c (bridge_evict h r.id r.replaced)
  advance (bridge_evict h id replaced) g c i = evict g c h id replaced
  advance (bridge_ack h id) g c i =
      goto (append (send g c c hello_ack) (auth_ok bridge h.name h.target_daemon)) c
        (bridge_lookup h id)
  advance (bridge_lookup h id) g c i =
      target_found g c h id (Registry.lookup g.registry h.target_daemon)
  advance (bridge_subscribe h id p) g c i =
      goto (record g { writers = set_writer g.writers p (some c) }) c (bridge_loop h id p)
  advance (bridge_loop h id p) g c (received f) = bridge_frame hmac g c h id p f
  advance (bridge_loop h id p) g c fails = goto g c (bridge_unsubscribe h id p)
  advance (bridge_loop h id p) g c proceeds = g
  advance (bridge_forward h id p f) g c fails =
      goto (send g c c (err_frame (codes "daemon_send_failed"))) c (bridge_unsubscribe h id p)
  advance (bridge_forward h id p f) g c i = goto (send g c p f) c (bridge_loop h id p)
  advance (bridge_unsubscribe h id p) g c i =
      goto (record g { writers = set_writer g.writers p none }) c (bridge_leave h id)
  advance (bridge_leave h id) g c i =
      goto (append g (conn_close bridge h.name h.target_daemon)) c (bridge_release id)
  advance (bridge_release id) g c i =
      goto (record g { sessions = Sessions.release g.sessions id }) c closing
  advance closing g c i = goto (close g c) c finished
  advance finished g c i = g

  abbrev pub advance_known : Option Pc → Gateway → ConnId → Input → Gateway
  advance_known none g c i = g
  advance_known (some pc) g c i = advance pc g c i

-- `Recv` on a closed connection fails.
abbrev pub given : Gateway → ConnId → Input → Input
given g c (received f) = if member g.closed c then fails else received f
given g c i = i

-- What happens next: a connection is accepted, its handler takes a step, SIGHUP swaps the
-- credentials, SIGHUP goes on to revoke, or the enroll handler adds a credential.
pub data Move : Type 0 where
  accept : ConnId → Move
  handler : ConnId → Input → Move
  reload : GatewayConfig → Move
  revoke_stale : Move
  enroll_agent : AgentEntry → Move
  enroll_daemon : DaemonEntry → Move

-- A connection is accepted once.
abbrev pub accepted : Gateway → ConnId → Option Pc → Gateway
accepted g c none = goto g c awaits_hello
accepted g c (some pc) = g

module _ (sha256 : Bytes → Bytes) (hmac : Bytes → Bytes → Bytes) where
  unfoldable pub step : Gateway → Move → Gateway
  step g (accept c) = accepted g c (Maps.get g.handlers c)
  step g (handler c i) = advance_known sha256 hmac (Maps.get g.handlers c) g c (given g c i)
  step g (reload cfg) = record g { creds = replace g.creds cfg }
  step g revoke_stale = record g {
    closed = map (λ s. s.conn) (revoke g.sessions g.creds) ++ g.closed;
  }
  step g (enroll_agent a) = record g { creds = add_agent g.creds a }
  step g (enroll_daemon d) = record g { creds = add_daemon g.creds d }

  unfoldable pub run : Gateway → List Move → Gateway
  run g [] = g
  run g (m ∷ ms) = run (step g m) ms

unfoldable pub new_gateway : GatewayConfig → Gateway
new_gateway cfg = record {
  creds = new_cred_registry cfg;
  registry = record { daemons = Maps.empty };
  writers = Maps.empty;
  sessions = new_session_table;
  handlers = Maps.empty;
  closed = [];
  sent = [];
  audit = [];
}
