-- ===== src/Gateway/Server/Handlers.antt =====
-- The steps of the handlers of internal/gateway/server.go, each from one access to what the
-- handlers share to the next.
use agbridge.Prelude.{
  ℕ, List, [], ◌∷◌, Bytes, codes, length, Bool, false, not, ◌==◌, ◌||◌, bytes_eq, nat_eq,
  if◌then◌else◌, Option, none, some, Result, ok, err,
}
use agbridge.Prelude.Maps
use agbridge.Prelude.Maps.{Map}
use agbridge.Proto.{Frame}
use agbridge.Proto.FrameType
use agbridge.Handshake.{Hello, decode_hello, Error as HelloError}
use agbridge.Auth.{secret_matches, verify_frame, Error as AuthError}
use agbridge.Config.{AgentEntry, DaemonEntry}
use agbridge.Gateway.Registry
use agbridge.Gateway.Registry.{ConnId, Registry, set_writer}
use agbridge.Gateway.Sessions.{bridge, daemon}
use agbridge.Gateway.Server.State.{
  Event, handshake_malformed, unknown_role, auth_failed, duplicate_daemon, authz_failed,
  bridge_replaced, route_failed, mac_failed, route, noise_relay, Pc, daemon_auth, daemon_register,
  daemon_session, bridge_auth, bridge_replace, bridge_ack, bridge_subscribe, bridge_forward,
  bridge_unsubscribe, bridge_leave, closing, Gateway,
}

abbrev pub contains : List Bytes → Bytes → Bool
contains [] x = false
contains (s ∷ xs) x = s == x || contains xs x

abbrev pub member : List ConnId → ConnId → Bool
member [] x = false
member (s ∷ xs) x = s == x || member xs x

abbrev pub err_frame : Bytes → Frame
err_frame code = record { type = FrameType.error; req_id = []; payload = code }

abbrev pub hello_ack : Frame
hello_ack = record { type = FrameType.hello_ack; req_id = []; payload = [] }

abbrev pub goto : Gateway → ConnId → Pc → Gateway
goto g c pc = record g { handlers = Maps.put g.handlers c pc }

abbrev pub send : Gateway → ConnId → ConnId → Frame → Gateway
send g c to f = record g { sent = record { from = c; to = to; frame = f } ∷ g.sent }

abbrev pub append : Gateway → Event → Gateway
append g e = record g { audit = e ∷ g.audit }

abbrev pub close : Gateway → ConnId → Gateway
close g c = record g { closed = c ∷ g.closed }

-- An error frame, an audit record, and the handler goes on at `pc`.
abbrev pub refuse : Gateway → ConnId → Bytes → Event → Pc → Gateway
refuse g c code e pc = goto (append (send g c c (err_frame code)) e) c pc

-- `readHello` and the switch of `handleConn`.
abbrev pub by_role : Gateway → ConnId → Hello → Gateway
by_role g c h =
    if h.role == daemon
    then goto g c (daemon_auth h)
    else if h.role == bridge
    then goto g c (bridge_auth h)
    else refuse g c (codes "unknown_role") (unknown_role h.name) closing

abbrev pub with_hello : Gateway → ConnId → Result HelloError Hello → Gateway
with_hello g c (ok h) = by_role g c h
with_hello g c (err _) = goto (append g handshake_malformed) c closing

unfoldable pub read_hello : Gateway → ConnId → Frame → Gateway
read_hello g c f =
    if not (f.type == FrameType.hello)
    then goto (append g handshake_malformed) c closing
    else with_hello g c (decode_hello f.payload)

-- What a handler's step is given: a frame or a failure by `Recv`, or that a tested send failed.
pub data Input : Type 0 where
  received : Frame → Input
  fails proceeds : Input

module _ (sha256 : Bytes → Bytes) where
  abbrev pub daemon_entry : Gateway → ConnId → Hello → Option DaemonEntry → Gateway
  daemon_entry g c h none = refuse g c (codes "auth_failed") (auth_failed daemon h.name) closing
  daemon_entry g c h (some entry) =
      if not (secret_matches sha256 h.secret entry.token_hash)
      then refuse g c (codes "auth_failed") (auth_failed daemon h.name) closing
      else goto g c (daemon_register h entry.token_hash)

  abbrev pub bridge_entry : Gateway → ConnId → Hello → Option AgentEntry → Gateway
  bridge_entry g c h none = refuse g c (codes "auth_failed") (auth_failed bridge h.name) closing
  bridge_entry g c h (some entry) =
      if not (secret_matches sha256 h.secret entry.api_key_hash)
      then refuse g c (codes "auth_failed") (auth_failed bridge h.name) closing
      else if not (contains entry.allowed_daemons h.target_daemon)
      then refuse g c (codes "daemon_not_allowed") (authz_failed h.name h.target_daemon) closing
      else goto g c (bridge_replace h entry.api_key_hash)

abbrev pub registered : Gateway → ConnId → Hello → Bytes → Result Registry.Error Registry → Gateway
registered g c h hash (err _) =
    refuse g c (codes "duplicate_daemon") (duplicate_daemon daemon h.name) closing
registered g c h hash (ok r) = goto (record g { registry = r }) c (daemon_session h hash)

-- `Deliver`: to the installed writer, or dropped.
abbrev pub deliver : Gateway → ConnId → Frame → Option ConnId → Gateway
deliver g c f none = g
deliver g c f (some b) = send g c b f

abbrev pub evict : Gateway → ConnId → Hello → ℕ → Option ConnId → Gateway
evict g c h id none = goto g c (bridge_ack h id)
evict g c h id (some old) =
    goto
      (append (close (send g c old (err_frame (codes "session_replaced"))) old)
        (bridge_replaced h.name))
      c (bridge_ack h id)

abbrev pub target_found : Gateway → ConnId → Hello → ℕ → Option ConnId → Gateway
target_found g c h id none =
    refuse g c (codes "daemon_offline") (route_failed h.target_daemon) (bridge_leave h id)
target_found g c h id (some p) = goto g c (bridge_subscribe h id p)

abbrev pub verified :
    Gateway → ConnId → Hello → ℕ → ConnId → Frame → Result AuthError Bytes → Gateway
verified g c h id p f (err _) =
    refuse g c (codes "bad_mac") (mac_failed h.name h.target_daemon) (bridge_unsubscribe h id p)
verified g c h id p f (ok inner) =
    goto (append g (route h.name h.target_daemon (length f.payload))) c
      (bridge_forward h id p (record { type = FrameType.route; req_id = []; payload = inner }))

-- The switch of the bridge's loop.
unfoldable pub bridge_frame :
    (Bytes → Bytes → Bytes) → Gateway → ConnId → Hello → ℕ → ConnId → Frame → Gateway
bridge_frame hmac g c h id p f =
    if f.type == FrameType.route
    then verified g c h id p f (verify_frame hmac h.secret f.payload)
    else if f.type == FrameType.noise_init || f.type == FrameType.noise_rekey
    then goto (append g (noise_relay h.name h.target_daemon f.type (length f.payload))) c
        (bridge_forward h id p f)
    else g
