-- ===== src/Gateway/Server/State.antt =====
-- The state of internal/gateway/server.go: what the handlers share, and where each stands.
use agbridge.Prelude.{ℕ, List, Bytes, nat_eq, Option}
use agbridge.Prelude.Maps.{Map}
use agbridge.Proto.{Frame}
use agbridge.Handshake.{Hello}
use agbridge.Gateway.Creds.{CredRegistry}
use agbridge.Gateway.Registry.{ConnId, Registry, Writers}
use agbridge.Gateway.Sessions.{SessionTable}

-- The audit records, with the fields that the handlers fill in: those of a peer that came or went have
-- its role, its name and its target. A daemon's has no target, which is written as an empty text here.
pub data Event : Type 0 where
  handshake_malformed : Event
  unknown_role : Bytes → Event
  auth_failed duplicate_daemon : Bytes → Bytes → Event
  authz_failed : Bytes → Bytes → Event
  bridge_replaced : Bytes → Event
  auth_ok conn_close : (role name target : Bytes) → Event
  route_failed : Bytes → Event
  mac_failed : Bytes → Bytes → Event
  route : Bytes → Bytes → ℕ → Event
  noise_relay : Bytes → Bytes → ℕ → ℕ → Event

-- Where a handler stands: before its next access to what is shared, or blocked in `Recv`. The
-- arguments are the handler's local variables; `hash` is the hash that the secret matched, `id` the
-- session that its release function deletes and `proxy` the daemon that it looked up.
pub data Pc : Type 0 where
  awaits_hello : Pc
  daemon_auth : Hello → Pc
  daemon_register : Hello → (hash : Bytes) → Pc
  daemon_session : Hello → (hash : Bytes) → Pc
  daemon_ack : Hello → (id : ℕ) → Pc
  daemon_loop : Hello → (id : ℕ) → Pc
  daemon_leave : Hello → (id : ℕ) → Pc
  daemon_release : Hello → (id : ℕ) → Pc
  daemon_unregister : Hello → Pc
  bridge_auth : Hello → Pc
  bridge_replace : Hello → (hash : Bytes) → Pc
  bridge_evict : Hello → (id : ℕ) → (replaced : Option ConnId) → Pc
  bridge_ack : Hello → (id : ℕ) → Pc
  bridge_lookup : Hello → (id : ℕ) → Pc
  bridge_subscribe : Hello → (id : ℕ) → (proxy : ConnId) → Pc
  bridge_loop : Hello → (id : ℕ) → (proxy : ConnId) → Pc
  bridge_forward : Hello → (id : ℕ) → (proxy : ConnId) → Frame → Pc
  bridge_unsubscribe : Hello → (id : ℕ) → (proxy : ConnId) → Pc
  bridge_leave : Hello → (id : ℕ) → Pc
  bridge_release : (id : ℕ) → Pc
  closing : Pc
  finished : Pc

-- A call of `Send` on a connection, by the handler of another or of the same.
pub record Sent : Type 0 where
  pub from : ConnId
  pub to : ConnId
  pub frame : Frame

-- `sent` and `audit` have their newest entry first; `closed` are the connections that `Close` was
-- called on.
pub record Gateway : Type 0 where
  pub creds : CredRegistry
  pub registry : Registry
  pub writers : Writers
  pub sessions : SessionTable
  pub handlers : Map ConnId Pc
  pub closed : List ConnId
  pub sent : List Sent
  pub audit : List Event
