-- ===== src/Gateway/Sessions.antt =====
-- internal/gateway/sessions.go: the table of live sessions.
-- A method holds the lock for all that it does to the table; the release function that `Register`
-- and `ReplaceByRoleName` return is `release` at the id.
pub mod Replace
pub mod Revoke
use agbridge.Prelude.{
  ℕ, ◌+◌, List, [], ◌∷◌, ◌++◌, Bytes, codes, Bool, true, false, ◌&&◌, ◌==◌, bytes_eq, nat_eq,
  if◌then◌else◌, Option, none, some,
}
use agbridge.Prelude.Maps
use agbridge.Prelude.Maps.{Map}
use agbridge.Config.{AgentEntry, DaemonEntry}
use agbridge.Gateway.Creds.{CredRegistry, lookup_agent, lookup_daemon}
use agbridge.Gateway.Registry.{ConnId}

abbrev pub bridge : Bytes
bridge = codes "bridge"

abbrev pub daemon : Bytes
daemon = codes "daemon"

pub record Session : Type 0 where
  pub role : Bytes
  pub name : Bytes
  pub key_hash : Bytes
  pub conn : ConnId

pub record SessionTable : Type 0 where
  pub next : ℕ
  pub sessions : Map ℕ Session

abbrev pub new_session_table : SessionTable
new_session_table = record { next = 0; sessions = Maps.empty }

-- The second result is the id that the release function closes over.
unfoldable pub register : SessionTable → Session → SessionTable × ℕ
register st s = (record { next = st.next + 1; sessions = Maps.put st.sessions st.next s }, st.next)

unfoldable pub release : SessionTable → ℕ → SessionTable
release st id = record st { sessions = Maps.remove st.sessions id }

abbrev pub is_session : Bytes → Bytes → ℕ → Session → Bool
is_session role name id s = s.role == role && s.name == name

-- The loop deletes the first session with the role and name, and stops.
abbrev pub drop_found : SessionTable → Option (ℕ × Session) → SessionTable × Option ConnId
drop_found st none = (st, none)
drop_found st (some (id, existing)) =
    (record st { sessions = Maps.remove st.sessions id }, some existing.conn)

pub record Replaced : Type 0 where
  pub table : SessionTable
  pub replaced : Option ConnId
  pub id : ℕ

unfoldable pub replace_by_role_name : SessionTable → Session → Replaced
unfolding register
replace_by_role_name st s =
    let (st', old) = drop_found st (Maps.find (is_session s.role s.name) st.sessions) in
    let (st'', id) = register st' s in record { table = st''; replaced = old; id = id }

abbrev pub bridge_current : Option AgentEntry → Bytes → Bool
bridge_current none hash = false
bridge_current (some e) hash = e.api_key_hash == hash

abbrev pub daemon_current : Option DaemonEntry → Bytes → Bool
daemon_current none hash = false
daemon_current (some e) hash = e.token_hash == hash

-- `keep` in `Revoke`.
unfoldable pub keeps : CredRegistry → Session → Bool
keeps creds s =
    if s.role == bridge
    then bridge_current (lookup_agent creds s.name) s.key_hash
    else if s.role == daemon
    then daemon_current (lookup_daemon creds s.name) s.key_hash
    else false

unfoldable pub stale : CredRegistry → List (ℕ × Session) → List Session
stale creds [] = []
stale creds ((id, s) ∷ rows) =
    let rest = stale creds rows in if keeps creds s then rest else s ∷ rest

-- The sessions whose connections `Revoke` closes; the table is left for the handlers to release.
unfoldable pub revoke : SessionTable → CredRegistry → List Session
unfolding stale
revoke st creds = stale creds (Maps.entries st.sessions)
