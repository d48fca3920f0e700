-- ===== src/Tests/Tables.antt =====
-- internal/gateway/sessions.go and credregistry.go on concrete tables.
use mathlib.Core.List.{Mem, map}
use agbridge.Prelude.{◌≡◌, ◌↔◌, refl, bytes_beq, bytes_eq, nat_eq, codes}
use agbridge.Prelude.Maps
use agbridge.Prelude.Maps.{empty, entries, get, put, remove, find, count, first, tally}
use agbridge.Prelude.Maps.Assoc.{without}
use agbridge.Gateway.Creds.{CredRegistry, replace}
use agbridge.Gateway.Sessions.{Session, SessionTable, bridge, revoke}
use agbridge.Gateway.Sessions.Replace.{live}
use agbridge.Gateway.Sessions.Revoke.{IsCurrent, revoke-replace}
use agbridge.Tests.Fixtures.{two_peers}

abbrev old_session : Session
old_session = record { role = bridge; name = codes "a"; key_hash = codes "h1"; conn = 2 }

abbrev new_session : Session
new_session = record { role = bridge; name = codes "a"; key_hash = codes "h2"; conn = 3 }

abbrev one_bridge : SessionTable
one_bridge = record { next = 1; sessions = Maps.put Maps.empty 0 old_session }

one_bridge_live : live one_bridge bridge (codes "a") ≡ 1
unfolding put empty without count tally bytes_beq
one_bridge_live = refl

abbrev no_creds : CredRegistry
no_creds = record { agents = Maps.empty; daemons = Maps.empty }

revoke-replace_example : Mem old_session (revoke one_bridge (replace no_creds two_peers)) ↔ (
    Mem old_session (map (λ r. r.1) (Maps.entries one_bridge.sessions))
    × ¬ IsCurrent two_peers old_session)
revoke-replace_example = revoke-replace one_bridge no_creds two_peers old_session
