-- ===== src/Gateway/Creds.antt =====
-- internal/gateway/credregistry.go. Each method holds the lock for all that it does, and is one
-- function of the registry here; `Replace` builds its maps before it takes the lock.
pub mod Lookup
pub mod Vouched
use mathlib.Core.List.{foldl}
use agbridge.Prelude.{List, Bytes, bytes_eq, Option}
use agbridge.Prelude.Maps
use agbridge.Prelude.Maps.{Map}
use agbridge.Config.{AgentEntry, DaemonEntry, GatewayConfig}

pub record CredRegistry : Type 0 where
  pub agents : Map Bytes AgentEntry
  pub daemons : Map Bytes DaemonEntry

unfoldable pub lookup_agent : CredRegistry → Bytes → Option AgentEntry
lookup_agent cr name = Maps.get cr.agents name

unfoldable pub lookup_daemon : CredRegistry → Bytes → Option DaemonEntry
lookup_daemon cr name = Maps.get cr.daemons name

unfoldable pub agents_by_name : List AgentEntry → Map Bytes AgentEntry
agents_by_name = foldl (λ m a. Maps.put m a.name a) Maps.empty

unfoldable pub daemons_by_name : List DaemonEntry → Map Bytes DaemonEntry
daemons_by_name = foldl (λ m d. Maps.put m d.name d) Maps.empty

unfoldable pub replace : CredRegistry → GatewayConfig → CredRegistry
unfolding agents_by_name daemons_by_name
replace cr cfg = record cr {
  agents = agents_by_name cfg.agents;
  daemons = daemons_by_name cfg.daemons;
}

unfoldable pub new_cred_registry : GatewayConfig → CredRegistry
unfolding replace
new_cred_registry cfg = replace (record { agents = Maps.empty; daemons = Maps.empty }) cfg

unfoldable pub add_agent : CredRegistry → AgentEntry → CredRegistry
add_agent cr a = record cr { agents = Maps.put cr.agents a.name a }

unfoldable pub add_daemon : CredRegistry → DaemonEntry → CredRegistry
add_daemon cr d = record cr { daemons = Maps.put cr.daemons d.name d }
