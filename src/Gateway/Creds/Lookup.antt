-- ===== src/Gateway/Creds/Lookup.antt =====
-- What lookups see after the writes of internal/gateway/credregistry.go.
use mathlib.Core.List.{foldl}
use agbridge.Prelude.{
  ◌≡◌, refl, ap, ◌∙◌, List, [], ◌∷◌, Bytes, bytes_eq, ◌==◌, if◌then◌else◌, Option, none, some,
}
use agbridge.Prelude.Maps
use agbridge.Prelude.Maps.{Map, map_laws, get-put, get-empty}
use agbridge.Config.{AgentEntry, DaemonEntry, GatewayConfig}
use agbridge.Gateway.Creds.{
  CredRegistry, lookup_agent, lookup_daemon, replace, add_agent, add_daemon, agents_by_name,
  daemons_by_name,
}

-- The last row with the name, or `seen` where there is none.
module _ {ℓ} {A : Type ℓ} (name_of : A → Bytes) (name : Bytes) where
  abbrev pub last_named : Option A → List A → Option A
  last_named seen [] = seen
  last_named seen (a ∷ rows) = last_named (if name_of a == name then some a else seen) rows

  foldl-last_named :
      (m : Map Bytes A) (rows : List A)
      → Maps.get (foldl (λ m a. Maps.put m (name_of a) a) m rows) name
        ≡ last_named (Maps.get m name) rows
  foldl-last_named m [] = refl
  foldl-last_named m (a ∷ rows) =
      foldl-last_named (Maps.put m (name_of a) a) rows
      ∙ ap (λ o. last_named o rows) (get-put m (name_of a) name a)

-- After `Replace` a name has the last row that the new configuration gives it, and no name of the
-- old configuration is left.
pub lookup-replace :
    (cr : CredRegistry) (cfg : GatewayConfig) (name : Bytes)
    → (lookup_agent (replace cr cfg) name ≡ last_named (λ a. a.name) name none cfg.agents)
      × (lookup_daemon (replace cr cfg) name ≡ last_named (λ d. d.name) name none cfg.daemons)
unfolding lookup_agent lookup_daemon replace agents_by_name daemons_by_name
lookup-replace cr cfg name = (
  foldl-last_named (λ a. a.name) name Maps.empty cfg.agents
      ∙ ap (λ o. last_named (λ a. a.name) name o cfg.agents) (get-empty name),
  foldl-last_named (λ d. d.name) name Maps.empty cfg.daemons
      ∙ ap (λ o. last_named (λ d. d.name) name o cfg.daemons) (get-empty name),
)

-- An added agent is found under its name, and every other lookup is as before.
pub lookup-add_agent :
    (cr : CredRegistry) (a : AgentEntry) (name : Bytes)
    → (lookup_agent (add_agent cr a) name
        ≡ (if a.name == name then some a else lookup_agent cr name))
      × (lookup_daemon (add_agent cr a) name ≡ lookup_daemon cr name)
unfolding lookup_agent lookup_daemon add_agent
lookup-add_agent cr a name = (get-put cr.agents a.name name a, refl)

pub lookup-add_daemon :
    (cr : CredRegistry) (d : DaemonEntry) (name : Bytes)
    → (lookup_daemon (add_daemon cr d) name
        ≡ (if d.name == name then some d else lookup_daemon cr name))
      × (lookup_agent (add_daemon cr d) name ≡ lookup_agent cr name)
unfolding lookup_agent lookup_daemon add_daemon
lookup-add_daemon cr d name = (get-put cr.daemons d.name name d, refl)
