-- ===== src/Gateway/Creds/Vouched.antt =====
-- Where the rows of internal/gateway/credregistry.go come from.
use mathlib.Core.List.{foldl}
use agbridge.Prelude.{
  subst, ◌≡◌, sym, ap, ◌∙◌, List, [], ◌∷◌, All, Bytes, bytes_eq, some, arith, inl, inr,
}
use agbridge.Prelude.Maps
use agbridge.Prelude.Maps.{Map, get-put-eq-some, get-empty}
use agbridge.Config.{AgentEntry, DaemonEntry, GatewayConfig}
use agbridge.Gateway.Creds.{
  CredRegistry, replace, new_cred_registry, add_agent, add_daemon, agents_by_name, daemons_by_name,
}

module _ {A : Type 0} (name_of : A → Bytes) (P : A → Type 0) where
  -- Every row has the property, and stands under its name.
  abbrev pub Rows : Map Bytes A → Type 0
  Rows m = (n : Bytes) (a : A) → Maps.get m n ≡ some a → P a × (name_of a ≡ n)

  empty-Rows : Rows Maps.empty
  empty-Rows n a found = ground (arith, get-empty {V = A} n)

  put-Rows : (m : Map Bytes A) (a : A) → P a → Rows m → Rows (Maps.put m (name_of a) a)
  put-Rows m a p rows n b found = elim (get-put-eq-some m (name_of a) n a b found) [
    | inl (here, same) ↦ (subst P same p, sym (ap name_of same) ∙ here)
    | inr (_, found') ↦ rows n b found'
  ]

  foldl-Rows :
      (m : Map Bytes A) (added : List A)
      → All P added
      → Rows m
      → Rows (foldl (λ m a. Maps.put m (name_of a) a) m added)
  foldl-Rows m [] ps rows = rows
  foldl-Rows m (a ∷ added) (p, ps) rows =
      foldl-Rows (Maps.put m (name_of a) a) added ps (put-Rows m a p rows)

module _ (P : AgentEntry → Type 0) (Q : DaemonEntry → Type 0) where
  abbrev pub Vouched : CredRegistry → Type 0
  Vouched cr = Rows (λ a. a.name) P cr.agents × Rows (λ d. d.name) Q cr.daemons

  pub replace-Vouched :
      (cr : CredRegistry) (cfg : GatewayConfig)
      → All P cfg.agents
      → All Q cfg.daemons
      → Vouched (replace cr cfg)
  unfolding replace agents_by_name daemons_by_name
  replace-Vouched cr cfg ps qs = (
    foldl-Rows (λ a. a.name) P Maps.empty cfg.agents ps (empty-Rows (λ a. a.name) P),
    foldl-Rows (λ d. d.name) Q Maps.empty cfg.daemons qs (empty-Rows (λ d. d.name) Q),
  )

  pub new_cred_registry-Vouched :
      (cfg : GatewayConfig) → All P cfg.agents → All Q cfg.daemons → Vouched (new_cred_registry cfg)
  unfolding new_cred_registry
  new_cred_registry-Vouched cfg ps qs =
      replace-Vouched (record { agents = Maps.empty; daemons = Maps.empty }) cfg ps qs

  pub add_agent-Vouched :
      (cr : CredRegistry) (a : AgentEntry) → P a → Vouched cr → Vouched (add_agent cr a)
  unfolding add_agent
  add_agent-Vouched cr a p (agents, daemons) =
      (put-Rows (λ a. a.name) P cr.agents a p agents, daemons)

  pub add_daemon-Vouched :
      (cr : CredRegistry) (d : DaemonEntry) → Q d → Vouched cr → Vouched (add_daemon cr d)
  unfolding add_daemon
  add_daemon-Vouched cr d q (agents, daemons) =
      (agents, put-Rows (λ d. d.name) Q cr.daemons d q daemons)
