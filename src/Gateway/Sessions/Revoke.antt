-- ===== src/Gateway/Sessions/Revoke.antt =====
-- What `Revoke` of internal/gateway/sessions.go closes.
use mathlib.Core.List.{Mem, mem-cons, not-mem-nil, mem-cons_self, mem-cons_of_mem, Mem-prop, map}
use mathlib.Core.Logic.Or
use mathlib.Core.Bool.{Bool-set}
use agbridge.Prelude.{
  ℕ, ◌≡◌, ◌↔◌, ap, ◌∙◌, List, [], ◌∷◌, true, false, ◌==◌, bytes_eq, nat_eq, eq_iff, none, some,
  arith, inl, inr, Option-cases, Bool-cases,
}
use agbridge.Prelude.Maps
use agbridge.Config.{AgentEntry, DaemonEntry, GatewayConfig}
use agbridge.Gateway.Creds.{CredRegistry, replace, lookup_agent, lookup_daemon}
use agbridge.Gateway.Creds.Lookup.{last_named, lookup-replace}
use agbridge.Gateway.Sessions.{Session, SessionTable, bridge, daemon, keeps, stale, revoke}

-- The credential that a session was authorised by is the configuration's own for its name.
pub data IsCurrent (cfg : GatewayConfig) (s : Session) : Type 0 where
  as_bridge :
      (e : AgentEntry)
      → s.role ≡ bridge
      → last_named (λ a. a.name) s.name none cfg.agents ≡ some e
      → e.api_key_hash ≡ s.key_hash
      → IsCurrent cfg s
  as_daemon :
      (e : DaemonEntry)
      → s.role ≡ daemon
      → last_named (λ d. d.name) s.name none cfg.daemons ≡ some e
      → e.token_hash ≡ s.key_hash
      → IsCurrent cfg s

keeps→current :
    (cr : CredRegistry) (cfg : GatewayConfig) (s : Session)
    → keeps (replace cr cfg) s ≡ true
    → IsCurrent cfg s
unfolding keeps
keeps→current cr cfg s h = elim (Bool-cases (s.role == bridge)) [
  | inl b ↦ elim (Option-cases (lookup_agent (replace cr cfg) s.name)) [
    | inl e ↦ absurd (ground arith)
    | inr (a, e) ↦
        as_bridge a ((eq_iff s.role bridge).0 b) (ground (arith, (lookup-replace cr cfg s.name).0))
          (ground (arith, eq_iff a.api_key_hash s.key_hash))
  ]
  | inr nb ↦ elim (Bool-cases (s.role == daemon)) [
    | inl d ↦ elim (Option-cases (lookup_daemon (replace cr cfg) s.name)) [
      | inl e ↦ absurd (ground arith)
      | inr (a, e) ↦
          as_daemon a ((eq_iff s.role daemon).0 d)
            (ground (arith, (lookup-replace cr cfg s.name).1))
            (ground (arith, eq_iff a.token_hash s.key_hash))
    ]
    | inr nd ↦ absurd (ground arith)
  ]
]

current→keeps :
    (cr : CredRegistry) (cfg : GatewayConfig) (s : Session)
    → IsCurrent cfg s
    → keeps (replace cr cfg) s ≡ true
unfolding keeps
current→keeps cr cfg s (as_bridge e r l k) =
    ground
      (arith, eq_iff s.role bridge, eq_iff e.api_key_hash s.key_hash, lookup-replace cr cfg s.name)
current→keeps cr cfg s (as_daemon e r l k) = ground (
  arith,
  eq_iff s.role bridge,
  eq_iff s.role daemon,
  eq_iff e.token_hash s.key_hash,
  lookup-replace cr cfg s.name,
)

mem-stale :
    (cr : CredRegistry) (rows : List (ℕ × Session)) (s : Session)
    → Mem s (stale cr rows) ↔ (Mem s (map (λ r. r.1) rows) × (keeps cr s ≡ false))
unfolding stale
mem-stale cr [] s = (λ m. absurd (not-mem-nil m), λ m. absurd (not-mem-nil m.0))
mem-stale cr ((id, x) ∷ rows) s =
    let ih = mem-stale cr rows s in
    elim (Bool-cases (keeps cr x)) [
      | inl kept ↦ rw kept (
        (λ m. let (at, e) = ih.0 m in (mem-cons_of_mem x at, e)),
        λ m.
            Or.elim Mem-prop (mem-cons.0 m.0) (λ e. absurd (cc (kept, m.1, ap (keeps cr) e)))
              (λ t. ih.1 (t, m.1)),
      )
      | inr closed ↦ rw closed (
        (λ m. (
          Or.elim Mem-prop (mem-cons.0 m) (λ e. rw e mem-cons_self)
              (λ t. mem-cons_of_mem x (ih.0 t).0),
          Or.elim (Bool-set _ _) (mem-cons.0 m) (λ e. ap (keeps cr) e ∙ closed) (λ t. (ih.0 t).1),
        )),
        λ m.
            Or.elim Mem-prop (mem-cons.0 m.0) (λ e. rw e mem-cons_self)
              (λ t. mem-cons_of_mem x (ih.1 (t, m.1))),
      )
    ]

-- After a reload, `Revoke` closes exactly the sessions in the table whose name has no entry, or
-- an entry with another hash, in the new configuration, and those of an unknown role.
pub revoke-replace :
    (st : SessionTable) (cr : CredRegistry) (cfg : GatewayConfig) (s : Session)
    → Mem s (revoke st (replace cr cfg))
      ↔ (Mem s (map (λ r. r.1) (Maps.entries st.sessions)) × ¬ IsCurrent cfg s)
unfolding revoke
revoke-replace st cr cfg s =
    let stale_iff = mem-stale (replace cr cfg) (Maps.entries st.sessions) s in
    (
      λ m. ((stale_iff.0 m).0, λ c. cc ((stale_iff.0 m).1, current→keeps cr cfg s c)),
      λ h. stale_iff.1 (
        h.0,
        elim (Bool-cases (keeps (replace cr cfg) s)) [
          | inl kept ↦ absurd (h.1 (keeps→current cr cfg s kept))
          | inr closed ↦ closed
        ],
      ),
    )
