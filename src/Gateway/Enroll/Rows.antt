-- ===== src/Gateway/Enroll/Rows.antt =====
-- The rows that internal/gateway/enrollserver.go writes and the keys that it reads back.
use mathlib.Core.List.{map}
use agbridge.Prelude.{
  ◌≡◌, ◌≢◌, refl, sym, ap, ◌∙◌, List, [], ◌∷◌, All, Bytes, ◌==◌, bytes_eq, eq_iff, if◌then◌else◌,
  Result, ok, err, arith, Bool-cases, inl, inr, ok-injective,
}
use agbridge.Gateway.Enroll.{EnrollTarget, DaemonState, upsert, pubkey_of, resolve, prepend}

-- After a daemon enrolls, its name resolves to its new key, and every other name as before.
pub pubkey_of-upsert :
    (entry : DaemonState) (rows : List DaemonState) (name : Bytes)
    → pubkey_of (upsert (λ d. d.name) entry rows) name
      ≡ (if entry.name == name then entry.noise_pub else pubkey_of rows name)
unfolding pubkey_of upsert
pubkey_of-upsert entry [] name = refl
pubkey_of-upsert entry (d ∷ rows) name = elim (Bool-cases (d.name == entry.name)) [
  | inl same ↦ elim (Bool-cases (entry.name == name)) [
    | inl here ↦ rw (same, here) refl
    | inr other ↦ rw (same, other, (eq_iff d.name entry.name).0 same, other) refl
  ]
  | inr apart ↦ elim (Bool-cases (d.name == name)) [
    | inl here ↦ elim (Bool-cases (entry.name == name)) [
      | inl also ↦ ground (
        arith,
        apart,
        (eq_iff d.name entry.name).1
            ((eq_iff d.name name).0 here ∙ sym ((eq_iff entry.name name).0 also)),
      )
      | inr other ↦ rw (apart, here, other) refl
    ]
    | inr other ↦ rw (apart, other, pubkey_of-upsert entry rows name) refl
  ]
]

module _ (rows : List DaemonState) where
  abbrev pub Resolved : EnrollTarget → Type 0
  Resolved t = (t.daemon_pubkey ≡ pubkey_of rows t.name) × (t.daemon_pubkey ≢ [])

  prepend-ok :
      (name key : Bytes) (r : Result Bytes (List EnrollTarget)) (ts : List EnrollTarget)
      → prepend name key r ≡ ok ts
      → (rest : List EnrollTarget) × (r ≡ ok rest)
        × (ts ≡ record { name = name; daemon_pubkey = key } ∷ rest)
  prepend-ok name key (err e) ts h = ground (arith, h)
  prepend-ok name key (ok rest) ts h = (rest, refl, sym (ok-injective h))

  -- When `resolve` succeeds, its targets are the names in order, each with its daemon's key.
  pub resolve-eq-ok :
      (names : List Bytes) (ts : List EnrollTarget)
      → resolve rows names ≡ ok ts
      → (map (λ t. t.name) ts ≡ names) × All Resolved ts
  unfolding resolve
  resolve-eq-ok [] ts h = rw (← (ok-injective h)) (refl, tt)
  resolve-eq-ok (name ∷ names) ts h = elim (Bool-cases (pubkey_of rows name == [])) [
    | inl missing ↦ ground (arith, h)
    | inr found ↦
        let (rest, e, eq) =
          prepend-ok name (pubkey_of rows name) (resolve rows names) ts (ground (arith, h)) in
        let (same, keys) = resolve-eq-ok names rest e in
        rw eq (
          ap (◌∷◌ name) same,
          ((refl, λ k. ground (arith, found, (eq_iff (pubkey_of rows name) []).1 k)), keys),
        )
  ]
