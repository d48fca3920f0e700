-- ===== src/Prelude/Maps.antt =====
-- Go's maps. Proofs use `map_laws`; the entries are in the one order that the model iterates in.
pub mod Assoc
pub mod Entries
use Assoc.{lookup, without, lookup-without}
use Prim.Native.Nat.{ℕ, suc}
use mathlib.Core.Bool.{Bool, true, false}
use agbridge.Prelude.Tests.{Bool-cases, eq_iff}
use mathlib.Core.Path.{◌≡◌, refl, sym, ap, ◌∙◌}
use mathlib.Core.List.{List, [], ◌∷◌}
use mathlib.Core.Logic.{◌≢◌, ◌⊎◌, inl, inr}
use mathlib.Core.Option.{Option, none, some, some-injective}
use native.Mathlib.Omega.{arith}
use agbridge.Prelude.Tests.{Comparable, ◌==◌, eq_refl, if◌then◌else◌}

pub record Map {ℓ κ} (K : Type ℓ) (V : Type κ) : Type (ℓ ⊔ κ) where
  rows : List (K × V)

-- make(map[K]V)
unfoldable pub empty {ℓ κ} : {K : Type ℓ} {V : Type κ} → Map K V
empty = record { rows = [] }

unfoldable pub entries {ℓ κ} : {K : Type ℓ} {V : Type κ} → Map K V → List (K × V)
entries m = m.rows

module _ {ℓ κ} {K : Type ℓ} {V : Type κ} ⦃e : Comparable K⦄ where
  -- m[k], with the second result false at `none`
  unfoldable pub get : Map K V → K → Option V
  get m k = lookup k m.rows

  -- delete(m, k)
  unfoldable pub remove : Map K V → K → Map K V
  remove m k = record { rows = without k m.rows }

  -- m[k] = v
  unfoldable pub put : Map K V → K → V → Map K V
  put m k v = record { rows = (k, v) ∷ without k m.rows }

  pub get-empty : (k : K) → get (empty {V = V}) k ≡ none
  unfolding get empty lookup
  get-empty k = refl

  pub get-remove : (m : Map K V) (k j : K) → get (remove m k) j ≡ (if k == j then none else get m j)
  unfolding get remove
  get-remove m k j = lookup-without k j m.rows

  pub get-put :
      (m : Map K V) (k j : K) (v : V) → get (put m k v) j ≡ (if k == j then some v else get m j)
  unfolding get put lookup
  get-put m k j v = ground (arith, lookup-without k j m.rows)

module _ {ℓ κ} {K : Type ℓ} {V : Type κ} ⦃e : Comparable K⦄ where
  pub get-put_self : (m : Map K V) (k : K) (v : V) → get (put m k v) k ≡ some v
  get-put_self m k v = ground (arith, get-put m k k v, eq_refl k)

  pub get-put_other :
      (m : Map K V) (k j : K) (v : V) → (k == j) ≡ false → get (put m k v) j ≡ get m j
  get-put_other m k j v other = rw (get-put m k j v, other) refl

  pub get-remove_other : (m : Map K V) (k j : K) → (k == j) ≡ false → get (remove m k) j ≡ get m j
  get-remove_other m k j other = rw (get-remove m k j, other) refl

  -- What is found in a map after a write is what was written or what was there.
  pub get-put-eq-some :
      (m : Map K V) (k j : K) (v w : V)
      → get (put m k v) j ≡ some w
      → ((k ≡ j) × (v ≡ w)) ⊎ (((k == j) ≡ false) × (get m j ≡ some w))
  get-put-eq-some m k j v w found = elim (Bool-cases (k == j)) [
    | inl here ↦ inl ((eq_iff k j).0 here, ground (arith, get-put m k j v))
    | inr other ↦ inr (other, sym (get-put_other m k j v other) ∙ found)
  ]

  pub get-remove-eq-some :
      (m : Map K V) (k j : K) (w : V)
      → get (remove m k) j ≡ some w
      → ((k == j) ≡ false) × (get m j ≡ some w)
  get-remove-eq-some m k j w found = elim (Bool-cases (k == j)) [
    | inl here ↦ ground (arith, get-remove m k j)
    | inr other ↦ (other, sym (get-remove_other m k j other) ∙ found)
  ]

  -- A write at a key that was free, and a deletion of another key, leave what was found.
  pub get-put_kept :
      (m : Map K V) (k j : K) (v w : V)
      → get m k ≡ none
      → get m j ≡ some w
      → get (put m k v) j ≡ some w
  get-put_kept m k j v w free found = elim (Bool-cases (k == j)) [
    | inl here ↦ ground (arith, ap (get m) ((eq_iff k j).0 here))
    | inr other ↦ get-put_other m k j v other ∙ found
  ]

  pub get-remove_kept :
      (m : Map K V) (k j : K) (w : V) → k ≢ j → get m j ≡ some w → get (remove m k) j ≡ some w
  get-remove_kept m k j w apart found = elim (Bool-cases (k == j)) [
    | inl here ↦ ground (arith, apart ((eq_iff k j).0 here))
    | inr other ↦ get-remove_other m k j other ∙ found
  ]

  pub get-remove_self : (m : Map K V) (k : K) → get (remove m k) k ≡ none
  get-remove_self m k = rw (get-remove m k k, eq_refl k) refl

  -- Keys with different values are different.
  pub get_apart :
      (m : Map K V) (k j : K) (v w : V)
      → get m k ≡ some v
      → get m j ≡ some w
      → v ≢ w
      → (k == j) ≡ false
  get_apart m k j v w at at' apart = elim (Bool-cases (k == j)) [
    | inl same ↦
        ground (arith, apart (some-injective _ _ (sym at ∙ ap (get m) ((eq_iff k j).0 same) ∙ at')))
    | inr other ↦ other
  ]

pub ruleset map_laws = (get-empty, get-remove, get-put)

module _ {ℓ κ} {K : Type ℓ} {V : Type κ} (p : K → V → Bool) where
  unfoldable pub first : List (K × V) → Option (K × V)
  first [] = none
  first ((k, v) ∷ rows) = if p k v then some (k, v) else first rows

  unfoldable pub tally : List (K × V) → ℕ
  tally [] = 0
  tally ((k, v) ∷ rows) = if p k v then suc (tally rows) else tally rows

  -- A range loop that stops at the first entry with the property.
  unfoldable pub find : Map K V → Option (K × V)
  unfolding first
  find m = first m.rows

  -- How many entries have the property.
  unfoldable pub count : Map K V → ℕ
  unfolding tally
  count m = tally m.rows
