-- ===== src/Prelude/Maps/Entries.antt =====
-- Loops over a map's entries, and how many of them there are.
use Prim.Native.Nat.{ℕ, suc, ◌+◌, ◌≤◌}
use mathlib.Core.Path.{◌≡◌, refl, ap}
use mathlib.Core.Bool.{Bool, true}
use mathlib.Core.List.{List, [], ◌∷◌}
use mathlib.Core.Option.{none, some}
use mathlib.Core.Logic.{inl, inr}
use native.Mathlib.Omega.{arith}
use agbridge.Prelude.Tests.{Comparable, ◌==◌, eq_iff, if◌then◌else◌, Bool-cases}
use agbridge.Prelude.Maps.Assoc.{lookup, without, lookup-without}
use agbridge.Prelude.Maps.{Map, empty, get, put, remove, find, count, first, tally}

module _ {ℓ κ} {K : Type ℓ} {V : Type κ} (p : K → V → Bool) where
  first-some : (rows : List (K × V)) (k : K) (v : V) → first p rows ≡ some (k, v) → p k v ≡ true
  unfolding first
  first-some [] k v e = cc
  first-some ((j, w) ∷ rows) k v e = elim (Bool-cases (p j w)) [
    | inl hit ↦ ground (arith)
    | inr miss ↦ first-some rows k v (rw miss at e)
  ]

  first-none : (rows : List (K × V)) → first p rows ≡ none → tally p rows ≡ 0
  unfolding first tally
  first-none [] e = refl
  first-none ((j, w) ∷ rows) e = ground (arith, first-none rows)

  pub find-some : (m : Map K V) (k : K) (v : V) → find p m ≡ some (k, v) → p k v ≡ true
  unfolding find
  find-some m k v e = first-some m.rows k v e

  pub find-none : (m : Map K V) → find p m ≡ none → count p m ≡ 0
  unfolding find count
  find-none m e = first-none m.rows e

  pub count-empty : count p (empty {K = K} {V = V}) ≡ 0
  unfolding count empty
  count-empty = refl

module _ {ℓ κ} {K : Type ℓ} {V : Type κ} ⦃e : Comparable K⦄ (p : K → V → Bool) where
  tally-without_le : (k : K) (rows : List (K × V)) → tally p (without k rows) ≤ tally p rows
  unfolding tally without
  tally-without_le k [] = omega arith
  tally-without_le k ((j, v) ∷ rows) = ground (arith, tally-without_le k rows)

  tally-without-first :
      (rows : List (K × V)) (k : K) (v : V)
      → first p rows ≡ some (k, v)
      → tally p (without k rows) + 1 ≤ tally p rows
  unfolding first tally without
  tally-without-first [] k v h = cc
  tally-without-first ((j, w) ∷ rows) k v h =
      ground (arith, tally-without-first rows k v, tally-without_le k rows, eq_iff j k)

  pub count-remove_le : (m : Map K V) (k : K) → count p (remove m k) ≤ count p m
  unfolding count remove
  count-remove_le m k = tally-without_le k m.rows

  -- The entry that a loop stopped at is gone once its key is deleted.
  pub count-remove-find :
      (m : Map K V) (k : K) (v : V) → find p m ≡ some (k, v) → count p (remove m k) + 1 ≤ count p m
  unfolding count remove find
  count-remove-find m k v h = tally-without-first m.rows k v h

  pub count-put :
      (m : Map K V) (k : K) (v : V)
      → count p (put m k v) ≡ (if p k v then suc (count p (remove m k)) else count p (remove m k))
  unfolding count put remove tally
  count-put m k v = refl

abbrev pub weight : Bool → ℕ
weight b = if b then 1 else 0

module _ {ℓ κ} {K : Type ℓ} {V : Type κ} ⦃e : Comparable K⦄ where
  abbrev Distinct : List (K × V) → Type κ
  Distinct [] = Unit
  Distinct ((k, v) ∷ rows) = (lookup k rows ≡ none) × Distinct rows

  -- Every key stands in one row, as it does in each map that starts empty.
  pub IsDistinct : Map K V → Type κ
  IsDistinct m = Distinct m.rows

  without-Distinct : (k : K) (rows : List (K × V)) → Distinct rows → Distinct (without k rows)
  unfolding without
  without-Distinct k [] d = d
  without-Distinct k ((j, v) ∷ rows) d =
      ground (arith, without-Distinct k rows d.1, lookup-without k j rows, eq_iff j k)

  pub put-IsDistinct : (m : Map K V) (k : K) (v : V) → IsDistinct m → IsDistinct (put m k v)
  unfolding IsDistinct put
  put-IsDistinct m k v d =
      (ground (arith, lookup-without k k m.rows, eq_iff k k), without-Distinct k m.rows d)

  module _ (p : K → V → Bool) where
    tally-without-none :
        (k : K) (rows : List (K × V))
        → lookup k rows ≡ none
        → tally p (without k rows) ≡ tally p rows
    unfolding tally without lookup
    tally-without-none k [] h = refl
    tally-without-none k ((j, v) ∷ rows) h = ground (arith, tally-without-none k rows)

    tally-without-some :
        (k : K) (w : V) (rows : List (K × V))
        → Distinct rows
        → lookup k rows ≡ some w
        → tally p (without k rows) + weight (p k w) ≡ tally p rows
    unfolding tally without lookup
    tally-without-some k w [] d h = cc
    tally-without-some k w ((j, v) ∷ rows) d h = elim (Bool-cases (j == k)) [
      | inl hit ↦ rw hit (
          ground (
            arith,
            tally-without-none k rows,
            (eq_iff j k).0 hit,
            ap (λ i. lookup i rows) ((eq_iff j k).0 hit),
            ap (λ i. tally p (without i rows)) ((eq_iff j k).0 hit),
          ))
      | inr miss ↦ rw miss (ground (arith, tally-without-some k w rows d.1))
    ]

    -- A key's entry is counted once, the new one in place of the old.
    pub count-put_new :
        (m : Map K V) (k : K) (v : V)
        → get m k ≡ none
        → count p (put m k v) ≡ weight (p k v) + count p m
    unfolding count put get tally
    count-put_new m k v h = ground (arith, tally-without-none k m.rows h)

    pub count-put_old :
        (m : Map K V) (k : K) (v w : V)
        → IsDistinct m
        → get m k ≡ some w
        → count p (put m k v) + weight (p k w) ≡ weight (p k v) + count p m
    unfolding count put get tally IsDistinct
    count-put_old m k v w d h = ground (arith, tally-without-some k w m.rows d h)

pub empty-IsDistinct {ℓ κ} :
    (K : Type ℓ) (V : Type κ) ⦃e : Comparable K⦄ → IsDistinct (empty {K = K} {V = V})
unfolding IsDistinct empty
empty-IsDistinct K V = tt
