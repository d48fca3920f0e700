-- ===== src/Prelude/Maps/Assoc.antt =====
-- Association lists, the representation of Go's maps.
use mathlib.Core.Path.{◌≡◌}
use mathlib.Core.List.{List, [], ◌∷◌}
use mathlib.Core.Option.{Option, none, some}
use native.Mathlib.Omega.{arith}
use agbridge.Prelude.Tests.{Comparable, ◌==◌, eq_iff, if◌then◌else◌}

module _ {ℓ κ} {K : Type ℓ} {V : Type κ} ⦃e : Comparable K⦄ where
  unfoldable pub lookup : K → List (K × V) → Option V
  lookup k [] = none
  lookup k ((j, v) ∷ rows) = if j == k then some v else lookup k rows

  unfoldable pub without : K → List (K × V) → List (K × V)
  without k [] = []
  without k ((j, v) ∷ rows) = let rest = without k rows in if j == k then rest else (j, v) ∷ rest

  pub lookup-without :
      (k j : K) (rows : List (K × V))
      → lookup j (without k rows) ≡ (if k == j then none else lookup j rows)
  unfolding lookup without
  lookup-without k j [] = ground arith
  lookup-without k j ((i, v) ∷ rows) =
      ground (arith, lookup-without k j rows, eq_iff i k, eq_iff i j, eq_iff k j)
