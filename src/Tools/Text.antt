-- ===== src/Tools/Text.antt =====
-- package strings on bytes, as internal/tools uses it: Index, Count and Replace for a substring that
-- is not empty. Both scan from the left and go on behind a match.
pub mod Rewriting
use mathlib.Core.Option.{some-injective}
use agbridge.Prelude.{
  ℕ, zero, suc, ◌+◌, ◌-◌, ◌<◌, ◌≤◌, ◌≡◌, refl, sym, ◌∙◌, ap, subst, [], ◌∷◌, ◌++◌, Bytes, bytes_eq,
  length, take, drop, drop-add, Bool-cases, inl, inr, if◌then◌else◌, Option, none, some, arith,
}
use agbridge.Auth.{has_prefix}

abbrev pub after_one : Option ℕ → Option ℕ
after_one none = none
after_one (some i) = some (suc i)

-- strings.Index
unfoldable pub index : Bytes → Bytes → Option ℕ
index [] sub = if has_prefix [] sub then some 0 else none
index (c ∷ s) sub = if has_prefix (c ∷ s) sub then some 0 else after_one (index s sub)

-- The matches in what is left, with so many bytes of the last one to skip.
unfoldable pub count_from : ℕ → Bytes → Bytes → ℕ
count_from skip [] sub = 0
count_from (suc skip) (c ∷ s) sub = count_from skip s sub
count_from zero (c ∷ s) sub =
    if has_prefix (c ∷ s) sub
    then suc (count_from (length sub - 1) s sub)
    else count_from zero s sub

-- strings.Count
abbrev pub count : Bytes → Bytes → ℕ
count s sub = count_from 0 s sub

-- strings.Replace of the first n matches
unfoldable pub replace_from : (n skip : ℕ) → (s old new : Bytes) → Bytes
replace_from n skip [] old new = []
replace_from n (suc skip) (c ∷ s) old new = replace_from n skip s old new
replace_from zero zero (c ∷ s) old new = c ∷ s
replace_from (suc n) zero (c ∷ s) old new =
    if has_prefix (c ∷ s) old
    then new ++ replace_from n (length old - 1) s old new
    else c ∷ replace_from (suc n) zero s old new

abbrev pub replace : (s old new : Bytes) → ℕ → Bytes
replace s old new n = replace_from n 0 s old new

-- strings.ReplaceAll: there are no more matches than bytes.
abbrev pub replace_all : (s old new : Bytes) → Bytes
replace_all s old new = replace s old new (length s)

-- Skipping is dropping.
pub count_from-drop : (k : ℕ) (s sub : Bytes) → count_from k s sub ≡ count_from 0 (drop k s) sub
unfolding count_from
count_from-drop zero s sub = refl
count_from-drop (suc k) [] sub = refl
count_from-drop (suc k) (c ∷ s) sub = count_from-drop k s sub

abbrev pub next_count : Bytes → Bytes → Option ℕ → ℕ
next_count s sub none = 0
next_count s sub (some i) = suc (count (drop (i + length sub) s) sub)

next_count-after_one :
    (c : ℕ) (s sub : Bytes) (o : Option ℕ)
    → next_count s sub o ≡ next_count (c ∷ s) sub (after_one o)
next_count-after_one c s sub none = refl
next_count-after_one c s sub (some i) =
    ap (λ (k : ℕ). suc (count (drop k (c ∷ s)) sub))
      (let e : suc (i + length sub) ≡ suc i + length sub = omega arith in e)

-- Counting by Index, as the library does it.
pub count-index : (s sub : Bytes) → 0 < length sub → count s sub ≡ next_count s sub (index s sub)
unfolding count_from index agbridge.Prelude.bytes_beq
count-index [] [] pos = absurd (omega arith)
count-index [] (x ∷ sub) pos = refl
count-index (c ∷ s) sub pos = elim (Bool-cases (has_prefix (c ∷ s) sub)) [
  | inl here ↦ rw here (
      ap suc (
        count_from-drop (length sub - 1) s sub
        ∙ ap (λ (k : ℕ). count (drop k (c ∷ s)) sub)
            (let e : suc (length sub - 1) ≡ 0 + length sub = omega arith in e)))
  | inr other ↦ rw other (count-index s sub pos ∙ next_count-after_one c s sub (index s sub))
]

pub replace_none-drop : (k : ℕ) (s old new : Bytes) → replace_from 0 k s old new ≡ drop k s
unfolding replace_from
replace_none-drop zero [] old new = refl
replace_none-drop zero (c ∷ s) old new = refl
replace_none-drop (suc k) [] old new = refl
replace_none-drop (suc k) (c ∷ s) old new = replace_none-drop k s old new

pub after_one-eq-some :
    (o : Option ℕ) (i : ℕ) → after_one o ≡ some i → (j : ℕ) × (o ≡ some j) × (i ≡ suc j)
after_one-eq-some none i h = cc
after_one-eq-some (some j) i h = (j, refl, sym (some-injective _ _ h))

-- A single replacement puts the new text in the place of the first match.
pub replace_one :
    (s old new : Bytes) (i : ℕ)
    → 0 < length old
    → index s old ≡ some i
    → replace s old new 1 ≡ take i s ++ (new ++ drop (i + length old) s)
unfolding replace_from index agbridge.Prelude.bytes_beq
replace_one [] [] new i pos h = absurd (omega arith)
replace_one [] (x ∷ old) new i pos h = cc
replace_one (c ∷ s) old new i pos h = elim (Bool-cases (has_prefix (c ∷ s) old)) [
  | inl here ↦
      let e : 0 ≡ i = some-injective _ _ (rw here at h) in
      rw (here, ← e)
        (ap (◌++◌ new) (
          replace_none-drop (length old - 1) s old new
          ∙ ap (λ (k : ℕ). drop k (c ∷ s))
              (let e' : suc (length old - 1) ≡ 0 + length old = omega arith in e')))
  | inr other ↦
      let (j, at, e) = after_one-eq-some (index s old) i (rw other at h) in
      rw (other, e)
        (ap (◌∷◌ c) (
          replace_one s old new j pos at
          ∙ ap (λ (k : ℕ). take j s ++ (new ++ drop k (c ∷ s)))
              (let e' : suc (j + length old) ≡ suc j + length old = omega arith in e')))
]

pub replace_from-drop :
    (n k : ℕ) (s old new : Bytes) → replace_from n k s old new ≡ replace_from n 0 (drop k s) old new
unfolding replace_from
replace_from-drop n zero s old new = refl
replace_from-drop n (suc k) [] old new = refl
replace_from-drop n (suc k) (c ∷ s) old new = replace_from-drop n k s old new
