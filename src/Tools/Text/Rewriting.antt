-- ===== src/Tools/Text/Rewriting.antt =====
-- What strings.Count, strings.Replace and strings.ReplaceAll do together, told byte by byte.
use agbridge.Prelude.{
  ℕ, zero, suc, ◌-◌, ◌<◌, ◌≤◌, ◌≡◌, sym, ap, subst, [], ◌∷◌, ◌++◌, Bytes, bytes_eq, ◌==◌, length,
  drop, length-drop, Bool-cases, inl, inr, true, false, arith,
}
use agbridge.Auth.{has_prefix}
use agbridge.Tools.Text.{
  count, count_from, count_from-drop, replace, replace_all, replace_from, replace_from-drop,
  replace_none-drop,
}

-- Reading from the left, so many occurrences of the old text have the new one in their place, and
-- there is no other occurrence that begins where none of them stands.
pub data Rewritten (old new : Bytes) : ℕ → Bytes → Bytes → Type 0 where
  finished : Rewritten old new 0 [] []
  kept :
      {k : ℕ} {c : ℕ} {s t : Bytes}
      → has_prefix (c ∷ s) old ≡ false
      → Rewritten old new k s t
      → Rewritten old new k (c ∷ s) (c ∷ t)
  replaced :
      {k : ℕ} {c : ℕ} {s t : Bytes}
      → has_prefix (c ∷ s) old ≡ true
      → Rewritten old new k (drop (length old) (c ∷ s)) t
      → Rewritten old new (suc k) (c ∷ s) (new ++ t)

count_from_le : (k : ℕ) (s sub : Bytes) → count_from k s sub ≤ length s
unfolding count_from
count_from_le k [] sub = omega arith
count_from_le (suc k) (c ∷ s) sub = omega (arith, count_from_le k s sub)
count_from_le zero (c ∷ s) sub = elim (Bool-cases (has_prefix (c ∷ s) sub)) [
  | inl here ↦ rw here (omega (arith, count_from_le (length sub - 1) s sub))
  | inr other ↦ rw other (omega (arith, count_from_le zero s sub))
]

module _ (old new : Bytes) (pos : 0 < length old) where
  abbrev Does : ℕ → Bytes → Type 0
  Does n s = Rewritten old new (count s old) s (replace_from n 0 s old new)

  replace_from-Rewritten :
      (rounds n : ℕ) (s : Bytes) → length s ≤ rounds → count s old ≤ n → Does n s
  unfolding count_from replace_from
  replace_from-Rewritten rounds n [] fuel enough = finished
  replace_from-Rewritten zero n (c ∷ s) fuel enough = absurd (omega (arith, fuel))
  replace_from-Rewritten (suc r) zero (c ∷ s) fuel enough =
      elim (Bool-cases (has_prefix (c ∷ s) old)) [
        | inl here ↦ absurd (ground (arith, enough, here))
        | inr other ↦ rw other (
            kept other (
              subst (Rewritten old new (count s old) s) (replace_none-drop 0 s old new)
                (replace_from-Rewritten r zero s (omega (arith, fuel)) (rw other at enough))))
      ]
  replace_from-Rewritten (suc r) (suc n) (c ∷ s) fuel enough =
      elim (Bool-cases (has_prefix (c ∷ s) old)) [
        | inr other ↦ rw other (
            kept other
              (replace_from-Rewritten r (suc n) s (omega (arith, fuel)) (rw other at enough)))
        | inl here ↦
            let behind = drop (length old - 1) s in
            let e : drop (length old) (c ∷ s) ≡ behind =
              ap (λ (k : ℕ). drop k (c ∷ s))
                (let e' : length old ≡ suc (length old - 1) = omega (arith, pos) in e') in
            let counted = count_from-drop (length old - 1) s old in
            let enough' : count behind old ≤ n = omega (arith, counted, rw here at enough) in
            let fuel' : length behind ≤ r = omega (arith, length-drop (length old - 1) s, fuel) in
            let rest = replace_from-Rewritten r n behind fuel' enough' in
            rw (here, counted, replace_from-drop n (length old - 1) s old new)
              (replaced here (
                subst
                  (λ (b : Bytes).
                    Rewritten old new (count behind old) b (replace_from n 0 behind old new))
                  (sym e) rest))
      ]

  -- Replacing as many occurrences as there are, or more, replaces all.
  pub replace-Rewritten :
      (n : ℕ) (s : Bytes)
      → count s old ≤ n
      → Rewritten old new (count s old) s (replace s old new n)
  replace-Rewritten n s enough = replace_from-Rewritten (length s) n s (omega arith) enough

  pub replace_all-Rewritten :
      (s : Bytes) → Rewritten old new (count s old) s (replace_all s old new)
  replace_all-Rewritten s = replace-Rewritten (length s) s (count_from_le 0 s old)

pub length_pos : (s : Bytes) → (s == []) ≡ false → 0 < length s
unfolding agbridge.Prelude.bytes_beq
length_pos [] given = cc
length_pos (c ∷ s) given = omega arith
