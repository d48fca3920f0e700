-- ===== src/Tools/Buffer/Lines.antt =====
-- The last lines of the buffer of internal/tools/bgexec.go.
use agbridge.Prelude.{
  ℕ, zero, suc, ◌+◌, ◌≤◌, ◌≡◌, ◌⊎◌, inl, inr, refl, sym, [], ◌∷◌, Bytes, length, drop, true, false,
  ltb, if◌then◌else◌, ◌==◌, nat_eq, arith, Bool-cases, ltb→lt, ltb→le,
}
use agbridge.Tools.Buffer.{BgBuffer, is_newline, scan_back, tail}

abbrev pub newlines : Bytes → ℕ
newlines [] = 0
newlines (x ∷ xs) = (if x == 10 then 1 else 0) + newlines xs

newlines-drop :
    (i : ℕ) (bs : Bytes)
    → newlines (drop i bs) ≡ (if is_newline (drop i bs) then 1 else 0) + newlines (drop (suc i) bs)
newlines-drop zero [] = omega arith
newlines-drop zero (x ∷ xs) = refl
newlines-drop (suc i) [] = omega arith
newlines-drop (suc i) (x ∷ xs) = newlines-drop i xs

newlines_end : (bs : Bytes) → newlines (drop (length bs) bs) ≡ 0
newlines_end [] = refl
newlines_end (x ∷ xs) = newlines_end xs

-- A suffix with at most `n` line ends: all, or one that starts after a line end and has `n`.
pub record IsLast (bs : Bytes) (n : ℕ) (out : Bytes) : Type 0 where
  pub cut : ℕ
  pub suffix : out ≡ drop cut bs
  pub few : newlines out ≤ n
  pub full : (cut ≡ 0) ⊎ (newlines out ≡ n)

scan_back-IsLast :
    (bs : Bytes) (n i count : ℕ)
    → count ≡ newlines (drop i bs)
    → count ≤ n
    → IsLast bs n (scan_back bs n i count)
unfolding scan_back
scan_back-IsLast bs n zero count same few = record {
  cut = 0;
  suffix = refl;
  few = omega (arith, same, few);
  full = inl refl;
}
scan_back-IsLast bs n (suc i) count same few = elim (Bool-cases (is_newline (drop i bs))) [
  | inl here ↦ elim (Bool-cases (ltb n (count + 1))) [
    | inl over ↦
        rw (here, over)
          (record {
            cut = suc i;
            suffix = refl;
            few = omega (arith, same, few);
            full = inr (omega (arith, same, few, ltb→lt n (count + 1) over));
          })
    | inr fits ↦
        rw (here, fits)
          (scan_back-IsLast bs n i (count + 1) (counted here) (ltb→le n (count + 1) fits))
  ]
  | inr other ↦ rw other (scan_back-IsLast bs n i count (uncounted other) few)
]
  where
    counted : is_newline (drop i bs) ≡ true → count + 1 ≡ newlines (drop i bs)
    counted here = ground (arith, same, newlines-drop i bs)

    uncounted : is_newline (drop i bs) ≡ false → count ≡ newlines (drop i bs)
    uncounted other = ground (arith, same, newlines-drop i bs)

empty_lem : (bs : Bytes) → (length bs == 0) ≡ true → [] ≡ bs
empty_lem [] e = refl
empty_lem (x ∷ xs) e = ground (arith, e)

-- `Tail` returns the last lines: a suffix of the buffer that has at most as many line ends as asked
-- for, and just as many where it is not all of the buffer.
pub tail-IsLast : (b : BgBuffer) (n : ℕ) → (n == 0) ≡ false → IsLast b.retained n (tail b n).0
unfolding tail
tail-IsLast b n positive = elim (Bool-cases (length b.retained == 0)) [
  | inl none ↦
      rw (positive, none)
        (record { cut = 0; suffix = empty_lem b.retained none; few = omega arith; full = inl refl })
  | inr some ↦
      rw (positive, some)
        (scan_back-IsLast b.retained n (length b.retained) 0 (sym (newlines_end b.retained))
          (omega arith))
]
