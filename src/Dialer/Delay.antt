-- ===== src/Dialer/Delay.antt =====
-- The delay of internal/dialer/loop.go against its formula.
use native.Mathlib.Nat.{mul_assoc, pow-succ', one-le-pow, mul-le-mul_left}
use agbridge.Prelude.{
  ℕ, zero, suc, ◌*◌, ◌%◌, ◌^◌, ◌≤◌, ◌<◌, ◌≡◌, sym, ap, ◌∙◌, min, true, false, ltb, leb, arith,
  Bool-cases, inl, inr, ltb→lt, ltb→le,
}
use agbridge.Prelude.{List, [], ◌∷◌, ◌+◌, refl}
use agbridge.Dialer.{
  Round, dialed, waited, connected, loop_from, Options, le64, lt64, doubled, delay_for,
}

pow_shift : (d n : ℕ) → d * 2 ^ suc n ≡ d * 2 * 2 ^ n
pow_shift d n = ap (◌*◌ d) (pow-succ' 2 n) ∙ sym (mul_assoc d 2 (2 ^ n))

pow_grows : (d n : ℕ) → d ≤ d * 2 ^ n
pow_grows d n = omega (arith, mul-le-mul_left d (one-le-pow n 2 (omega arith)))

-- On numbers below 2^63 the comparisons are those of the numbers.
le64_small : (a b : ℕ) → a < 2 ^ 63 → b < 2 ^ 63 → le64 a b ≡ leb a b
le64_small a b ha hb = elim (Bool-cases (leb a b)) [ inl e ↦ ground arith | inr e ↦ ground arith ]

lt64_small : (a b : ℕ) → a < 2 ^ 63 → b < 2 ^ 63 → lt64 a b ≡ ltb a b
lt64_small a b ha hb = elim (Bool-cases (ltb a b)) [ inl e ↦ ground arith | inr e ↦ ground arith ]

doubled-min :
    (most n d : ℕ)
    → most ≤ 2 ^ 62
    → d < 2 ^ 62
    → (min most (doubled most n d) ≡ min most (d * 2 ^ n)) × (doubled most n d ≤ 2 ^ 62)
unfolding doubled
doubled-min most zero d small below = (omega arith, omega arith)
doubled-min most (suc n) d small below =
    let wrap : d * 2 % 2 ^ 64 ≡ d * 2 = omega (arith, below) in
    rw (wrap, le64_small most (d * 2) (omega arith) (omega arith))
      (elim (Bool-cases (leb most (d * 2))) [
        | inl over ↦ rw over (omega (arith, pow_shift d n, pow_grows (d * 2) n, leb→le over), small)
        | inr under ↦
            let (same, bound) = doubled-min most n (d * 2) small (leb→lt under) in
            rw under (same ∙ ap (min most) (sym (pow_shift d n)), bound)
      ])
  where
    leb→le : leb most (d * 2) ≡ true → most ≤ d * 2
    leb→le h = ground arith

    leb→lt : leb most (d * 2) ≡ false → d * 2 < 2 ^ 62
    leb→lt h = ground arith

-- With a base below 2^62 and a cap of at most 2^62 nanoseconds, the delay before the jitter is the
-- base doubled once for each attempt, but at most the cap.
pub delay_for-min :
    (o : Options) (attempt : ℕ)
    → o.base < 2 ^ 62
    → o.cap ≤ 2 ^ 62
    → delay_for o attempt ≡ min o.cap (o.base * 2 ^ attempt)
unfolding delay_for
delay_for-min o attempt b c =
    let (same, bound) = doubled-min o.cap attempt o.base c b in
    rw (lt64_small o.cap (doubled o.cap attempt o.base) (omega arith) (omega arith))
      (elim (Bool-cases (ltb o.cap (doubled o.cap attempt o.base))) [
        | inl over ↦ rw over (omega (arith, same, ltb→lt _ _ over))
        | inr under ↦ rw under (omega (arith, same, ltb→le _ _ under))
      ])

-- Dials that fail, then one that succeeds.
abbrev pub failing : ℕ → List Round
failing zero = dialed ∷ []
failing (suc n) = waited ∷ failing n

abbrev pub delays : Options → (attempt n : ℕ) → List ℕ
delays o attempt zero = []
delays o attempt (suc n) = min o.cap (o.base * 2 ^ attempt) ∷ delays o (attempt + 1) n

-- After any number of failing dials the loop connects on the first that succeeds, having waited
-- after each failure for the doubled base, at most the cap.
pub loop_from-failing :
    (o : Options) (attempt n : ℕ)
    → o.base < 2 ^ 62
    → o.cap ≤ 2 ^ 62
    → loop_from o attempt (failing n) ≡ (connected, delays o attempt n)
unfolding loop_from
loop_from-failing o attempt zero b c = refl
loop_from-failing o attempt (suc n) b c =
    rw (loop_from-failing o (attempt + 1) n b c, delay_for-min o attempt b c) refl
