-- ===== src/Relay/Sealed.antt =====
-- Payloads that begin with the session's id, as both sides make and open them.
use agbridge.Prelude.{
  ℕ, ◌≡◌, subst, ◌++◌, Bytes, bytes_eq, length, length-append, take, drop, take-append, drop-append,
  ltb, false, Option, none, some, arith,
}
use agbridge.E2e.{Noise, Session}
use agbridge.E2e.Lockstep.{Lockstep, InStep}

-- The sessions of the two ends: none on either side, or two in step under one id of 8 bytes.
abbrev pub Aligned :
    (n : Noise) → Lockstep n → Option (Session n) → Bytes → Option (Session n) → Bytes → Type 0
Aligned n l none sid none sid' = Unit
Aligned n l (some s) sid (some t) sid' = InStep n l s t × (sid ≡ sid') × (length sid ≡ 8)
Aligned n l _ sid _ sid' = ⊥

pub sealed_prefix :
    (sid ct : Bytes)
    → length sid ≡ 8
    → (take 8 (sid ++ ct) ≡ sid) × (drop 8 (sid ++ ct) ≡ ct) × (ltb (length (sid ++ ct)) 8 ≡ false)
sealed_prefix sid ct e = (
  subst (λ (k : ℕ). take k (sid ++ ct) ≡ sid) e (take-append sid ct),
  subst (λ (k : ℕ). drop k (sid ++ ct) ≡ ct) e (drop-append sid ct),
  ground (arith, length-append sid ct, e),
)
