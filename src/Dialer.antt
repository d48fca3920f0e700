-- ===== src/Dialer.antt =====
-- internal/dialer/loop.go. A duration is an int64, kept as a number below 2^64 in two's complement.
pub mod Delay
use agbridge.Prelude.{
  ℕ, zero, suc, ◌+◌, ◌*◌, ◌%◌, ◌^◌, ◌≤◌, List, [], ◌∷◌, Bool, true, false, ltb, leb, if◌then◌else◌,
  Option, none, some,
}

-- `a < b` on int64: the order after adding 2^63.
abbrev pub signed : ℕ → ℕ
signed d = (d + 2 ^ 63) % 2 ^ 64

abbrev pub lt64 : ℕ → ℕ → Bool
lt64 a b = ltb (signed a) (signed b)

abbrev pub le64 : ℕ → ℕ → Bool
le64 a b = leb (signed a) (signed b)

pub record Options : Type 0 where
  pub base : ℕ
  pub cap : ℕ

abbrev pub millisecond : ℕ
millisecond = 1000000

unfoldable pub with_defaults : Options → Options
with_defaults o = record {
  base = if le64 o.base 0 then 500 * millisecond else o.base;
  cap = if le64 o.cap 0 then 30000 * millisecond else o.cap;
}

-- The loop that doubles, with the rounds left.
unfoldable pub doubled : (cap rounds d : ℕ) → ℕ
doubled cap zero d = d
doubled cap (suc n) d =
    let twice = d * 2 % 2 ^ 64 in
    let rest = doubled cap n twice in if le64 cap twice then cap else rest

-- The delay before the jitter.
unfoldable pub delay_for : Options → (attempt : ℕ) → ℕ
delay_for o attempt = let d = doubled o.cap attempt o.base in if lt64 o.cap d then o.cap else d

-- One round of `Loop`: the context was cancelled before the dial, the dial succeeded, the context
-- was cancelled during the dial or the wait, or the wait ended.
pub data Round : Type 0 where
  cancelled_before dialed cancelled_dialing cancelled_waiting waited : Round

pub data Outcome : Type 0 where
  connected cancelled trying : Outcome

-- How `Loop` stands after the rounds, and the delays that it set, before their jitter.
unfoldable pub loop_from : Options → (attempt : ℕ) → List Round → Outcome × List ℕ
loop_from o attempt [] = (trying, [])
loop_from o attempt (cancelled_before ∷ rounds) = (cancelled, [])
loop_from o attempt (dialed ∷ rounds) = (connected, [])
loop_from o attempt (cancelled_dialing ∷ rounds) = (cancelled, [])
loop_from o attempt (cancelled_waiting ∷ rounds) = (cancelled, delay_for o attempt ∷ [])
loop_from o attempt (waited ∷ rounds) =
    let (outcome, delays) = loop_from o (attempt + 1) rounds in
    (outcome, delay_for o attempt ∷ delays)

unfoldable pub loop : Options → List Round → Outcome × List ℕ
loop opts rounds = loop_from (with_defaults opts) 0 rounds
