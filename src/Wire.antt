-- ===== src/Wire.antt =====
-- Big-endian integers as encoding/binary writes and reads them in internal/proto/frame.go and
-- internal/handshake/handshake.go.
use mathlib.Core.List.{foldl}
use agbridge.Prelude.{ℕ, ◌+◌, ◌*◌, ◌/◌, ◌%◌, ◌^◌, ◌<◌, ◌≡◌, [], ◌∷◌, arith, Bytes}

abbrev pub IsByte : ℕ → Type 0
IsByte b = b < 256

-- PutUint16 of a uint16.
abbrev pub put_uint16 : ℕ → Bytes
put_uint16 n = (n / 256) % 256 ∷ n % 256 ∷ []

-- PutUint32 of a uint32.
abbrev pub put_uint32 : ℕ → Bytes
put_uint32 n = (n / 2 ^ 24) % 256 ∷ (n / 2 ^ 16) % 256 ∷ (n / 2 ^ 8) % 256 ∷ n % 256 ∷ []

-- Uint16 and Uint32 of a slice of their width.
abbrev pub big_endian : Bytes → ℕ
big_endian = foldl (λ n b. n * 256 + b) 0

pub big_endian-put_uint16 : (n : ℕ) → n < 2 ^ 16 → big_endian (put_uint16 n) ≡ n
big_endian-put_uint16 n h = omega arith

pub big_endian-put_uint32 : (n : ℕ) → n < 2 ^ 32 → big_endian (put_uint32 n) ≡ n
big_endian-put_uint32 n h = omega arith

pub put_uint16-big_endian :
    (a b : ℕ) → IsByte a → IsByte b → put_uint16 (big_endian (a ∷ b ∷ [])) ≡ a ∷ b ∷ []
put_uint16-big_endian a b ha hb = ground arith

pub put_uint32-big_endian :
    (a b c d : ℕ)
    → IsByte a
    → IsByte b
    → IsByte c
    → IsByte d
    → put_uint32 (big_endian (a ∷ b ∷ c ∷ d ∷ [])) ≡ a ∷ b ∷ c ∷ d ∷ []
put_uint32-big_endian a b c d ha hb hc hd = ground arith
