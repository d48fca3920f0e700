-- ===== src/Hex.antt =====
-- encoding/hex, as internal/auth, internal/tools and cmd/agbridge/daemon.go use it.
use agbridge.Prelude.{
  ℕ, ◌+◌, ◌-◌, ◌*◌, ◌/◌, ◌%◌, ◌<◌, ◌≡◌, refl, ap, [], ◌∷◌, Bytes, All, length, leb, ltb, ◌&&◌,
  arith, if◌then◌else◌, Option, none, some,
}
use agbridge.Wire.{IsByte}

abbrev pub digit : ℕ → ℕ
digit n = if ltb n 10 then b'0' + n else b'a' + (n - 10)

-- hex.EncodeToString
unfoldable pub encode : Bytes → Bytes
encode [] = []
encode (b ∷ bs) = digit (b / 16) ∷ digit (b % 16) ∷ encode bs

abbrev pub digit_value : ℕ → Option ℕ
digit_value c =
    if leb b'0' c && leb c b'9'
    then some (c - b'0')
    else if leb b'a' c && leb c b'f'
    then some (c - b'a' + 10)
    else if leb b'A' c && leb c b'F'
    then some (c - b'A' + 10)
    else none

abbrev pub pair_up : Option ℕ → Option ℕ → Option Bytes → Option Bytes
pair_up (some h) (some l) (some rest) = some ((h * 16 + l) ∷ rest)
pair_up _ _ _ = none

-- hex.DecodeString: an odd length or a character that is no digit is an error.
unfoldable pub decode : Bytes → Option Bytes
decode [] = some []
decode (h ∷ []) = none
decode (h ∷ l ∷ rest) = pair_up (digit_value h) (digit_value l) (decode rest)

digit_value-digit : (n : ℕ) → n < 16 → digit_value (digit n) ≡ some n
digit_value-digit n h = ground arith

pub decode-encode : (bs : Bytes) → All IsByte bs → decode (encode bs) ≡ some bs
unfolding encode decode
decode-encode [] h = refl
decode-encode (b ∷ bs) h =
    rw
      (
        digit_value-digit (b / 16) (omega arith),
        digit_value-digit (b % 16) (omega arith),
        decode-encode bs h.1,
      )
      (ground arith)

pub length-encode : (bs : Bytes) → length (encode bs) ≡ 2 * length bs
unfolding encode
length-encode [] = omega arith
length-encode (b ∷ bs) = omega (arith, length-encode bs)

-- Two byte strings with one hexadecimal text are one.
pub encode_injective :
    (xs ys : Bytes) → All IsByte xs → All IsByte ys → encode xs ≡ encode ys → xs ≡ ys
encode_injective xs ys hx hy e =
    ground (arith, decode-encode xs hx, decode-encode ys hy, ap decode e)
