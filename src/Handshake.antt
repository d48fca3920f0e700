-- ===== src/Handshake.antt =====
-- internal/handshake/handshake.go: the Hello payload.
-- `read1` closes over the offset in Go; here it takes the offset and returns the next one.
pub mod Read
pub mod RoundTrip
use agbridge.Prelude.{
  ℕ, ◌+◌, ◌%◌, ◌^◌, [], ◌∷◌, ◌++◌, Bytes, length, slice, ltb, leb, ◌||◌, if◌then◌else◌, Result, ok,
  err, ◌>>=◌,
}
use agbridge.Wire.{put_uint16, big_endian}

abbrev pub max_str_u8 : ℕ
max_str_u8 = 2 ^ 8

abbrev pub max_str_u16 : ℕ
max_str_u16 = 2 ^ 16

pub data Error : Type 0 where
  hello_malformed name_too_long secret_too_long : Error

pub record Hello : Type 0 where
  pub role : Bytes
  pub name : Bytes
  pub secret : Bytes
  pub target_daemon : Bytes

-- A string behind a one-byte length, `byte(len)`.
abbrev pub str1 : Bytes → Bytes
str1 s = length s % 2 ^ 8 ∷ s

-- The secret behind a two-byte length, `uint16(len)`.
abbrev pub str2 : Bytes → Bytes
str2 s = put_uint16 (length s % 2 ^ 16) ++ s

abbrev pub wire : Hello → Bytes
wire h = str1 h.role ++ (str1 h.name ++ (str2 h.secret ++ str1 h.target_daemon))

unfoldable pub encode : Hello → Result Error Bytes
encode h =
    if leb max_str_u8 (length h.role)
      || (leb max_str_u8 (length h.name) || leb max_str_u8 (length h.target_daemon))
    then err name_too_long
    else if leb max_str_u16 (length h.secret)
    then err secret_too_long
    else ok (wire h)

-- b[off], inside the bounds that the caller has tested.
abbrev pub byte_at : Bytes → ℕ → ℕ
byte_at b off = big_endian (slice b off (off + 1))

unfoldable pub read1 : Bytes → ℕ → Result Error (Bytes × ℕ)
read1 b off =
    if leb (length b) off
    then err hello_malformed
    else let n = byte_at b off in
      if ltb (length b) (off + 1 + n)
      then err hello_malformed
      else ok (slice b (off + 1) (off + 1 + n), off + 1 + n)

-- The secret, read in line in `DecodeHello`.
unfoldable pub read2 : Bytes → ℕ → Result Error (Bytes × ℕ)
read2 b off =
    if ltb (length b) (off + 2)
    then err hello_malformed
    else let n = big_endian (slice b off (off + 2)) in
      if ltb (length b) (off + 2 + n)
      then err hello_malformed
      else ok (slice b (off + 2) (off + 2 + n), off + 2 + n)

unfoldable pub decode_hello : Bytes → Result Error Hello
decode_hello b = do
  (role, off1) ← read1 b 0
  (name, off2) ← read1 b off1
  (secret, off3) ← read2 b off2
  (target, off4) ← read1 b off3
  ok (record { role = role; name = name; secret = secret; target_daemon = target })
