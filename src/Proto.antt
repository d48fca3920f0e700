-- ===== src/Proto.antt =====
-- internal/proto/frame.go: the frame envelope, Frame.Encode and Decode.
-- A byte slice is a list of numbers, and so is a Go string; a value of type FrameType is a byte.
pub mod FrameType
pub mod Parse
pub mod RoundTrip
pub mod Limits
pub mod Sound
use agbridge.Prelude.{
  ℕ, ◌+◌, ◌%◌, ◌^◌, List, [], ◌∷◌, ◌++◌, Bytes, length, drop, slice, ltb, ◌==◌, nat_eq, not,
  if◌then◌else◌, Result, ok, err,
}
use agbridge.Wire.{put_uint16, put_uint32, big_endian}

abbrev pub protocol_version : ℕ
protocol_version = 1

abbrev pub max_req_id_len : ℕ
max_req_id_len = 2 ^ 16

abbrev pub max_payload_len : ℕ
max_payload_len = 2 ^ 26

pub data Error : Type 0 where
  req_id_too_long payload_too_long short_frame version_mismatch : Error

pub record Frame : Type 0 where
  pub type : ℕ
  pub req_id : Bytes
  pub payload : Bytes

-- What `Encode` appends to its buffer; `uint16(len)` and `uint32(len)` wrap.
abbrev pub wire : Frame → Bytes
wire f =
    protocol_version
    ∷ f.type
    ∷ (put_uint16 (length f.req_id % 2 ^ 16)
        ++ (f.req_id ++ (put_uint32 (length f.payload % 2 ^ 32) ++ f.payload)))

unfoldable pub encode : Frame → Result Error Bytes
encode f =
    if ltb max_req_id_len (length f.req_id)
    then err req_id_too_long
    else if ltb max_payload_len (length f.payload)
    then err payload_too_long
    else ok (wire f)

-- `Decode` from the payload's length on; `off` is the offset of that length.
unfoldable pub decode_payload : ℕ → Bytes → Bytes → ℕ → Result Error Frame
decode_payload type req_id b off =
    if ltb (length b) (off + 4)
    then err short_frame
    else let payload_len = big_endian (slice b off (off + 4)) in
      if ltb max_payload_len payload_len
      then err payload_too_long
      else if ltb (length b) (off + 4 + payload_len)
      then err short_frame
      else ok (record {
        type = type;
        req_id = req_id;
        payload = slice b (off + 4) (off + 4 + payload_len);
      })

unfoldable pub decode : Bytes → Result Error Frame
decode (version ∷ type ∷ rest) =
    let b = version ∷ type ∷ rest in
    if not (version == protocol_version)
    then err version_mismatch
    else if ltb (length b) 4
    then err short_frame
    else let req_id_len = big_endian (slice b 2 4) in
      if ltb (length b) (4 + req_id_len)
      then err short_frame
      else decode_payload type (slice b 4 (4 + req_id_len)) b (4 + req_id_len)
decode _ = err short_frame
