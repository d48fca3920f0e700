-- ===== src/Proto/RoundTrip.antt =====
-- Frames survive `Encode` and `Decode` of internal/proto/frame.go, and `Decode` accepts nothing
-- but encoded frames, with or without bytes behind them.
use agbridge.Prelude.{
  ℕ, ◌^◌, ◌%◌, ◌≤◌, ◌<◌, ◌≡◌, ap, ◌∙◌, [], ◌∷◌, ◌++◌, Bytes, length, ok, arith, take-append,
  drop-append, length-append, append_assoc, append-nil,
}
use agbridge.Wire.{big_endian, put_uint16, put_uint32}
use agbridge.Proto.{Frame, wire, encode, decode, max_payload_len}
use agbridge.Proto.Parse.{parse, parse_payload, decode-eq-parse}

-- The frames that the length fields have room for.
pub record Fits (f : Frame) : Type 0 where
  pub req_id : length f.req_id < 2 ^ 16
  pub payload : length f.payload ≤ max_payload_len

parse-payload :
    (f : Frame) (p q r s : ℕ) (rest : Bytes)
    → big_endian (p ∷ q ∷ r ∷ s ∷ []) ≡ length f.payload
    → length f.payload ≤ max_payload_len
    → parse_payload f.type f.req_id (p ∷ q ∷ r ∷ s ∷ (f.payload ++ rest)) ≡ ok f
parse-payload f p q r s rest e h =
    rw e (ground (arith, length-append f.payload rest, take-append f.payload rest))

pub parse-req_id :
    (type h l : ℕ) (req_id rest : Bytes)
    → big_endian (h ∷ l ∷ []) ≡ length req_id
    → parse (1 ∷ type ∷ h ∷ l ∷ (req_id ++ rest)) ≡ parse_payload type req_id rest
parse-req_id type h l req_id rest e =
    rw e
      (ground (arith, length-append req_id rest, take-append req_id rest, drop-append req_id rest))

-- The length fields of a frame that fits read back as its lengths.
pub req_id_field :
    (f : Frame) → Fits f → big_endian (put_uint16 (length f.req_id % 2 ^ 16)) ≡ length f.req_id
req_id_field f h = omega (arith, h.req_id)

pub payload_field :
    (f : Frame) → Fits f → big_endian (put_uint32 (length f.payload % 2 ^ 32)) ≡ length f.payload
payload_field f h = omega (arith, h.payload)

-- `Decode` undoes `Encode`, whatever follows the frame in the buffer.
pub decode-wire : (f : Frame) (rest : Bytes) → Fits f → decode (wire f ++ rest) ≡ ok f
decode-wire f rest h =
    decode-eq-parse (wire f ++ rest)
    ∙ ap (λ (b : Bytes). parse (1 ∷ f.type ∷ (put_uint16 (length f.req_id % 2 ^ 16) ++ b)))
        (append_assoc f.req_id _ rest)
    ∙ parse-req_id f.type _ _ f.req_id _ (req_id_field f h)
    ∙ parse-payload f _ _ _ _ rest (payload_field f h) h.payload

pub encode-Fits : (f : Frame) → Fits f → encode f ≡ ok (wire f)
unfolding encode
encode-Fits f h = ground (arith, h.req_id, h.payload)

-- A frame that fits is encoded, and decodes to itself.
pub decode-encode : (f : Frame) → Fits f → (b : Bytes) × (encode f ≡ ok b) × (decode b ≡ ok f)
decode-encode f h = (wire f, encode-Fits f h, rw (← append-nil (wire f)) (decode-wire f [] h))
