-- ===== src/Proto/Limits.antt =====
-- Truncated frames, and the limits of `Encode`, in internal/proto/frame.go.
use agbridge.Prelude.{
  ℕ, zero, suc, ◌+◌, ◌-◌, ◌^◌, ◌%◌, ◌≤◌, ◌<◌, ◌≡◌, ◌≢◌, ◌↔◌, refl, ap, sym, ◌∙◌, [], ◌∷◌, ◌++◌,
  Bytes, length, take, ok, err, arith, take-append_le, take-append_ge, length-append, inl, inr,
  length-take, ltb, Bool-cases,
}
use agbridge.Wire.{big_endian, put_uint16, put_uint32}
use agbridge.Proto.{
  Frame, short_frame, req_id_too_long, payload_too_long, wire, encode, decode, max_payload_len,
  max_req_id_len,
}
use agbridge.Proto.RoundTrip.{Fits, parse-req_id, req_id_field, payload_field}
use agbridge.Proto.Parse.{parse, parse_payload, decode-eq-parse}

parse_payload_short :
    (t : ℕ) (req_id : Bytes) (p q r s n : ℕ) (payload : Bytes)
    → big_endian (p ∷ q ∷ r ∷ s ∷ []) ≡ length payload
    → length payload ≤ max_payload_len
    → n < 4 + length payload
    → parse_payload t req_id (take n (p ∷ q ∷ r ∷ s ∷ payload)) ≡ err short_frame
parse_payload_short t req_id p q r s zero payload e h lt = refl
parse_payload_short t req_id p q r s (suc zero) payload e h lt = refl
parse_payload_short t req_id p q r s (suc (suc zero)) payload e h lt = refl
parse_payload_short t req_id p q r s (suc (suc (suc zero))) payload e h lt = refl
parse_payload_short t req_id p q r s (suc (suc (suc (suc n)))) payload e h lt =
    rw e (ground (arith, length-take n payload))

parse_short :
    (f : Frame) (h l n : ℕ) (rest : Bytes)
    → big_endian (h ∷ l ∷ []) ≡ length f.req_id
    → (length f.req_id ≤ n
        → parse_payload f.type f.req_id (take (n - length f.req_id) rest) ≡ err short_frame)
    → parse (1 ∷ f.type ∷ h ∷ l ∷ take n (f.req_id ++ rest)) ≡ err short_frame
parse_short f h l n rest e tail = elim (Bool-cases (ltb n (length f.req_id))) [
  | inl lt ↦ rw e (ground (arith, take-append_le n f.req_id rest, length-take n f.req_id))
  | inr ge ↦
      rw (take-append_ge n f.req_id rest (ground arith))
        (parse-req_id f.type h l f.req_id _ e ∙ tail (ground arith))
]

take-parse :
    (f : Frame) (n : ℕ) → Fits f → n < length (wire f) → parse (take n (wire f)) ≡ err short_frame
take-parse f zero h lt = refl
take-parse f (suc zero) h lt = refl
take-parse f (suc (suc zero)) h lt = refl
take-parse f (suc (suc (suc zero))) h lt = refl
take-parse f (suc (suc (suc (suc n)))) h lt = parse_short f _ _ n _ (req_id_field f h) λ le.
    parse_payload_short f.type f.req_id _ _ _ _ (n - length f.req_id) f.payload (payload_field f h)
      h.payload
      (omega (arith, length-append f.req_id (put_uint32 (length f.payload % 2 ^ 32) ++ f.payload)))

-- Every proper prefix of a frame that fits is refused as truncated.
pub decode-take :
    (f : Frame) (n : ℕ) → Fits f → n < length (wire f) → decode (take n (wire f)) ≡ err short_frame
decode-take f n h lt = decode-eq-parse (take n (wire f)) ∙ take-parse f n h lt

-- `Encode` fails exactly on the frames over its two limits, the request id's first.
pub encode_refuses :
    (f : Frame)
    → ((encode f ≡ err req_id_too_long) ↔ (max_req_id_len < length f.req_id))
      × ((encode f ≡ err payload_too_long)
          ↔ ((length f.req_id ≤ max_req_id_len) × (max_payload_len < length f.payload)))
unfolding encode
encode_refuses f =
    ((λ e. ground arith, λ e. ground arith), (λ e. (ground arith, ground arith), λ e. ground arith))

parse_payload-req_id : (t : ℕ) (r s : Bytes) (g : Frame) → parse_payload t r s ≡ ok g → g.req_id ≡ r
parse_payload-req_id t r (a ∷ b ∷ c ∷ d ∷ s) g e = ground arith
parse_payload-req_id t r _ g e = cc

parse_zero :
    (t h l : ℕ) (rest : Bytes) (g : Frame)
    → big_endian (h ∷ l ∷ []) ≡ 0
    → parse (1 ∷ t ∷ h ∷ l ∷ rest) ≡ ok g
    → g.req_id ≡ []
parse_zero t h l rest g z e =
    parse_payload-req_id t [] rest g (sym (parse-req_id t h l [] rest z) ∙ e)

-- A request id of 65536 bytes passes the test of `Encode`, the length behind version and type
-- is written as 0, and what is sent never decodes to the frame. The payload must be within its limit.
pub encode_wraps :
    (f : Frame)
    → length f.req_id ≡ 2 ^ 16
    → length f.payload ≤ max_payload_len
    → (b : Bytes) × (encode f ≡ ok b) × (take 4 b ≡ 1 ∷ f.type ∷ 0 ∷ 0 ∷ []) × (decode b ≢ ok f)
encode_wraps f e h = (
  wire f,
  unfold encode in ground arith,
  rw e refl,
  λ d.
      let lost = parse_zero f.type _ _ _ f zero_length (sym (decode-eq-parse (wire f)) ∙ d) in
      omega (arith, ap length lost),
)
  where
    zero_length : big_endian (put_uint16 (length f.req_id % 2 ^ 16)) ≡ 0
    zero_length = omega arith
