-- ===== src/Proto/Sound.antt =====
-- What `Decode` of internal/proto/frame.go accepts.
use agbridge.Prelude.{
  ℕ, ◌^◌, ◌%◌, ◌≤◌, ◌≡◌, refl, ap, sym, ◌∙◌, [], ◌∷◌, ◌++◌, Bytes, All, length, take, drop, ok,
  arith, append_assoc, All-drop, take-append-drop, length-take_le,
}
use agbridge.Wire.{IsByte, big_endian, put_uint32}
use agbridge.Proto.{Frame, wire, decode, max_payload_len}
use agbridge.Proto.RoundTrip.{Fits}
use agbridge.Proto.Parse.{parse, parse_payload, decode-eq-parse}

payload_field : Bytes → Bytes
payload_field p = put_uint32 (length p % 2 ^ 32) ++ p

payload_field-take :
    (p q r s : ℕ) (rest : Bytes) (m : ℕ)
    → m ≡ big_endian (p ∷ q ∷ r ∷ s ∷ [])
    → m ≤ length rest
    → IsByte p
    → IsByte q
    → IsByte r
    → IsByte s
    → payload_field (take m rest) ++ drop m rest ≡ p ∷ q ∷ r ∷ s ∷ rest
unfolding payload_field
payload_field-take p q r s rest m e h hp hq hr hs =
    rw (length-take_le m rest h) (ground (arith, take-append-drop m rest))

parse_payload-eq-ok :
    (type : ℕ) (req_id s : Bytes) (f : Frame)
    → All IsByte s
    → parse_payload type req_id s ≡ ok f
    → (rest : Bytes) × (s ≡ payload_field f.payload ++ rest)
      × (f.type ≡ type)
      × (f.req_id ≡ req_id)
      × (length f.payload ≤ max_payload_len)
parse_payload-eq-ok type req_id (p ∷ q ∷ r ∷ s ∷ rest) f bytes e =
    let m = big_endian (p ∷ q ∷ r ∷ s ∷ []) in
    let field = payload_field-take p q r s rest m refl in
    (
      drop m rest,
      ground (arith, field),
      ground arith,
      ground arith,
      ground (arith, length-take_le m rest),
    )
parse_payload-eq-ok type req_id _ f bytes e = cc

parse-eq-ok :
    (v t h l : ℕ) (rest : Bytes) (f : Frame) (n : ℕ)
    → n ≡ big_endian (h ∷ l ∷ [])
    → parse (v ∷ t ∷ h ∷ l ∷ rest) ≡ ok f
    → (v ≡ 1) × (n ≤ length rest) × (parse_payload t (take n rest) (drop n rest) ≡ ok f)
parse-eq-ok v t h l rest f n e p = rw e (ground arith, ground arith, ground arith)

-- The bytes in front of the payload's length, put together again.
header :
    (f : Frame) (v t h l n : ℕ) (r rest : Bytes)
    → n ≡ big_endian (h ∷ l ∷ [])
    → v ≡ 1
    → IsByte h
    → IsByte l
    → n ≤ length r
    → f.type ≡ t
    → f.req_id ≡ take n r
    → drop n r ≡ payload_field f.payload ++ rest
    → v ∷ t ∷ h ∷ l ∷ r ≡ wire f ++ rest
unfolding payload_field
header f v t h l n r rest e hv hh hl le ht hr hp =
    let len = ap length hr ∙ length-take_le n r le in
    let body : r ≡ (f.req_id ++ payload_field f.payload) ++ rest =
      sym (take-append-drop n r)
      ∙ cc (hp, hr, append_assoc f.req_id (payload_field f.payload) rest) in
    ground (arith, len, body)

-- Whatever bytes `Decode` accepts are the encoding of the frame that it returns, with a rest that
-- it ignores; and the frame is one that the length fields have room for.
pub decode-eq-ok :
    (b : Bytes) (f : Frame)
    → All IsByte b
    → decode b ≡ ok f
    → (rest : Bytes) × (b ≡ wire f ++ rest) × Fits f
decode-eq-ok (v ∷ t ∷ h ∷ l ∷ r) f bytes e =
    let n = big_endian (h ∷ l ∷ []) in
    let parts = parse-eq-ok v t h l r f n refl (sym (decode-eq-parse (v ∷ t ∷ h ∷ l ∷ r)) ∙ e) in
    let tail =
      parse_payload-eq-ok t (take n r) (drop n r) f (All-drop IsByte n r bytes.1.1.1.1) parts.2 in
    (
      tail.0,
      header f v t h l n r tail.0 refl parts.0 bytes.1.1.0 bytes.1.1.1.0 parts.1 tail.2 tail.3
          tail.1,
      record {
        req_id = omega (arith, ap length tail.3, length-take_le n r parts.1);
        payload = tail.4;
      },
    )
decode-eq-ok b f bytes e = absurd (ground (arith, decode-eq-parse b))
