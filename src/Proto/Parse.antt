-- ===== src/Proto/Parse.antt =====
-- `Decode` of internal/proto/frame.go against a parser that takes its input apart from the front
-- and keeps no offset.
use agbridge.Prelude.{
  ℕ, ◌+◌, ◌≤◌, ◌≡◌, refl, [], ◌∷◌, Bytes, length, take, drop, ltb, ◌==◌, nat_eq, not, if◌then◌else◌,
  Result, ok, err, arith, drop-add, slice-drop, length-suffix,
}
use agbridge.Wire.{big_endian}
use agbridge.Proto.{
  Frame, Error, payload_too_long, short_frame, version_mismatch, max_payload_len, protocol_version,
  decode_payload, decode,
}

-- What follows the request id.
abbrev pub parse_payload : ℕ → Bytes → Bytes → Result Error Frame
parse_payload type req_id (p ∷ q ∷ r ∷ s ∷ rest) =
    let n = big_endian (p ∷ q ∷ r ∷ s ∷ []) in
    if ltb max_payload_len n
    then err payload_too_long
    else if ltb (length rest) n
    then err short_frame
    else ok (record { type = type; req_id = req_id; payload = take n rest })
parse_payload type req_id _ = err short_frame

abbrev pub parse : Bytes → Result Error Frame
parse (version ∷ type ∷ h ∷ l ∷ rest) =
    let n = big_endian (h ∷ l ∷ []) in
    if not (version == protocol_version)
    then err version_mismatch
    else if ltb (length rest) n
    then err short_frame
    else parse_payload type (take n rest) (drop n rest)
parse (version ∷ type ∷ _) =
    if not (version == protocol_version) then err version_mismatch else err short_frame
parse _ = err short_frame

payload-drop :
    (type : ℕ) (req_id b s : Bytes) (off : ℕ)
    → off ≤ length b
    → drop off b ≡ s
    → decode_payload type req_id b off ≡ parse_payload type req_id s
unfolding decode_payload
payload-drop type req_id b [] off h e = ground (arith, length-suffix b [] off)
payload-drop type req_id b (p ∷ []) off h e = ground (arith, length-suffix b (p ∷ []) off)
payload-drop type req_id b (p ∷ q ∷ []) off h e = ground (arith, length-suffix b (p ∷ q ∷ []) off)
payload-drop type req_id b (p ∷ q ∷ r ∷ []) off h e =
    ground (arith, length-suffix b (p ∷ q ∷ r ∷ []) off)
payload-drop type req_id b (p ∷ q ∷ r ∷ s ∷ rest) off h e =
    rw
      (
        slice-drop b off 4 (off + 4) refl,
        slice-drop b (off + 4) (big_endian (take 4 (drop off b))) _ refl,
        drop-add off 4 b,
        e,
      )
      (ground (arith, length-suffix b (p ∷ q ∷ r ∷ s ∷ rest) off))

-- `Decode` computes what the parser computes, errors included, on every input.
pub decode-eq-parse : (b : Bytes) → decode b ≡ parse b
unfolding decode
decode-eq-parse [] = refl
decode-eq-parse (v ∷ []) = refl
decode-eq-parse (v ∷ t ∷ []) = ground arith
decode-eq-parse (v ∷ t ∷ h ∷ []) = ground arith
decode-eq-parse (v ∷ t ∷ h ∷ l ∷ rest) =
    let b = v ∷ t ∷ h ∷ l ∷ rest in
    let n = big_endian (h ∷ l ∷ []) in
    rw (slice-drop b 4 n (4 + n) refl)
      (ground (arith, drop-add 4 n b, payload-drop t (take n rest) b (drop n rest) (4 + n)))
