-- ===== src/Errcode/Payload.antt =====
-- Payloads of Error frames survive, from new daemons and from old ones.
use agbridge.Prelude.{
  ◌≡◌, ◌≢◌, refl, ap, sym, ◌∙◌, [], ◌∷◌, Bytes, bytes_eq, nat_eq, ◌==◌, eq_iff, Bool-cases, inl,
  inr, Option, some,
}
use agbridge.Errcode.{FramePayload, encode_frame_payload, decode_frame_payload, parsed_or}

-- What a new daemon encodes as JSON decodes to the same code and detail, whatever they are, but for
-- the empty code. The JSON of a payload must begin with a brace and parse to the payload.
pub decode_frame_payload-encode :
    (marshal : FramePayload → Bytes) (unmarshal : Bytes → Option FramePayload) (code detail : Bytes)
    → ((p : FramePayload) → (rest : Bytes) × (marshal p ≡ b'{' ∷ rest))
    → ((p : FramePayload) → unmarshal (marshal p) ≡ some p)
    → code ≢ []
    → decode_frame_payload unmarshal (encode_frame_payload marshal code detail) ≡ (code, detail)
unfolding decode_frame_payload encode_frame_payload
decode_frame_payload-encode marshal unmarshal code detail braced parses given =
    let p : FramePayload = record { code = code; detail = detail } in
    let (rest, e) = braced p in
    ap (decode_frame_payload unmarshal) e
    ∙ ap (parsed_or (b'{' ∷ rest)) (ap unmarshal (sym e) ∙ parses p)
    ∙ elim (Bool-cases (code == [])) [
      | inl empty ↦ absurd (given ((eq_iff code []).0 empty))
      | inr there ↦ rw there refl
    ]
