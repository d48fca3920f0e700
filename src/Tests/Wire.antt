-- ===== src/Tests/Wire.antt =====
-- internal/proto and internal/handshake on concrete frames.
use agbridge.Prelude.{take, ◌≡◌, ◌≢◌, refl, [], ◌∷◌, ◌++◌, Bytes, codes, All, arith, ok, err}
use agbridge.Wire.{IsByte}
use agbridge.Proto.{Frame, wire, encode, decode, version_mismatch}
use agbridge.Proto.FrameType
use agbridge.Proto.Parse.{parse, decode-eq-parse}
use agbridge.Proto.Sound.{decode-eq-ok}
use agbridge.Proto.RoundTrip.{Fits, decode-encode, decode-wire}
use agbridge.Proto.Limits.{encode_wraps}
use agbridge.Handshake
use agbridge.Handshake.{Hello, decode_hello}
use agbridge.Handshake.RoundTrip
use agbridge.Handshake.RoundTrip.{decode_hello-encode}
use agbridge.Tests.Fixtures.{all_bytes-IsByte, repeat, length-repeat, search_frame, bridge_hello}

-- A frame of version 2 is refused before its lengths are read.
decode_version : decode (2 ∷ 7 ∷ 255 ∷ 255 ∷ 0 ∷ 0 ∷ 0 ∷ 0 ∷ []) ≡ err version_mismatch
unfolding decode
decode_version = refl

search_frame-Fits : Fits search_frame
search_frame-Fits = record { req_id = omega arith; payload = omega arith }

decode-eq-parse_example : decode (wire search_frame) ≡ parse (wire search_frame)
decode-eq-parse_example = decode-eq-parse (wire search_frame)

decode-eq-ok_example :
    (rest : Bytes) × (wire search_frame ++ codes "x" ≡ wire search_frame ++ rest)
    × Fits search_frame
decode-eq-ok_example =
    decode-eq-ok (wire search_frame ++ codes "x") search_frame wire_bytes
      (decode-wire search_frame (codes "x") search_frame-Fits)
  where
    wire_bytes : All IsByte (wire search_frame ++ codes "x")
    wire_bytes = all_bytes-IsByte (wire search_frame ++ codes "x") refl

decode-encode_example : (b : Bytes) × (encode search_frame ≡ ok b) × (decode b ≡ ok search_frame)
decode-encode_example = decode-encode search_frame search_frame-Fits

abbrev long_id_frame : Frame
long_id_frame = record { type = FrameType.ping; req_id = repeat 65536 0; payload = [] }

encode_wraps_example :
    (b : Bytes) × (encode long_id_frame ≡ ok b)
    × (take 4 b ≡ 1 ∷ long_id_frame.type ∷ 0 ∷ 0 ∷ [])
    × (decode b ≢ ok long_id_frame)
encode_wraps_example = encode_wraps long_id_frame (length-repeat 65536 0) (omega arith)

abbrev hello_bytes : Bytes
hello_bytes = Handshake.wire bridge_hello

decode_hello-encode_example :
    Handshake.RoundTrip.Fits bridge_hello × (decode_hello hello_bytes ≡ ok bridge_hello)
unfolding Handshake.encode
decode_hello-encode_example = decode_hello-encode bridge_hello hello_bytes refl
