-- ===== src/Handshake/RoundTrip.antt =====
-- Hello payloads survive Encode and DecodeHello of internal/handshake/handshake.go.
use agbridge.Prelude.{◌^◌, ◌<◌, ◌≡◌, [], ◌++◌, Bytes, length, ok, arith, append_assoc, append-nil}
use agbridge.Handshake.{Hello, wire, encode, str1, str2, decode_hello}
use agbridge.Handshake.Read.{read1-str1, read2-str2}

-- The limits that `Encode` tests.
pub record Fits (h : Hello) : Type 0 where
  pub role : length h.role < 2 ^ 8
  pub name : length h.name < 2 ^ 8
  pub secret : length h.secret < 2 ^ 16
  pub target : length h.target_daemon < 2 ^ 8

-- The payload with its parts nested to the right.
wire-append :
    (h : Hello) (rest : Bytes)
    → wire h ++ rest
      ≡ str1 h.role ++ (str1 h.name ++ (str2 h.secret ++ (str1 h.target_daemon ++ rest)))
wire-append h rest = simp append_assoc

-- `DecodeHello` undoes `Encode`, whatever follows the payload.
pub decode_hello-wire : (h : Hello) (rest : Bytes) → Fits h → decode_hello (wire h ++ rest) ≡ ok h
unfolding decode_hello
decode_hello-wire h rest fits =
    let b = wire h ++ rest in
    let role = read1-str1 b h.role _ 0 (omega arith) (wire-append h rest) fits.role in
    let name = read1-str1 b h.name _ _ role.1 role.2 fits.name in
    let secret = read2-str2 b h.secret _ _ name.1 name.2 fits.secret in
    let target = read1-str1 b h.target_daemon rest _ secret.1 secret.2 fits.target in
    rw (role.0, name.0, secret.0, target.0)

-- What `Encode` produces is within its limits, and decodes to the payload that was encoded.
pub decode_hello-encode :
    (h : Hello) (b : Bytes) → encode h ≡ ok b → Fits h × (decode_hello b ≡ ok h)
unfolding encode
decode_hello-encode h b e = (fits, rw (sent, ← append-nil (wire h)) (decode_hello-wire h [] fits))
  where
    fits : Fits h
    fits = ground arith

    sent : b ≡ wire h
    sent = ground arith
