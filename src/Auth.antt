-- ===== src/Auth.antt =====
-- internal/auth: hash.go, hmac.go and certpin.go.
-- SHA-256 and HMAC-SHA256 are arguments `sha256` and `hmac` of what uses them.
pub mod Compare
pub mod Secrets
pub mod Macs
pub mod Pins
pub mod TlsMode
use agbridge.Prelude.{
  ℕ, ◌+◌, ◌-◌, ◌≡◌, List, [], ◌∷◌, ◌++◌, Bytes, codes, length, take, drop, ltb, ◌==◌, bytes_eq,
  nat_eq, not, if◌then◌else◌, Bool, true, false, ◌||◌, ◌&&◌, Result, ok, err, Option, none, some,
}
use agbridge.Hex

abbrev pub prefix : Bytes
prefix = codes "sha256:"

-- strings.HasPrefix
abbrev pub has_prefix : Bytes → Bytes → Bool
has_prefix s p = take (length p) s == p

-- subtle.ConstantTimeCompare, as a test for 1
abbrev pub constant_time_compare : Bytes → Bytes → Bool
constant_time_compare x y = length x == length y && x == y

module _ (sha256 : Bytes → Bytes) where
  abbrev pub sha256_hex : Bytes → Bytes
  sha256_hex b = Hex.encode (sha256 b)

  unfoldable pub secret_matches : Bytes → Bytes → Bool
  secret_matches secret stored =
      if not (has_prefix stored prefix)
      then false
      else let want = drop (length prefix) stored in
        let got = sha256_hex secret in
        if not (length want == length got) then false else constant_time_compare want got

pub data Error : Type 0 where
  short_mac bad_mac no_peer_cert pin_mismatch bad_pin_format : Error

abbrev pub hmac_size : ℕ
hmac_size = 32

module _ (hmac : Bytes → Bytes → Bytes) where
  unfoldable pub sign_frame : Bytes → Bytes → Bytes
  sign_frame key frame = frame ++ hmac key frame

  unfoldable pub verify_frame : Bytes → Bytes → Result Error Bytes
  verify_frame key signed =
      if ltb (length signed) hmac_size
      then err short_mac
      else let cut = length signed - hmac_size in
        let frame = take cut signed in
        let mac = drop cut signed in
        if not (constant_time_compare mac (hmac key frame)) then err bad_mac else ok frame

-- What the installed VerifyConnection does with the peer's certificates, for the decoded pin.
unfoldable pub verify_connection : (Bytes → Bytes) → Bytes → List Bytes → Result Error (Unit {0})
verify_connection sha256 want [] = err no_peer_cert
verify_connection sha256 want (leaf ∷ _) =
    if not (constant_time_compare (sha256 leaf) want) then err pin_mismatch else ok tt

module _ (sha256 : Bytes → Bytes) where
  unfoldable pub cert_fingerprint_sha256 : Bytes → Bytes
  cert_fingerprint_sha256 der = prefix ++ Hex.encode (sha256 der)

  -- The callback that `AttachCertPin` installs, or its error.
  unfoldable pub attach_cert_pin : Bytes → Result Error (List Bytes → Result Error (Unit {0}))
  attach_cert_pin pin =
      if not (has_prefix pin prefix) || not (length pin == length prefix + 64)
      then err bad_pin_format
      else elim (Hex.decode (drop (length prefix) pin)) [
        | none ↦ err bad_pin_format
        | some want ↦ ok (verify_connection sha256 want)
      ]
