-- ===== src/Auth/Pins.antt =====
-- `CertFingerprintSHA256` and `AttachCertPin` of internal/auth/certpin.go, for any `sha256` whose
-- results are 32 bytes.
use mathlib.Core.Option.{some-injective}
use agbridge.Prelude.{
  ◌≡◌, ◌↔◌, refl, sym, ◌∙◌, ap, subst, List, [], ◌∷◌, Bytes, bytes_eq, nat_eq, All, length, drop,
  some, Result, ok, err, ok-injective, arith, ◌+◌, ◌==◌, not, ◌||◌, Bool-cases, Option-cases, inl,
  inr,
}
use agbridge.Wire.{IsByte}
use agbridge.Hex
use agbridge.Auth.{
  prefix, cert_fingerprint_sha256, attach_cert_pin, has_prefix, verify_connection, Error,
  no_peer_cert,
}
use agbridge.Auth.Compare.{constant_time_compare_iff, has_prefix-append}

pub leaf-accepted :
    (sha256 : Bytes → Bytes) (want leaf : Bytes) (chain : List Bytes)
    → (verify_connection sha256 want (leaf ∷ chain) ≡ ok tt) ↔ (sha256 leaf ≡ want)
unfolding verify_connection
leaf-accepted sha256 want leaf chain = (
  λ h. ground (arith, constant_time_compare_iff (sha256 leaf) want),
  λ e. ground (arith, constant_time_compare_iff (sha256 leaf) want),
)

-- What the callback of a pin accepts: a leaf whose digest the pin spells, whatever comes with it.
pub attach_cert_pin-accepts :
    (sha256 : Bytes → Bytes) (pin : Bytes) (check : List Bytes → Result Error (Unit {0}))
    → attach_cert_pin sha256 pin ≡ ok check
    → ((leaf : Bytes) (chain : List Bytes)
        → (check (leaf ∷ chain) ≡ ok tt)
          ↔ (Hex.decode (drop (length prefix) pin) ≡ some (sha256 leaf)))
      × (check [] ≡ err no_peer_cert)
unfolding attach_cert_pin
attach_cert_pin-accepts sha256 pin check h =
    elim (Bool-cases (not (has_prefix pin prefix) || not (length pin == length prefix + 64))) [
      | inl bad ↦ cc (rw bad at h)
      | inr good ↦ elim (Option-cases (Hex.decode (drop (length prefix) pin))) [
        | inl none' ↦ cc (rw (good, none') at h)
        | inr (want, at) ↦
            let e : verify_connection sha256 want ≡ check = ok-injective (rw (good, at) at h) in
            (
              λ leaf chain.
                  subst
                    (λ (v : List Bytes → Result Error (Unit {0})).
                      (v (leaf ∷ chain) ≡ ok tt)
                      ↔ (Hex.decode (drop (length prefix) pin) ≡ some (sha256 leaf)))
                    e
                    (
                      λ a. at ∙ ap some (sym ((leaf-accepted sha256 want leaf chain).0 a)),
                      λ d.
                          (leaf-accepted sha256 want leaf chain).1
                            (some-injective _ _ (sym d ∙ at)),
                    ),
              subst (λ (v : List Bytes → Result Error (Unit {0})). v [] ≡ err no_peer_cert) e
                  (unfold verify_connection in refl),
            )
      ]
    ]

module _ (sha256 : Bytes → Bytes) (bytes : (b : Bytes) → All IsByte (sha256 b))
    (width : (b : Bytes) → length (sha256 b) ≡ 32) where
  attach-fingerprint :
      (der : Bytes)
      → attach_cert_pin sha256 (cert_fingerprint_sha256 sha256 der)
        ≡ ok (verify_connection sha256 (sha256 der))
  unfolding attach_cert_pin cert_fingerprint_sha256
  attach-fingerprint der = rw (Hex.decode-encode (sha256 der) (bytes der)) (
      ground (
        arith,
        has_prefix-append prefix (Hex.encode (sha256 der)),
        Hex.length-encode (sha256 der),
        width der,
      ))

  -- The pin made from a certificate is well formed, and the check that it installs accepts exactly
  -- the peers whose leaf has the certificate's digest, whatever else they present; a peer with no
  -- certificate is refused as such.
  pub pinned :
      (der : Bytes)
      → (check : List Bytes → Result Error (Unit {0})) × (attach_cert_pin sha256
            (cert_fingerprint_sha256 sha256 der)
          ≡ ok check)
        × ((leaf : Bytes) (chain : List Bytes)
            → (check (leaf ∷ chain) ≡ ok tt) ↔ (sha256 leaf ≡ sha256 der))
        × (check [] ≡ err no_peer_cert)
  unfolding verify_connection
  pinned der = (
    verify_connection sha256 (sha256 der),
    attach-fingerprint der,
    λ leaf chain. leaf-accepted sha256 (sha256 der) leaf chain,
    refl,
  )
