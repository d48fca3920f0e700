-- ===== src/Auth/TlsMode.antt =====
-- internal/auth/tlsmode.go. A tls.Config is what it asks of the peer's certificates; the modes are
-- ASCII text.
use agbridge.Prelude.{
  ◌≡◌, ◌↔◌, ◌⊎◌, ◌∙◌, refl, sym, ap, eq_iff, eq_refl, length, drop, ◌∷◌, arith, Bool-cases, inl,
  inr, ok-injective, >>=-eq-ok, List, [], Bytes, bytes_eq, codes, ◌==◌, ◌||◌, if◌then◌else◌, Bool,
  true, false, Option, none, some, Result, ok, err, ◌>>=◌, to_lower, trim_space,
}
use agbridge.Hex
use agbridge.Auth.{Error, attach_cert_pin, prefix, no_peer_cert}
use agbridge.Auth.Pins.{attach_cert_pin-accepts}

pub data ModeError : Type 0 where
  invalid_mode : ModeError
  cert_pin : Error → ModeError

abbrev pub pin_mode : Bytes
pin_mode = codes "pin"

abbrev pub webpki_mode : Bytes
webpki_mode = codes "webpki"

-- NormalizeGatewayTLSMode
unfoldable pub normalize_gateway_tls_mode : Bytes → Result ModeError Bytes
normalize_gateway_tls_mode mode =
    let m = to_lower (trim_space mode) in
    if m == [] || m == pin_mode
    then ok pin_mode
    else if m == webpki_mode
    then ok webpki_mode
    else err invalid_mode

-- The fields that are set: whether the system's roots and the host name are not verified, and the
-- callback on the peer's certificates. MinVersion is TLS 1.3 in all.
pub record TlsConfig : Type 0 where
  pub insecure_skip_verify : Bool
  pub verify : Option (List Bytes → Result Error (Unit {0}))

-- EnrollTLSConfig
unfoldable pub enroll_tls_config : Bytes → Result ModeError TlsConfig
enroll_tls_config mode = normalize_gateway_tls_mode mode >>= λ m.
    ok (record { insecure_skip_verify = m == pin_mode; verify = none })

abbrev pub pinned : Result Error (List Bytes → Result Error (Unit {0})) → Result ModeError TlsConfig
pinned (err e) = err (cert_pin e)
pinned (ok verify) = ok (record { insecure_skip_verify = true; verify = some verify })

-- RuntimeTLSConfig
unfoldable pub runtime_tls_config :
    (Bytes → Bytes) → (mode pin : Bytes) → Result ModeError TlsConfig
runtime_tls_config sha256 mode pin = normalize_gateway_tls_mode mode >>= λ m.
    if m == pin_mode
    then pinned (attach_cert_pin sha256 pin)
    else ok (record { insecure_skip_verify = false; verify = none })

pinned-eq-ok :
    (r : Result Error (List Bytes → Result Error (Unit {0}))) (c : TlsConfig)
    → pinned r ≡ ok c
    → (verify : List Bytes → Result Error (Unit {0})) × (r ≡ ok verify) × (c.verify ≡ some verify)
pinned-eq-ok (err e) c h = cc
pinned-eq-ok (ok verify) c h =
    (verify, refl, sym (ap (λ (t : TlsConfig). t.verify) (ok-injective h)))

-- The peers that a configuration lets through: the system verifies its certificates, or the callback
-- passes exactly the chains whose leaf has the digest that the pin spells, and no empty one.
abbrev pub Verifies : (Bytes → Bytes) → (mode pin : Bytes) → TlsConfig → Type 0
Verifies sha256 mode pin c =
    ((normalize_gateway_tls_mode mode ≡ ok webpki_mode) × (c.insecure_skip_verify ≡ false))
    ⊎ ((normalize_gateway_tls_mode mode ≡ ok pin_mode)
        × ((check : List Bytes → Result Error (Unit {0})) × (c.verify ≡ some check)
            × ((leaf : Bytes) (chain : List Bytes)
                → (check (leaf ∷ chain) ≡ ok tt)
                  ↔ (Hex.decode (drop (length prefix) pin) ≡ some (sha256 leaf)))
            × (check [] ≡ err no_peer_cert)))

normalized :
    (mode m : Bytes)
    → normalize_gateway_tls_mode mode ≡ ok m
    → (m == pin_mode) ≡ false
    → m ≡ webpki_mode
unfolding normalize_gateway_tls_mode
normalized mode m h other = ground (arith, h, other, eq_refl pin_mode)

-- A configuration for a session never lets every certificate pass. In webpki mode the system verifies
-- the peer; in pin mode the callback accepts a peer exactly where the digest of its leaf certificate is
-- the one that the pin spells in hexadecimal, and refuses a peer with no certificate.
pub runtime_tls_config-Verifies :
    (sha256 : Bytes → Bytes) (mode pin : Bytes) (c : TlsConfig)
    → runtime_tls_config sha256 mode pin ≡ ok c
    → Verifies sha256 mode pin c
unfolding runtime_tls_config
runtime_tls_config-Verifies sha256 mode pin c h =
    let (m, mode', h') = >>=-eq-ok (normalize_gateway_tls_mode mode) _ h in
    elim (Bool-cases (m == pin_mode)) [
      | inl pins ↦
          let (check, attached, set) =
            pinned-eq-ok (attach_cert_pin sha256 pin) c (rw pins at h') in
          inr (
            mode' ∙ ap ok ((eq_iff m pin_mode).0 pins),
            (
              check,
              set,
              (attach_cert_pin-accepts sha256 pin check attached).0,
              (attach_cert_pin-accepts sha256 pin check attached).1,
            ),
          )
      | inr webpki ↦
          let e = ok-injective (rw webpki at h') in
          inl (
            mode' ∙ ap ok (normalized mode m mode' webpki),
            sym (ap (λ (t : TlsConfig). t.insecure_skip_verify) e),
          )
    ]
