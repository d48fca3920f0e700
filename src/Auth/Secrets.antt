-- ===== src/Auth/Secrets.antt =====
-- `SecretMatches` of internal/auth/hash.go.
use agbridge.Prelude.{◌≡◌, ◌↔◌, refl, ap, ◌∙◌, ◌++◌, Bytes, All, length, drop, true, arith, subst}
use agbridge.Wire.{IsByte}
use agbridge.Hex
use agbridge.Auth.{prefix, secret_matches, sha256_hex}
use agbridge.Auth.Compare.{constant_time_compare_iff, has_prefix→append, has_prefix-append}

module _ (sha256 : Bytes → Bytes) where
  secret_matches-prefix :
      (secret want : Bytes)
      → (secret_matches sha256 secret (prefix ++ want) ≡ true) ↔ (want ≡ sha256_hex sha256 secret)
  unfolding secret_matches
  secret_matches-prefix secret want = (
    λ h. ground (arith, constant_time_compare_iff want (sha256_hex sha256 secret)),
    λ e. ground (
      arith,
      constant_time_compare_iff want (sha256_hex sha256 secret),
      has_prefix-append prefix want,
      ap length e,
    ),
  )

  secret_matches-has_prefix :
      (secret stored : Bytes)
      → secret_matches sha256 secret stored ≡ true
      → stored ≡ prefix ++ drop (length prefix) stored
  unfolding secret_matches
  secret_matches-has_prefix secret stored h = has_prefix→append stored prefix (ground arith)

  -- A secret matches exactly the prefixed hexadecimal text of its digest.
  pub secret_matches_iff :
      (secret stored : Bytes)
      → (secret_matches sha256 secret stored ≡ true) ↔ (stored ≡ prefix ++ sha256_hex sha256 secret)
  secret_matches_iff secret stored = (
    λ h.
        let shape = secret_matches-has_prefix secret stored h in
        shape
        ∙ ap (◌++◌ prefix) (
            (secret_matches-prefix secret _).0
              (subst (λ s. secret_matches sha256 secret s ≡ true) shape h)),
    λ e. rw e ((secret_matches-prefix secret _).1 refl),
  )

  -- Against the hash that enrollment stores for a key, exactly the secrets with the key's digest
  -- match, provided that digests are bytes.
  pub secret_matches_digest :
      ((b : Bytes) → All IsByte (sha256 b))
      → (secret key : Bytes)
      → (secret_matches sha256 secret (prefix ++ sha256_hex sha256 key) ≡ true)
        ↔ (sha256 key ≡ sha256 secret)
  secret_matches_digest bytes secret key = (
    λ h.
        Hex.encode_injective (sha256 key) (sha256 secret) (bytes key) (bytes secret)
          ((secret_matches-prefix secret _).0 h),
    λ e. (secret_matches-prefix secret _).1 (ap Hex.encode e),
  )
