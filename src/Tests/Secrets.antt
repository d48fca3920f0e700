-- ===== src/Tests/Secrets.antt =====
-- internal/auth on concrete secrets, frames and certificates.
use agbridge.Prelude.{◌≡◌, ◌↔◌, refl, [], ◌++◌, bytes_beq, codes, true, false, err}
use agbridge.Hex
use agbridge.Auth.{prefix, sha256_hex, secret_matches, verify_frame, short_mac}
use agbridge.Auth.Secrets.{secret_matches_iff}
use agbridge.Tests.Fixtures.{repeat, agent, toy_sha256, toy_hmac}

secret_matches_key : secret_matches toy_sha256 (codes "key") agent.api_key_hash ≡ true
unfolding secret_matches Hex.encode repeat bytes_beq
secret_matches_key = refl

secret_matches_bare : secret_matches toy_sha256 (codes "key") (codes "key") ≡ false
unfolding secret_matches bytes_beq
secret_matches_bare = refl

verify_frame_empty : verify_frame toy_hmac (codes "key") [] ≡ err short_mac
unfolding verify_frame
verify_frame_empty = refl

secret_matches_iff_example :
    (secret_matches toy_sha256 (codes "key") agent.api_key_hash ≡ true)
    ↔ (agent.api_key_hash ≡ prefix ++ sha256_hex toy_sha256 (codes "key"))
secret_matches_iff_example = secret_matches_iff toy_sha256 (codes "key") agent.api_key_hash
