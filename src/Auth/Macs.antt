-- ===== src/Auth/Macs.antt =====
-- `SignFrame` and `VerifyFrame` of internal/auth/hmac.go, for any `hmac` with 32-byte results.
use agbridge.Prelude.{
  ◌-◌, ◌≤◌, ◌≡◌, ◌↔◌, refl, ap, ◌++◌, Bytes, length, take, drop, ok, err, arith, length-append,
  take-append, drop-append, take-append-drop, length-drop, if◌then◌else◌,
}
use agbridge.Auth.{hmac_size, sign_frame, verify_frame, bad_mac, constant_time_compare}
use agbridge.Auth.Compare.{constant_time_compare_iff}

module _ (hmac : Bytes → Bytes → Bytes) (width : (key b : Bytes) → length (hmac key b) ≡ 32) where
  -- On a frame with a MAC of the right width behind it, `VerifyFrame` compares that MAC.
  verify_frame-append :
      (key frame mac : Bytes)
      → length mac ≡ 32
      → verify_frame hmac key (frame ++ mac)
        ≡ (if constant_time_compare mac (hmac key frame) then ok frame else err bad_mac)
  unfolding verify_frame
  verify_frame-append key frame mac e =
      rw (cut, take-append frame mac, drop-append frame mac)
        (ground (arith, length-append frame mac))
    where
      cut : length (frame ++ mac) - hmac_size ≡ length frame
      cut = omega (arith, length-append frame mac)

  verify_frame-short :
      (key signed frame : Bytes) → verify_frame hmac key signed ≡ ok frame → 32 ≤ length signed
  unfolding verify_frame
  verify_frame-short key signed frame h = ground arith

  -- What verifies is exactly what was signed under the key: the frame and then its own MAC.
  pub verify_frame_iff :
      (key signed frame : Bytes)
      → (verify_frame hmac key signed ≡ ok frame) ↔ (signed ≡ sign_frame hmac key frame)
  unfolding sign_frame
  verify_frame_iff key signed frame = (only_signed, accepted)
    where
      accepted : signed ≡ frame ++ hmac key frame → verify_frame hmac key signed ≡ ok frame
      accepted e = rw (
        e,
        verify_frame-append key frame (hmac key frame) (width key frame),
        (constant_time_compare_iff (hmac key frame) (hmac key frame)).1 refl,
      )

      only_signed : verify_frame hmac key signed ≡ ok frame → signed ≡ frame ++ hmac key frame
      only_signed h =
          let cut = length signed - hmac_size in
          let body = take cut signed in
          let mac = drop cut signed in
          let long = verify_frame-short key signed frame h in
          let whole = take-append-drop cut signed in
          let shown = verify_frame-append key body mac (omega (arith, length-drop cut signed)) in
          ground (
            arith,
            shown,
            whole,
            ap (verify_frame hmac key) whole,
            constant_time_compare_iff mac (hmac key body),
          )
