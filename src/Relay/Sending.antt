-- ===== src/Relay/Sending.antt =====
-- The bridge's connection through `sendInner` of internal/cliclient/router.go.
use agbridge.Prelude.{
  ℕ, Bool, true, false, ◌≡◌, refl, ◌∙◌, Bytes, bytes_eq, Option, none, some, Result, ok, err, inl,
  inr, Option-cases,
}
use agbridge.Proto
use agbridge.Proto.{Frame, wire, encode}
use agbridge.Proto.RoundTrip.{Fits, encode-Fits}
use agbridge.E2e.{Noise, Session, encrypt}
use agbridge.Client.Router.{
  Router, Error, outer, send_failed, send_inner, signed_send, conn_send, route_payload,
}

module _ (n : Noise) (hmac : Bytes → Bytes → Bytes) where
  send-conn :
      (works : Bool) (p : Result Error Bytes × Router n) (c : ℕ)
      → p.1.conn ≡ some c
      → (signed_send n hmac works p).1.conn ≡ some c
  send-conn works (err e, r) c live = live
  send-conn works (ok payload, r) c live = live

  -- A payload is made on the same connection, and where it is not, nothing has changed.
  routed-conn :
      (r : Router n) (inner : Bytes) (s : Option (Session n))
      → (route_payload n r inner s).1.conn ≡ r.conn
  unfolding route_payload
  routed-conn r inner none = refl
  routed-conn r inner (some s) = elim (Option-cases (encrypt n s r.session_id inner)) [
    | inl e ↦ rw e refl
    | inr ((ct, s'), e) ↦ rw e refl
  ]

  -- A send that the connection does not take.
  abbrev pub is_lost : Result Error Frame → Bool
  is_lost (err send_failed) = true
  is_lost (err (outer e)) = true
  is_lost _ = false

  routed-failed :
      (r : Router n) (works : Bool) (inner : Bytes) (s : Option (Session n)) (e : Error) (c : ℕ)
      → r.conn ≡ some c
      → is_lost (signed_send n hmac works (route_payload n r inner s)).0 ≡ false
      → (signed_send n hmac works (route_payload n r inner s)).0 ≡ err e
      → (signed_send n hmac works (route_payload n r inner s)).1 ≡ r
  unfolding route_payload
  routed-failed r works inner none e c live kept h = refl
  routed-failed r works inner (some s) e c live kept h =
      elim (Option-cases (encrypt n s r.session_id inner)) [
        | inl none' ↦ rw none' refl
        | inr ((ct, s'), at) ↦
            absurd (taken works _ (encode _) e (rw (at, live) at kept) (rw (at, live) at h))
      ]
    where
      taken :
          (works : Bool) (f : Frame) (b : Result Proto.Error Bytes) (e : Error)
          → is_lost (conn_send n works f b) ≡ false
          → conn_send n works f b ≡ err e
          → ⊥
      taken false f b e kept h = cc
      taken true f (err x) e kept h = cc
      taken true f (ok b) e kept h = cc

  pub send_inner-conn :
      (r : Router n) (works : Bool) (f : Frame) (c : ℕ)
      → Fits f
      → r.conn ≡ some c
      → (send_inner n hmac r works f).1.conn ≡ some c
  unfolding send_inner
  send_inner-conn r works f c fits live = rw (encode-Fits f fits) (
      send-conn works (route_payload n r (wire f) r.session) c
        (routed-conn r (wire f) r.session ∙ live))

  pub send_inner-failed :
      (r : Router n) (works : Bool) (f : Frame) (e : Error) (c : ℕ)
      → Fits f
      → r.conn ≡ some c
      → is_lost (send_inner n hmac r works f).0 ≡ false
      → (send_inner n hmac r works f).0 ≡ err e
      → (send_inner n hmac r works f).1 ≡ r
  unfolding send_inner
  send_inner-failed r works f e c fits live kept h = rw (encode-Fits f fits) (
      routed-failed r works (wire f) r.session e c live (rw (encode-Fits f fits) at kept)
        (rw (encode-Fits f fits) at h))
