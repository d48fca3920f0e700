-- ===== src/Relay/Upstream.antt =====
-- From the bridge through the gateway to the daemon.
use agbridge.Prelude.{
  All, ◌⊎◌, subst, Bool, true, ℕ, ◌≡◌, refl, ap, sym, ◌∙◌, List, [], ◌∷◌, ◌++◌, Bytes, bytes_eq,
  length, eq_refl, false, Option, none, some, Result, ok, err, ok-injective, append-nil, arith, inl,
  inr, Option-cases,
}
use agbridge.Proto.{Frame, encode, decode, wire}
use agbridge.Proto
use agbridge.Proto.FrameType
use agbridge.Proto.RoundTrip.{Fits, encode-Fits, decode-wire}
use agbridge.Auth.{Error as AuthError, sign_frame, verify_frame}
use agbridge.Auth.Macs.{verify_frame_iff}
use agbridge.E2e.{Noise, Session, encrypt}
use agbridge.E2e.Lockstep.{Lockstep, decrypt-encrypt}
use agbridge.Client.Router.{
  Router, Error, conn_send, send_inner, encoded_send, signed_send, route_payload, sealed_payload,
}
use agbridge.Daemon.Session.{Channel, Error as DaemonError, unwrap_route, unwrapped, requires}
use agbridge.Relay.Sending.{send_inner-conn, send_inner-failed, is_lost}
use agbridge.Relay.Sealed.{Aligned, sealed_prefix}

module _ (n : Noise) (hmac : Bytes → Bytes → Bytes) where
  abbrev pub route_frame : Bytes → Frame
  route_frame payload = record { type = FrameType.route; req_id = []; payload = payload }

  conn_send-ok :
      (works : Bool) (f : Frame) (b : Result Proto.Error Bytes) (g : Frame)
      → conn_send n works f b ≡ ok g
      → g ≡ f
  conn_send-ok false f b g h = cc
  conn_send-ok true f (err e) g h = cc
  conn_send-ok true f (ok b) g h = cc

  -- What `sendInner` put on the connection, where it did.
  signed-ok :
      (works : Bool) (p : Result Error Bytes × Router n) (g : Frame)
      → (signed_send n hmac works p).0 ≡ ok g
      → (payload : Bytes) × (p.0 ≡ ok payload)
        × (g ≡ route_frame (sign_frame hmac p.1.api_key payload))
        × ((signed_send n hmac works p).1 ≡ p.1)
  signed-ok works (err e, r) g h = cc
  signed-ok works (ok payload, r) g h = elim (Option-cases r.conn) [
    | inl lost ↦ ground (arith, h, lost)
    | inr (c, live) ↦ (payload, refl, conn_send-ok works _ _ g (rw live at h), refl)
  ]

  -- What arrives of a frame, and the daemon's end after it: the gateway verifies and forwards what
  -- the bridge has put on its connection, the daemon unwraps and decodes it.
  abbrev decoded : Result Proto.Error Frame → Option Frame
  decoded (err e) = none
  decoded (ok f) = some f

  abbrev unwraps : Result DaemonError Bytes × Channel n → Option Frame × Channel n
  unwraps (err e, d) = (none, d)
  unwraps (ok b, d) = (decoded (decode b), d)

  abbrev forwards : Channel n → Result AuthError Bytes → Option Frame × Channel n
  forwards d (err e) = (none, d)
  forwards d (ok payload) = unwraps (unwrap_route n d payload)

  abbrev pub arrives : Bytes → Channel n → Result Error Frame → Option Frame × Channel n
  arrives key d (err e) = (none, d)
  arrives key d (ok g) = forwards d (verify_frame hmac key g.payload)

  module _ (l : Lockstep n) where
    abbrev pub Ends : Router n → Channel n → Type 0
    Ends r d =
        Aligned n l r.session r.session_id d.session d.session_id
        × ((d.session ≡ none) → requires n d.e2e ≡ false)

    -- The daemon's end of what the bridge's end has sealed.
    sealed-opens :
        (r : Router n) (d : Channel n) (s t : Session n) (inner payload : Bytes)
        (o : Option (Bytes × Session n))
        → encrypt n s r.session_id inner ≡ o
        → d.session ≡ some t
        → Aligned n l (some s) r.session_id (some t) d.session_id
        → (sealed_payload n r inner o).0 ≡ ok payload
        → (d' : Channel n) × (unwrapped n d payload (some t) ≡ (ok inner, d'))
          × Ends (sealed_payload n r inner o).1 d'
          × ((sealed_payload n r inner o).1.api_key ≡ r.api_key)
    sealed-opens r d s t inner payload none at here al h = cc
    sealed-opens r d s t inner payload (some (ct, s')) at here (step, same, width) h =
        let (head, tail, long) = sealed_prefix r.session_id ct width in
        let (t', opens, step', _) = decrypt-encrypt n l s s' t r.session_id inner ct step at in
        let e : payload ≡ r.session_id ++ ct = sym (ground (arith, h)) in
        (
          record d { session = some t' },
          rw (e, long, head, tail, ← same, eq_refl r.session_id, opens) refl,
          ((step', same, width), λ gone. cc),
          refl,
        )

    routed :
        (r : Router n) (d : Channel n) (inner payload : Bytes) (s t : Option (Session n))
        → d.session ≡ t
        → ((t ≡ none) → requires n d.e2e ≡ false)
        → Aligned n l s r.session_id t d.session_id
        → (r.session ≡ s)
        → (route_payload n r inner s).0 ≡ ok payload
        → (d' : Channel n) × (unwrapped n d payload t ≡ (ok inner, d'))
          × Ends (route_payload n r inner s).1 d'
          × ((route_payload n r inner s).1.api_key ≡ r.api_key)
    unfolding route_payload
    routed r d inner payload none none here plain al there h =
        let same : inner ≡ payload = ok-injective h in
        (d, rw (plain refl, same) refl, (rw (there, here) tt, λ e. plain refl), refl)
    routed r d inner payload none (some t) here plain al there h = elim al [ ]
    routed r d inner payload (some s) none here plain al there h = elim al [ ]
    routed r d inner payload (some s) (some t) here plain al there h =
        sealed-opens r d s t inner payload _ refl here al h

    module _ (width : (key m : Bytes) → length (hmac key m) ≡ 32) where
      sends :
          (r : Router n) (d : Channel n) (works : Bool) (f g : Frame)
          → Fits f
          → Ends r d
          → (send_inner n hmac r works f).0 ≡ ok g
          → (d' : Channel n) × (arrives r.api_key d (ok g) ≡ (some f, d'))
            × Ends (send_inner n hmac r works f).1 d'
            × ((send_inner n hmac r works f).1.api_key ≡ r.api_key)
      unfolding send_inner unwrap_route
      sends r d works f g fits ends h =
          let h' : (signed_send n hmac works (route_payload n r (wire f) r.session)).0 ≡ ok g =
            rw (encode-Fits f fits) at h in
          let (payload, routes, shape, kept) = signed-ok works _ g h' in
          let (d', unwrapped', ends', key) =
            routed r d (wire f) payload r.session d.session refl ends.1 ends.0 refl routes in
          let verified : verify_frame hmac r.api_key g.payload ≡ ok payload =
            (verify_frame_iff hmac width r.api_key g.payload payload).1 (
              ap (λ (x : Frame). x.payload) shape
              ∙ ap (λ (k : Bytes). sign_frame hmac k payload) key) in
          let sent : (encoded_send n hmac r works (encode f)).1
              ≡ (route_payload n r (wire f) r.session).1 =
            rw (encode-Fits f fits) kept in
          let whole : decode (wire f) ≡ ok f = rw (← append-nil (wire f)) (decode-wire f [] fits) in
          (d', rw (verified, unwrapped', whole) refl, rw sent ends', rw sent key)

-- The bridge's end after it has sent some frames, and the frames that went out. With each frame goes
-- whether its context is live and the connection's write works.
module _ (n : Noise) (hmac : Bytes → Bytes → Bytes) where
  abbrev pub counts : Frame → Result Error Frame → List Frame → List Frame
  counts f (err e) fs = fs
  counts f (ok g) fs = f ∷ fs

  unfoldable pub accepted : Router n → List (Bool × Frame) → List Frame
  accepted r [] = []
  accepted r ((works, f) ∷ fs) =
      let (sent, r') = send_inner n hmac r works f in counts f sent (accepted r' fs)

  -- The connection takes every frame that it is given: none is lost behind the encryption.
  abbrev pub Unbroken : Router n → List (Bool × Frame) → Type 0
  Unbroken r [] = Unit
  Unbroken r ((works, f) ∷ fs) =
      (is_lost n hmac (send_inner n hmac r works f).0 ≡ false)
      × Unbroken (send_inner n hmac r works f).1 fs

  abbrev pub gets : Option Frame → List Frame → List Frame
  gets none fs = fs
  gets (some f) fs = f ∷ fs

  -- The frames that the daemon gets when the bridge sends some, one after the other.
  unfoldable pub across : Router n → Channel n → List (Bool × Frame) → List Frame
  across r d [] = []
  across r d ((works, f) ∷ fs) =
      let (sent, r') = send_inner n hmac r works f in
      let (got, d') = arrives n hmac r.api_key d sent in gets got (across r' d' fs)

Result-cases : {E A : Type 0} (r : Result E A) → ((e : E) × (r ≡ err e)) ⊎ ((a : A) × (r ≡ ok a))
Result-cases (err e) = inl (e, refl)
Result-cases (ok a) = inr (a, refl)

module _ (n : Noise) (l : Lockstep n) (hmac : Bytes → Bytes → Bytes)
    (width : (key m : Bytes) → length (hmac key m) ≡ 32) (c : ℕ) where
  -- On a live connection between aligned ends (no session at either and none required by the daemon, or
  -- two in step under one id of 8 bytes) the daemon gets exactly the frames that the bridge's `sendInner`
  -- has sent, unchanged and in order, encrypted or not; a send that fails to encrypt loses only its own
  -- frame. The frames must fit their length fields, a MAC be 32 bytes, and no send fail on the
  -- connection, by its context, its write or the limits of the outer frame: it would have used a nonce.
  pub across-eq-accepted :
      (fs : List (Bool × Frame)) (r : Router n) (d : Channel n)
      → All (λ (s : Bool × Frame). Fits s.1) fs
      → r.conn ≡ some c
      → Ends n hmac l r d
      → Unbroken n hmac r fs
      → across n hmac r d fs ≡ accepted n hmac r fs
  unfolding across accepted
  across-eq-accepted [] r d fits live ends whole = refl
  across-eq-accepted ((works, f) ∷ fs) r d fits live ends whole =
      elim (Result-cases (send_inner n hmac r works f).0) [
        | inl (e, at) ↦
            let same = send_inner-failed n hmac r works f e c fits.0 live whole.0 at in
            rw (at, same)
              (across-eq-accepted fs r d fits.1 live ends
                (subst (λ (q : Router n). Unbroken n hmac q fs) same whole.1))
        | inr (g, at) ↦
            let (d', got, ends', _) = sends n hmac l width r d works f g fits.0 ends at in
            rw (at, got)
              (ap (◌∷◌ f) (
                across-eq-accepted fs _ d' fits.1 (send_inner-conn n hmac r works f c fits.0 live)
                  ends' whole.1))
      ]
