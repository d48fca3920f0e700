-- ===== src/Relay/Desync.antt =====
-- A send of internal/cliclient/router.go that fails on the connection after the frame was encrypted, and
-- what the daemon gets of the frames after it.
use agbridge.Prelude.{
  All, ◌≡◌, refl, sym, subst, Bool, true, false, List, [], ◌∷◌, ◌++◌, Bytes, bytes_eq, length,
  eq_refl, Option, none, some, Result, ok, err, inl, inr, Option-cases,
}
use agbridge.Proto
use agbridge.Proto.{Frame, encode, wire}
use agbridge.Proto.RoundTrip.{Fits, encode-Fits}
use agbridge.Auth.{sign_frame}
use agbridge.Auth.Macs.{verify_frame_iff}
use agbridge.E2e.{Noise, Session, encrypt, decrypt}
use agbridge.E2e.Lockstep.{Lockstep, encrypt-eq-some}
use agbridge.Client.Router.{
  Router, send_failed, send_inner, signed_send, route_payload, sealed_payload, conn_send,
}
use agbridge.Daemon.Session.{Channel, unwrap_route}
use agbridge.Relay.Sealed.{sealed_prefix}
use agbridge.Relay.Upstream.{arrives, across, route_frame}

-- What the Noise protocol gives for states that are no longer paired: a message is authenticated under
-- its number, so a state that waits for an earlier one refuses it.
pub record Numbered (n : Noise) (l : Lockstep n) : Type 1 where
  pub Ahead : n.CipherState → n.CipherState → Type 0
  pub skips :
      (s r s' : n.CipherState) (ad m ct : Bytes)
      → l.Paired s r
      → n.encrypt s ad m ≡ some (ct, s')
      → Ahead s' r
  pub refuses :
      (s r s' : n.CipherState) (ad m ct : Bytes)
      → Ahead s r
      → n.encrypt s ad m ≡ some (ct, s')
      → (n.decrypt r ad ct ≡ none) × Ahead s' r

module _ (n : Noise) (l : Lockstep n) (o : Numbered n l) where
  -- Both ends have a session under one id of 8 bytes, related as given.
  pub record Joined (R : n.CipherState → n.CipherState → Type 0) (r : Router n) (d : Channel n)
      : Type 0 where
    pub near : Session n
    pub far : Session n
    pub here : r.session ≡ some near
    pub there : d.session ≡ some far
    pub states : R near.send far.recv
    pub same : r.session_id ≡ d.session_id
    pub width : length r.session_id ≡ 8

  module _ (hmac : Bytes → Bytes → Bytes) (mac : (key m : Bytes) → length (hmac key m) ≡ 32) where
    -- A frame that is sealed ahead of its time does not arrive.
    taken :
        (r : Router n) (d : Channel n) (t : Session n) (ct : Bytes) (works : Bool)
        (b : Result Proto.Error Bytes)
        → d.session ≡ some t
        → r.session_id ≡ d.session_id
        → length r.session_id ≡ 8
        → n.decrypt t.recv d.session_id ct ≡ none
        → let g = route_frame n hmac (sign_frame hmac r.api_key (r.session_id ++ ct)) in
          arrives n hmac r.api_key d (conn_send n works g b) ≡ (none, d)
    unfolding unwrap_route decrypt
    taken r d t ct false b at same width refused = refl
    taken r d t ct true (err e) at same width refused = refl
    taken r d t ct true (ok b) at same width refused =
        let (head, tail, long) = sealed_prefix r.session_id ct width in
        let verified =
          (verify_frame_iff hmac mac r.api_key (sign_frame hmac r.api_key (r.session_id ++ ct))
              (r.session_id ++ ct)).1
            refl in
        rw (verified, at, long, head, tail, same, eq_refl d.session_id, refused) refl

    sealed-refused :
        (r : Router n) (d : Channel n) (s t : Session n) (works : Bool) (inner : Bytes)
        (e : Option (Bytes × Session n))
        → encrypt n s r.session_id inner ≡ e
        → r.session ≡ some s
        → d.session ≡ some t
        → o.Ahead s.send t.recv
        → r.session_id ≡ d.session_id
        → length r.session_id ≡ 8
        → let out = signed_send n hmac works (sealed_payload n r inner e) in
          (arrives n hmac r.api_key d out.0 ≡ (none, d)) × Joined o.Ahead out.1 d
    sealed-refused r d s t works inner none at here there ahead same width = (
      refl,
      record {
        near = s;
        far = t;
        here = here;
        there = there;
        states = ahead;
        same = same;
        width = width;
      },
    )
    sealed-refused r d s t works inner (some (ct, s')) at here there ahead same width =
        let (refused, ahead') =
          o.refuses s.send t.recv s'.send r.session_id inner ct ahead
            (encrypt-eq-some n l s s' r.session_id inner ct at).0 in
        (
          elim (Option-cases r.conn) [
            | inl lost ↦ rw lost refl
            | inr (c, live) ↦ rw live (taken r d t ct works _ there same width (rw same at refused))
          ],
          record {
            near = s';
            far = t;
            here = refl;
            there = there;
            states = ahead';
            same = same;
            width = width;
          },
        )

    behind :
        (r : Router n) (d : Channel n) (works : Bool) (f : Frame)
        → Fits f
        → Joined o.Ahead r d
        → (arrives n hmac r.api_key d (send_inner n hmac r works f).0 ≡ (none, d))
          × Joined o.Ahead (send_inner n hmac r works f).1 d
    unfolding send_inner route_payload
    behind r d works f fits j = rw (encode-Fits f fits) (
        subst
          (λ (q : Option (Session n)).
            let out = signed_send n hmac works (route_payload n r (wire f) q) in
            (arrives n hmac r.api_key d out.0 ≡ (none, d)) × Joined o.Ahead out.1 d)
          (sym j.here)
          (sealed-refused r d j.near j.far works (wire f) _ refl j.here j.there j.states j.same
            j.width))

    each_behind :
        (fs : List (Bool × Frame)) (r : Router n) (d : Channel n)
        → All (λ (s : Bool × Frame). Fits s.1) fs
        → Joined o.Ahead r d
        → across n hmac r d fs ≡ []
    unfolding across
    each_behind [] r d fits j = refl
    each_behind ((works, f) ∷ fs) r d fits j =
        let (none', j') = behind r d works f fits.0 j in
        rw none' (each_behind fs (send_inner n hmac r works f).1 d fits.1 j')

    sealed-skips :
        (r : Router n) (d : Channel n) (s t : Session n) (inner : Bytes)
        (e : Option (Bytes × Session n))
        → encrypt n s r.session_id inner ≡ e
        → d.session ≡ some t
        → l.Paired s.send t.recv
        → r.session_id ≡ d.session_id
        → length r.session_id ≡ 8
        → let out = signed_send n hmac false (sealed_payload n r inner e) in
          out.0 ≡ err send_failed → Joined o.Ahead out.1 d
    sealed-skips r d s t inner none at there paired same width failed = cc
    sealed-skips r d s t inner (some (ct, s')) at there paired same width failed = record {
      near = s';
      far = t;
      here = refl;
      there = there;
      states =
          o.skips s.send t.recv s'.send r.session_id inner ct paired
            (encrypt-eq-some n l s s' r.session_id inner ct at).0;
      same = same;
      width = width;
    }

    -- The two ends have a session in step. A send fails on the connection, as when the context of one
    -- request has ended, after its frame was encrypted. Then the daemon gets none of the frames that
    -- are sent on this connection after it. The frames must fit their length fields, and a MAC be 32
    -- bytes.
    pub across-send_failed :
        (r : Router n) (d : Channel n) (f : Frame) (fs : List (Bool × Frame))
        → Fits f
        → All (λ (s : Bool × Frame). Fits s.1) fs
        → Joined l.Paired r d
        → (send_inner n hmac r false f).0 ≡ err send_failed
        → across n hmac (send_inner n hmac r false f).1 d fs ≡ []
    unfolding send_inner route_payload
    across-send_failed r d f fs fits all j failed =
        each_behind fs (send_inner n hmac r false f).1 d all (
          rw (encode-Fits f fits) (
            subst
              (λ (q : Option (Session n)).
                let out = signed_send n hmac false (route_payload n r (wire f) q) in
                out.0 ≡ err send_failed → Joined o.Ahead out.1 d)
              (sym j.here)
              (sealed-skips r d j.near j.far (wire f) _ refl j.there j.states j.same j.width)
              (rw (encode-Fits f fits) at failed)))
