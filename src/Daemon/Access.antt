-- ===== src/Daemon/Access.antt =====
-- Where end-to-end encryption is required, the daemon does nothing for a peer that it has not admitted.
use agbridge.Prelude.{
  ◌≡◌, refl, sym, ◌∙◌, ap, subst, List, [], ◌∷◌, Bytes, bytes_eq, nat_eq, length, ◌==◌, Bool,
  eq_iff, if◌then◌else◌, true, Bool-cases, inl, inr, ◌⊎◌, Option, none, some, ok, err, arith,
}
use agbridge.Hex
use agbridge.Config.{required}
use agbridge.Proto.{Frame}
use agbridge.Proto.FrameType
use agbridge.E2e.{Noise, new_responder, read_message1}
use agbridge.Daemon.Session.{
  Channel, Deps, peer_allowed, handle_noise_init, unwrap_route, unwrapped, plaintext_refused,
  with_deps, with_sid, responder, admitted, requires,
}
use agbridge.Daemon.Dispatch.{
  Codec, Daemon, Loop, ready, sending_chunk, sending_data, receive, answered,
}
use agbridge.Daemon.Run.{
  Move, arrives, push, take_chunk, take_data, return_write, return_stream, step, run, push_step,
  received,
}

module _ (n : Noise) (deps : Deps) where
  -- The frame is a first handshake message from a peer that the daemon admits.
  abbrev pub Admits : Bytes → Frame → Type 0
  Admits random f =
      (peer : Bytes) × (hs : n.HandshakeState) × (hs' : n.HandshakeState) × (new_responder n random
          deps.noise_key deps.prologue
        ≡ some hs)
      × (read_message1 n hs f.payload ≡ some (peer, hs'))
      × (peer_allowed (some deps) peer ≡ true)

  admitted-cases :
      (random : Bytes) (f : Frame) (c : Channel n) (sid : Bytes) (hs : n.HandshakeState)
      → c.e2e ≡ some deps
      → new_responder n random deps.noise_key deps.prologue ≡ some hs
      → (o : Option (Bytes × n.HandshakeState)) → read_message1 n hs f.payload ≡ o
      → ((admitted n f c sid o).1 ≡ c) ⊎ Admits random f
  admitted-cases random f c sid hs e made none at = inl refl
  admitted-cases random f c sid hs e made (some (peer, hs')) at =
      elim (Bool-cases (peer_allowed (some deps) peer)) [
        | inl yes' ↦ inr (peer, hs, hs', made, at, yes')
        | inr no' ↦ inl (rw (e, no') refl)
      ]

  responder-cases :
      (random : Bytes) (f : Frame) (c : Channel n) (sid : Bytes)
      → c.e2e ≡ some deps
      → (o : Option n.HandshakeState) → new_responder n random deps.noise_key deps.prologue ≡ o
      → ((responder n f c sid o).1 ≡ c) ⊎ Admits random f
  responder-cases random f c sid e none made = inl refl
  responder-cases random f c sid e (some hs) made = admitted-cases random f c sid hs e made _ refl

  sid-cases :
      (random : Bytes) (f : Frame) (c : Channel n)
      → c.e2e ≡ some deps
      → (o : Option Bytes) → ((with_sid n random f c deps o).1 ≡ c) ⊎ Admits random f
  sid-cases random f c e none = inl refl
  sid-cases random f c e (some sid) = elim (Bool-cases (length sid == 8)) [
    | inr wrong ↦ inl (rw wrong refl)
    | inl right ↦ rw right (responder-cases random f c sid e _ refl)
  ]

  init-cases :
      (random : Bytes) (f : Frame) (c : Channel n)
      → c.e2e ≡ some deps
      → ((handle_noise_init n random c f).1 ≡ c) ⊎ Admits random f
  unfolding handle_noise_init
  init-cases random f c e =
      subst (λ (o : Option Deps). ((with_deps n random f c o).1 ≡ c) ⊎ Admits random f) (sym e)
        (sid-cases random f c e (Hex.decode f.req_id))

  -- The daemon has no session and has started nothing.
  pub record Unopened (d : Daemon n) : Type 0 where
    pub deps_there : d.channel.e2e ≡ some deps
    pub closed : d.channel.session ≡ none
    pub idle : d.tasks ≡ []

  answered-cases :
      (d : Daemon n) (random : Bytes) (f : Frame)
      → Unopened d
      → Unopened (answered n d (handle_noise_init n random d.channel f)) ⊎ Admits random f
  answered-cases d random f u = elim (init-cases random f d.channel u.deps_there) [
    | inr in' ↦ inr in'
    | inl same ↦ inl (record {
      deps_there = ap (λ (c : Channel n). c.e2e) same ∙ u.deps_there;
      closed = ap (λ (c : Channel n). c.session) same ∙ u.closed;
      idle = u.idle;
    })
  ]

  module _ (strict : deps.mode ≡ required) (codec : Codec) where
    refused :
        (c : Channel n) (payload : Bytes)
        → c.e2e ≡ some deps
        → c.session ≡ none
        → unwrap_route n c payload ≡ (err plaintext_refused, c)
    unfolding unwrap_route
    refused c payload e closed =
        ap (unwrapped n c payload) closed
        ∙ ap (λ (b : Bool). (if b then err plaintext_refused else ok payload, c))
            (ap (requires n) e ∙ (eq_iff deps.mode required).1 strict)

    receive-cases :
        (d : Daemon n) (random : Bytes) (f : Frame)
        → Unopened d
        → Unopened (receive n codec random d f) ⊎ Admits random f
    unfolding receive
    receive-cases d random f u = elim (Bool-cases (f.type == FrameType.noise_init)) [
      | inl init ↦ rw init (answered-cases d random f u)
      | inr other ↦ elim (Bool-cases (f.type == FrameType.route)) [
        | inr stray ↦ rw (other, stray) (inl u)
        | inl route ↦
            rw (other, route, refused d.channel f.payload u.deps_there u.closed)
              (inl (record { deps_there = u.deps_there; closed = u.closed; idle = u.idle }))
      ]
    ]

    received-cases :
        (d : Daemon n) (random : Bytes) (f : Frame) (l : Loop)
        → Unopened d
        → Unopened (received n codec random d f l) ⊎ Admits random f
    received-cases d random f ready u = receive-cases d random f u
    received-cases d random f (sending_chunk i c) u = inl u
    received-cases d random f (sending_data i x) u = inl u

    push-keeps :
        (d : Daemon n) (l : Loop)
        → ((push_step n d l).channel ≡ d.channel) × ((push_step n d l).tasks ≡ d.tasks)
    unfolding push_step
    push-keeps d ready = (refl, refl)
    push-keeps d (sending_chunk i c) = ground arith
    push-keeps d (sending_data i x) = ground arith

    -- The move brings a first handshake message from an admitted peer.
    abbrev pub Opens : Move → Type 0
    Opens (arrives random f) = Admits random f
    Opens _ = ⊥

    step-cases : (d : Daemon n) (m : Move) → Unopened d → Unopened (step n codec d m) ⊎ Opens m
    unfolding step
    step-cases d (arrives random f) u = received-cases d random f d.loop u
    step-cases d push u =
        let (channel, tasks) = push-keeps d d.loop in
        inl (record {
          deps_there = ap (λ (c : Channel n). c.e2e) channel ∙ u.deps_there;
          closed = ap (λ (c : Channel n). c.session) channel ∙ u.closed;
          idle = tasks ∙ u.idle;
        })
    step-cases d (take_chunk i) u =
        inl (record { deps_there = u.deps_there; closed = u.closed; idle = u.idle })
    step-cases d (take_data i) u =
        inl (record { deps_there = u.deps_there; closed = u.closed; idle = u.idle })
    step-cases d (return_write id i) u =
        inl (record { deps_there = u.deps_there; closed = u.closed; idle = u.idle })
    step-cases d (return_stream id i) u =
        inl (record { deps_there = u.deps_there; closed = u.closed; idle = u.idle })

    abbrev pub Opened : List Move → Type 0
    Opened [] = ⊥
    Opened (m ∷ ms) = Opens m ⊎ Opened ms

    -- Under e2e_mode=required, whatever comes in whatever order, either the daemon has no session and
    -- has started no handler, or one of the frames that came was a first handshake message from a peer
    -- on the daemon's allowlist.
    pub run-Opened :
        (d : Daemon n) (ms : List Move) → Unopened d → Unopened (run n codec d ms) ⊎ Opened ms
    unfolding run
    run-Opened d [] u = inl u
    run-Opened d (m ∷ ms) u = after (step-cases d m u) (run-Opened (step n codec d m) ms)
      where
        after :
            Unopened (step n codec d m) ⊎ Opens m
            → (Unopened (step n codec d m)
                → Unopened (run n codec (step n codec d m) ms) ⊎ Opened ms)
            → Unopened (run n codec (step n codec d m) ms) ⊎ Opened (m ∷ ms)
        after (inr now) later = inr (inl now)
        after (inl u') later = elim (later u') [ inl u'' ↦ inl u'' | inr then' ↦ inr (inr then') ]
