-- ===== src/Gateway/Server/Authorised.antt =====
-- Who gets past the authentication of internal/gateway/server.go, and what is forwarded.
use agbridge.Prelude.{
  [], ◌≡◌, ◌⊎◌, refl, subst, List, All, Bytes, bytes_eq, nat_eq, ◌==◌, ◌||◌, true, some, inl, inr,
  ok,
}
use agbridge.Prelude.Maps
use agbridge.Prelude.Maps.{Map, get-empty, get-put-eq-some}
use agbridge.Proto.{Frame}
use agbridge.Proto.FrameType
use agbridge.Handshake.{Hello}
use agbridge.Auth.{secret_matches, verify_frame}
use agbridge.Config.{AgentEntry, DaemonEntry}
use agbridge.Gateway.Creds.{CredRegistry, lookup_agent, lookup_daemon}
use agbridge.Gateway.Creds.Vouched.{Vouched}
use agbridge.Gateway.Registry.{ConnId}
use agbridge.Gateway.Sessions.{bridge, daemon}
use agbridge.Gateway.Server.State.{
  Event, auth_ok, route, noise_relay, Pc, awaits_hello, daemon_auth, daemon_register,
  daemon_session, daemon_ack, daemon_loop, daemon_leave, daemon_release, daemon_unregister,
  bridge_auth, bridge_replace, bridge_evict, bridge_ack, bridge_lookup, bridge_subscribe,
  bridge_loop, bridge_forward, bridge_unsubscribe, bridge_leave, finished, Gateway,
}
use agbridge.Gateway.Server.Handlers.{Input, received, fails, proceeds, contains}
use agbridge.Gateway.Server.Cases.{
  read_hello_cases, daemon_entry_cases, bridge_entry_cases, registered_cases, deliver_cases,
  evict_cases, target_found_cases, bridge_frame_cases,
}
use agbridge.Gateway.Server.{advance}

module _ (sha256 : Bytes → Bytes) (hmac : Bytes → Bytes → Bytes) (P : AgentEntry → Type 0)
    (Q : DaemonEntry → Type 0) where
  -- A row of the configuration lets the bridge of this hello reach its target.
  pub record IsAgent (h : Hello) : Type 0 where
    pub entry : AgentEntry
    pub vouched : P entry
    pub named : entry.name ≡ h.name
    pub matches : secret_matches sha256 h.secret entry.api_key_hash ≡ true
    pub allowed : contains entry.allowed_daemons h.target_daemon ≡ true

  pub record IsDaemon (h : Hello) : Type 0 where
    pub entry : DaemonEntry
    pub vouched : Q entry
    pub named : entry.name ≡ h.name
    pub matches : secret_matches sha256 h.secret entry.token_hash ≡ true

  -- A route frame was unwrapped from one with a good MAC; noise frames pass as they are.
  abbrev pub Forwards : Hello → Frame → Type 0
  Forwards h f =
      ((f.type ≡ FrameType.route)
        × ((signed : Bytes) × (verify_frame hmac h.secret signed ≡ ok f.payload)))
      ⊎ ((f.type == FrameType.noise_init || f.type == FrameType.noise_rekey) ≡ true)

  abbrev pub Passed : Pc → Type 0
  Passed (daemon_register h hash) = IsDaemon h
  Passed (daemon_session h hash) = IsDaemon h
  Passed (daemon_ack h id) = IsDaemon h
  Passed (daemon_loop h id) = IsDaemon h
  Passed (daemon_leave h id) = IsDaemon h
  Passed (daemon_release h id) = IsDaemon h
  Passed (daemon_unregister h) = IsDaemon h
  Passed (bridge_replace h hash) = IsAgent h
  Passed (bridge_evict h id o) = IsAgent h
  Passed (bridge_ack h id) = IsAgent h
  Passed (bridge_lookup h id) = IsAgent h
  Passed (bridge_subscribe h id p) = IsAgent h
  Passed (bridge_loop h id p) = IsAgent h
  Passed (bridge_forward h id p f) = IsAgent h × Forwards h f
  Passed (bridge_unsubscribe h id p) = IsAgent h
  Passed (bridge_leave h id) = IsAgent h
  Passed _ = Unit

  -- What an audit record says of the handler that wrote it.
  abbrev pub Logged : Event → Type 0
  Logged (auth_ok role name target) =
      (h : Hello) × (h.name ≡ name)
      × (((role ≡ bridge) × (h.target_daemon ≡ target) × IsAgent h)
          ⊎ ((role ≡ daemon) × (target ≡ []) × IsDaemon h))
  Logged (route name target n) =
      (h : Hello) × (h.name ≡ name) × (h.target_daemon ≡ target) × IsAgent h
  Logged (noise_relay name target type n) =
      (h : Hello) × (h.name ≡ name) × (h.target_daemon ≡ target) × IsAgent h
  Logged _ = Unit

  pub record IsSafe (creds : CredRegistry) (handlers : Map ConnId Pc) (audit : List Event)
      : Type 0 where
    pub creds_vouched : Vouched P Q creds
    pub passed : (c : ConnId) (pc : Pc) → Maps.get handlers c ≡ some pc → Passed pc
    pub logged : All Logged audit

  abbrev pub Safe : Gateway → Type 0
  Safe g = IsSafe g.creds g.handlers g.audit

  pub goto-IsSafe :
      {creds : CredRegistry} {handlers : Map ConnId Pc} {audit audit' : List Event}
      → (c : ConnId) (pc' : Pc) → IsSafe creds handlers audit
      → Passed pc'
      → All Logged audit'
      → IsSafe creds (Maps.put handlers c pc') audit'
  goto-IsSafe {handlers = handlers} c pc' s here logged = record {
    creds_vouched = s.creds_vouched;
    passed = λ d pc at. elim (get-put-eq-some handlers c d pc' pc at) [
      | inl (_, same) ↦ subst Passed same here
      | inr (_, at') ↦ s.passed d pc at'
    ];
    logged = logged;
  }

  module _ (g : Gateway) (c : ConnId) where
    advanced : (pc : Pc) (i : Input) → Passed pc → Safe g → Safe (advance sha256 hmac pc g c i)
    unfolding advance lookup_agent lookup_daemon
    advanced awaits_hello (received f) here s =
        read_hello_cases Safe g c f (goto-IsSafe c _ s tt (tt, s.logged))
          (λ h. goto-IsSafe c _ s tt (tt, s.logged)) (λ h _. goto-IsSafe c _ s tt s.logged)
          (λ h _. goto-IsSafe c _ s tt s.logged)
    advanced (daemon_auth h) i here s =
        daemon_entry_cases Safe g c sha256 h (lookup_daemon g.creds h.name)
          (goto-IsSafe c _ s tt (tt, s.logged))
          (λ e found m.
            let (q, named) = s.creds_vouched.1 h.name e found in
            goto-IsSafe c _ s (record { entry = e; vouched = q; named = named; matches = m })
              s.logged)
    advanced (daemon_register h hash) i here s =
        registered_cases Safe g c h hash _ (goto-IsSafe c _ s tt (tt, s.logged))
          (λ q _. goto-IsSafe c _ s here s.logged)
    advanced (daemon_ack h id) i here s =
        goto-IsSafe c _ s here ((h, refl, inr (refl, refl, here)), s.logged)
    advanced (daemon_loop h id) (received f) here s =
        deliver_cases Safe g c f (Maps.get g.writers c) s (λ b _. s)
    advanced (daemon_leave h id) i here s = goto-IsSafe c _ s here (tt, s.logged)
    advanced (bridge_auth h) i here s =
        bridge_entry_cases Safe g c sha256 h (lookup_agent g.creds h.name)
          (goto-IsSafe c _ s tt (tt, s.logged)) (goto-IsSafe c _ s tt (tt, s.logged))
          (λ e found m allowed.
            let (p, named) = s.creds_vouched.0 h.name e found in
            goto-IsSafe c _ s
              (record { entry = e; vouched = p; named = named; matches = m; allowed = allowed })
              s.logged)
    advanced (bridge_evict h id o) i here s =
        evict_cases Safe g c h id o (goto-IsSafe c _ s here s.logged)
          (λ old _. goto-IsSafe c _ s here (tt, s.logged))
    advanced (bridge_ack h id) i here s =
        goto-IsSafe c _ s here ((h, refl, inl (refl, refl, here)), s.logged)
    advanced (bridge_lookup h id) i here s =
        target_found_cases Safe g c h id _ (goto-IsSafe c _ s here (tt, s.logged))
          (λ p _. goto-IsSafe c _ s here s.logged)
    advanced (bridge_loop h id p) (received f) here s =
        bridge_frame_cases Safe g c hmac h id p f s (goto-IsSafe c _ s here (tt, s.logged))
          (λ inner good.
            goto-IsSafe c _ s (here, inl (refl, (f.payload, good)))
              ((h, refl, refl, here), s.logged))
          (λ noise. goto-IsSafe c _ s (here, inr noise) ((h, refl, refl, here), s.logged))
    advanced (bridge_forward h id p f) fails here s = goto-IsSafe c _ s here.0 s.logged
    advanced (bridge_forward h id p f) (received x) here s = goto-IsSafe c _ s here.0 s.logged
    advanced (bridge_forward h id p f) proceeds here s = goto-IsSafe c _ s here.0 s.logged
    advanced (bridge_leave h id) i here s = goto-IsSafe c _ s tt (tt, s.logged)
    advanced (daemon_unregister h) i here s = goto-IsSafe c _ s tt s.logged
    advanced awaits_hello proceeds here s = s
    advanced (daemon_loop h id) proceeds here s = s
    advanced (bridge_loop h id p) proceeds here s = s
    advanced finished i here s = s
    advanced awaits_hello fails here s = goto-IsSafe c _ s tt (tt, s.logged)
    advanced pc i here s = goto-IsSafe c _ s here s.logged

    pub advance-Safe :
        (pc : Pc) (i : Input)
        → Maps.get g.handlers c ≡ some pc
        → Safe g
        → Safe (advance sha256 hmac pc g c i)
    unfolding advance
    advance-Safe pc i at s = advanced pc i (s.passed c pc at) s
