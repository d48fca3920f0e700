-- ===== src/Gateway/Server/Cases.antt =====
-- The branches of the handlers' steps in internal/gateway/server.go, one principle for each helper.
use agbridge.Prelude.{
  ℕ, ◌≡◌, refl, Bytes, codes, length, true, ◌==◌, ◌||◌, bytes_eq, nat_eq, Option, none, some,
  Bool-cases, inl, inr, Result, ok, err, [],
}
use agbridge.Proto.{Frame}
use agbridge.Proto.FrameType
use agbridge.Handshake.{Hello, decode_hello, Error as HelloError}
use agbridge.Auth.{secret_matches, verify_frame, Error as AuthError}
use agbridge.Config.{AgentEntry, DaemonEntry}
use agbridge.Gateway.Registry
use agbridge.Gateway.Registry.{ConnId, Registry}
use agbridge.Gateway.Sessions.{bridge, daemon}
use agbridge.Gateway.Server.State.{
  handshake_malformed, unknown_role, auth_failed, duplicate_daemon, authz_failed, route_failed,
  mac_failed, route, noise_relay, bridge_replaced, daemon_auth, daemon_register, daemon_session,
  bridge_auth, bridge_replace, bridge_ack, bridge_subscribe, bridge_forward, bridge_unsubscribe,
  bridge_leave, closing, Gateway,
}
use agbridge.Gateway.Server.Handlers.{
  goto, send, append, close, refuse, err_frame, contains, read_hello, with_hello, daemon_entry,
  bridge_entry, registered, deliver, evict, target_found, bridge_frame, verified,
}

module _ (P : Gateway → Type 0) (g : Gateway) (c : ConnId) where
  with_hello_cases :
      (r : Result HelloError Hello)
      → P (goto (append g handshake_malformed) c closing)
      → ((h : Hello) → P (refuse g c (codes "unknown_role") (unknown_role h.name) closing))
      → ((h : Hello) → h.role ≡ daemon → P (goto g c (daemon_auth h)))
      → ((h : Hello) → h.role ≡ bridge → P (goto g c (bridge_auth h)))
      → P (with_hello g c r)
  with_hello_cases (err e) bad unknown as_daemon as_bridge = bad
  with_hello_cases (ok h) bad unknown as_daemon as_bridge = elim (Bool-cases (h.role == daemon)) [
    | inl d ↦ rw d (as_daemon h ((bytes_eq.equals_iff h.role daemon).0 d))
    | inr nd ↦ elim (Bool-cases (h.role == bridge)) [
      | inl b ↦ rw (nd, b) (as_bridge h ((bytes_eq.equals_iff h.role bridge).0 b))
      | inr nb ↦ rw (nd, nb) (unknown h)
    ]
  ]

  pub read_hello_cases :
      (f : Frame)
      → P (goto (append g handshake_malformed) c closing)
      → ((h : Hello) → P (refuse g c (codes "unknown_role") (unknown_role h.name) closing))
      → ((h : Hello) → h.role ≡ daemon → P (goto g c (daemon_auth h)))
      → ((h : Hello) → h.role ≡ bridge → P (goto g c (bridge_auth h)))
      → P (read_hello g c f)
  unfolding read_hello
  read_hello_cases f bad unknown as_daemon as_bridge =
      elim (Bool-cases (f.type == FrameType.hello)) [
        | inl e ↦ rw e (with_hello_cases (decode_hello f.payload) bad unknown as_daemon as_bridge)
        | inr e ↦ rw e bad
      ]

  pub daemon_entry_cases :
      (sha256 : Bytes → Bytes) (h : Hello) (o : Option DaemonEntry)
      → P (refuse g c (codes "auth_failed") (auth_failed daemon h.name) closing)
      → ((e : DaemonEntry)
          → o ≡ some e
          → secret_matches sha256 h.secret e.token_hash ≡ true
          → P (goto g c (daemon_register h e.token_hash)))
      → P (daemon_entry sha256 g c h o)
  daemon_entry_cases sha256 h none refused matched = refused
  daemon_entry_cases sha256 h (some e) refused matched =
      elim (Bool-cases (secret_matches sha256 h.secret e.token_hash)) [
        | inl m ↦ rw m (matched e refl m)
        | inr m ↦ rw m refused
      ]

  pub bridge_entry_cases :
      (sha256 : Bytes → Bytes) (h : Hello) (o : Option AgentEntry)
      → P (refuse g c (codes "auth_failed") (auth_failed bridge h.name) closing)
      → P (refuse g c (codes "daemon_not_allowed") (authz_failed h.name h.target_daemon) closing)
      → ((e : AgentEntry)
          → o ≡ some e
          → secret_matches sha256 h.secret e.api_key_hash ≡ true
          → contains e.allowed_daemons h.target_daemon ≡ true
          → P (goto g c (bridge_replace h e.api_key_hash)))
      → P (bridge_entry sha256 g c h o)
  bridge_entry_cases sha256 h none refused forbidden matched = refused
  bridge_entry_cases sha256 h (some e) refused forbidden matched =
      elim (Bool-cases (secret_matches sha256 h.secret e.api_key_hash)) [
        | inl m ↦ elim (Bool-cases (contains e.allowed_daemons h.target_daemon)) [
          | inl a ↦ rw (m, a) (matched e refl m a)
          | inr a ↦ rw (m, a) forbidden
        ]
        | inr m ↦ rw m refused
      ]

  pub registered_cases :
      (h : Hello) (hash : Bytes) (r : Result Registry.Error Registry)
      → P (refuse g c (codes "duplicate_daemon") (duplicate_daemon daemon h.name) closing)
      → ((q : Registry) → r ≡ ok q → P (goto (record g { registry = q }) c (daemon_session h hash)))
      → P (registered g c h hash r)
  registered_cases h hash (err e) refused free = refused
  registered_cases h hash (ok q) refused free = free q refl

  pub deliver_cases :
      (f : Frame) (o : Option ConnId)
      → P g
      → ((b : ConnId) → o ≡ some b → P (send g c b f))
      → P (deliver g c f o)
  deliver_cases f none dropped sent = dropped
  deliver_cases f (some b) dropped sent = sent b refl

  pub target_found_cases :
      (h : Hello) (id : ℕ) (o : Option ConnId)
      → P (refuse g c (codes "daemon_offline") (route_failed h.target_daemon) (bridge_leave h id))
      → ((p : ConnId) → o ≡ some p → P (goto g c (bridge_subscribe h id p)))
      → P (target_found g c h id o)
  target_found_cases h id none offline found = offline
  target_found_cases h id (some p) offline found = found p refl

  pub evict_cases :
      (h : Hello) (id : ℕ) (o : Option ConnId)
      → P (goto g c (bridge_ack h id))
      → ((old : ConnId)
          → o ≡ some old
          → P (
              goto
                (append
                  (close (send g c old (err_frame (codes "session_replaced"))) old)
                  (bridge_replaced h.name))
                c
                (bridge_ack h id)))
      → P (evict g c h id o)
  evict_cases h id none alone displaced = alone
  evict_cases h id (some old) alone displaced = displaced old refl

  abbrev routed : Bytes → Frame
  routed inner = record { type = FrameType.route; req_id = []; payload = inner }

  verified_cases :
      (h : Hello) (id p : ℕ) (f : Frame) (r : Result AuthError Bytes)
      → P (
          refuse g c
            (codes "bad_mac")
            (mac_failed h.name h.target_daemon)
            (bridge_unsubscribe h id p))
      → ((inner : Bytes)
          → r ≡ ok inner
          → P (
              goto
                (append g (route h.name h.target_daemon (length f.payload)))
                c
                (bridge_forward h id p (routed inner))))
      → P (verified g c h id p f r)
  verified_cases h id p f (err e) bad good = bad
  verified_cases h id p f (ok inner) bad good = good inner refl

  pub bridge_frame_cases :
      (hmac : Bytes → Bytes → Bytes) (h : Hello) (id p : ℕ) (f : Frame)
      → P g
      → P (
          refuse g c
            (codes "bad_mac")
            (mac_failed h.name h.target_daemon)
            (bridge_unsubscribe h id p))
      → ((inner : Bytes)
          → verify_frame hmac h.secret f.payload ≡ ok inner
          → P (
              goto
                (append g (route h.name h.target_daemon (length f.payload)))
                c
                (bridge_forward h id p (routed inner))))
      → ((f.type == FrameType.noise_init || f.type == FrameType.noise_rekey) ≡ true
          → P (
              goto
                (append g (noise_relay h.name h.target_daemon f.type (length f.payload)))
                c
                (bridge_forward h id p f)))
      → P (bridge_frame hmac g c h id p f)
  unfolding bridge_frame
  bridge_frame_cases hmac h id p f ignored bad good relayed =
      elim (Bool-cases (f.type == FrameType.route)) [
        | inl r ↦ rw r (verified_cases h id p f (verify_frame hmac h.secret f.payload) bad good)
        | inr nr ↦
            elim (Bool-cases (f.type == FrameType.noise_init || f.type == FrameType.noise_rekey)) [
              | inl n ↦ rw (nr, n) (relayed n)
              | inr nn ↦ rw (nr, nn) ignored
            ]
      ]
