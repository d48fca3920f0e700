-- ===== src/Daemon/Session.antt =====
-- cmd/agbridge/daemon.go: loadDaemonE2EDeps, handleNoiseInit, peerAllowed, unwrapRoute and sendInner.
-- Every frame of the connection is read by one loop; the lock around encryption and sending makes
-- `sendInner` one step. The Noise library and its random bytes are arguments.
use agbridge.Prelude.{
  List, [], ◌∷◌, ◌++◌, Bytes, bytes_eq, nat_eq, codes, length, take, drop, ltb, ◌==◌, not, ◌||◌,
  if◌then◌else◌, Bool, false, Option, none, some, Result, ok, err,
}
use agbridge.Hex
use agbridge.Proto
use agbridge.Proto.{Frame, encode}
use agbridge.Proto.FrameType
use agbridge.Config.{required, optional, disabled}
use agbridge.E2e.{
  Noise, StaticKey, encrypt, decrypt, new_responder, read_message1, write_message2, pub_from_base64,
}
use agbridge.E2e

-- daemonE2EDeps
pub record Deps : Type 0 where
  pub noise_key : StaticKey
  pub allowed_pubs : List Bytes
  pub prologue : Bytes
  pub mode : Bytes

pub data Error : Type 0 where
  static_key bad_pubkey plaintext_refused short_payload sid_mismatch aead_decrypt : Error

abbrev with_pub : Bytes → Result Error (List Bytes) → Result Error (List Bytes)
with_pub pub' (err e) = err e
with_pub pub' (ok pubs) = ok (pub' ∷ pubs)

-- The loop over the allowlist.
abbrev parsed : (Bytes → Option Bytes) → List Bytes → Result Error (List Bytes)
parsed decode [] = ok []
parsed decode (b64 ∷ rest) = elim (pub_from_base64 decode b64) [
  | none ↦ err bad_pubkey
  | some key ↦ with_pub key (parsed decode rest)
]

abbrev deps_of : StaticKey → Bytes → Bytes → Result Error (List Bytes) → Result Error (Option Deps)
deps_of key prologue mode (err e) = err e
deps_of key prologue mode (ok pubs) =
    ok (some (record { noise_key = key; allowed_pubs = pubs; prologue = prologue; mode = mode }))

abbrev pub prologue_of : (gateway_url daemon_name : Bytes) → Bytes
prologue_of url name = codes "agbridge/v1|" ++ (url ++ (codes "|" ++ name))

-- loadDaemonE2EDeps, with the outcome of LoadStatic
unfoldable pub load_daemon_e2e_deps :
    (Bytes → Option Bytes)
    → (mode url name : Bytes) → Option StaticKey
    → List Bytes
    → Result Error (Option Deps)
load_daemon_e2e_deps decode mode url name key pubkeys =
    if mode == disabled then ok none else elim key [
      | none ↦ err static_key
      | some k ↦ deps_of k (prologue_of url name) mode (parsed decode pubkeys)
    ]

-- What the frames of a connection share.
pub record Channel (n : Noise) : Type 0 where
  pub e2e : Option Deps
  pub session : Option (E2e.Session n)
  pub session_id : Bytes

abbrev listed : List Bytes → Bytes → Bool
listed [] peer = false
listed (a ∷ rest) peer = a == peer || listed rest peer

-- peerAllowed
unfoldable pub peer_allowed : Option Deps → Bytes → Bool
peer_allowed none peer = false
peer_allowed (some d) peer =
    if length d.allowed_pubs == 0 then d.mode == optional else listed d.allowed_pubs peer

module _ (n : Noise) where
  -- sendInner: the frame that is given to the connection's Send, if one is. What Send returns is dropped.
  abbrev sealed : Channel n → Option (Bytes × E2e.Session n) → Option Frame × Channel n
  sealed c none = (none, c)
  sealed c (some (ct, s)) = (
    some (record { type = FrameType.route; req_id = []; payload = c.session_id ++ ct }),
    record c { session = some s },
  )

  abbrev sent : Channel n → Bytes → Option (E2e.Session n) → Option Frame × Channel n
  sent c encoded none =
      (some (record { type = FrameType.route; req_id = []; payload = encoded }), c)
  sent c encoded (some s) = sealed c (encrypt n s c.session_id encoded)

  abbrev encoded_sent : Channel n → Result Proto.Error Bytes → Option Frame × Channel n
  encoded_sent c (err e) = (none, c)
  encoded_sent c (ok encoded) = sent c encoded c.session

  unfoldable pub send_inner : Channel n → Frame → Option Frame × Channel n
  send_inner c f = encoded_sent c (encode f)

  -- unwrapRoute
  abbrev pub opened : Channel n → Option (Bytes × E2e.Session n) → Result Error Bytes × Channel n
  opened c none = (err aead_decrypt, c)
  opened c (some (plain, s)) = (ok plain, record c { session = some s })

  abbrev pub requires : Option Deps → Bool
  requires none = false
  requires (some d) = d.mode == required

  abbrev pub unwrapped : Channel n → Bytes → Option (E2e.Session n) → Result Error Bytes × Channel n
  unwrapped c payload none = (if requires c.e2e then err plaintext_refused else ok payload, c)
  unwrapped c payload (some s) =
      if ltb (length payload) 8
      then (err short_payload, c)
      else if not (take 8 payload == c.session_id)
      then (err sid_mismatch, c)
      else opened c (decrypt n s c.session_id (drop 8 payload))

  unfoldable pub unwrap_route : Channel n → Bytes → Result Error Bytes × Channel n
  unwrap_route c payload = unwrapped c payload c.session

  -- The answers to a NoiseInit frame.
  abbrev pub error_frame : Frame → Bytes → Frame
  error_frame f code = record { type = FrameType.error; req_id = f.req_id; payload = code }

  abbrev pub handshake_failed : Frame → Channel n → Frame × Channel n
  handshake_failed f c = (error_frame f (codes "handshake_failed"), c)

  abbrev pub installed :
      Frame → Channel n → Bytes → Option (Bytes × E2e.Session n) → Frame × Channel n
  installed f c sid none = handshake_failed f c
  installed f c sid (some (msg2, s)) = (
    record { type = FrameType.noise_resp; req_id = f.req_id; payload = msg2 },
    record c { session = some s; session_id = sid },
  )

  abbrev pub admitted :
      Frame → Channel n → Bytes → Option (Bytes × n.HandshakeState) → Frame × Channel n
  admitted f c sid none = handshake_failed f c
  admitted f c sid (some (peer, hs)) =
      if not (peer_allowed c.e2e peer)
      then handshake_failed f c
      else installed f c sid (write_message2 n hs)

  abbrev pub responder : Frame → Channel n → Bytes → Option n.HandshakeState → Frame × Channel n
  responder f c sid none = handshake_failed f c
  responder f c sid (some hs) = admitted f c sid (read_message1 n hs f.payload)

  abbrev pub with_sid : Bytes → Frame → Channel n → Deps → Option Bytes → Frame × Channel n
  with_sid random f c d none = handshake_failed f c
  with_sid random f c d (some sid) =
      if not (length sid == 8)
      then handshake_failed f c
      else responder f c sid (new_responder n random d.noise_key d.prologue)

  abbrev pub with_deps : Bytes → Frame → Channel n → Option Deps → Frame × Channel n
  with_deps random f c none = (error_frame f (codes "e2e_disabled"), c)
  with_deps random f c (some d) = with_sid random f c d (Hex.decode f.req_id)

  -- handleNoiseInit: the frame that is sent back
  unfoldable pub handle_noise_init : (random : Bytes) → Channel n → Frame → Frame × Channel n
  handle_noise_init random c f = with_deps random f c c.e2e
