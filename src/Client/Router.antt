-- ===== src/Client/Router.antt =====
-- internal/cliclient/router.go: the frames that the bridge sends on its connection and what its
-- reader does with those that come. A connection is a number. The lock around encryption and sending
-- makes `sendInner` one step. HMAC, the Noise library and the random bytes are arguments.
use agbridge.Prelude.{
  ℕ, List, [], ◌∷◌, ◌++◌, Bytes, bytes_eq, nat_eq, codes, length, take, drop, ltb, ◌==◌, not, ◌&&◌,
  if◌then◌else◌, Bool, true, false, Option, none, some, Result, ok, err,
}
use agbridge.Prelude.Maps
use agbridge.Prelude.Maps.{Map}
use agbridge.Hex
use agbridge.Proto
use agbridge.Proto.{Frame, encode, decode}
use agbridge.Proto.FrameType
use agbridge.Auth.{sign_frame}
use agbridge.E2e.{Noise, Session, encrypt, decrypt}

-- `frame` is of the inner frame, `outer` of the one that carries it; `send_failed` is an ended context or a
-- failing write of the WebSocket.
pub data Error : Type 0 where
  frame outer : Proto.Error → Error
  send_failed e2e_encrypt short_payload sid_mismatch e2e_decrypt no_conn : Error

-- The channel of a pending request holds up to 64 frames.
abbrev pub channel_cap : ℕ
channel_cap = 64

pub record Router (n : Noise) : Type 0 where
  pub api_key : Bytes
  pub conn : Option ℕ
  pub session : Option (Session n)
  pub session_id : Bytes
  pub pending : Map Bytes (List Frame)
  pub evicted : Bool

abbrev pub no_session_id : Bytes
no_session_id = 0 ∷ 0 ∷ 0 ∷ 0 ∷ 0 ∷ 0 ∷ 0 ∷ 0 ∷ []

module _ (n : Noise) where
  -- NewRouter, after the keys have been loaded
  unfoldable pub new_router : Option ℕ → Bytes → Router n
  new_router conn api_key = record {
    api_key = api_key;
    conn = conn;
    session = none;
    session_id = no_session_id;
    pending = Maps.empty;
    evicted = false;
  }

  -- markIfEvicted, as a test
  abbrev pub is_eviction : Frame → Bool
  is_eviction f = f.type == FrameType.error && f.payload == codes "session_replaced"

  -- replaceConn, with the channels that it closes
  unfoldable pub replace_conn : Router n → Option ℕ → Router n × List (Bytes × List Frame)
  replace_conn r conn = (
    record r { conn = conn; session = none; session_id = no_session_id; pending = Maps.empty },
    Maps.entries r.pending,
  )

  unfoldable pub install_session : Router n → Session n → Bytes → Router n
  install_session r s sid = record r { session = some s; session_id = sid }

  -- The payload of the Route frame: encrypted and after the session's id, if there is a session.
  abbrev pub sealed_payload :
      Router n → Bytes → Option (Bytes × Session n) → Result Error Bytes × Router n
  sealed_payload r inner none = (err e2e_encrypt, r)
  sealed_payload r inner (some (ct, s)) = (ok (r.session_id ++ ct), record r { session = some s })

  unfoldable pub route_payload :
      Router n → Bytes → Option (Session n) → Result Error Bytes × Router n
  route_payload r inner none = (ok inner, r)
  route_payload r inner (some s) = sealed_payload r inner (encrypt n s r.session_id inner)

  -- Send of internal/transport/wss/conn.go, on a frame and its encoding
  abbrev pub conn_send : Bool → Frame → Result Proto.Error Bytes → Result Error Frame
  conn_send false f encoded = err send_failed
  conn_send true f (err e) = err (outer e)
  conn_send true f (ok b) = ok f

  -- send, of the frame that the signature makes
  abbrev pub signed_send :
      (Bytes → Bytes → Bytes) → Bool → Result Error Bytes × Router n → Result Error Frame × Router n
  signed_send hmac works (err e, r) = (err e, r)
  signed_send hmac works (ok payload, r) =
      let f : Frame = record {
        type = FrameType.route;
        req_id = [];
        payload = sign_frame hmac r.api_key payload;
      } in
      (elim r.conn [ none ↦ err no_conn | some c ↦ conn_send works f (encode f) ], r)

  abbrev pub encoded_send :
      (Bytes → Bytes → Bytes)
      → Router n
      → Bool
      → Result Proto.Error Bytes
      → Result Error Frame × Router n
  encoded_send hmac r works (err e) = (err (frame e), r)
  encoded_send hmac r works (ok inner) = signed_send hmac works (route_payload r inner r.session)

  -- sendInner: what is sent on the connection, or the error. The Boolean says whether the context is live
  -- and the write works; a nonce is used before that is known.
  unfoldable pub send_inner :
      (Bytes → Bytes → Bytes) → Router n → (works : Bool) → Frame → Result Error Frame × Router n
  send_inner hmac r works f = encoded_send hmac r works (encode f)

  abbrev pub framed : Result Proto.Error Frame → Result Error Frame
  framed (err e) = err (frame e)
  framed (ok f) = ok f

  abbrev pub opened_inner : Router n → Option (Bytes × Session n) → Result Error Frame × Router n
  opened_inner r none = (err e2e_decrypt, r)
  opened_inner r (some (plain, s)) = (framed (decode plain), record r { session = some s })

  abbrev pub decode_with : Router n → Bytes → Option (Session n) → Result Error Frame × Router n
  decode_with r payload none = (framed (decode payload), r)
  decode_with r payload (some s) =
      if ltb (length payload) 8
      then (err short_payload, r)
      else if not (take 8 payload == r.session_id)
      then (err sid_mismatch, r)
      else opened_inner r (decrypt n s r.session_id (drop 8 payload))

  -- decodeInbound
  unfoldable pub decode_inbound : Router n → Bytes → Result Error Frame × Router n
  decode_inbound r payload = decode_with r payload r.session

  unfoldable pub register_call : Router n → Bytes → Router n
  register_call r req_id = record r { pending = Maps.put r.pending req_id [] }

  unfoldable pub unregister_call : Router n → Bytes → Router n
  unregister_call r req_id = record r { pending = Maps.remove r.pending req_id }

  -- A round of the reader's loop: the next one begins, or the reader waits for room in a channel.
  pub data Read : Type 0 where
    proceeds : Router n → Read
    waits : Router n → Bytes → Frame → Read

  abbrev pub enqueued : Router n → Frame → Option (List Frame) → Read
  enqueued r inner none = proceeds r
  enqueued r inner (some queue) =
      if ltb (length queue) channel_cap
      then proceeds (record r { pending = Maps.put r.pending inner.req_id (queue ++ (inner ∷ [])) })
      else waits r inner.req_id inner

  abbrev pub dispatched : Result Error Frame × Router n → Read
  dispatched (err e, r) = proceeds r
  dispatched (ok inner, r) = enqueued r inner (Maps.get r.pending inner.req_id)

  unfoldable pub read_frame : Router n → Frame → Read
  read_frame r f =
      if is_eviction f
      then proceeds (record r { evicted = true })
      else if not (f.type == FrameType.route)
      then proceeds r
      else dispatched (decode_inbound r f.payload)

  -- runReader on the frames that come, up to the first for which there is no room.
  unfoldable pub run_reader : Router n → List Frame → Read
  run_reader r [] = proceeds r
  run_reader r (f ∷ fs) = elim (read_frame r f) [
    | waits r' id inner ↦ waits r' id inner
    | proceeds r' ↦ run_reader r' fs
  ]

-- newReqID, from its random bytes
abbrev pub new_req_id : Bytes → Bytes
new_req_id random = Hex.encode random
