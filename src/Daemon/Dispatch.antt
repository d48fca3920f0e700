-- ===== src/Daemon/Dispatch.antt =====
-- cmd/agbridge/daemon.go: the loop of runDaemonSession, dispatch, and the slots by which it hands
-- chunks of files and data of streams to the handlers that it started. A slot is a place in a map, so
-- that a handler keeps its slot when the request's id is given to another. The decoders of JSON are
-- arguments.
use agbridge.Prelude.{
  ℕ, ◌+◌, List, [], ◌∷◌, ◌++◌, Bytes, bytes_eq, nat_eq, ◌==◌, if◌then◌else◌, Bool, true, false, ℤ,
  Option, none, some, Result, ok, err,
}
use agbridge.Prelude.Maps
use agbridge.Prelude.Maps.{Map}
use agbridge.Proto
use agbridge.Proto.{Frame, decode}
use agbridge.Proto.FrameType
use agbridge.E2e.{Noise}
use agbridge.Tools.Payload.{FileChunk}
use agbridge.Daemon.Session.{Channel, Error, send_inner, unwrap_route, handle_noise_init}

-- internal/streamproto/streamproto.go
pub record StreamOpen : Type 0 where
  pub stream_id : Bytes
  pub remote_host : Bytes
  pub remote_port : ℤ

pub record StreamData : Type 0 where
  pub stream_id : Bytes
  pub bytes : Bytes

pub record Codec : Type 0 where
  pub decode_file_chunk : Bytes → Option FileChunk
  pub decode_stream_open : Bytes → Option StreamOpen
  pub decode_stream_data : Bytes → Option StreamData

-- The goroutines that `dispatch` starts, with the slots of those that have one.
pub data Task : Type 0 where
  exec read edit list_dir stat download bg_exec search capabilities : Frame → Task
  write upload : Frame → ℕ → Task
  stream : StreamOpen → ℕ → Task

-- A channel, whether the context of the handler that takes from it is cancelled, and whether the
-- handler still runs.
pub record Slot (A : Type 0) : Type 0 where
  pub inbound : List A
  pub cancelled : Bool
  pub running : Bool

-- Where the loop stands: before Recv, or before a send to a slot's channel.
pub data Loop : Type 0 where
  ready : Loop
  sending_chunk : ℕ → FileChunk → Loop
  sending_data : ℕ → StreamData → Loop

pub record Daemon (n : Noise) : Type 0 where
  pub channel : Channel n
  pub loop : Loop
  pub writes : Map Bytes ℕ
  pub write_slots : Map ℕ (Slot FileChunk)
  pub streams : Map Bytes ℕ
  pub stream_slots : Map ℕ (Slot StreamData)
  pub next_slot : ℕ
  pub tasks : List Task
  pub sent : List Frame

abbrev pub new_slot : {A : Type 0} → Slot A
new_slot = record { inbound = []; cancelled = false; running = true }

abbrev pub write_cap : ℕ
write_cap = 8

abbrev pub stream_cap : ℕ
stream_cap = 64

module _ (n : Noise) where
  abbrev pub start : Daemon n → Task → Daemon n
  start d t = record d { tasks = d.tasks ++ (t ∷ []) }

  -- The frame of `sendInner`, if there is one.
  abbrev pub emit : Daemon n → Option Frame × Channel n → Daemon n
  emit d (none, c) = record d { channel = c }
  emit d (some f, c) = record d { channel = c; sent = d.sent ++ (f ∷ []) }

  -- beginWrite
  unfoldable pub begin_write : Daemon n → Bytes → Daemon n
  begin_write d req_id = record d {
    writes = Maps.put d.writes req_id d.next_slot;
    write_slots = Maps.put d.write_slots d.next_slot new_slot;
    next_slot = d.next_slot + 1;
  }

  -- beginStream
  unfoldable pub begin_stream : Daemon n → Bytes → Daemon n
  begin_stream d stream_id = record d {
    streams = Maps.put d.streams stream_id d.next_slot;
    stream_slots = Maps.put d.stream_slots d.next_slot new_slot;
    next_slot = d.next_slot + 1;
  }

  abbrev pub opened : Daemon n → Option StreamOpen → Daemon n
  opened d none = d
  opened d (some req) = start (begin_stream d req.stream_id) (stream req d.next_slot)

  abbrev pub chunk_decoded : Daemon n → ℕ → Option FileChunk → Daemon n
  chunk_decoded d slot none = d
  chunk_decoded d slot (some c) = record d { loop = sending_chunk slot c }

  -- deliverFileChunk up to the send, which may have to wait.
  unfoldable pub deliver_file_chunk : Codec → Daemon n → Frame → Daemon n
  deliver_file_chunk codec d f = elim (Maps.get d.writes f.req_id) [
    | none ↦ d
    | some slot ↦ chunk_decoded d slot (codec.decode_file_chunk f.payload)
  ]

  abbrev pub data_decoded : Daemon n → ℕ → Option StreamData → Daemon n
  data_decoded d slot none = d
  data_decoded d slot (some x) = record d { loop = sending_data slot x }

  -- deliverStreamData up to the send
  unfoldable pub deliver_stream_data : Codec → Daemon n → Frame → Daemon n
  deliver_stream_data codec d f = elim (Maps.get d.streams f.req_id) [
    | none ↦ d
    | some slot ↦ data_decoded d slot (codec.decode_stream_data f.payload)
  ]

  abbrev pub stopped : Daemon n → ℕ → Option (Slot StreamData) → Daemon n
  stopped d slot none = d
  stopped d slot (some s) = record d {
    stream_slots = Maps.put d.stream_slots slot (record s { cancelled = true });
  }

  -- closeStream cancels the context of the stream's handler, which will then return.
  unfoldable pub close_stream : Daemon n → Bytes → Daemon n
  close_stream d stream_id = elim (Maps.get d.streams stream_id) [
    | none ↦ d
    | some slot ↦ stopped d slot (Maps.get d.stream_slots slot)
  ]

  -- dispatch
  unfoldable pub dispatch : Codec → Daemon n → Frame → Daemon n
  dispatch codec d f =
      if f.type == FrameType.ping
      then emit d (
          send_inner n d.channel
            (record { type = FrameType.pong; req_id = f.req_id; payload = [] }))
      else if f.type == FrameType.exec_request
      then start d (exec f)
      else if f.type == FrameType.file_read_request
      then start d (read f)
      else if f.type == FrameType.file_write_request
      then start (begin_write d f.req_id) (write f d.next_slot)
      else if f.type == FrameType.file_edit_request
      then start d (edit f)
      else if f.type == FrameType.list_dir_request
      then start d (list_dir f)
      else if f.type == FrameType.stat_request
      then start d (stat f)
      else if f.type == FrameType.upload_request
      then start (begin_write d f.req_id) (upload f d.next_slot)
      else if f.type == FrameType.download_request
      then start d (download f)
      else if f.type == FrameType.bg_exec_request
      then start d (bg_exec f)
      else if f.type == FrameType.search_request
      then start d (search f)
      else if f.type == FrameType.capabilities_request
      then start d (capabilities f)
      else if f.type == FrameType.file_chunk
      then deliver_file_chunk codec d f
      else if f.type == FrameType.stream_open
      then opened d (codec.decode_stream_open f.payload)
      else if f.type == FrameType.stream_data
      then deliver_stream_data codec d f
      else if f.type == FrameType.stream_close
      then close_stream d f.req_id
      else d

  abbrev pub decoded : Codec → Daemon n → Result Proto.Error Frame → Daemon n
  decoded codec d (err e) = d
  decoded codec d (ok inner) = dispatch codec d inner

  abbrev pub unwrapped : Codec → Daemon n → Result Error Bytes × Channel n → Daemon n
  unwrapped codec d (err e, c) = record d { channel = c }
  unwrapped codec d (ok bytes, c) = decoded codec (record d { channel = c }) (decode bytes)

  abbrev pub answered : Daemon n → Frame × Channel n → Daemon n
  answered d (f, c) = record d { channel = c; sent = d.sent ++ (f ∷ []) }

  -- A round of the loop, for a frame and the random bytes that a handshake takes.
  unfoldable pub receive : Codec → Bytes → Daemon n → Frame → Daemon n
  receive codec random d f =
      if f.type == FrameType.noise_init
      then answered d (handle_noise_init n random d.channel f)
      else if f.type == FrameType.route
      then unwrapped codec d (unwrap_route n d.channel f.payload)
      else d
