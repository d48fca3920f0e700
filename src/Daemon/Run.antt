-- ===== src/Daemon/Run.antt =====
-- The loop and the handlers of cmd/agbridge/daemon.go in any interleaving. The context of the
-- session is cancelled only when the loop ends, so that no send or receive is given up before.
use agbridge.Prelude.{
  ℕ, List, [], ◌∷◌, ◌++◌, Bytes, bytes_eq, nat_eq, length, ltb, if◌then◌else◌, false, Option, none,
  some,
}
use agbridge.Prelude.Maps
use agbridge.Prelude.Maps.{Map}
use agbridge.Proto.{Frame}
use agbridge.E2e.{Noise}
use agbridge.Tools.Payload.{FileChunk}
use agbridge.Daemon.Dispatch.{
  Codec, Slot, Loop, ready, sending_chunk, sending_data, Daemon, write_cap, stream_cap, receive,
}

-- A frame comes, the loop tries to send to a slot's channel, a handler takes what its slot holds
-- first, or returns, the request's or stream's id given.
pub data Move : Type 0 where
  arrives : (random : Bytes) → Frame → Move
  push : Move
  take_chunk take_data : (slot : ℕ) → Move
  return_write return_stream : (id : Bytes) (slot : ℕ) → Move

abbrev rest : {A : Type 0} → List A → List A
rest [] = []
rest (x ∷ xs) = xs

-- A handler takes the first of what its channel holds.
abbrev pub taken : {A : Type 0} → Map ℕ (Slot A) → ℕ → Option (Slot A) → Map ℕ (Slot A)
taken slots i none = slots
taken slots i (some s) =
    if s.running then Maps.put slots i (record s { inbound = rest s.inbound }) else slots

-- A handler runs no more.
abbrev pub ended : {A : Type 0} → Map ℕ (Slot A) → ℕ → Option (Slot A) → Map ℕ (Slot A)
ended slots i none = slots
ended slots i (some s) = Maps.put slots i (record s { running = false })

module _ (n : Noise) where
  abbrev pub pushed_chunk : Daemon n → ℕ → FileChunk → Option (Slot FileChunk) → Daemon n
  pushed_chunk d i c none = d
  pushed_chunk d i c (some s) =
      if ltb (length s.inbound) write_cap
      then record d {
        loop = ready;
        write_slots = Maps.put d.write_slots i (record s { inbound = s.inbound ++ (c ∷ []) });
      }
      else d

  -- The send at which the loop stands, which waits while the channel is full.
  unfoldable pub push_step : Daemon n → Loop → Daemon n
  push_step d ready = d
  push_step d (sending_chunk i c) = pushed_chunk d i c (Maps.get d.write_slots i)
  push_step d (sending_data i x) = elim (Maps.get d.stream_slots i) [
    | none ↦ d
    | some s ↦
        if ltb (length s.inbound) stream_cap
        then record d {
          loop = ready;
          stream_slots = Maps.put d.stream_slots i (record s { inbound = s.inbound ++ (x ∷ []) });
        }
        else d
  ]

  abbrev pub received : Codec → Bytes → Daemon n → Frame → Loop → Daemon n
  received codec random d f ready = receive n codec random d f
  received codec random d f _ = d

  unfoldable pub step : Codec → Daemon n → Move → Daemon n
  step codec d (arrives random f) = received codec random d f d.loop
  step codec d push = push_step d d.loop
  step codec d (take_chunk i) = record d {
    write_slots = taken d.write_slots i (Maps.get d.write_slots i);
  }
  step codec d (take_data i) = record d {
    stream_slots = taken d.stream_slots i (Maps.get d.stream_slots i);
  }
  step codec d (return_write id i) = record d {
    writes = Maps.remove d.writes id;
    write_slots = ended d.write_slots i (Maps.get d.write_slots i);
  }
  step codec d (return_stream id i) = record d {
    streams = Maps.remove d.streams id;
    stream_slots = ended d.stream_slots i (Maps.get d.stream_slots i);
  }

  unfoldable pub run : Codec → Daemon n → List Move → Daemon n
  run codec d [] = d
  run codec d (m ∷ ms) = run codec (step codec d m) ms
