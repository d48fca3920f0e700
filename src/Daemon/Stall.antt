-- ===== src/Daemon/Stall.antt =====
-- A chunk for a handler that has returned stops the daemon's loop.
use mathlib.Core.Option.{some-injective}
use agbridge.Prelude.{
  Option, ◌≢◌, ℕ, ◌≡◌, ◌≤◌, refl, sym, ◌∙◌, List, [], ◌∷◌, Bytes, nat_eq, length, ◌==◌, eq_iff,
  Bool-cases, inl, inr, Bool, false, le→ltb, ap, none, some, subst,
}
use agbridge.Prelude.Maps
use agbridge.Prelude.Maps.{Map, map_laws}
use agbridge.Proto.{Frame}
use agbridge.E2e.{Noise}
use agbridge.Tools.Payload.{FileChunk}
use agbridge.Daemon.Dispatch.{Codec, Slot, sending_chunk, Daemon, write_cap}
use agbridge.Daemon.Run.{
  Move, arrives, push, take_chunk, take_data, return_write, return_stream, step, run, push_step,
  pushed_chunk, taken, ended,
}

-- What is done to the slots leaves one alone whose handler has returned.
module _ {A : Type 0} (slots : Map ℕ (Slot A)) (i j : ℕ) (s : Slot A) (over : s.running ≡ false)
    (at : Maps.get slots i ≡ some s) where
  taken_kept : (o : Option (Slot A)) → Maps.get slots j ≡ o → Maps.get (taken slots j o) i ≡ some s
  taken_kept none e = at
  taken_kept (some t) e = elim (Bool-cases t.running) [
    | inr off ↦ rw off at
    | inl on ↦
        let apart : t ≢ s = λ q. cc (ap (λ (x : Slot A). x.running) q, on, over) in
        rw on (Maps.get-put_other slots j i _ (Maps.get_apart slots j i t s e at apart) ∙ at)
  ]

  ended_kept : (o : Option (Slot A)) → Maps.get slots j ≡ o → Maps.get (ended slots j o) i ≡ some s
  ended_kept none e = at
  ended_kept (some t) e = elim (Bool-cases (j == i)) [
    | inr other ↦ Maps.get-put_other slots j i _ other ∙ at
    | inl here ↦
        let same : t ≡ s =
          some-injective _ _ (sym e ∙ (ap (Maps.get slots) ((eq_iff j i).0 here) ∙ at)) in
        rw (← (eq_iff j i).0 here) (
          Maps.get-put_self slots j _
          ∙ ap some (
              ap (λ (x : Slot A). record x { running = false }) same
              ∙ ap (λ (b : Bool). record s { running = b }) (sym over)))
  ]

module _ (n : Noise) (codec : Codec) (i : ℕ) (c : FileChunk) where
  -- The loop waits to send to a channel that is full and from which nobody takes.
  pub record Stalled (d : Daemon n) : Type 0 where
    pub inbound : List FileChunk
    pub cancelled : Bool
    pub waits : d.loop ≡ sending_chunk i c
    pub slot :
        Maps.get d.write_slots i
        ≡ some (record { inbound = inbound; cancelled = cancelled; running = false })
    pub full : write_cap ≤ length inbound

  arrives-waits :
      (d : Daemon n) (random : Bytes) (f : Frame)
      → Stalled d
      → step n codec d (arrives random f) ≡ d
  unfolding step
  arrives-waits d random f s = rw s.waits refl

  push-waits : (d : Daemon n) → Stalled d → step n codec d push ≡ d
  unfolding step push_step
  push-waits d s =
      ap (push_step n d) s.waits
      ∙ (ap (pushed_chunk n d i c) s.slot ∙ rw (le→ltb (length s.inbound) write_cap s.full) refl)

  pub step-Stalled : (d : Daemon n) (m : Move) → Stalled d → Stalled (step n codec d m)
  unfolding step
  step-Stalled d (arrives random f) s = subst Stalled (sym (arrives-waits d random f s)) s
  step-Stalled d push s = subst Stalled (sym (push-waits d s)) s
  step-Stalled d (take_chunk j) s = record {
    inbound = s.inbound;
    cancelled = s.cancelled;
    waits = s.waits;
    slot = taken_kept d.write_slots i j _ refl s.slot _ refl;
    full = s.full;
  }
  step-Stalled d (take_data j) s = record {
    inbound = s.inbound;
    cancelled = s.cancelled;
    waits = s.waits;
    slot = s.slot;
    full = s.full;
  }
  step-Stalled d (return_write id j) s = record {
    inbound = s.inbound;
    cancelled = s.cancelled;
    waits = s.waits;
    slot = ended_kept d.write_slots i j _ refl s.slot _ refl;
    full = s.full;
  }
  step-Stalled d (return_stream id j) s = record {
    inbound = s.inbound;
    cancelled = s.cancelled;
    waits = s.waits;
    slot = s.slot;
    full = s.full;
  }

  -- Once the loop waits to send a chunk to the full channel of a write whose handler has returned, it
  -- waits there whatever frames come and whatever the handlers do: nothing is ever read again.
  pub run-Stalled : (d : Daemon n) (ms : List Move) → Stalled d → Stalled (run n codec d ms)
  unfolding run
  run-Stalled d [] s = s
  run-Stalled d (m ∷ ms) s = run-Stalled (step n codec d m) ms (step-Stalled d m s)

  -- The loop waits to send a chunk to a write's channel, which is full, and the handler of the write
  -- returns, as it does when the file gets too large. Then, whatever frames come and whatever the
  -- handlers do, the loop waits there for good: it reads no frame again.
  pub return-stalls :
      (d : Daemon n) (id : Bytes) (s : Slot FileChunk) (ms : List Move)
      → d.loop ≡ sending_chunk i c
      → Maps.get d.write_slots i ≡ some s
      → write_cap ≤ length s.inbound
      → Stalled (run n codec d (return_write id i ∷ ms))
  unfolding run step
  return-stalls d id s ms waits slot full = run-Stalled _ ms (record {
    inbound = s.inbound;
    cancelled = s.cancelled;
    waits = waits;
    slot =
        ap (λ (o : Option (Slot FileChunk)). Maps.get (ended d.write_slots i o) i) slot
        ∙ Maps.get-put_self d.write_slots i _;
    full = full;
  })
