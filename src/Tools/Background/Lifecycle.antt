-- ===== src/Tools/Background/Lifecycle.antt =====
-- How a process of internal/tools/bgexec.go ends.
use agbridge.Prelude.{
  ℕ, ◌≡◌, refl, ◌∙◌, List, [], ◌∷◌, Bytes, bytes_eq, All, ◌&&◌, ◌||◌, Bool, true, false, not, ◌==◌,
  none, if◌then◌else◌, arith, Bool-cases, inl, inr,
}
use agbridge.Prelude.Maps
use agbridge.Prelude.Maps.{Map, get-remove}
use mathlib.Core.List.{Mem, mem-cons_self, mem-cons_of_mem}
use agbridge.Tools.Background.{
  BgProcess, BgRegistry, ProcessState, running, exited, killed, failed, ExitCode, Stream, out, err,
  pump, Waited, success, exit_error, other_error, end_state, ends,
}
use agbridge.Tools.Background.Ending.{kills, is_running, idle, collect, gc}

-- What happens to a process: output, its end, a signal that its group takes.
pub data Happening : Type 0 where
  pumped : Stream → Bytes → (now : ℕ) → Happening
  waited : Waited → (now : ℕ) → Happening
  signalled : Happening

unfoldable pub happens : BgProcess → Happening → BgProcess
happens p (pumped s bs now) = pump s bs now p
happens p (waited w now) = ends w now p
happens p signalled = kills p

unfoldable pub history : BgProcess → List Happening → BgProcess
history p [] = p
history p (h ∷ hs) = history (happens p h) hs

pump-state : (s : Stream) (bs : Bytes) (now : ℕ) (p : BgProcess) → (pump s bs now p).state ≡ p.state
unfolding pump
pump-state out bs now p = refl
pump-state err bs now p = refl

end_state_stopped :
    (s : ProcessState) (w : Waited) (e : ExitCode) → is_running (end_state s w e).0 ≡ false
end_state_stopped killed w e = refl
end_state_stopped running success e = refl
end_state_stopped running (exit_error c) e = refl
end_state_stopped running other_error e = refl
end_state_stopped exited success e = refl
end_state_stopped exited (exit_error c) e = refl
end_state_stopped exited other_error e = refl
end_state_stopped failed success e = refl
end_state_stopped failed (exit_error c) e = refl
end_state_stopped failed other_error e = refl

happens_stopped :
    (p : BgProcess) (h : Happening)
    → is_running p.state ≡ false
    → is_running (happens p h).state ≡ false
unfolding happens ends kills
happens_stopped p (pumped s bs now) stopped = rw (pump-state s bs now p) stopped
happens_stopped p (waited w now) stopped = end_state_stopped p.state w p.exitcode
happens_stopped p signalled stopped = refl

-- A process that was seen not running is never seen running again.
pub history_stopped :
    (p : BgProcess) (hs : List Happening)
    → is_running p.state ≡ false
    → is_running (history p hs).state ≡ false
unfolding history
history_stopped p [] stopped = stopped
history_stopped p (h ∷ hs) stopped = history_stopped (happens p h) hs (happens_stopped p h stopped)

ends-killed :
    (p : BgProcess) (w : Waited) (now : ℕ) → p.state ≡ killed → (ends w now p).state ≡ killed
unfolding ends
ends-killed p w now e = rw e refl

happens-killed : (p : BgProcess) (h : Happening) → p.state ≡ killed → (happens p h).state ≡ killed
unfolding happens kills
happens-killed p (pumped s bs now) e = pump-state s bs now p ∙ e
happens-killed p (waited w now) e = ends-killed p w now e
happens-killed p signalled e = refl

-- A process that took a signal is reported as killed from then on, however it ends.
pub history-killed :
    (p : BgProcess) (hs : List Happening) → p.state ≡ killed → (history p hs).state ≡ killed
unfolding history
history-killed p [] e = e
history-killed p (h ∷ hs) e = history-killed (happens p h) hs (happens-killed p h e)

abbrev pub listed : List Bytes → Bytes → Bool
listed [] id = false
listed (x ∷ xs) id = x == id || listed xs id

collect-left :
    (now idle_gc : ℕ) (rows : List (Bytes × BgProcess)) (start : Map Bytes BgProcess) (id : Bytes)
    → Maps.get (collect now idle_gc rows start).0 id
      ≡ (if listed (collect now idle_gc rows start).1 id then none else Maps.get start id)
unfolding collect
collect-left now idle_gc [] start id = refl
collect-left now idle_gc ((x, p) ∷ rows) start id =
    elim (Bool-cases (not (is_running p.state) && idle now idle_gc p.ended_at)) [
      | inl old ↦ rw old (elim (Bool-cases (x == id)) [
        | inl here ↦ rw (get-remove (collect now idle_gc rows start).0 x id, here) refl
        | inr other ↦
            rw (get-remove (collect now idle_gc rows start).0 x id, other)
              (collect-left now idle_gc rows start id)
      ])
      | inr kept ↦ rw kept (collect-left now idle_gc rows start id)
    ]

collect-finished :
    (now idle_gc : ℕ) (rows : List (Bytes × BgProcess)) (start : Map Bytes BgProcess)
    → All
        (λ id.
          (p : BgProcess) × Mem (id, p) rows
          × (is_running p.state ≡ false)
          × (idle now idle_gc p.ended_at ≡ true))
        (collect now idle_gc rows start).1
unfolding collect
collect-finished now idle_gc [] start = tt
collect-finished now idle_gc ((x, p) ∷ rows) start =
    elim (Bool-cases (not (is_running p.state) && idle now idle_gc p.ended_at)) [
      | inl old ↦ rw old (
        (p, mem-cons_self, ground (arith, old), ground (arith, old)),
        later _ (collect-finished now idle_gc rows start),
      )
      | inr kept ↦ rw kept (later _ (collect-finished now idle_gc rows start))
    ]
  where
    later :
        (ids : List Bytes)
        → All
            (λ id.
              (q : BgProcess) × Mem (id, q) rows
              × (is_running q.state ≡ false)
              × (idle now idle_gc q.ended_at ≡ true))
            ids
        → All
            (λ id.
              (q : BgProcess) × Mem (id, q) ((x, p) ∷ rows)
              × (is_running q.state ≡ false)
              × (idle now idle_gc q.ended_at ≡ true))
            ids
    later [] h = tt
    later (id ∷ ids) ((q, m, s, i), hs) = ((q, mem-cons_of_mem (x, p) m, s, i), later ids hs)

-- `GC` removes exactly what it reports, and reports only processes of the registry that have ended
-- and been idle for longer than the limit.
pub gc_removes :
    (now : ℕ) (r : BgRegistry) (id : Bytes)
    → (Maps.get (gc now r).0.processes id
        ≡ (if listed (gc now r).1 id then none else Maps.get r.processes id))
      × All
          (λ id.
            (p : BgProcess) × Mem (id, p) (Maps.entries r.processes)
            × (is_running p.state ≡ false)
            × (idle now r.idle_gc p.ended_at ≡ true))
          (gc now r).1
unfolding gc
gc_removes now r id = (
  collect-left now r.idle_gc (Maps.entries r.processes) r.processes id,
  collect-finished now r.idle_gc (Maps.entries r.processes) r.processes,
)
