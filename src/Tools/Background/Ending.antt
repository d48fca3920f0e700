-- ===== src/Tools/Background/Ending.antt =====
-- Kill and GC of internal/tools/bgexec.go.
use agbridge.Prelude.{
  ℕ, ◌+◌, ◌-◌, List, [], ◌∷◌, Bytes, codes, Bool, true, false, not, ◌&&◌, ◌||◌, ◌==◌, leb, bytes_eq,
  nat_eq, ltb, if◌then◌else◌, Option, none, some,
}
use agbridge.Prelude.Maps
use agbridge.Prelude.Maps.{Map, entries}
use agbridge.Prelude.{leb, ◌||◌, ◌+◌, ◌-◌}
use agbridge.Tools.Background.{
  ProcessState, running, killed, BgProcess, BgRegistry, BgExecRequest, BgExecResponse, failure,
  status_from, with_process,
}

pub data Signal : Type 0 where
  term kill int : Signal

abbrev pub upper1 : ℕ → ℕ
upper1 c = if leb 97 c && leb c 122 then c - 32 else c

-- strings.ToUpper, as far as the comparisons see it: besides a to z, the dotless i (U+0131) becomes
-- an I. Every other letter outside ASCII stays outside.
abbrev pub upper : Bytes → Bytes
upper [] = []
upper (x ∷ []) = upper1 x ∷ []
upper (x ∷ y ∷ bs) =
    let rest = upper bs in
    let after = upper (y ∷ bs) in if (x == 196) && (y == 177) then 73 ∷ rest else upper1 x ∷ after

abbrev pub signal_of : Bytes → Option Signal
signal_of s =
    let u = upper s in
    if u == codes "KILL"
    then some kill
    else if u == codes "INT"
    then some int
    else if (u == []) || (u == codes "TERM")
    then some term
    else none

abbrev pub is_running : ProcessState → Bool
is_running running = true
is_running _ = false

unfoldable pub kills : BgProcess → BgProcess
kills p = record p { state = killed }

-- `delivered` is whether the process group takes the signal.
abbrev pub signalled :
    (delivered : Signal → Bool) (now : ℕ)
    → Bytes
    → Option Signal
    → BgProcess
    → BgRegistry
    → BgExecResponse × BgRegistry
signalled delivered now id none p r = (failure (codes "bad_payload"), r)
signalled delivered now id (some sig) p r =
    if not (delivered sig)
    then if not (is_running p.state)
      then (status_from now p, r)
      else (failure (codes "kill_failed"), r)
    else (status_from now (kills p), record r { processes = Maps.put r.processes id (kills p) })

unfoldable pub kill_process :
    (delivered : Signal → Bool) (now : ℕ) → BgExecRequest → BgRegistry → BgExecResponse × BgRegistry
kill_process delivered now req r =
    with_process (λ p. signalled delivered now req.process_id (signal_of req.signal) p r)
      (Maps.get r.processes req.process_id) r

abbrev pub idle : (now idle_gc : ℕ) → Option ℕ → Bool
idle now idle_gc none = false
idle now idle_gc (some ended) = ltb (ended + idle_gc) now

-- The processes left, and the identifiers removed.
unfoldable pub collect :
    (now idle_gc : ℕ)
    → List (Bytes × BgProcess)
    → Map Bytes BgProcess
    → Map Bytes BgProcess × List Bytes
collect now idle_gc [] left = (left, [])
collect now idle_gc ((id, p) ∷ rows) left =
    let (left', removed) = collect now idle_gc rows left in
    if not (is_running p.state) && idle now idle_gc p.ended_at
    then (Maps.remove left' id, id ∷ removed)
    else (left', removed)

unfoldable pub gc : (now : ℕ) → BgRegistry → BgRegistry × List Bytes
gc now r =
    let (left, removed) = collect now r.idle_gc (entries r.processes) r.processes in
    (record r { processes = left }, removed)
