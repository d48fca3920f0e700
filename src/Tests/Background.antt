-- ===== src/Tests/Background.antt =====
-- The buffer of internal/tools/bgexec.go on concrete output.
use agbridge.Prelude.{
  ◌-◌, ◌≡◌, refl, List, [], ◌∷◌, Bytes, codes, length, drop, true, false, ltb, if◌then◌else◌, arith,
}
use agbridge.Prelude.{bytes_beq, bytes_eq, some, none}
use agbridge.Prelude.Maps
use agbridge.Prelude.Maps.{put, get, empty, entries}
use agbridge.Prelude.Maps.Assoc.{lookup, without}
use agbridge.Tools.Buffer.{BgBuffer, tail, scan_back}
use agbridge.Tools.Background.{
  BgProcess, BgRegistry, BgExecRequest, snapshot, running, exited, killed, code, out, pump, logs_of,
  start_bg, new_bg_registry,
}
use agbridge.Tools.Background.Ending.{collect, gc, kill_process, kills}
use agbridge.Tools.Background.Logs.{logs_of-skips, shown, marked}
use agbridge.Tools.Buffer.{new_bg_buffer, write, negative, from, since_offset}
use agbridge.Tools.Buffer.Stream.{writes, concat, since_offset-writes}

abbrev output : List Bytes
output = codes "abc" ∷ codes "defg" ∷ []

abbrev more : List Bytes
more = codes "hi" ∷ []

-- Six bytes are kept of seven; a negative offset is before all of them.
since_offset_negative :
    since_offset (writes (new_bg_buffer 6) output) negative ≡ (codes "bcdefg", 7, true)
unfolding since_offset writes write
since_offset_negative = refl

since_offset-writes_example : since_offset (writes (new_bg_buffer 6) output) (from 3) ≡ (
    if ltb 3 (length (concat output) - 6)
    then (drop (length (concat output) - 6) (concat output), length (concat output), true)
    else (drop 3 (concat output), length (concat output), false))
since_offset-writes_example = since_offset-writes 6 output 3

abbrev quiet : BgExecRequest
quiet = record {
  cmd = codes "make";
  cwd = codes "/";
  label = [];
  process_id = codes "p_1";
  tail_lines = 0;
  since = from 0;
  signal = [];
}

abbrev builder : BgProcess
builder = record {
  id = codes "p_1";
  label = [];
  cmd = codes "make";
  stdout = writes (new_bg_buffer 6) more;
  stderr = writes (new_bg_buffer 6) (codes "warn" ∷ []);
  started_at = 100;
  state = running;
  exitcode = code 0;
  ended_at = none;
  last_output_at = none;
}

-- The two bytes that the process then writes are in no answer.
abbrev next_read : BgExecRequest
next_read = record quiet { since = from (logs_of quiet builder).next_offset }

logs_of-skips_example :
    (shown out (logs_of next_read (pump out (codes "ok") 200 builder)) ≡ [])
    × (marked out (logs_of next_read (pump out (codes "ok") 200 builder)) ≡ false)
unfolding writes write
logs_of-skips_example =
    logs_of-skips out builder quiet next_read 0 (codes "ok") 200 refl refl refl refl (omega arith)

abbrev three_lines : BgBuffer
three_lines = record { retained = 97 ∷ 10 ∷ 98 ∷ 10 ∷ 99 ∷ 10 ∷ []; cap = 6; written = 9 }

tail_two : tail three_lines 2 ≡ (98 ∷ 10 ∷ 99 ∷ 10 ∷ [], 9, true)
unfolding tail scan_back
tail_two = refl

abbrev ended_process : BgProcess
ended_process = record builder { state = exited; ended_at = some 200 }

abbrev killed_process : BgProcess
killed_process = record builder { state = killed }

abbrev registry : BgRegistry
registry = record { processes = Maps.put Maps.empty (codes "p_1") ended_process; idle_gc = 50 }

gc_reports : (gc 300 registry).1 ≡ codes "p_1" ∷ []
unfolding gc collect put empty entries without
gc_reports = refl

-- A process that starts is found by its identifier; a signal is matched in any case.
starts_and_dies :
    (kill_process
      (λ s. true)
      5000000000
      (record quiet { signal = codes "kill" })
      (start_bg true true (codes "p_1") 3000000000 quiet new_bg_registry).1).0
    ≡ snapshot (record {
      process_id = codes "p_1";
      label = [];
      state = killed;
      exitcode = code 0;
      started_at = 3;
      ended_at = 0;
      duration_ms = 2000;
      last_output_at = 0;
    })
unfolding kill_process kills start_bg put get empty lookup without bytes_beq
starts_and_dies = refl
