-- ===== src/Tools/Background.antt =====
-- BgRegistry of internal/tools/bgexec.go: background processes and what a client asks of them.
-- Whether a process starts, a signal is delivered and a process ends, and the time, come from
-- outside. The texts for people in `ErrDetail` are left out.
pub mod Ending
pub mod Logs
pub mod Lifecycle
use agbridge.Prelude.{
  ℕ, ◌+◌, ◌-◌, ◌*◌, ◌/◌, ◌^◌, List, [], ◌∷◌, ◌++◌, Bytes, codes, Bool, true, false, not, ◌&&◌, ◌||◌,
  ◌==◌, leb, bytes_eq, nat_eq, ltb, if◌then◌else◌, Option, none, some,
}
use agbridge.Prelude.Maps
use agbridge.Prelude.Maps.{Map, entries}
use agbridge.Tools.Buffer.{BgBuffer, new_bg_buffer, write, Offset, since_offset, tail}

abbrev pub bg_buffer_cap : ℕ
bg_buffer_cap = 2 ^ 20

-- "running", "exited", "killed", "failed"
pub data ProcessState : Type 0 where
  running exited killed failed : ProcessState

-- -1 where there is no code.
pub data ExitCode : Type 0 where
  no_code : ExitCode
  code : ℕ → ExitCode

-- A zero time is `none`. Times are in nanoseconds.
pub record BgProcess : Type 0 where
  pub id : Bytes
  pub label : Bytes
  pub cmd : Bytes
  pub stdout : BgBuffer
  pub stderr : BgBuffer
  pub started_at : ℕ
  pub state : ProcessState
  pub exitcode : ExitCode
  pub ended_at : Option ℕ
  pub last_output_at : Option ℕ

pub record BgRegistry : Type 0 where
  pub processes : Map Bytes BgProcess
  pub idle_gc : ℕ

-- The fields that the registry's methods read. A number of lines that is not positive is 0.
pub record BgExecRequest : Type 0 where
  pub cmd : Bytes
  pub cwd : Bytes
  pub label : Bytes
  pub process_id : Bytes
  pub tail_lines : ℕ
  pub since : Offset
  pub signal : Bytes

pub record Snapshot : Type 0 where
  pub process_id : Bytes
  pub label : Bytes
  pub state : ProcessState
  pub exitcode : ExitCode
  pub started_at : ℕ
  pub ended_at : ℕ
  pub duration_ms : ℕ
  pub last_output_at : ℕ

pub record LogOutput : Type 0 where
  pub process_id : Bytes
  pub stdout : Bytes
  pub stderr : Bytes
  pub stdout_trunc : Bool
  pub stderr_trunc : Bool
  pub next_offset : ℕ

pub data BgExecResponse : Type 0 where
  failure : (err : Bytes) → BgExecResponse
  started : (id label : Bytes) → (started_at : ℕ) → BgExecResponse
  snapshot : Snapshot → BgExecResponse
  output : LogOutput → BgExecResponse

abbrev pub new_bg_registry : BgRegistry
new_bg_registry = record { processes = Maps.empty; idle_gc = 3600 * 1000000000 }

abbrev pub registered : BgRegistry → BgProcess → BgRegistry
registered r p = record r { processes = Maps.put r.processes p.id p }

-- `id` is the random identifier, `spawned` whether the pipes and the process could be made.
unfoldable pub start_bg :
    (exec_enabled spawned : Bool) (id : Bytes) (now : ℕ)
    → BgExecRequest
    → BgRegistry
    → BgExecResponse × BgRegistry
start_bg exec_enabled spawned id now req r =
    if req.cmd == []
    then (failure (codes "bad_payload"), r)
    else if req.cwd == []
    then (failure (codes "bad_payload"), r)
    else if not exec_enabled
    then (failure (codes "tool_forbidden"), r)
    else if not spawned
    then (failure (codes "spawn_failed"), r)
    else (
      started id req.label (now / 1000000000),
      registered r (record {
        id = id;
        label = req.label;
        cmd = req.cmd;
        stdout = new_bg_buffer bg_buffer_cap;
        stderr = new_bg_buffer bg_buffer_cap;
        started_at = now;
        state = running;
        exitcode = code 0;
        ended_at = none;
        last_output_at = none;
      }),
    )

pub data Stream : Type 0 where
  out err : Stream

-- One round of `pump`.
unfoldable pub pump : Stream → Bytes → (now : ℕ) → BgProcess → BgProcess
pump out bs now p = record p { stdout = write p.stdout bs; last_output_at = some now }
pump err bs now p = record p { stderr = write p.stderr bs; last_output_at = some now }

-- What `cmd.Wait` returns: success, an exit error with its code, another error.
pub data Waited : Type 0 where
  success : Waited
  exit_error : ExitCode → Waited
  other_error : Waited

abbrev pub end_state : ProcessState → Waited → ExitCode → ProcessState × ExitCode
end_state killed w e = (killed, e)
end_state _ success e = (exited, code 0)
end_state _ (exit_error c) e = (exited, c)
end_state _ other_error e = (failed, no_code)

-- The goroutine that waits for the process.
unfoldable pub ends : Waited → (now : ℕ) → BgProcess → BgProcess
ends w now p =
    let (state, exitcode) = end_state p.state w p.exitcode in
    record p { ended_at = some now; state = state; exitcode = exitcode }

-- time.Time's Unix, and 0 for a zero time, which the answer leaves out.
abbrev pub unix : ℕ → ℕ
unix t = t / 1000000000

abbrev pub unix_or_zero : Option ℕ → ℕ
unix_or_zero none = 0
unix_or_zero (some t) = unix t

abbrev pub duration : (now started_at : ℕ) → Option ℕ → ℕ
duration now started_at none = (now - started_at) / 1000000
duration now started_at (some ended) = (ended - started_at) / 1000000

abbrev pub status_from : (now : ℕ) → BgProcess → BgExecResponse
status_from now p = snapshot (record {
  process_id = p.id;
  label = p.label;
  state = p.state;
  exitcode = p.exitcode;
  started_at = unix p.started_at;
  ended_at = unix_or_zero p.ended_at;
  duration_ms = duration now p.started_at p.ended_at;
  last_output_at = unix_or_zero p.last_output_at;
})

abbrev pub with_process :
    (BgProcess → BgExecResponse × BgRegistry)
    → Option BgProcess
    → BgRegistry
    → BgExecResponse × BgRegistry
with_process f none r = (failure (codes "not_found"), r)
with_process f (some p) r = f p

unfoldable pub status : (now : ℕ) → BgExecRequest → BgRegistry → BgExecResponse × BgRegistry
status now req r =
    with_process (λ p. (status_from now p, r)) (Maps.get r.processes req.process_id) r

-- The two reads of `Logs`.
abbrev pub read_logs : BgExecRequest → BgBuffer → Bytes × ℕ × Bool
read_logs req b = if ltb 0 req.tail_lines then tail b req.tail_lines else since_offset b req.since

abbrev pub later : ℕ → ℕ → ℕ
later out_offset err_offset = if ltb out_offset err_offset then err_offset else out_offset

unfoldable pub logs_of : BgExecRequest → BgProcess → LogOutput
logs_of req p =
    let (out_bytes, out_offset, out_trunc) = read_logs req p.stdout in
    let (err_bytes, err_offset, err_trunc) = read_logs req p.stderr in
    record {
      process_id = p.id;
      stdout = out_bytes;
      stderr = err_bytes;
      stdout_trunc = out_trunc;
      stderr_trunc = err_trunc;
      next_offset = later out_offset err_offset;
    }

unfoldable pub logs : BgExecRequest → BgRegistry → BgExecResponse × BgRegistry
logs req r = with_process (λ p. (output (logs_of req p), r)) (Maps.get r.processes req.process_id) r
