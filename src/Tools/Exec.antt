-- ===== src/Tools/Exec.antt =====
-- Exec of internal/tools/exec.go. The process, its output and the system's environment are arguments. A map
-- is the list of its entries in the order in which it is walked.
pub mod Output
use agbridge.Prelude.{
  ℕ, ◌+◌, ◌-◌, ◌*◌, ℤ, pos, negsuc, pos_part, List, [], ◌∷◌, ◌++◌, Bytes, bytes_eq, nat_eq, codes,
  length, take, ltb, ◌==◌, ◌||◌, not, if◌then◌else◌, Bool, true, false, Option, none, some, Result,
  ok, err,
}
use agbridge.Tools.Text.{index}

pub record ExecRequest : Type 0 where
  pub cmd : Bytes
  pub args : List Bytes
  pub cwd : Bytes
  pub env : List (Bytes × Bytes)
  pub timeout_ms : ℤ

pub record ExecChunk : Type 0 where
  pub stream : Bytes
  pub bytes : Bytes

pub record ExecComplete : Type 0 where
  pub exit_code : ℤ
  pub duration_ms : ℕ
  pub timed_out : Bool
  pub truncated : Bool

-- 1 MiB
abbrev pub max_bytes_per_stream : ℕ
max_bytes_per_stream = 1048576

abbrev pub allowed : List Bytes → Bytes → Bool
allowed [] name = false
allowed (k ∷ allow) name = k == name || allowed allow name

abbrev pub kept : List Bytes → Bytes → Option ℕ → List Bytes → List Bytes
kept allow kv none rest = rest
kept allow kv (some eq) rest = if allowed allow (take eq kv) then kv ∷ rest else rest

-- The system's variables that are allowed, the name of each being what stands before the first "=".
abbrev pub inherited : List Bytes → List Bytes → List Bytes
inherited allow [] = []
inherited allow (kv ∷ environ) = kept allow kv (index kv (codes "=")) (inherited allow environ)

abbrev pub extra_env : List Bytes → List (Bytes × Bytes) → List Bytes
extra_env allow [] = []
extra_env allow ((k, v) ∷ extra) =
    let rest = extra_env allow extra in
    if allowed allow k then (k ++ (codes "=" ++ v)) ∷ rest else rest

-- buildEnv
unfoldable pub build_env : (allow environ : List Bytes) → List (Bytes × Bytes) → List Bytes
build_env allow environ extra = inherited allow environ ++ extra_env allow extra

-- A call of Read: what it gives, and whether with an error, which the end of the output is too.
pub record Reading : Type 0 where
  pub got : Bytes
  pub ended : Bool

-- streamChunks, with what has been sent: the chunks that it hands on
unfoldable pub stream_chunks : (name : Bytes) → (total : ℕ) → List Reading → List ExecChunk
stream_chunks name total [] = []
stream_chunks name total (r ∷ reads) =
    let n = length r.got in
    let left = max_bytes_per_stream - total in
    let more = stream_chunks name (total + n) reads in
    if ltb 0 n
    then (if ltb max_bytes_per_stream (total + n)
        then (if ltb 0 left then record { stream = name; bytes = take left r.got } ∷ [] else [])
        else record { stream = name; bytes = r.got } ∷ (if r.ended then [] else more))
    else (if r.ended then [] else more)

-- How the process ended: without an error of Wait, with an exit code, or with another error.
pub data Waited : Type 0 where
  succeeded : Waited
  exited : ℤ → Waited
  failed_otherwise : Waited

pub data ExecError : Type 0 where
  exec_disabled : ExecError
  spawn : Bytes → ExecError

-- The pipes or the process could not be made, or what came of it.
pub data Spawned : Type 0 where
  unspawned : Bytes → Spawned
  ran : (stdout stderr : List Reading) → Waited → (duration_ms : ℕ) → (timed_out : Bool) → Spawned

-- In milliseconds
abbrev pub timeout_of : ExecRequest → ℕ
timeout_of req = if pos_part req.timeout_ms == 0 then 300000 else pos_part req.timeout_ms

abbrev pub exit_code_of : Waited → ℤ
exit_code_of succeeded = pos 0
exit_code_of (exited code) = code
exit_code_of failed_otherwise = negsuc 0

abbrev pub finished : Spawned → Result ExecError ExecComplete × List ExecChunk × List ExecChunk
finished (unspawned e) = (err (spawn e), [], [])
finished (ran stdout stderr w duration_ms timed_out) = (
  ok (record {
    exit_code = exit_code_of w;
    duration_ms = duration_ms;
    timed_out = timed_out;
    truncated = false;
  }),
  stream_chunks (codes "stdout") 0 stdout,
  stream_chunks (codes "stderr") 0 stderr,
)

-- Exec, for a spawn that is given the environment and the timeout: the outcome, and the chunks of each
-- stream, which are handed on in any interleaving.
unfoldable pub exec :
    (exec_enabled : Bool)
    → (env_allowlist environ : List Bytes)
    → (ExecRequest → (env : List Bytes) → (timeout : ℕ) → Spawned)
    → ExecRequest
    → Result ExecError ExecComplete × List ExecChunk × List ExecChunk
exec exec_enabled allow environ process req =
    if not exec_enabled
    then (err exec_disabled, [], [])
    else finished (process req (build_env allow environ req.env) (timeout_of req))
