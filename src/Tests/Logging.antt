-- ===== src/Tests/Logging.antt =====
-- The audit log of internal/audit and the tool of internal/tools/exec.go on concrete inputs.
use agbridge.Prelude.{
  ℕ, ◌+◌, ◌==◌, ◌≡◌, refl, zero, suc, List, [], ◌∷◌, ◌++◌, Bytes, bytes_eq, bytes_beq, codes, take,
  All, arith, Bool, true, false, Option, none, some,
}
use agbridge.Prelude.Maps
use agbridge.Files.{File, Files}
use agbridge.Audit.{Writer, System, append, append_all, due, backup}
use agbridge.Audit.Rotation.{Added, Knows, append-Added}
use agbridge.Audit.Silence.{append-silences}
use agbridge.Tools.Exec.{Reading, build_env, stream_chunks, max_bytes_per_stream}
use agbridge.Tools.Exec.Output.{joined, Allowed, stream_chunks_cut, build_env-Allowed}

abbrev tally : ℕ → Bytes
tally n = (48 + n) ∷ []

abbrev works : System
works = record {
  close_works = true;
  rename_works = λ i. true;
  open_works = true;
  remove_works = true;
  short_write = none;
}

abbrev stuck : System
stuck = record works { open_works = false }

abbrev log_file : File
log_file = record { content = codes "{1}\n"; mode = 420 }

abbrev disk : Files
disk = Maps.put Maps.empty (codes "/l") log_file

abbrev writer : Writer
writer = record { live = true; path = codes "/l"; size = 4; max_bytes = 6; backups = 2 }

numbered-apart : (i : ℕ) → (backup tally works (codes "/l") i == codes "/l") ≡ false
unfolding bytes_beq
numbered-apart i = refl

log-Knows : Knows writer disk log_file
unfolding Maps.get agbridge.Prelude.Maps.Assoc.lookup Maps.put bytes_beq
log-Knows = record { live = refl; at = refl; size = refl }

append-works : (append tally works (some (codes "{2}")) writer disk).0 ≡ true
unfolding append agbridge.Audit.rotate_locked
append-works = refl

append-Added_example :
    Added tally works writer log_file
      (codes "{2}\n")
      (append tally works (some (codes "{2}")) writer disk)
append-Added_example =
    append-Added tally works (codes "{2}") writer disk log_file numbered-apart (λ e. cc) (λ e. cc)
      refl log-Knows append-works

abbrev later : List (System × Option Bytes)
later = (works, some (codes "{3}")) ∷ (works, some (codes "{4}")) ∷ []

append-silences_example :
    ((append tally stuck (some (codes "{2}")) writer disk).0 ≡ false)
    × All
        (λ (b : Bool). b ≡ false)
        (append_all tally later
          (append tally stuck (some (codes "{2}")) writer disk).1
          (append tally stuck (some (codes "{2}")) writer disk).2).0
    × ((append_all tally later
          (append tally stuck (some (codes "{2}")) writer disk).1
          (append tally stuck (some (codes "{2}")) writer disk).2).2
        ≡ (append tally stuck (some (codes "{2}")) writer disk).2)
append-silences_example = append-silences tally stuck (codes "{2}") writer disk later refl refl

abbrev reads : List Reading
reads =
    record { got = codes "ab"; ended = false }
    ∷ record { got = []; ended = false }
    ∷ record { got = codes "c"; ended = true }
    ∷ []

stream_chunks_cut_example :
    joined (stream_chunks (codes "stdout") 0 reads) ≡ take max_bytes_per_stream (codes "abc")
stream_chunks_cut_example = stream_chunks_cut (codes "stdout") reads

build_env-Allowed_example : All (Allowed (codes "PATH" ∷ [])) (
    build_env
      (codes "PATH" ∷ [])
      (codes "PATH=/bin" ∷ codes "KEY=1" ∷ [])
      ((codes "LD_PRELOAD", codes "/x") ∷ []))
build_env-Allowed_example =
    build_env-Allowed (codes "PATH" ∷ []) (codes "PATH=/bin" ∷ codes "KEY=1" ∷ [])
      ((codes "LD_PRELOAD", codes "/x") ∷ [])
