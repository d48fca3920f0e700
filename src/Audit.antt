-- ===== src/Audit.antt =====
-- internal/audit/writer.go: the audit log, a file that is rotated. The JSON of an event, the numerals in
-- the names of the backups and what the system answers are arguments.
pub mod Paths
pub mod Rotation
pub mod Silence
use agbridge.Prelude.{
  ℕ, zero, suc, ◌+◌, ◌-◌, List, [], ◌∷◌, ◌++◌, Bytes, bytes_eq, codes, length, take, ltb, not, ◌&&◌,
  if◌then◌else◌, Bool, true, false, Option, none, some,
}
use agbridge.Prelude.Maps
use agbridge.Files
use agbridge.Files.{File, Files, unlink, rename}

pub record Options : Type 0 where
  pub max_bytes : ℕ
  pub max_backups : ℕ

-- `live` is whether the file behind the writer is still open.
pub record Writer : Type 0 where
  pub live : Bool
  pub path : Bytes
  pub size : ℕ
  pub max_bytes : ℕ
  pub backups : ℕ

-- What the system answers during one call: a rename is known by the number of the file it moves, 0 for
-- the active one; a write that fails has written so many bytes.
pub record System : Type 0 where
  pub close_works : Bool
  pub rename_works : ℕ → Bool
  pub open_works : Bool
  pub remove_works : Bool
  pub short_write : Option ℕ

-- os.OpenFile with O_APPEND and O_CREATE
abbrev pub opened : Files → Bytes → Option File → Files
opened fs path none = Maps.put fs path (record { content = []; mode = 420 })
opened fs path (some f) = fs

abbrev pub size_of : Option File → ℕ
size_of none = 0
size_of (some f) = length f.content

-- OpenWith, where OpenFile and Stat work
unfoldable pub open_with : Bytes → Options → Files → Writer × Files
open_with path opts fs = (
  record {
    live = true;
    path = path;
    size = size_of (Maps.get fs path);
    max_bytes = opts.max_bytes;
    backups = opts.max_backups;
  },
  opened fs path (Maps.get fs path),
)

module _ (decimal : ℕ → Bytes) (o : System) where
  abbrev pub backup : Bytes → ℕ → Bytes
  backup path i = path ++ (codes "." ++ decimal i)

  abbrev pub try_rename : ℕ → Files → Bytes → Bytes → Files
  try_rename i fs from to = if o.rename_works i then rename fs from to else fs

  -- The loop of rotateLocked, from the given backup down to the first
  unfoldable pub shift : Bytes → ℕ → Files → Files
  shift path zero fs = fs
  shift path (suc i) fs =
      shift path i (try_rename (suc i) fs (backup path (suc i)) (backup path (i + 2)))

  abbrev pub shifted : Writer → Files → Files
  shifted w fs =
      try_rename 0
        (shift w.path (w.backups - 1) (unlink o.remove_works fs (backup w.path w.backups))) w.path
        (backup w.path 1)

  -- rotateLocked: whether it works. A file that is closed cannot be closed again.
  unfoldable pub rotate_locked : Writer → Files → Bool × Writer × Files
  rotate_locked w fs =
      if not (w.live && o.close_works)
      then (false, record w { live = false }, fs)
      else let moved = shifted w fs in
        if not o.open_works
        then (false, record w { live = false }, moved)
        else (true, record w { live = true; size = 0 }, opened moved w.path (Maps.get moved w.path))

  abbrev pub write_line : Writer → Files → Bytes → Option ℕ → Bool × Writer × Files
  write_line w fs b none = (true, record w { size = w.size + length b }, Files.append fs w.path b)
  write_line w fs b (some n) =
      (false, record w { size = w.size + length (take n b) }, Files.append fs w.path (take n b))

  -- The write, on a file that must be open
  abbrev pub written : Bytes → Bool × Writer × Files → Bool × Writer × Files
  written b (false, w, fs) = (false, w, fs)
  written b (true, w, fs) = if w.live then write_line w fs b o.short_write else (false, w, fs)

  -- The rotation that Append makes where it is due
  abbrev pub due : Writer → Bytes → Bool
  due w b = ltb 0 w.max_bytes && (ltb 0 w.backups && ltb w.max_bytes (w.size + length b))

  abbrev pub made_room : Writer → Files → Bytes → Bool × Writer × Files
  made_room w fs b = if due w b then rotate_locked w fs else (true, w, fs)

  -- Append, for an event's JSON, none if it cannot be encoded: whether it works.
  unfoldable pub append : Option Bytes → Writer → Files → Bool × Writer × Files
  append none w fs = (false, w, fs)
  append (some json) w fs = let b = json ++ (10 ∷ []) in written b (made_room w fs b)

-- Close
unfoldable pub close : Writer → Writer
close w = record w { live = false }

-- Calls of Append in a row, each with what the system answers to it.
unfoldable pub append_all :
    (ℕ → Bytes) → List (System × Option Bytes) → Writer → Files → List Bool × Writer × Files
append_all decimal [] w fs = ([], w, fs)
append_all decimal ((o, event) ∷ rest) w fs =
    let (works, w', fs') = append decimal o event w fs in
    let (later, w'', fs'') = append_all decimal rest w' fs' in (works ∷ later, w'', fs'')
