-- ===== src/Tools/ReadFile.antt =====
-- ReadFile of internal/tools/readfile.go: a part of a file is sent in chunks. How much each call of
-- Read gives, and whether it fails, is an argument.
pub mod Stream
pub mod Ending
use agbridge.Prelude.{
  ℕ, zero, suc, ◌+◌, ◌-◌, ℤ, is_negative, pos_part, min, List, [], ◌∷◌, ◌++◌, Bytes, bytes_eq,
  nat_eq, codes, length, take, drop, ltb, leb, ◌==◌, ◌&&◌, ◌||◌, if◌then◌else◌, Bool, true, false,
  Option, none, some,
}
use agbridge.Hex
use agbridge.Tools.Payload.{FileReadRequest, FileChunk, FileComplete, zero_complete, failed}
use agbridge.Tools.Transfer.{Returned, answer, context_error, pending, written_complete}

-- 1 MiB
abbrev pub read_chunk_size : ℕ
read_chunk_size = 1048576

-- A round of the loop: the context was cancelled, or Read fails, or Read gives at most one byte more
-- than the number, and reports the end of the file with its last bytes or only after them.
pub data Round : Type 0 where
  cancelled : Round
  fails : Round
  gives : (extra : ℕ) (with_eof : Bool) → Round

abbrev pub chunk_of : Bytes → Bool → FileChunk
chunk_of b eof = record { bytes = b; eof = eof }

abbrev pub Sent : Type 0
Sent = List FileChunk × Returned

abbrev pub also : FileChunk → Sent → Sent
also c (cs, r) = (c ∷ cs, r)

-- How much Read may give.
abbrev pub room : ℕ → ℕ → ℕ
room soft total =
    if ltb 0 soft && ltb (soft - total) read_chunk_size then soft - total else read_chunk_size

module _ (sha256 : Bytes → Bytes) (hard soft : ℕ) where
  -- The loop, with what is left of the file and what has been sent; a limit of 0 is none.
  unfoldable pub stream : List Round → (left sent : Bytes) → Sent
  stream [] left sent = ([], pending)
  stream (cancelled ∷ rounds) left sent = ([], context_error)
  stream (fails ∷ rounds) left sent =
      if ltb 0 soft && leb soft (length sent)
      then (chunk_of [] true ∷ [], answer (written_complete sha256 sent))
      else ([], answer (failed (length sent) (codes "read_failed") []))
  stream (gives extra with_eof ∷ rounds) left sent =
      let m = min (suc extra) (room soft (length sent)) in
      let got = take m left in
      let rest = drop m left in
      let more = stream rounds rest (sent ++ got) in
      if ltb 0 soft && leb soft (length sent)
      then (chunk_of [] true ∷ [], answer (written_complete sha256 sent))
      else if length got == 0
      then (chunk_of [] true ∷ [], answer (written_complete sha256 sent))
      else if ltb hard (length sent + length got)
      then ([], answer (failed (length sent) (codes "exceeds_max_size") []))
      else if with_eof && length rest == 0
      then (chunk_of got true ∷ [], answer (written_complete sha256 (sent ++ got)))
      else also (chunk_of got false) more

-- os.Open and Seek: no such file, another error, a failing Seek, or the content
pub data Opened : Type 0 where
  missing unreadable unseekable : Opened
  content : Bytes → Opened

abbrev pub hard_cap : ℕ → ℤ → ℕ
hard_cap max_bytes max_size =
    if ltb 0 (pos_part max_size) && ltb (pos_part max_size) max_bytes
    then pos_part max_size
    else max_bytes

module _ (sha256 : Bytes → Bytes) where
  abbrev pub opened : FileReadRequest → ℕ → List Round → Opened → Sent
  opened req max_bytes rounds missing = ([], answer (failed 0 (codes "not_found") []))
  opened req max_bytes rounds unreadable = ([], answer (failed 0 (codes "open_failed") []))
  opened req max_bytes rounds unseekable = ([], answer (failed 0 (codes "read_failed") []))
  opened req max_bytes rounds (content b) =
      stream sha256 (hard_cap max_bytes req.max_size) (pos_part req.limit) rounds
        (drop (pos_part req.offset) b) []

  unfoldable pub read_file : FileReadRequest → ℕ → List Round → Opened → Sent
  read_file req max_bytes rounds file =
      if is_negative req.offset
      then ([], answer (failed 0 (codes "bad_payload") (codes "offset must be >= 0")))
      else if is_negative req.limit
      then (
        [],
        answer (failed 0 (codes "bad_payload") (codes "limit must be >= 0 (0 means read to EOF)")),
      )
      else opened req max_bytes rounds file
