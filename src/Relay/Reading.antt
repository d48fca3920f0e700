-- ===== src/Relay/Reading.antt =====
-- A file from the daemon's ReadFile to the result of the bridge's ReadFileHandler.
use agbridge.Prelude.{
  ℕ, ◌+◌, ◌≤◌, ◌<◌, ◌≡◌, ◌≢◌, refl, sym, ◌∙◌, ap, subst, List, [], ◌∷◌, ◌++◌, append_assoc,
  append-nil, Bytes, bytes_eq, nat_eq, length, length-append, drop, pos_part, ltb, ◌==◌, eq_iff,
  not, if◌then◌else◌, if_both, ℤ, Bool, true, false, Bool-cases, Option-cases, Option, none, some,
  ok, err, Result, inl, inr, ◌⊎◌, arith,
}
use agbridge.Hex
use agbridge.Proto.{Frame}
use agbridge.Errcode
use agbridge.Tools.Payload.{FileReadRequest, FileChunk, FileComplete}
use agbridge.Tools.Transfer.{answer, context_error, pending, written_complete}
use agbridge.Tools.ReadFile.{Round, Sent, hard_cap, content}
use agbridge.Tools.ReadFile.Stream.{Sends, joined, wanted, read_file-Sends}
use agbridge.Tools.ReadFile.Ending.{Gives, IsAnswer, read_file-IsAnswer}
use agbridge.Client.Files.{
  ClientCodec, Event, received, Outcome, ReadResult, read_loop, build_read_file_result,
  max_buffered_output,
}
use agbridge.Daemon.Handlers.{FileCodec, handle_read, streamed, max_file_bytes}

-- What the frames' payloads are made with on the daemon's side is read back on the bridge's.
pub record Agree (d : FileCodec) (c : ClientCodec) : Type 0 where
  pub chunks : (k : FileChunk) → c.decode_chunk (d.encode_chunk k) ≡ ok k
  pub completes : (k : FileComplete) → c.decode_complete (d.encode_complete k) ≡ ok k

abbrev pub events : List Frame → List Event
events [] = []
events (f ∷ fs) = received f ∷ events fs

data IsError : Outcome ReadResult → Type 0 where
  fails : {e : Errcode.Error} → IsError (some (err e))

-- An error, or the part of the file, as text or in base64.
abbrev pub Shows : (Bytes → Bytes) → ClientCodec → Bytes → Outcome ReadResult → Type 0
Shows sha256 c part none = ⊥
Shows sha256 c part (some (err e)) = Unit
Shows sha256 c part (some (ok r)) =
    (r.size ≡ length part)
    × (r.sha256 ≡ Hex.encode (sha256 part))
    × ((r.text ≡ part) ⊎ (r.content_b64 ≡ some (c.encode_base64 part)))

error-Shows :
    (sha256 : Bytes → Bytes) (c : ClientCodec) (part : Bytes) (o : Outcome ReadResult)
    → IsError o
    → Shows sha256 c part o
error-Shows sha256 c part (some (err e)) fails = tt
error-Shows sha256 c part (some (ok r)) h = elim h [ ]
error-Shows sha256 c part none h = elim h [ ]

hard_cap_le : (cap : ℕ) (size : ℤ) → hard_cap cap size ≤ cap
hard_cap_le cap size = ground arith

module _ (d : FileCodec) (c : ClientCodec) (a : Agree d c) (id : Bytes) where
  -- The loop takes the chunks one after the other, and then builds the result.
  loop-streamed :
      (cs : List FileChunk) (k : FileComplete) (got : Bytes)
      → length got + length (joined cs) ≤ max_buffered_output
      → read_loop c (events (streamed d id (cs, answer k))) got
        ≡ build_read_file_result c (got ++ joined cs) k
  unfolding read_loop
  loop-streamed [] k got h = rw (a.completes k, append-nil got) refl
  loop-streamed (x ∷ cs) k got h =
      let small : ltb max_buffered_output (length got + length x.bytes) ≡ false =
        ground (arith, h, length-append x.bytes (joined cs)) in
      rw (a.chunks x, small, ← append_assoc got x.bytes (joined cs))
        (loop-streamed cs k (got ++ x.bytes)
          (omega (arith, h, length-append x.bytes (joined cs), length-append got x.bytes)))

  built-failed :
      (got : Bytes) (k : FileComplete) → k.err ≢ [] → IsError (build_read_file_result c got k)
  unfolding build_read_file_result
  built-failed got k bad = elim (Bool-cases (k.err == [])) [
    | inl empty ↦ absurd (bad ((eq_iff k.err []).0 empty))
    | inr some' ↦ rw some' fails
  ]

  -- A completion with an error makes the result an error.
  loop-failed :
      (cs : List FileChunk) (k : FileComplete) (got : Bytes)
      → k.err ≢ []
      → IsError (read_loop c (events (streamed d id (cs, answer k))) got)
  unfolding read_loop
  loop-failed [] k got bad = rw (a.completes k) (built-failed got k bad)
  loop-failed (x ∷ cs) k got bad =
      let later = loop-failed cs k (got ++ x.bytes) bad in
      rw (a.chunks x) (search (if_both IsError, fails, later))

  built-Shows :
      (sha256 : Bytes → Bytes) (part : Bytes)
      → Shows sha256 c part (build_read_file_result c part (written_complete sha256 part))
  unfolding build_read_file_result agbridge.Prelude.bytes_beq
  built-Shows sha256 part = elim (Bool-cases (c.valid_utf8 part)) [
    | inl text ↦ rw text (refl, refl, inl refl)
    | inr binary ↦ rw binary (refl, refl, inr refl)
  ]

  sent-Shows :
      (sha256 : Bytes → Bytes) (hard soft : ℕ) (left : Bytes) (p : Sent)
      → hard ≤ max_buffered_output
      → IsAnswer p
      → Sends sha256 hard soft [] left p
      → Shows sha256 c (wanted soft 0 left) (read_loop c (events (streamed d id p)) [])
  sent-Shows sha256 hard soft left (cs, context_error) h ans s = elim ans [ ]
  sent-Shows sha256 hard soft left (cs, pending) h ans s = elim ans [ ]
  sent-Shows sha256 hard soft left (cs, answer k) h ans (inl bad) =
      error-Shows sha256 c _ _ (loop-failed cs k [] bad)
  sent-Shows sha256 hard soft left (cs, answer k) h ans (inr (part, whole, _, fits)) =
      rw (loop-streamed cs k [] (omega (arith, fits, h)), whole, part)
        (built-Shows sha256 (wanted soft 0 left))

-- What ReadFileHandler makes of the daemon's answer to a request for a part of a file that can be opened:
-- it returns, with an error or with exactly the requested part, as text or in base64, its size and its
-- digest. The part is what follows the offset, up to the limit where there is one. All frames of the
-- answer must come in order, the payloads be read as they were written, the daemon's context live, and
-- Read give something in each of more rounds than the file has bytes.
pub read_loop-handle_read :
    (d : FileCodec) (c : ClientCodec) (sha256 : Bytes → Bytes) (decimal : ℕ → Bytes) (f : Frame)
    (req : FileReadRequest) (rounds : List Round) (b : Bytes)
    → Agree d c
    → d.decode_read f.payload ≡ some req
    → Gives rounds
    → length b < length rounds
    → Shows sha256 c
        (wanted (pos_part req.limit) 0 (drop (pos_part req.offset) b))
        (read_loop c (events (handle_read d sha256 decimal f rounds (content b))) [])
unfolding handle_read
read_loop-handle_read d c sha256 decimal f req rounds b a reads g h =
    rw (handle_read, reads)
      (sent-Shows d c a f.req_id sha256 (hard_cap max_file_bytes req.max_size) (pos_part req.limit)
        (drop (pos_part req.offset) b) _ (hard_cap_le max_file_bytes req.max_size)
        (read_file-IsAnswer sha256 req max_file_bytes rounds b g h)
        (read_file-Sends sha256 req max_file_bytes rounds b))
