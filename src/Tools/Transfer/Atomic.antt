-- ===== src/Tools/Transfer/Atomic.antt =====
-- WriteFile and UploadChunks put a whole file at the path or change no file.
use agbridge.Prelude.{
  ℕ, ◌≤◌, ◌≡◌, ◌≢◌, Bool, refl, sym, ◌∙◌, ap, List, [], Bytes, bytes_eq, nat_eq, length, ◌==◌, true,
  Bool-cases, Option-cases, inl, inr, ◌⊎◌, if◌then◌else◌, Option, none, some, arith,
}
use agbridge.Prelude.Maps
use agbridge.Files.{File, Files, create_temp, syscall_mode}
use agbridge.Files.Swap.{Holds, create-Holds, chmod-Holds, Kept, unlink-Kept, rename-Holds}
use agbridge.Tools.Payload.{FileWriteRequest, FileComplete}
use agbridge.Tools.Transfer.{
  Pull, Returned, answer, context_error, pending, System, write_file, complete, stopped,
  interrupted, waiting, rename_or, discard, written_complete, commit_write, after_write, Collected,
}
use agbridge.Tools.Transfer.Content.{delivered, Ends, collect-Ends, collect_delivers, Gives}

module _ (sha256 : Bytes → Bytes) (fs : Files) (tmp : Bytes) (removes : Bool) (path : Bytes)
    (cap : ℕ) where
  -- What a call may leave: an answer with an error and the files as they were, or an answer without
  -- one and all that was delivered, with its size and digest in the answer, in one file at the path.
  abbrev pub Swapped : ℕ → (Bytes → Type 0) → List Pull → Returned × Files → Type 0
  Swapped mode Accepted pulls (answer c, fs') =
      ((c.err ≢ []) × Kept removes tmp fs fs')
      ⊎ ((content : Bytes) × (delivered pulls ≡ some content)
          × (length content ≤ cap)
          × Accepted content
          × (c ≡ written_complete sha256 content)
          × Holds fs path (record { content = content; mode = mode }) fs')
  Swapped mode Accepted pulls (context_error, fs') = Kept removes tmp fs fs'
  Swapped mode Accepted pulls (pending, fs') = (f : File) × Holds fs tmp f fs'

  module _ (fresh : Maps.get fs tmp ≡ none) where
    pub discard-Swapped :
        (mode : ℕ) (Accepted : Bytes → Type 0) (pulls : List Pull) (f : File) (fs' : Files)
        (c : FileComplete)
        → Holds fs tmp f fs'
        → c.err ≢ []
        → Swapped mode Accepted pulls (discard tmp removes fs' c)
    discard-Swapped mode Accepted pulls f fs' c h bad =
        inl (bad, unlink-Kept removes fs tmp f fs' fresh h)

    pub rename_or-Swapped :
        (mode : ℕ) (Accepted : Bytes → Type 0) (pulls : List Pull) (detail : Bytes → Bytes)
        (e : Option Bytes) (fs' : Files) (content : Bytes)
        → Holds fs tmp (record { content = content; mode = mode }) fs'
        → delivered pulls ≡ some content
        → length content ≤ cap
        → Accepted content
        → Swapped mode Accepted pulls (rename_or sha256 detail e tmp removes path fs' content)
    rename_or-Swapped mode Accepted pulls detail none fs' content h all fits good =
        inr (content, all, fits, good, refl, rename-Holds fs tmp path _ fs' fresh h)
    rename_or-Swapped mode Accepted pulls detail (some e) fs' content h all fits good =
        discard-Swapped mode Accepted pulls _ fs' _ h (λ e. cc)

abbrev pub mode_of : FileWriteRequest → ℕ
mode_of req = syscall_mode (if req.mode == 0 then 420 else req.mode)

module _ (sha256 : Bytes → Bytes) (o : System) (req : FileWriteRequest) (cap : ℕ) (fs : Files)
    (fresh : Maps.get fs o.temp_name ≡ none) where
  abbrev Written : List Pull → Returned × Files → Type 0
  Written pulls r =
      Swapped sha256 fs o.temp_name o.removes req.path cap (mode_of req) (λ _. Unit {0}) pulls r

  commit_write-Swapped :
      (pulls : List Pull) (fs' : Files) (content : Bytes)
      → Holds fs o.temp_name (record { content = content; mode = 384 }) fs'
      → delivered pulls ≡ some content
      → length content ≤ cap
      → Written pulls (commit_write sha256 o req fs' content)
  unfolding commit_write
  commit_write-Swapped pulls fs' content h all fits = elim (Option-cases o.close_error) [
    | inr (e, at) ↦ rw at (
        discard-Swapped sha256 fs o.temp_name o.removes req.path cap fresh _ _ pulls _ fs' _ h
          (λ e. cc))
    | inl at ↦ elim (Bool-cases o.chmod_works) [
      | inl works ↦
          rw (at, works)
            (rename_or-Swapped sha256 fs o.temp_name o.removes req.path cap fresh (mode_of req) _
              pulls (λ e. []) o.rename_error _ content
              (chmod-Holds fs o.temp_name _ fs' (if req.mode == 0 then 420 else req.mode) h) all
              fits tt)
      | inr fails ↦
          rw (at, fails)
            (discard-Swapped sha256 fs o.temp_name o.removes req.path cap fresh _ _ pulls _ fs' _ h
              (λ e. cc))
    ]
  ]

  after_write-Swapped :
      (pulls : List Pull) (r : Collected)
      → Ends fs o.temp_name o.removes 384 cap [] (λ e. []) fresh [] pulls r
      → Written pulls (after_write sha256 o req r)
  after_write-Swapped pulls (complete fs' content) h =
      commit_write-Swapped pulls fs' content h.0 (h.1.1 ∙ ap some (sym h.1.2)) h.2
  after_write-Swapped pulls (stopped fs' c) h = inl (h.1, h.0)
  after_write-Swapped pulls (interrupted fs') h = h
  after_write-Swapped pulls (waiting fs' content) h = (_, h)

  -- WriteFile answers with an error, or ends by the context's, and changes no file, but that its
  -- temporary file is left where it cannot be removed; or it answers with none, and the path holds
  -- exactly what was delivered up to the last chunk, at most the cap, with the mode that os.Chmod makes
  -- of the requested one and its size and digest in the answer, and no other file has changed.
  -- While the source keeps it waiting, only the temporary file is there in addition. The temporary
  -- file's name must be new.
  pub write_file-Swapped :
      (pulls : List Pull) → Written pulls (write_file sha256 o req cap pulls fs)
  unfolding write_file commit_write
  write_file-Swapped pulls = elim (Option-cases o.temp_error) [
    | inr (e, at) ↦ rw at (inl (λ e. cc, λ q _. refl))
    | inl at ↦ rw at (
        after_write-Swapped pulls _ (
          collect-Ends fs o.temp_name o.removes 384 cap [] (λ e. []) fresh pulls
            (create_temp fs o.temp_name) [] (create-Holds fs o.temp_name) (omega arith)))
  ]

-- No call of the system fails.
pub record Works (o : System) : Type 0 where
  pub makes : o.mkdir_error ≡ none
  pub opens : o.temp_error ≡ none
  pub syncs : o.sync_error ≡ none
  pub closes : o.close_error ≡ none
  pub chmods : o.chmod_works ≡ true
  pub renames : o.rename_error ≡ none

module _ (sha256 : Bytes → Bytes) (o : System) (req : FileWriteRequest) (cap : ℕ)
    (w : Works o) where
  commit_write-works :
      (fs : Files) (content : Bytes)
      → (commit_write sha256 o req fs content).0 ≡ answer (written_complete sha256 content)
  unfolding commit_write
  commit_write-works fs content = ground (arith, w)

  after_write-works :
      (r : Collected) (content : Bytes)
      → Gives content r
      → (after_write sha256 o req r).0 ≡ answer (written_complete sha256 content)
  after_write-works (complete fs got) content e = rw e (commit_write-works fs content)
  after_write-works (stopped fs c) content e = elim e [ ]
  after_write-works (interrupted fs) content e = elim e [ ]
  after_write-works (waiting fs got) content e = elim e [ ]

  -- WriteFile succeeds whenever the source delivers no more than the cap and no call of the system
  -- fails.
  pub write_file_works :
      (pulls : List Pull) (fs : Files) (content : Bytes)
      → delivered pulls ≡ some content
      → length content ≤ cap
      → (write_file sha256 o req cap pulls fs).0 ≡ answer (written_complete sha256 content)
  unfolding write_file commit_write
  write_file_works pulls fs content all fits = rw w.opens (
      after_write-works _ content (
        collect_delivers o.temp_name o.removes cap [] (λ e. []) pulls (create_temp fs o.temp_name)
          [] content all (omega (arith, fits))))
