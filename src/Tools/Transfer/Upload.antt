-- ===== src/Tools/Transfer/Upload.antt =====
-- UploadChunks puts a whole file of the expected size and digest at its path or changes no file.
use agbridge.Prelude.{
  ℕ, ◌≤◌, ◌≡◌, refl, sym, ◌∙◌, ap, subst, List, [], ◌++◌, Bytes, bytes_eq, nat_eq, codes, length,
  ltb, ◌==◌, eq_iff, not, ◌&&◌, false, Bool-cases, Option-cases, inl, inr, if◌then◌else◌, none,
  some, arith, pos_part, Result, ok, err, ◌⊎◌,
}
use agbridge.Prelude.Maps
use agbridge.Files.{Files, create_temp, syscall_mode}
use agbridge.Files.Swap.{Holds, create-Holds, chmod-Holds}
use agbridge.Hex
use agbridge.Tools.Payload.{UploadRequest, FileComplete}
use agbridge.Tools.Transfer.{
  Pull, Returned, System, complete, stopped, interrupted, waiting, Collected, finalize_upload,
  after_upload, upload_opened, upload_chunks, upload_max_bytes, moded, open_upload_temp,
}
use agbridge.Tools.Transfer.Content.{delivered, Ends, collect-Ends}
use agbridge.Tools.Transfer.Atomic.{Swapped, discard-Swapped, rename_or-Swapped}

-- The mode that the file gets: what is asked for, unless that is none or cannot be set.
abbrev pub upload_mode : System → ℕ → ℕ
upload_mode o mode = if not (mode == 0) && o.chmod_works then syscall_mode mode else 384

moded-Holds :
    (o : System) (mode : ℕ) (fs fs' : Files) (content : Bytes) (old : ℕ)
    → (old ≡ 384) ⊎ (old ≡ upload_mode o mode)
    → Holds fs o.temp_name (record { content = content; mode = old }) fs'
    → Holds fs o.temp_name
        (record { content = content; mode = upload_mode o mode })
        (moded o mode fs')
moded-Holds o mode fs fs' content old was h = elim (Bool-cases (not (mode == 0) && o.chmod_works)) [
  | inl sets ↦ rw sets (chmod-Holds fs o.temp_name _ fs' mode h)
  | inr keeps ↦
      let e : old ≡ 384 = elim was [ inl a ↦ a | inr b ↦ b ∙ rw keeps refl ] in
      rw keeps
        (subst (λ (m : ℕ). Holds fs o.temp_name (record { content = content; mode = m }) fs') e h)
]

module _ (sha256 : Bytes → Bytes) (decimal : ℕ → Bytes) (o : System) (req : UploadRequest) where
  -- The size and the digest are those that the request expects, where it expects any.
  abbrev pub Expected : Bytes → Type 0
  Expected content =
      ((req.expected_sha256 ≡ []) ⊎ (Hex.encode (sha256 content) ≡ req.expected_sha256))
      × ((pos_part req.expected_size ≡ 0) ⊎ (length content ≡ pos_part req.expected_size))

  expected :
      (content : Bytes)
      → (not (req.expected_sha256 == [])
          && not (Hex.encode (sha256 content) == req.expected_sha256))
        ≡ false
      → (ltb 0 (pos_part req.expected_size) && not (pos_part req.expected_size == length content))
        ≡ false
      → Expected content
  expected content right full = (
    elim (Bool-cases (req.expected_sha256 == [])) [
      | inl any ↦ inl ((eq_iff _ _).0 any)
      | inr given ↦ inr ((eq_iff _ _).0 (ground (arith, right, given)))
    ],
    elim (Bool-cases (pos_part req.expected_size == 0)) [
      | inl any ↦ inl ((eq_iff _ _).0 any)
      | inr given ↦ inr (ground (arith, full, given))
    ],
  )

  module _ (fs : Files) (fresh : Maps.get fs o.temp_name ≡ none) where
    abbrev Uploaded : List Pull → Returned × Files → Type 0
    Uploaded pulls r =
        Swapped sha256 fs o.temp_name o.removes req.dest_path upload_max_bytes
          (upload_mode o req.mode) Expected pulls r

    finalize-Swapped :
        (pulls : List Pull) (fs' : Files) (content : Bytes)
        → Holds fs o.temp_name (record { content = content; mode = upload_mode o req.mode }) fs'
        → delivered pulls ≡ some content
        → length content ≤ upload_max_bytes
        → Uploaded pulls (finalize_upload sha256 decimal o req fs' content)
    unfolding finalize_upload
    finalize-Swapped pulls fs' content h all fits =
        let give_up = λ (c : FileComplete).
          discard-Swapped sha256 fs o.temp_name o.removes req.dest_path upload_max_bytes fresh
            (upload_mode o req.mode) Expected pulls _ fs' c h in
        elim (Option-cases o.sync_error) [
          | inr (e, at) ↦ rw at (give_up _ (λ e. cc))
          | inl sync ↦ elim (Option-cases o.close_error) [
            | inr (e, at) ↦ rw (sync, at) (give_up _ (λ e. cc))
            | inl close ↦
                elim (Bool-cases (
                  not (req.expected_sha256 == [])
                  && not (Hex.encode (sha256 content) == req.expected_sha256))) [
                    | inl wrong ↦ rw (sync, close, wrong) (give_up _ (λ e. cc))
                    | inr right ↦
                        elim (Bool-cases (
                          ltb 0 (pos_part req.expected_size)
                          && not (pos_part req.expected_size == length content))) [
                            | inl short ↦ rw (sync, close, right, short) (give_up _ (λ e. cc))
                            | inr full ↦
                                rw (sync, close, right, full)
                                  (rename_or-Swapped sha256 fs o.temp_name o.removes req.dest_path
                                    upload_max_bytes fresh (upload_mode o req.mode) Expected pulls
                                    (λ e. e) o.rename_error _ content
                                    (moded-Holds o req.mode fs fs' content _ (inr refl) h) all fits
                                    (expected content right full))
                          ]
                  ]
          ]
        ]

    after_upload-Swapped :
        (detail : Bytes) (pulls : List Pull) (r : Collected)
        → Ends fs o.temp_name o.removes
            (upload_mode o req.mode)
            upload_max_bytes
            detail
            (λ e. e)
            fresh
            []
            pulls
            r
        → Uploaded pulls (after_upload sha256 decimal o req r)
    after_upload-Swapped detail pulls (complete fs' content) h =
        finalize-Swapped pulls fs' content h.0 (h.1.1 ∙ ap some (sym h.1.2)) h.2
    after_upload-Swapped detail pulls (stopped fs' c) h = inl (h.1, h.0)
    after_upload-Swapped detail pulls (interrupted fs') h = h
    after_upload-Swapped detail pulls (waiting fs' content) h = (_, h)

    open_ok :
        (fs' : Files)
        → open_upload_temp o req.mode fs ≡ ok fs'
        → moded o req.mode (create_temp fs o.temp_name) ≡ fs'
    unfolding open_upload_temp
    open_ok fs' e = ground (arith, e)

    opened-Holds :
        (fs' : Files)
        → open_upload_temp o req.mode fs ≡ ok fs'
        → Holds fs o.temp_name (record { content = []; mode = upload_mode o req.mode }) fs'
    opened-Holds fs' e =
        subst (Holds fs o.temp_name (record { content = []; mode = upload_mode o req.mode }))
          (open_ok fs' e)
          (moded-Holds o req.mode fs _ [] 384 (inl refl) (create-Holds fs o.temp_name))

    opened-Swapped :
        (pulls : List Pull) (r : Result Bytes Files)
        → open_upload_temp o req.mode fs ≡ r
        → Uploaded pulls (upload_opened sha256 decimal o req pulls fs r)
    opened-Swapped pulls (err e) at = inl (λ e. cc, λ q _. refl)
    opened-Swapped pulls (ok fs') at =
        after_upload-Swapped
          (codes "upload cap is " ++ (decimal upload_max_bytes ++ codes " bytes")) pulls _
          (collect-Ends fs o.temp_name o.removes (upload_mode o req.mode) upload_max_bytes
            (codes "upload cap is " ++ (decimal upload_max_bytes ++ codes " bytes")) (λ e. e) fresh
            pulls fs' [] (opened-Holds fs' at) (omega arith))

    -- UploadChunks answers with an error, or ends by the context's, and changes no file, but that its
    -- temporary file is left where it cannot be removed; or it answers with none, and the path holds
    -- exactly what was delivered up to the last chunk, at most 1 GiB and of the size and the digest that
    -- the request expects, with the mode that os.Chmod makes of the requested one, where one is
    -- requested and could be set, and mode 0600 else, and no other file has changed.
    -- While the source keeps it waiting, only the temporary file is there in addition. The temporary file's name must be new.
    pub upload_chunks-Swapped :
        (pulls : List Pull) → Uploaded pulls (upload_chunks sha256 decimal o req pulls fs)
    unfolding upload_chunks
    upload_chunks-Swapped pulls = opened-Swapped pulls _ refl
