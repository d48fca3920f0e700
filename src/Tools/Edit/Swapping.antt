-- ===== src/Tools/Edit/Swapping.antt =====
-- The end of EditFile of internal/tools/editfile.go: the new text beside the file and over it.
use agbridge.Prelude.{
  ℕ, ◌%◌, arith, ◌≡◌, ◌≢◌, refl, ◌∙◌, [], Bytes, bytes_eq, nat_eq, length, ◌==◌, if◌then◌else◌,
  Bool-cases, inl, inr, ◌⊎◌, false, Option, none, some, All,
}
use agbridge.Prelude.Maps
use agbridge.Files.{Files, create_temp, append, chmod, syscall_mode}
use agbridge.Files.Swap.{
  Holds, create-Holds, append-Holds, chmod-Holds, unlink-Kept, rename-Holds, Holds-here,
}
use agbridge.Tools.Payload.{FileEditRequest, FileComplete}
use agbridge.Tools.Transfer.{answer}
use agbridge.Tools.Edit.Backups.{prune-other}
use agbridge.Tools.Edit.{System, swap_in, backup_retain_count}

pub syscall_mode-perm : (mode : ℕ) → syscall_mode (mode % 512) ≡ mode % 512
unfolding syscall_mode
syscall_mode-perm mode = omega arith

module _ (sha256 : Bytes → Bytes) (itoa : ℕ → Bytes) (o : System) (req : FileEditRequest)
    (body : Bytes) (mode : ℕ) where
  moded :
      (next : Bytes) (fs : Files)
      → Holds fs o.temp_name
          (record { content = next; mode = if o.chmod_works then mode % 512 else 384 })
          (if o.chmod_works
            then chmod
                (append (create_temp fs o.temp_name) o.temp_name next)
                o.temp_name
                (mode % 512)
            else append (create_temp fs o.temp_name) o.temp_name next)
  moded next fs =
      let written = append-Holds fs o.temp_name _ _ next (create-Holds fs o.temp_name) in
      elim (Bool-cases o.chmod_works) [
        | inl sets ↦
            rw sets
              (rw (syscall_mode-perm mode) at (chmod-Holds fs o.temp_name _ _ (mode % 512) written))
        | inr keeps ↦ rw keeps written
      ]

  -- From the creation of the temporary file on: the path is as it was, or holds the text.
  pub swap_in-cases :
      (next backup : Bytes) (fs : Files)
      → Maps.get fs o.temp_name ≡ none
      → (o.temp_name == req.path) ≡ false
      → All (λ (s : Bytes × Option ℕ). (s.0 == req.path) ≡ false) o.siblings
      → (c : FileComplete) × ((swap_in sha256 itoa o req mode next backup fs).0 ≡ answer c)
        × (((c.err ≢ [])
              × (Maps.get (swap_in sha256 itoa o req mode next backup fs).1 req.path
                  ≡ Maps.get fs req.path))
            ⊎ ((c.err ≡ [])
                × (c.size ≡ length next)
                × (Maps.get (swap_in sha256 itoa o req mode next backup fs).1 req.path
                    ≡ some (record {
                      content = next;
                      mode = if o.chmod_works then mode % 512 else 384;
                    }))))
  unfolding swap_in
  swap_in-cases next backup fs fresh beside apart =
      let made = create-Holds fs o.temp_name in
      let written = append-Holds fs o.temp_name _ _ next made in
      elim (Bool-cases o.temp_works) [
        | inr a ↦ rw a (_, refl, inl (λ e. cc, refl))
        | inl a ↦ elim (Bool-cases o.write_works) [
          | inr b ↦
              rw (a, b)
                (
                  _,
                  refl,
                  inl (
                    λ e. cc,
                    unlink-Kept (o.removes o.temp_name) fs o.temp_name _ _ fresh made req.path
                        (inl beside),
                  ),
                )
          | inl b ↦ elim (Bool-cases o.sync_works) [
            | inr c ↦
                rw (a, b, c)
                  (
                    _,
                    refl,
                    inl (
                      λ e. cc,
                      unlink-Kept (o.removes o.temp_name) fs o.temp_name _ _ fresh written req.path
                          (inl beside),
                    ),
                  )
            | inl c ↦ elim (Bool-cases o.close_works) [
              | inr d ↦
                  rw (a, b, c, d)
                    (
                      _,
                      refl,
                      inl (
                        λ e. cc,
                        unlink-Kept (o.removes o.temp_name) fs o.temp_name _ _ fresh written
                            req.path (inl beside),
                      ),
                    )
              | inl d ↦ elim (Bool-cases o.rename_works) [
                | inr e ↦
                    rw (a, b, c, d, e)
                      (
                        _,
                        refl,
                        inl (
                          λ e. cc,
                          unlink-Kept (o.removes o.temp_name) fs o.temp_name _ _ fresh
                              (moded next fs) req.path (inl beside),
                        ),
                      )
                | inl e ↦
                    rw (a, b, c, d, e)
                      (
                        _,
                        refl,
                        inr (
                          refl,
                          refl,
                          prune-other o.removes req.path _ o.siblings backup_retain_count apart
                              ∙ Holds-here fs req.path _ _
                                  (rename-Holds fs o.temp_name req.path _ _ fresh (moded next fs)),
                        ),
                      )
              ]
            ]
          ]
        ]
      ]
