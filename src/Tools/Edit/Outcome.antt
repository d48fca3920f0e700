-- ===== src/Tools/Edit/Outcome.antt =====
-- What EditFile of internal/tools/editfile.go leaves on the disk.
use agbridge.Prelude.{
  ℕ, ◌+◌, ◌%◌, ◌<◌, ◌≡◌, ◌≢◌, refl, sym, ◌∙◌, subst, [], Bytes, bytes_eq, nat_eq, length, take, ltb,
  ◌==◌, not, ◌&&◌, if◌then◌else◌, Bool-cases, inl, inr, ◌⊎◌, true, false, Option, none, some, arith,
  All,
}
use agbridge.Prelude.Maps
use agbridge.Files.{Files}
use agbridge.Tools.Payload.{FileEditRequest, FileComplete, failed}
use agbridge.Tools.Text.{count}
use agbridge.Tools.Text.Rewriting.{Rewritten, replace-Rewritten, replace_all-Rewritten, length_pos}
use agbridge.Tools.Transfer.{Returned, answer, context_error, pending}
use agbridge.Tools.Edit.Swapping.{swap_in-cases}
use agbridge.Tools.Edit.Backups.{longer}
use agbridge.Tools.Edit.{
  System, Stat, missing, unreadable, found, edit_file, with_stat, with_contents, edit_body, edited,
  swap_in, backed_up, backup_name,
}

-- What is read of the file, at most a byte more than the cap, and the permissions that Stat gave.
abbrev pub body_read : ℕ → Option Bytes → Bytes
body_read cap none = []
body_read cap (some all) = take (cap + 1) all

abbrev pub mode_found : Stat → ℕ
mode_found (found size mode) = mode
mode_found _ = 0

module _ (sha256 : Bytes → Bytes) (itoa : ℕ → Bytes) (o : System) (req : FileEditRequest)
    (body : Bytes) (mode : ℕ) (fs : Files) where
  -- Nothing is different at the path.
  abbrev pub Untouched : Files → Type 0
  Untouched fs' = Maps.get fs' req.path ≡ Maps.get fs req.path

  -- An error leaves the file as it was; without one it holds a text with the new string for each
  -- occurrence of the old one, and there was a match, and only one unless all were to be replaced.
  abbrev pub Edited : Returned × Files → Type 0
  Edited (answer c, fs') =
      ((c.err ≢ []) × Untouched fs')
      ⊎ ((next : Bytes) × (c.err ≡ [])
          × (c.size ≡ length next)
          × Rewritten req.old_string req.new_string (count body req.old_string) body next
          × ((count body req.old_string ≡ 1)
              ⊎ ((0 < count body req.old_string) × (req.replace_all ≡ true)))
          × (Maps.get fs' req.path
              ≡ some (record { content = next; mode = if o.chmod_works then mode % 512 else 384 })))
  Edited (context_error, fs') = Untouched fs'
  Edited (pending, fs') = ⊥

  -- The temporary file is new, beside the backup too, and not the path, and no name of a backup is the path.
  pub record Apart : Type 0 where
    pub fresh : Maps.get (backed_up sha256 itoa o req mode body fs).1 o.temp_name ≡ none
    pub beside : (o.temp_name == req.path) ≡ false
    pub siblings : All (λ (s : Bytes × Option ℕ). (s.0 == req.path) ≡ false) o.siblings

-- A single match is replaced like all of them.
edited-Rewritten :
    (sha256 : Bytes → Bytes) (itoa : ℕ → Bytes) (o : System) (req : FileEditRequest) (body : Bytes)
    → 0 < length req.old_string
    → (count body req.old_string ≡ 1) ⊎ ((0 < count body req.old_string) × (req.replace_all ≡ true))
    → Rewritten req.old_string req.new_string
        (count body req.old_string)
        body
        (edited sha256 itoa o req body)
edited-Rewritten sha256 itoa o req body pos matches = elim (Bool-cases req.replace_all) [
  | inl all ↦ rw all (replace_all-Rewritten req.old_string req.new_string pos body)
  | inr one ↦ rw one (
      replace-Rewritten req.old_string req.new_string pos 1 body
        (elim matches [ inl e ↦ omega (arith, e) | inr (_, all) ↦ cc (one, all) ]))
]

module _ (sha256 : Bytes → Bytes) (itoa : ℕ → Bytes) (o : System) (req : FileEditRequest)
    (fs : Files) where
  backed_up-other :
      (mode : ℕ) (body : Bytes)
      → Maps.get (backed_up sha256 itoa o req mode body fs).1 req.path ≡ Maps.get fs req.path
  backed_up-other mode body = elim (Bool-cases (ltb 0 (length body) && o.backup_works)) [
    | inl made ↦ rw made (
        Maps.get-put_other fs (backup_name sha256 itoa o req body) req.path _
          (longer req.path _ (omega arith)))
    | inr not_made ↦ rw not_made refl
  ]

  Edited-of :
      (body : Bytes) (mode : ℕ)
      → 0 < length req.old_string
      → (count body req.old_string ≡ 1)
        ⊎ ((0 < count body req.old_string) × (req.replace_all ≡ true))
      → (p : Returned × Files) (c : FileComplete) → p.0 ≡ answer c
      → ((c.err ≢ []) × (Maps.get p.1 req.path ≡ Maps.get fs req.path))
        ⊎ ((c.err ≡ [])
            × (c.size ≡ length (edited sha256 itoa o req body))
            × (Maps.get p.1 req.path
                ≡ some (record {
                  content = edited sha256 itoa o req body;
                  mode = if o.chmod_works then mode % 512 else 384;
                })))
      → Edited sha256 itoa o req body mode fs p
  Edited-of body mode pos matches (r, fs') c at cases =
      subst (λ (r : Returned). Edited sha256 itoa o req body mode fs (r, fs')) (sym at)
        (elim cases [
          | inl failed ↦ inl failed
          | inr (fine, size, holds) ↦ inr (
            edited sha256 itoa o req body,
            fine,
            size,
            edited-Rewritten sha256 itoa o req body pos matches,
            matches,
            holds,
          )
        ])

  swapped-Edited :
      (body : Bytes) (mode : ℕ)
      → 0 < length req.old_string
      → Apart sha256 itoa o req body mode fs
      → (count body req.old_string ≡ 1)
        ⊎ ((0 < count body req.old_string) × (req.replace_all ≡ true))
      → Edited sha256 itoa o req body mode fs (
          swap_in sha256 itoa o req mode
            (edited sha256 itoa o req body)
            (backed_up sha256 itoa o req mode body fs).0
            (backed_up sha256 itoa o req mode body fs).1)
  swapped-Edited body mode pos apart matches =
      let fs' = (backed_up sha256 itoa o req mode body fs).1 in
      let (c, at, cases) =
        swap_in-cases sha256 itoa o req body mode (edited sha256 itoa o req body)
          (backed_up sha256 itoa o req mode body fs).0 fs' apart.fresh apart.beside
          apart.siblings in
      Edited-of body mode pos matches _ c at (elim cases [
        | inl (bad, same) ↦ inl (bad, same ∙ backed_up-other mode body)
        | inr good ↦ inr good
      ])

  edit_body-Edited :
      (body : Bytes) (mode : ℕ)
      → 0 < length req.old_string
      → Apart sha256 itoa o req body mode fs
      → Edited sha256 itoa o req body mode fs (edit_body sha256 itoa o req mode body fs)
  unfolding edit_body
  edit_body-Edited body mode pos apart = elim (Bool-cases (count body req.old_string == 0)) [
    | inl none' ↦ rw none' (inl (λ e. cc, refl))
    | inr some' ↦ elim (Bool-cases (ltb 1 (count body req.old_string) && not req.replace_all)) [
      | inl many ↦ rw (some', many) (inl (λ e. cc, refl))
      | inr fine ↦
          rw (some', fine)
            (swapped-Edited body mode pos apart (elim (Bool-cases req.replace_all) [
              | inl all ↦ inr (ground (arith, some'), all)
              | inr one ↦ inl (ground (arith, some', fine, one))
            ]))
    ]
  ]

  with_contents-Edited :
      (cap mode : ℕ) (contents : Option Bytes)
      → 0 < length req.old_string
      → Apart sha256 itoa o req (body_read cap contents) mode fs
      → Edited sha256 itoa o req
          (body_read cap contents)
          mode
          fs
          (with_contents sha256 itoa o req cap mode contents fs)
  unfolding edit_body swap_in
  with_contents-Edited cap mode none pos apart = inl (λ e. cc, refl)
  with_contents-Edited cap mode (some all) pos apart =
      elim (Bool-cases (ltb cap (length (take (cap + 1) all)))) [
        | inl large ↦ rw large (inl (λ e. cc, refl))
        | inr small ↦ elim (Bool-cases o.cancelled) [
          | inl gone ↦ rw (small, gone) refl
          | inr goes ↦ rw (small, goes) (edit_body-Edited (take (cap + 1) all) mode pos apart)
        ]
      ]

  with_stat-Edited :
      (cap : ℕ) (stat : Stat)
      → 0 < length req.old_string
      → Apart sha256 itoa o req (body_read cap o.contents) (mode_found stat) fs
      → Edited sha256 itoa o req
          (body_read cap o.contents)
          (mode_found stat)
          fs
          (with_stat sha256 itoa o req cap stat fs)
  unfolding edit_body swap_in
  with_stat-Edited cap missing pos apart = inl (λ e. cc, refl)
  with_stat-Edited cap unreadable pos apart = inl (λ e. cc, refl)
  with_stat-Edited cap (found size mode) pos apart = elim (Bool-cases (ltb cap size)) [
    | inl large ↦ rw large (inl (λ e. cc, refl))
    | inr small ↦ elim (Bool-cases o.open_works) [
      | inr shut ↦ rw (small, shut) (inl (λ e. cc, refl))
      | inl opens ↦ rw (small, opens) (with_contents-Edited cap mode o.contents pos apart)
    ]
  ]

  -- EditFile leaves the file as it was where it answers with an error or the context has ended. Where
  -- it answers with none, the old string occurred, and only once unless all occurrences were to be
  -- replaced, and the path holds what was read of the file with the new string in the place of every
  -- occurrence, found from the left, of the size answered, with the old permissions where they could be set. The temporary file must be new and not the
  -- path, and the names that Glob gives for the backups must not be the file's own.
  pub edit_file-Edited :
      (cap : ℕ)
      → Apart sha256 itoa o req (body_read cap o.contents) (mode_found o.stat) fs
      → Edited sha256 itoa o req
          (body_read cap o.contents)
          (mode_found o.stat)
          fs
          (edit_file sha256 itoa o req cap fs)
  unfolding edit_file
  edit_file-Edited cap apart = elim (Bool-cases (req.old_string == [])) [
    | inl empty ↦ rw empty (inl (λ e. cc, refl))
    | inr given ↦ rw given (with_stat-Edited cap o.stat (length_pos req.old_string given) apart)
  ]
