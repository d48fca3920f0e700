-- ===== src/Audit/Rotation.antt =====
-- What a successful Append of internal/audit/writer.go leaves.
use agbridge.Prelude.{
  ℕ, zero, suc, ◌+◌, ◌-◌, ◌≤◌, ◌≡◌, ◌≢◌, refl, sym, ◌∙◌, ap, subst, List, [], ◌∷◌, ◌++◌, Bytes,
  bytes_eq, length, length-append, ltb, ◌==◌, eq_iff, not, ◌&&◌, if◌then◌else◌, Bool, true, false,
  Bool-cases, inl, inr, ◌⊎◌, Option, none, some, arith, Option-cases,
}
use agbridge.Prelude.Maps
use agbridge.Files.{File, Files, unlink, rename}
use agbridge.Audit.{
  Writer, System, append, write_line, made_room, written, rotate_locked, shift, shifted, due,
  backup,
}
use agbridge.Audit.Paths.{moved-first, path-apart, append-here, append-other}

-- The writer knows the size of the file that it appends to.
pub record Knows (w : Writer) (fs : Files) (f : File) : Type 0 where
  pub live : w.live ≡ true
  pub at : Maps.get fs w.path ≡ some f
  pub size : w.size ≡ length f.content

-- The line is at the end of the active file, which is within its size; or the file was full, is the first
-- backup now, and the active file is the line.
abbrev pub Added : (ℕ → Bytes) → System → Writer → File → Bytes → Bool × Writer × Files → Type 0
Added decimal o w f b (works, w', fs') =
    (f' : File) × Knows w' fs' f'
    × (((f'.content ≡ f.content ++ b) × (length f'.content ≤ w.max_bytes))
        ⊎ ((f'.content ≡ b) × (Maps.get fs' (backup decimal o w.path 1) ≡ some f)))

module _ (decimal : ℕ → Bytes) (o : System) (b : Bytes) (w : Writer)
    (apart : (i : ℕ) → (backup decimal o w.path i == w.path) ≡ false) where
  -- The line is at the end, and the backups are as before.
  abbrev Extended : Files → File → Bool × Writer × Files → Type 0
  Extended fs f (works, w', fs') =
      Knows w' fs' (record f { content = f.content ++ b })
      × (Maps.get fs' (backup decimal o w.path 1) ≡ Maps.get fs (backup decimal o w.path 1))

  line-Extended :
      (size : ℕ) (fs : Files) (f : File) (s : Option ℕ)
      → Knows (record w { live = true; size = size }) fs f
      → (write_line decimal o (record w { live = true; size = size }) fs b s).0 ≡ true
      → Extended fs f (write_line decimal o (record w { live = true; size = size }) fs b s)
  line-Extended size fs f (some n) k h = cc
  line-Extended size fs f none k h = (
    record {
      live = refl;
      at = append-here decimal o w.path apart fs f b k.at;
      size = omega (arith, k.size, length-append f.content b);
    },
    append-other decimal o w.path apart fs f b (backup decimal o w.path 1) k.at
        (path-apart decimal o w.path apart 1),
  )

  -- A rotation that works makes the old file the first backup and opens a new one.
  Rotated : Files → File → Bool × Writer × Files → Type 0
  Rotated fs f (works, w', fs') =
      (w' ≡ record w { live = true; size = 0 })
      × (Maps.get fs' w.path ≡ some (record { content = []; mode = 420 }))
      × (Maps.get fs' (backup decimal o w.path 1) ≡ some f)

  rotate-Rotated :
      (fs : Files) (f : File)
      → o.rename_works 0 ≡ true
      → Maps.get fs w.path ≡ some f
      → (rotate_locked decimal o w fs).0 ≡ true
      → Rotated fs f (rotate_locked decimal o w fs)
  unfolding rotate_locked Rotated Maps.get agbridge.Prelude.Maps.Assoc.lookup rename shift
  rotate-Rotated fs f moves at h = elim (Bool-cases (w.live && o.close_works)) [
    | inr broken ↦ absurd (cc (rw broken at h))
    | inl closes ↦ elim (Bool-cases o.open_works) [
      | inr stuck ↦ absurd (cc (rw (closes, stuck) at h))
      | inl opens ↦
          let kept : Files =
            shift decimal o w.path (w.backups - 1)
              (unlink o.remove_works fs (backup decimal o w.path w.backups)) in
          let first : Bytes = backup decimal o w.path 1 in
          let moved : Files = Maps.put (Maps.remove kept w.path) first f in
          let e : shifted decimal o w fs ≡ moved =
            rw moves (moved-first decimal o w.path apart w.backups (w.backups - 1) fs f at) in
          let free : Maps.get moved w.path ≡ none =
            Maps.get-put_other (Maps.remove kept w.path) first w.path f (apart 1)
            ∙ Maps.get-remove_self kept w.path in
          rw (closes, opens, e, free)
            (
              refl,
              Maps.get-put_self moved w.path _,
              Maps.get-put_other moved w.path first _ (path-apart decimal o w.path apart 1)
                  ∙ Maps.get-put_self (Maps.remove kept w.path) first f,
            )
    ]
  ]

  within :
      (fs : Files) (f : File) (p : Bool × Writer × Files)
      → length f.content + length b ≤ w.max_bytes
      → Extended fs f p
      → Added decimal o w f b p
  within fs f p fits (k, same) = (
    record f { content = f.content ++ b },
    k,
    inl (refl, omega (arith, fits, length-append f.content b)),
  )

  rotate-Added :
      (fs : Files) (f : File) (r : Bool × Writer × Files)
      → (r.0 ≡ true → Rotated fs f r)
      → (written decimal o b r).0 ≡ true
      → Added decimal o w f b (written decimal o b r)
  unfolding Rotated
  rotate-Added fs f (false, w', fs') made h = cc
  rotate-Added fs f (true, w', fs') made h =
      let (e, at, first) = made refl in
      let empty : File = record { content = []; mode = 420 } in
      let P = λ (v : Writer).
        (written decimal o b (true, v, fs')).0 ≡ true
        → Added decimal o w f b (written decimal o b (true, v, fs')) in
      subst P (sym e)
        (λ h'.
          let (k, same) =
            line-Extended 0 fs' empty o.short_write (record { live = refl; at = at; size = refl })
              h' in
          (record empty { content = b }, k, inr (refl, same ∙ first)))
        h

  made_room-Added :
      (fs : Files) (f : File)
      → w.max_bytes ≢ 0
      → w.backups ≢ 0
      → o.rename_works 0 ≡ true
      → Knows w fs f
      → (written decimal o b (made_room decimal o w fs b)).0 ≡ true
      → Added decimal o w f b (written decimal o b (made_room decimal o w fs b))
  made_room-Added fs f some' many moves k h = elim (Bool-cases (due decimal o w b)) [
    | inl full ↦
        let e : made_room decimal o w fs b ≡ rotate_locked decimal o w fs =
          ap (λ (t : Bool). if t then rotate_locked decimal o w fs else (true, w, fs)) full in
        let P = λ (r : Bool × Writer × Files).
          (written decimal o b r).0 ≡ true → Added decimal o w f b (written decimal o b r) in
        subst P (sym e)
          (rotate-Added fs f (rotate_locked decimal o w fs) (rotate-Rotated fs f moves k.at)) h
    | inr room ↦
        let line =
          write_line decimal o (record w { live = true; size = w.size }) fs b o.short_write in
        let e : written decimal o b (made_room decimal o w fs b) ≡ line =
          ap
            (λ (t : Bool).
              written decimal o b (if t then rotate_locked decimal o w fs else (true, w, fs)))
            room
          ∙ ap (λ (l : Bool). written decimal o b (true, record w { live = l }, fs)) k.live in
        let fits : length f.content + length b ≤ w.max_bytes =
          ground (arith, room, k.size, some', many) in
        subst (λ (p : Bool × Writer × Files). p.0 ≡ true → Added decimal o w f b p) (sym e)
          (λ h'. within fs f line fits (
            line-Extended w.size fs f o.short_write
              (record { live = refl; at = k.at; size = k.size }) h'))
          h
  ]

-- Where the log rotates, an Append that works puts the line, whole, behind the others in the active file,
-- which stays within the limit, or it puts it alone into a new one, and the old file is the first
-- backup; and the writer knows the new size. The writer must have known the old one, the names of the
-- backups must not be the file's own, and the rename of the active file must work.
pub append-Added :
    (decimal : ℕ → Bytes) (o : System) (json : Bytes) (w : Writer) (fs : Files) (f : File)
    → ((i : ℕ) → (backup decimal o w.path i == w.path) ≡ false)
    → w.max_bytes ≢ 0
    → w.backups ≢ 0
    → o.rename_works 0 ≡ true
    → Knows w fs f
    → (append decimal o (some json) w fs).0 ≡ true
    → Added decimal o w f (json ++ (10 ∷ [])) (append decimal o (some json) w fs)
unfolding append
append-Added decimal o json w fs f apart some' many moves k h =
    made_room-Added decimal o (json ++ (10 ∷ [])) w apart fs f some' many moves k h
