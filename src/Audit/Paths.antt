-- ===== src/Audit/Paths.antt =====
-- The active file and the backups of internal/audit/writer.go under renames and writes.
use agbridge.Prelude.{
  ℕ, zero, suc, ◌+◌, ◌≡◌, refl, sym, ◌∙◌, ◌++◌, Bytes, bytes_eq, ◌==◌, eq_iff, false, Bool-cases,
  Bool, true, inl, inr, some, Option-cases,
}
use agbridge.Prelude.Maps
use agbridge.Files
use agbridge.Files.{File, Files, unlink, rename}
use agbridge.Audit.{System, shift, backup}

module _ (decimal : ℕ → Bytes) (o : System) (path : Bytes)
    (apart : (i : ℕ) → (backup decimal o path i == path) ≡ false) where
  pub rename-apart :
      (fs : Files) (i j : ℕ)
      → Maps.get (rename fs (backup decimal o path i) (backup decimal o path j)) path
        ≡ Maps.get fs path
  unfolding rename
  rename-apart fs i j = elim (Option-cases (Maps.get fs (backup decimal o path i))) [
    | inl gone ↦ rw gone refl
    | inr (f, there) ↦ rw there (
        Maps.get-put_other (Maps.remove fs (backup decimal o path i)) (backup decimal o path j) path
          f (apart j)
        ∙ Maps.get-remove_other fs (backup decimal o path i) path (apart i))
  ]

  -- The backups move; the active file stays.
  pub shift-path :
      (n : ℕ) (fs : Files) → Maps.get (shift decimal o path n fs) path ≡ Maps.get fs path
  unfolding shift
  shift-path zero fs = refl
  shift-path (suc i) fs = elim (Bool-cases (o.rename_works (suc i))) [
    | inl moves ↦ rw moves (shift-path i _ ∙ rename-apart fs (suc i) (i + 2))
    | inr stays ↦ rw stays (shift-path i fs)
  ]

  unlink-path :
      (works : Bool) (fs : Files) (m : ℕ)
      → Maps.get (unlink works fs (backup decimal o path m)) path ≡ Maps.get fs path
  unfolding unlink
  unlink-path false fs m = refl
  unlink-path true fs m = Maps.get-remove_other fs (backup decimal o path m) path (apart m)

  -- After the renames the old file is the first backup, and the path is free.
  pub moved-first :
      (m n : ℕ) (fs : Files) (f : File)
      → Maps.get fs path ≡ some f
      → rename
          (shift decimal o path n (unlink o.remove_works fs (backup decimal o path m)))
          path
          (backup decimal o path 1)
        ≡ Maps.put
            (Maps.remove
              (shift decimal o path n (unlink o.remove_works fs (backup decimal o path m)))
              path)
            (backup decimal o path 1)
            f
  unfolding rename
  moved-first m n fs f at =
      rw
        (shift-path n (unlink o.remove_works fs (backup decimal o path m))
          ∙ (unlink-path o.remove_works fs m ∙ at))
        refl

  pub path-apart : (i : ℕ) → (path == backup decimal o path i) ≡ false
  path-apart i = elim (Bool-cases (path == backup decimal o path i)) [
    | inr other ↦ other
    | inl same ↦
        let e : backup decimal o path i ≡ path = sym ((eq_iff _ _).0 same) in
        absurd (cc (apart i, (eq_iff (backup decimal o path i) path).1 e))
  ]

  pub append-here :
      (fs : Files) (f : File) (b : Bytes)
      → Maps.get fs path ≡ some f
      → Maps.get (Files.append fs path b) path ≡ some (record f { content = f.content ++ b })
  unfolding Files.append
  append-here fs f b at = rw at (Maps.get-put_self fs path _)

  pub append-other :
      (fs : Files) (f : File) (b : Bytes) (q : Bytes)
      → Maps.get fs path ≡ some f
      → (path == q) ≡ false
      → Maps.get (Files.append fs path b) q ≡ Maps.get fs q
  unfolding Files.append
  append-other fs f b q at other = rw at (Maps.get-put_other fs path q _ other)
