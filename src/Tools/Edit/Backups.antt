-- ===== src/Tools/Edit/Backups.antt =====
-- The backups that EditFile of internal/tools/editfile.go keeps, and pruneOldBackups.
use agbridge.Prelude.{
  ℕ, Bool, ◌<◌, ◌≡◌, refl, ◌∙◌, List, [], ◌∷◌, ◌++◌, Bytes, bytes_eq, nat_eq, length, ltb, leb,
  ◌==◌, Bool-cases, inl, inr, bytes_beq, false, Option, none, some, arith, All, All-drop,
}
use agbridge.Prelude.Maps
use agbridge.Files.{Files, unlink}
use agbridge.Tools.Edit.{prune_old_backups, remove_each, dated, newest_first, insert_entry}

insert_entry-All :
    (path : Bytes) (e : Bytes × ℕ) (xs : List (Bytes × ℕ))
    → (e.0 == path) ≡ false
    → All (λ (s : Bytes × ℕ). (s.0 == path) ≡ false) xs
    → All (λ (s : Bytes × ℕ). (s.0 == path) ≡ false) (insert_entry e xs)
unfolding insert_entry
insert_entry-All path e [] h hs = (h, tt)
insert_entry-All path e (x ∷ xs) h hs = elim (Bool-cases (ltb x.1 e.1)) [
  | inl before ↦ rw before (h, hs)
  | inr after ↦ rw after (hs.0, insert_entry-All path e xs h hs.1)
]

newest_first-All :
    (path : Bytes) (xs : List (Bytes × ℕ))
    → All (λ (s : Bytes × ℕ). (s.0 == path) ≡ false) xs
    → All (λ (s : Bytes × ℕ). (s.0 == path) ≡ false) (newest_first xs)
unfolding newest_first
newest_first-All path [] hs = tt
newest_first-All path (x ∷ xs) hs = insert_entry-All path x _ hs.0 (newest_first-All path xs hs.1)

dated-All :
    (path : Bytes) (xs : List (Bytes × Option ℕ))
    → All (λ (s : Bytes × Option ℕ). (s.0 == path) ≡ false) xs
    → All (λ (s : Bytes × ℕ). (s.0 == path) ≡ false) (dated xs)
dated-All path [] hs = tt
dated-All path ((name, none) ∷ xs) hs = dated-All path xs hs.1
dated-All path ((name, some t) ∷ xs) hs = (hs.0, dated-All path xs hs.1)

remove_each-other :
    (removes : Bytes → Bool) (path : Bytes) (xs : List (Bytes × ℕ)) (fs : Files)
    → All (λ (s : Bytes × ℕ). (s.0 == path) ≡ false) xs
    → Maps.get (remove_each removes fs xs) path ≡ Maps.get fs path
unfolding unlink
remove_each-other removes path [] fs hs = refl
remove_each-other removes path ((name, t) ∷ xs) fs hs =
    remove_each-other removes path xs (unlink (removes name) fs name) hs.1
    ∙ elim (Bool-cases (removes name)) [
      | inl works ↦ rw works (Maps.get-remove_other fs name path hs.0)
      | inr fails ↦ rw fails refl
    ]

-- Forgetting old backups leaves the file itself alone.
pub prune-other :
    (removes : Bytes → Bool) (path : Bytes) (fs : Files) (siblings : List (Bytes × Option ℕ))
    (keep : ℕ)
    → All (λ (s : Bytes × Option ℕ). (s.0 == path) ≡ false) siblings
    → Maps.get (prune_old_backups removes fs siblings keep) path ≡ Maps.get fs path
unfolding prune_old_backups
prune-other removes path fs siblings keep hs = elim (Bool-cases (keep == 0)) [
  | inl off ↦ rw off refl
  | inr on ↦ elim (Bool-cases (leb (length siblings) keep)) [
    | inl few ↦ rw (on, few) refl
    | inr many ↦
        rw (on, many)
          (remove_each-other removes path _ fs
            (All-drop _ keep _ (newest_first-All path _ (dated-All path siblings hs))))
  ]
]

pub longer : (xs ys : Bytes) → 0 < length ys → bytes_beq (xs ++ ys) xs ≡ false
unfolding bytes_beq
longer [] [] h = absurd (omega arith)
longer [] (y ∷ ys) h = refl
longer (x ∷ xs) ys h = ground (arith, longer xs ys h)
