-- ===== src/Audit/Silence.antt =====
-- What becomes of the log of internal/audit/writer.go when a rotation fails to open the new file.
use agbridge.Prelude.{
  ℕ, ◌≡◌, refl, ◌∙◌, List, [], ◌∷◌, ◌++◌, Bytes, bytes_eq, ◌&&◌, Bool, true, false, All, Bool-cases,
  inl, inr, Option, none, some,
}
use agbridge.Files.{Files}
use agbridge.Audit.{Writer, System, append, append_all, rotate_locked, due}

-- Nothing is written: the writer is closed, and the files are as before.
abbrev pub Silent : Files → Bool × Writer × Files → Type 0
Silent fs (works, w, fs') = (works ≡ false) × (w.live ≡ false) × (fs' ≡ fs)

module _ (decimal : ℕ → Bytes) where
  append-Silent :
      (o : System) (event : Option Bytes) (w : Writer) (fs : Files)
      → w.live ≡ false
      → Silent fs (append decimal o event w fs)
  unfolding append rotate_locked
  append-Silent o none w fs closed = (refl, closed, refl)
  append-Silent o (some json) w fs closed =
      elim (Bool-cases (due decimal o w (json ++ (10 ∷ [])))) [
        | inl full ↦ rw (full, closed) (refl, refl, refl)
        | inr room ↦ rw (room, closed) (refl, refl, refl)
      ]

  append_all-Silent :
      (calls : List (System × Option Bytes)) (w : Writer) (fs : Files)
      → w.live ≡ false
      → All (λ (works : Bool). works ≡ false) (append_all decimal calls w fs).0
        × ((append_all decimal calls w fs).2 ≡ fs)
  unfolding append_all
  append_all-Silent [] w fs closed = (tt, refl)
  append_all-Silent ((o, event) ∷ rest) w fs closed =
      let (fails, closed', same) = append-Silent o event w fs closed in
      let (later, same') = append_all-Silent rest _ _ closed' in ((fails, later), same' ∙ same)

  -- A rotation that is due and fails to open the new file loses the event and silences the log for
  -- good: every later Append fails and writes nothing, whatever the system answers to it.
  pub append-silences :
      (o : System) (json : Bytes) (w : Writer) (fs : Files) (calls : List (System × Option Bytes))
      → due decimal o w (json ++ (10 ∷ [])) ≡ true
      → o.open_works ≡ false
      → ((append decimal o (some json) w fs).0 ≡ false)
        × All
            (λ (works : Bool). works ≡ false)
            (append_all decimal calls
              (append decimal o (some json) w fs).1
              (append decimal o (some json) w fs).2).0
        × ((append_all decimal calls
              (append decimal o (some json) w fs).1
              (append decimal o (some json) w fs).2).2
            ≡ (append decimal o (some json) w fs).2)
  unfolding append rotate_locked
  append-silences o json w fs calls full stuck =
      let (fails, closed) = silenced in
      let (later, same) = append_all-Silent calls _ _ closed in (fails, later, same)
    where
      silenced :
          ((append decimal o (some json) w fs).0 ≡ false)
          × ((append decimal o (some json) w fs).1.live ≡ false)
      silenced = elim (Bool-cases (w.live && o.close_works)) [
        | inl closes ↦ rw (full, closes, stuck) (refl, refl)
        | inr broken ↦ rw (full, broken) (refl, refl)
      ]
