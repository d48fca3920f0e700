-- ===== src/Tools/Background/Logs.antt =====
-- What a client gets from the logs of internal/tools/bgexec.go.
use agbridge.Prelude.{
  Bool, ℕ, ◌+◌, ◌-◌, ◌≤◌, ◌≡◌, refl, List, [], Bytes, length, true, false, ltb, leb, arith,
  Bool-cases, inl, inr, le→ltb, ltb→le,
}
use agbridge.Tools.Buffer.{BgBuffer, new_bg_buffer, write, from, since_offset}
use agbridge.Tools.Buffer.Stream.{writes, concat, since_offset-writes}
use agbridge.Tools.Background.{
  BgProcess, BgExecRequest, LogOutput, Stream, out, err, pump, logs_of, later,
}

since_offset-written : (b : BgBuffer) (k : ℕ) → (since_offset b (from k)).1 ≡ b.written
unfolding since_offset
since_offset-written b k = elim (Bool-cases (leb b.written k)) [
  | inl ended ↦ rw ended refl
  | inr inside ↦ rw inside refl
]

since_offset-past :
    (b : BgBuffer) (k : ℕ) → b.written ≤ k → since_offset b (from k) ≡ ([], b.written, false)
unfolding since_offset
since_offset-past b k h = rw (past h) refl
  where
    past : b.written ≤ k → leb b.written k ≡ true
    past h = ground arith

write-written : (b : BgBuffer) (bs : Bytes) → (write b bs).written ≡ b.written + length bs
unfolding write
write-written b bs = refl

skipped :
    (b : BgBuffer) (bs : Bytes) (k : ℕ)
    → b.written + length bs ≤ k
    → since_offset (write b bs) (from k) ≡ ([], (write b bs).written, false)
skipped b bs k h = since_offset-past (write b bs) k (rw (write-written b bs) h)

later_le : (a b : ℕ) → a ≤ b → later a b ≡ b
later_le a b h = elim (Bool-cases (ltb a b)) [
  | inl less ↦ rw less refl
  | inr not_less ↦ rw not_less (omega (arith, h, ltb→le a b not_less))
]

later_ge : (a b : ℕ) → b ≤ a → later a b ≡ a
later_ge a b h = elim (Bool-cases (ltb a b)) [
  | inl less ↦ absurd (ground (arith, h, less))
  | inr not_less ↦ rw not_less refl
]

abbrev pub this : Stream → BgProcess → BgBuffer
this out p = p.stdout
this err p = p.stderr

abbrev pub other : Stream → BgProcess → BgBuffer
other out p = p.stderr
other err p = p.stdout

abbrev pub shown : Stream → LogOutput → Bytes
shown out l = l.stdout
shown err l = l.stderr

abbrev pub marked : Stream → LogOutput → Bool
marked out l = l.stdout_trunc
marked err l = l.stderr_trunc

-- A client reads by offset, and then the process writes to one of its streams while that stays no
-- longer than the other. When the client goes on from the offset that it was given, it gets nothing of
-- what was written, and no sign that something is missing.
pub logs_of-skips :
    (x : Stream) (p : BgProcess) (first second : BgExecRequest) (k : ℕ) (bs : Bytes) (now : ℕ)
    → first.tail_lines ≡ 0
    → first.since ≡ from k
    → second.tail_lines ≡ 0
    → second.since ≡ from (logs_of first p).next_offset
    → (this x p).written + length bs ≤ (other x p).written
    → let after = logs_of second (pump x bs now p) in
      (shown x after ≡ []) × (marked x after ≡ false)
unfolding logs_of pump
logs_of-skips out p first second k bs now t1 s1 t2 s2 shorter =
    let next : (logs_of first p).next_offset ≡ p.stderr.written =
      rw (t1, s1, since_offset-written p.stdout k, since_offset-written p.stderr k)
        (later_le p.stdout.written p.stderr.written (omega (arith, shorter))) in
    rw (t2, s2, next, skipped p.stdout bs p.stderr.written shorter) (refl, refl)
logs_of-skips err p first second k bs now t1 s1 t2 s2 shorter =
    let next : (logs_of first p).next_offset ≡ p.stdout.written =
      rw (t1, s1, since_offset-written p.stdout k, since_offset-written p.stderr k)
        (later_ge p.stdout.written p.stderr.written (omega (arith, shorter))) in
    rw (t2, s2, next, skipped p.stderr bs p.stdout.written shorter) (refl, refl)

-- While both streams are within their capacity, the logs from the start are all that was written.
pub logs_of-all :
    (p : BgProcess) (req : BgExecRequest) (size : ℕ) (ps qs : List Bytes)
    → req.tail_lines ≡ 0
    → req.since ≡ from 0
    → p.stdout ≡ writes (new_bg_buffer size) ps
    → p.stderr ≡ writes (new_bg_buffer size) qs
    → length (concat ps) ≤ size
    → length (concat qs) ≤ size
    → ((logs_of req p).stdout ≡ concat ps)
      × ((logs_of req p).stderr ≡ concat qs)
      × ((logs_of req p).stdout_trunc ≡ false)
      × ((logs_of req p).stderr_trunc ≡ false)
unfolding logs_of
logs_of-all p req size ps qs t s o e ho he =
    rw (t, s, o, e, whole ps ho, whole qs he) (refl, refl, refl, refl)
  where
    whole :
        (ps : List Bytes)
        → length (concat ps) ≤ size
        → since_offset (writes (new_bg_buffer size) ps) (from 0)
          ≡ (concat ps, length (concat ps), false)
    whole ps h =
        rw (since_offset-writes size ps 0, le→ltb 0 (length (concat ps) - size) (omega (arith, h)))
          refl
