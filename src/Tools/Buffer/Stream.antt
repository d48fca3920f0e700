-- ===== src/Tools/Buffer/Stream.antt =====
-- The buffer of internal/tools/bgexec.go and the stream that was written to it.
use agbridge.Prelude.{
  ℕ, zero, suc, ◌+◌, ◌-◌, ◌≤◌, ◌≡◌, refl, sym, ap, ◌∙◌, List, [], ◌∷◌, ◌++◌, subst, drop-nil,
  append_assoc, append-nil, Bytes, length, drop, length-append, length-drop, drop-append, drop-add,
  Bool, true, false, ltb, leb, if◌then◌else◌, arith, Bool-cases, inl, inr, ltb→lt, ltb→le, le→ltb,
}
use agbridge.Tools.Buffer.{BgBuffer, new_bg_buffer, write, from, since_offset}

-- The buffer holds the last `cap` bytes of the stream, and counts all of it.
pub record IsTail (stream : Bytes) (b : BgBuffer) : Type 0 where
  pub tail : b.retained ≡ drop (length stream - b.cap) stream
  pub count : b.written ≡ length stream

unfoldable pub writes : BgBuffer → List Bytes → BgBuffer
writes b [] = b
writes b (p ∷ ps) = writes (write b p) ps

abbrev pub concat : List Bytes → Bytes
concat [] = []
concat (p ∷ ps) = p ++ concat ps

drop-append_le : (n : ℕ) (xs ys : Bytes) → n ≤ length xs → drop n (xs ++ ys) ≡ drop n xs ++ ys
drop-append_le zero xs ys h = refl
drop-append_le (suc n) [] ys h = absurd (omega (arith, h))
drop-append_le (suc n) (x ∷ xs) ys h = drop-append_le n xs ys (omega (arith, h))

-- Cutting to the capacity after a write, or once for the whole stream.
write-data :
    (s p : Bytes) (cap : ℕ)
    → let kept = drop (length s - cap) s ++ p in
      (if ltb cap (length kept) then drop (length kept - cap) kept else kept)
      ≡ drop (length (s ++ p) - cap) (s ++ p)
write-data s p cap =
    let k = length s - cap in
    let e : drop k (s ++ p) ≡ drop k s ++ p = drop-append_le k s p (omega arith) in
    rw (← e) (elim (Bool-cases (ltb cap (length (drop k (s ++ p))))) [
      | inl over ↦ rw over (
          sym (drop-add k _ (s ++ p))
          ∙ ap (λ (m : ℕ). drop m (s ++ p))
              (omega (arith, ltb→lt _ _ over, length-drop k (s ++ p), length-append s p)))
      | inr fits ↦ rw fits (
          ap (λ (m : ℕ). drop m (s ++ p))
            (omega (arith, ltb→le _ _ fits, length-drop k (s ++ p), length-append s p)))
    ])

write-IsTail : (s p : Bytes) (b : BgBuffer) → IsTail s b → IsTail (s ++ p) (write b p)
unfolding write
write-IsTail s p b t = record {
  tail = rw t.tail (write-data s p b.cap);
  count = ap (λ n. n + length p) t.count ∙ sym (length-append s p);
}

writes-IsTail :
    (s : Bytes) (ps : List Bytes) (b : BgBuffer)
    → IsTail s b
    → IsTail (s ++ concat ps) (writes b ps)
unfolding writes
writes-IsTail s [] b t = rw append-nil t
writes-IsTail s (p ∷ ps) b t =
    rw (← append_assoc s p (concat ps))
      (writes-IsTail (s ++ p) ps (write b p) (write-IsTail s p b t))

writes-cap : (b : BgBuffer) (ps : List Bytes) → (writes b ps).cap ≡ b.cap
unfolding writes write
writes-cap b [] = refl
writes-cap b (p ∷ ps) = writes-cap (write b p) ps

new-IsTail : (size : ℕ) → IsTail [] (new_bg_buffer size)
new-IsTail size = record { tail = sym (drop-nil (0 - size)); count = refl }

written-IsTail : (size : ℕ) (ps : List Bytes) → IsTail (concat ps) (writes (new_bg_buffer size) ps)
written-IsTail size ps = writes-IsTail [] ps (new_bg_buffer size) (new-IsTail size)

drop_all : (n : ℕ) (xs : Bytes) → length xs ≤ n → drop n xs ≡ []
drop_all n [] h = drop-nil n
drop_all zero (x ∷ xs) h = absurd (omega (arith, h))
drop_all (suc n) (x ∷ xs) h = drop_all n xs (omega (arith, h))

since-IsTail :
    (s : Bytes) (b : BgBuffer) (k : ℕ)
    → IsTail s b
    → since_offset b (from k) ≡ (
        if ltb k (length s - b.cap)
        then (drop (length s - b.cap) s, length s, true)
        else (drop k s, length s, false))
unfolding since_offset
since-IsTail s b k t =
    let start : b.written - length b.retained ≡ length s - b.cap =
      omega (arith, t.count, ap length t.tail, length-drop (length s - b.cap) s) in
    elim (Bool-cases (leb b.written k)) [
      | inl ended ↦
          let past : length s ≤ k = ground (arith, t.count) in
          rw (ended, le→ltb k (length s - b.cap) (omega arith), drop_all k s past, t.count) refl
      | inr inside ↦ elim (Bool-cases (ltb k (length s - b.cap))) [
        | inl old ↦ rw (inside, start, old, t.tail, t.count) refl
        | inr held ↦
            rw
              (
                inside,
                start,
                held,
                t.tail,
                t.count,
                ← (drop-add (length s - b.cap) (k - (length s - b.cap)) s),
              )
              (ap (λ (m : ℕ). read m) (omega (arith, ltb→le _ _ held)))
      ]
    ]
  where
    read : ℕ → Bytes × ℕ × Bool
    read m = (drop m s, length s, false)

-- What a client reads from an offset: all that was written from there on, where the buffer still
-- has it, else all that the buffer has, marked as truncated; and where the next read goes on.
pub since_offset-writes :
    (size : ℕ) (ps : List Bytes) (k : ℕ)
    → let s = concat ps in
      since_offset (writes (new_bg_buffer size) ps) (from k) ≡ (
        if ltb k (length s - size)
        then (drop (length s - size) s, length s, true)
        else (drop k s, length s, false))
since_offset-writes size ps k =
    let b = writes (new_bg_buffer size) ps in
    subst
      (λ (n : ℕ). since_offset b (from k) ≡ (
        if ltb k (length (concat ps) - n)
        then (drop (length (concat ps) - n) (concat ps), length (concat ps), true)
        else (drop k (concat ps), length (concat ps), false)))
      (writes-cap (new_bg_buffer size) ps) (since-IsTail (concat ps) b k (written-IsTail size ps))

whole_read :
    (size : ℕ) (ps : List Bytes) (k : ℕ)
    → (since_offset (writes (new_bg_buffer size) ps) (from k)).2 ≡ false
    → since_offset (writes (new_bg_buffer size) ps) (from k)
      ≡ (drop k (concat ps), length (concat ps), false)
whole_read size ps k e = elim (Bool-cases (ltb k (length (concat ps) - size))) [
  | inl old ↦ ground (arith, ap (λ (x : Bytes × ℕ × Bool). x.2) (since_offset-writes size ps k))
  | inr held ↦ rw (since_offset-writes size ps k, held) refl
]

concat-append : (ps qs : List Bytes) → concat (ps ++ qs) ≡ concat ps ++ concat qs
concat-append [] qs = refl
concat-append (p ∷ ps) qs =
    ap (◌++◌ p) (concat-append ps qs) ∙ sym (append_assoc p (concat ps) (concat qs))

-- Two reads, the second from where the first ended, give together all that was written from the
-- first offset on, when neither read is marked as truncated and that offset was not past the end.
pub since_offset-since_offset :
    (size : ℕ) (ps qs : List Bytes) (k : ℕ)
    → k ≤ length (concat ps)
    → (since_offset (writes (new_bg_buffer size) ps) (from k)).2 ≡ false
    → (since_offset (writes (new_bg_buffer size) (ps ++ qs)) (from (length (concat ps)))).2 ≡ false
    → let first = since_offset (writes (new_bg_buffer size) ps) (from k) in
      let second = since_offset (writes (new_bg_buffer size) (ps ++ qs)) (from first.1) in
      first.0 ++ second.0 ≡ drop k (concat (ps ++ qs))
since_offset-since_offset size ps qs k h e1 e2 =
    rw
      (
        whole_read size ps k e1,
        whole_read size (ps ++ qs) (length (concat ps)) e2,
        concat-append ps qs,
        drop-append (concat ps) (concat qs),
        drop-append_le k (concat ps) (concat qs) h,
      )
      refl
