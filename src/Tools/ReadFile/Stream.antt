-- ===== src/Tools/ReadFile/Stream.antt =====
-- What ReadFile of internal/tools/readfile.go sends of a file.
use agbridge.Prelude.{
  ℕ, zero, suc, ◌+◌, ◌-◌, pos_part, is_negative, min, ◌<◌, ◌≤◌, ◌≡◌, ◌≢◌, refl, sym, ◌∙◌, ap, List,
  [], ◌∷◌, ◌++◌, append-nil, append_assoc, Bytes, nat_eq, codes, length, length-append, take, drop,
  take-append-drop, ltb, leb, ◌==◌, ◌&&◌, if◌then◌else◌, Bool-cases, inl, inr, ◌⊎◌, Bool, true,
  false, arith,
}
use agbridge.Tools.Payload.{FileReadRequest, FileChunk, failed}
use agbridge.Tools.Transfer.{answer, context_error, pending, written_complete}
use agbridge.Tools.ReadFile.{
  Round, cancelled, fails, gives, Sent, also, chunk_of, room, stream, content, hard_cap, read_file,
}

-- The part that is asked for, of what is left after so much has been sent.
abbrev pub wanted : (soft total : ℕ) → Bytes → Bytes
wanted soft total left = if soft == 0 then left else take (soft - total) left

-- The bytes of the chunks, which are marked as the last at the last one only.
abbrev pub joined : List FileChunk → Bytes
joined [] = []
joined (c ∷ cs) = c.bytes ++ joined cs

abbrev pub LastMarked : List FileChunk → Type 0
LastMarked [] = ⊥
LastMarked (c ∷ []) = c.eof ≡ true
LastMarked (c ∷ d ∷ cs) = (c.eof ≡ false) × LastMarked (d ∷ cs)

module _ (sha256 : Bytes → Bytes) (hard soft : ℕ) where
  -- What has been sent and what is still to come.
  abbrev pub Sends : (sent left : Bytes) → Sent → Type 0
  Sends sent left (cs, answer c) =
      ((c.err ≢ []))
      ⊎ ((joined cs ≡ wanted soft (length sent) left)
          × (c ≡ written_complete sha256 (sent ++ joined cs))
          × LastMarked cs
          × (length sent + length (joined cs) ≤ hard))
  Sends sent left (cs, context_error) = Unit
  Sends sent left (cs, pending) = Unit

take_nil : (n : ℕ) → take {A = ℕ} n [] ≡ []
take_nil zero = refl
take_nil (suc n) = refl

take_split :
    (s m : ℕ) (xs : Bytes)
    → m ≤ s
    → take s xs ≡ take m xs ++ take (s - length (take m xs)) (drop m xs)
take_split s zero xs h = ap (λ (k : ℕ). take k xs) (omega arith)
take_split zero (suc m) xs h = absurd (omega arith)
take_split (suc s) (suc m) [] h = sym (take_nil (suc s - 0))
take_split (suc s) (suc m) (x ∷ xs) h = ap (◌∷◌ x) (
    take_split s m xs (omega arith) ∙ ap (λ (k : ℕ). take m xs ++ take k (drop m xs)) (omega arith))

module _ (soft : ℕ) where
  wanted_split :
      (t m : ℕ) (left : Bytes)
      → (soft == 0) ≡ true ⊎ (m ≤ soft - t)
      → wanted soft t left ≡ take m left ++ wanted soft (t + length (take m left)) (drop m left)
  wanted_split t m left fits = elim (Bool-cases (soft == 0)) [
    | inl no_limit ↦ rw no_limit (sym (take-append-drop m left))
    | inr limit ↦ rw limit (
        take_split (soft - t) m left (elim fits [ inl e ↦ ground (arith, e, limit) | inr h ↦ h ])
        ∙ ap (λ (k : ℕ). take m left ++ take k (drop m left)) (omega arith))
  ]

  wanted_nil : (t : ℕ) → wanted soft t [] ≡ []
  wanted_nil t = elim (Bool-cases (soft == 0)) [
    | inl no_limit ↦ rw no_limit refl
    | inr limit ↦ rw limit (take_nil (soft - t))
  ]

  wanted_reached :
      (t : ℕ) (left : Bytes) → (ltb 0 soft && leb soft t) ≡ true → wanted soft t left ≡ []
  wanted_reached t left h =
      let e : (soft == 0) ≡ false = ground (arith, h) in
      rw e (ap (λ (k : ℕ). take k left) (let z : soft - t ≡ 0 = ground (arith, h) in z))

  room_fits :
      (t : ℕ)
      → (ltb 0 soft && leb soft t) ≡ false
      → ((soft == 0) ≡ true ⊎ (room soft t ≤ soft - t)) × (0 < room soft t)
  room_fits t h = elim (Bool-cases (ltb 0 soft)) [
    | inl limited ↦ (inr (ground (arith, limited, h)), ground (arith, limited, h))
    | inr unlimited ↦ (inl (ground (arith, unlimited)), ground (arith, unlimited))
  ]

nil_of_length : (xs : Bytes) → (length xs == 0) ≡ true → xs ≡ []
nil_of_length [] h = refl
nil_of_length (x ∷ xs) h = ground (arith, h)

left_nil : (m : ℕ) (left : Bytes) → 0 < m → (length (take m left) == 0) ≡ true → left ≡ []
left_nil zero left pos h = absurd (omega arith)
left_nil (suc m) [] pos h = refl
left_nil (suc m) (x ∷ left) pos h = ground (arith, h)

module _ (sha256 : Bytes → Bytes) (hard soft : ℕ) where
  also-Sends :
      (sent got left rest : Bytes) (p : Sent)
      → wanted soft (length sent) left ≡ got ++ wanted soft (length sent + length got) rest
      → Sends sha256 hard soft (sent ++ got) rest p
      → Sends sha256 hard soft sent left (also (chunk_of got false) p)
  also-Sends sent got left rest (cs, answer c) e (inl bad) = inl bad
  also-Sends sent got left rest ([], answer c) e (inr (same, whole, last, fits)) = elim last [ ]
  also-Sends sent got left rest (d ∷ cs, answer c) e (inr (same, whole, last, fits)) = inr (
    ap (◌++◌ got) (same ∙ ap (λ (k : ℕ). wanted soft k rest) (length-append sent got)) ∙ sym e,
    whole ∙ ap (written_complete sha256) (append_assoc sent got (joined (d ∷ cs))),
    (refl, last),
    omega (arith, fits, length-append sent got, length-append got (joined (d ∷ cs))),
  )
  also-Sends sent got left rest (cs, context_error) e h = h
  also-Sends sent got left rest (cs, pending) e h = h

  -- Nothing more is to come: an empty last chunk.
  closing-Sends :
      (sent left : Bytes)
      → length sent ≤ hard
      → wanted soft (length sent) left ≡ []
      → Sends sha256 hard soft sent left
          (chunk_of [] true ∷ [], answer (written_complete sha256 sent))
  closing-Sends sent left fits e =
      inr (sym e, ap (written_complete sha256) (sym (append-nil sent)), refl, omega (arith, fits))

  -- A round in which Read gives something, or reports the end of the file.
  abbrev round : Bool → (m : ℕ) (left sent : Bytes) → Sent → Sent
  round with_eof m left sent more =
      if length (take m left) == 0
      then (chunk_of [] true ∷ [], answer (written_complete sha256 sent))
      else if ltb hard (length sent + length (take m left))
      then ([], answer (failed (length sent) (codes "exceeds_max_size") []))
      else if with_eof && length (drop m left) == 0
      then (
        chunk_of (take m left) true ∷ [],
        answer (written_complete sha256 (sent ++ take m left)),
      )
      else also (chunk_of (take m left) false) more

  round-Sends :
      (with_eof : Bool) (m : ℕ) (left sent : Bytes) (more : Sent)
      → length sent ≤ hard
      → 0 < m
      → (soft == 0) ≡ true ⊎ (m ≤ soft - length sent)
      → (length (sent ++ take m left) ≤ hard
          → Sends sha256 hard soft (sent ++ take m left) (drop m left) more)
      → Sends sha256 hard soft sent left (round with_eof m left sent more)
  round-Sends with_eof m left sent more fits pos within later =
      let split = wanted_split soft (length sent) m left within in
      elim (Bool-cases (length (take m left) == 0)) [
        | inl over ↦ rw over (
            closing-Sends sent left fits (
              ap (wanted soft (length sent)) (left_nil m left pos over)
              ∙ wanted_nil soft (length sent)))
        | inr some' ↦ elim (Bool-cases (ltb hard (length sent + length (take m left)))) [
          | inl large ↦ rw (some', large) (inl (λ e. cc))
          | inr small ↦ elim (Bool-cases (with_eof && length (drop m left) == 0)) [
            | inl last ↦
                rw (some', small, last)
                  (let nil = nil_of_length (drop m left) (ground (arith, last)) in
                    let total = length sent + length (take m left) in
                    inr (
                      sym (
                          split
                          ∙ (ap (λ (rest : Bytes). take m left ++ wanted soft total rest) nil
                              ∙ ap (◌++◌ (take m left)) (wanted_nil soft total))),
                      ap (λ (b : Bytes). written_complete sha256 (sent ++ b))
                          (sym (append-nil (take m left))),
                      refl,
                      ground (arith, small, length-append (take m left) []),
                    ))
            | inr more' ↦
                rw (some', small, more')
                  (also-Sends sent (take m left) left (drop m left) more split
                    (later (ground (arith, small, length-append sent (take m left)))))
          ]
        ]
      ]

  stream-Sends :
      (rounds : List Round) (left sent : Bytes)
      → length sent ≤ hard
      → Sends sha256 hard soft sent left (stream sha256 hard soft rounds left sent)
  unfolding stream
  stream-Sends [] left sent fits = tt
  stream-Sends (cancelled ∷ rounds) left sent fits = tt
  stream-Sends (fails ∷ rounds) left sent fits =
      elim (Bool-cases (ltb 0 soft && leb soft (length sent))) [
        | inl reached ↦
            rw reached
              (closing-Sends sent left fits (wanted_reached soft (length sent) left reached))
        | inr open' ↦ rw open' (inl (λ e. cc))
      ]
  stream-Sends (gives extra with_eof ∷ rounds) left sent fits =
      elim (Bool-cases (ltb 0 soft && leb soft (length sent))) [
        | inl reached ↦
            rw reached
              (closing-Sends sent left fits (wanted_reached soft (length sent) left reached))
        | inr open' ↦ rw open' (
            let (within, pos) = room_fits soft (length sent) open' in
            let m = min (suc extra) (room soft (length sent)) in
            round-Sends with_eof m left sent _ fits (omega (arith, pos))
              (elim within [ inl any ↦ inl any | inr h ↦ inr (omega (arith, h)) ])
              (stream-Sends rounds (drop m left) (sent ++ take m left)))
      ]

-- Whatever pieces an opened file is read in, and wherever a read fails or the context ends: if
-- ReadFile answers with no error, then the chunks that it sent are together exactly what the request
-- names, from the offset to the limit or the end of the file, at most the cap, only the last chunk is
-- marked as the last, and the answer has the size and the digest of what was sent.
pub read_file-Sends :
    (sha256 : Bytes → Bytes) (req : FileReadRequest) (max_bytes : ℕ) (rounds : List Round)
    (b : Bytes)
    → Sends sha256
        (hard_cap max_bytes req.max_size)
        (pos_part req.limit)
        []
        (drop (pos_part req.offset) b)
        (read_file sha256 req max_bytes rounds (content b))
unfolding read_file
read_file-Sends sha256 req max_bytes rounds b = elim (Bool-cases (is_negative req.offset)) [
  | inl bad ↦ rw bad (inl (λ e. cc))
  | inr offset ↦ elim (Bool-cases (is_negative req.limit)) [
    | inl bad ↦ rw (offset, bad) (inl (λ e. cc))
    | inr limit ↦
        rw (offset, limit)
          (stream-Sends sha256 _ (pos_part req.limit) rounds (drop (pos_part req.offset) b) []
            (omega arith))
  ]
]
