-- ===== src/Tools/ReadFile/Ending.antt =====
-- ReadFile of internal/tools/readfile.go comes to an end.
use agbridge.Prelude.{
  ℕ, suc, ◌+◌, pos_part, is_negative, min, ◌<◌, ◌≡◌, List, [], ◌∷◌, ◌++◌, Bytes, nat_eq, length,
  take, drop, length-take, length-drop, ltb, leb, ◌==◌, ◌&&◌, Bool-cases, inl, inr, false, if_both,
  arith,
}
use agbridge.Tools.Payload.{FileReadRequest, FileChunk, FileComplete}
use agbridge.Tools.Transfer.{answer, context_error, pending}
use agbridge.Tools.ReadFile.{
  Round, cancelled, fails, gives, Sent, also, chunk_of, room, stream, content, read_file, Opened,
  missing, unreadable, unseekable, opened,
}

-- Read gives something in every round.
abbrev pub Gives : List Round → Type 0
Gives [] = Unit
Gives (gives extra with_eof ∷ rounds) = Gives rounds
Gives (_ ∷ rounds) = ⊥

abbrev pub IsAnswer : Sent → Type 0
IsAnswer (cs, answer c) = Unit
IsAnswer (cs, context_error) = ⊥
IsAnswer (cs, pending) = ⊥

also-IsAnswer : (c : FileChunk) (p : Sent) → IsAnswer p → IsAnswer (also c p)
also-IsAnswer c (cs, answer a) h = tt
also-IsAnswer c (cs, context_error) h = elim h [ ]
also-IsAnswer c (cs, pending) h = elim h [ ]

drop_less :
    (m n : ℕ) (left : Bytes)
    → (length (take m left) == 0) ≡ false
    → length left < suc n
    → length (drop m left) < n
drop_less m n left some' h = ground (arith, some', h, length-take m left, length-drop m left)

module _ (sha256 : Bytes → Bytes) (hard soft : ℕ) where
  stream-IsAnswer :
      (rounds : List Round) (left sent : Bytes)
      → Gives rounds
      → length left < length rounds
      → IsAnswer (stream sha256 hard soft rounds left sent)
  unfolding stream
  stream-IsAnswer [] left sent g h = absurd (omega arith)
  stream-IsAnswer (cancelled ∷ rounds) left sent g h = elim g [ ]
  stream-IsAnswer (fails ∷ rounds) left sent g h = elim g [ ]
  stream-IsAnswer (gives extra with_eof ∷ rounds) left sent g h =
      let m = min (suc extra) (room soft (length sent)) in
      let got = take m left in
      let later = stream-IsAnswer rounds (drop m left) (sent ++ got) g in
      elim (Bool-cases (ltb 0 soft && leb soft (length sent))) [
        | inl reached ↦ rw reached tt
        | inr open' ↦ elim (Bool-cases (length got == 0)) [
          | inl over ↦ rw (open', over) tt
          | inr some' ↦ elim (Bool-cases (ltb hard (length sent + length got))) [
            | inl large ↦ rw (open', some', large) tt
            | inr small ↦ elim (Bool-cases (with_eof && length (drop m left) == 0)) [
              | inl last ↦ rw (open', some', small, last) tt
              | inr more ↦
                  rw (open', some', small, more)
                    (also-IsAnswer (chunk_of got false)
                      (stream sha256 hard soft rounds (drop m left) (sent ++ got))
                      (later (drop_less m (length rounds) left some' h)))
            ]
          ]
        ]
      ]

-- ReadFile ends: it answers when Read gives something in each of more rounds than the file has bytes.
pub read_file-IsAnswer :
    (sha256 : Bytes → Bytes) (req : FileReadRequest) (max_bytes : ℕ) (rounds : List Round)
    (b : Bytes)
    → Gives rounds
    → length b < length rounds
    → IsAnswer (read_file sha256 req max_bytes rounds (content b))
unfolding read_file
read_file-IsAnswer sha256 req max_bytes rounds b g h = elim (Bool-cases (is_negative req.offset)) [
  | inl bad ↦ rw bad tt
  | inr offset ↦ elim (Bool-cases (is_negative req.limit)) [
    | inl bad ↦ rw (offset, bad) tt
    | inr limit ↦
        rw (offset, limit)
          (stream-IsAnswer sha256 _ _ rounds (drop (pos_part req.offset) b) [] g
            (omega (arith, h, length-drop (pos_part req.offset) b)))
  ]
]

-- The same for the rounds and the answer of
abbrev pub Ceases : List Round → Type 0
Ceases [] = ⊥
Ceases (cancelled ∷ rounds) = Unit
Ceases (_ ∷ rounds) = Ceases rounds

pub data Answered : Sent → Type 0 where
  ends : {cs : List FileChunk} {c : FileComplete} → Answered (cs, answer c)
  breaks : {cs : List FileChunk} → Answered (cs, context_error)

also-Answered : (c : FileChunk) (p : Sent) → Answered p → Answered (also c p)
also-Answered c (cs, answer a) ends = ends
also-Answered c (cs, context_error) breaks = breaks
also-Answered c (cs, pending) h = elim h [ ]

module _ (sha256 : Bytes → Bytes) where
  stream-Answered :
      (hard soft : ℕ) (rounds : List Round) (left sent : Bytes)
      → Ceases rounds
      → Answered (stream sha256 hard soft rounds left sent)
  unfolding stream
  stream-Answered hard soft [] left sent c = elim c [ ]
  stream-Answered hard soft (cancelled ∷ rounds) left sent c = breaks
  stream-Answered hard soft (fails ∷ rounds) left sent c = search (if_both Answered, ends)
  stream-Answered hard soft (gives extra with_eof ∷ rounds) left sent c =
      let later : (left' sent' : Bytes) → Answered (stream sha256 hard soft rounds left' sent') =
        λ left' sent'. stream-Answered hard soft rounds left' sent' c in
      search (if_both Answered, ends, also-Answered, later) depth 10

  opened-Answered :
      (req : FileReadRequest) (cap : ℕ) (rounds : List Round) (file : Opened)
      → Ceases rounds
      → Answered (opened sha256 req cap rounds file)
  opened-Answered req cap rounds missing c = ends
  opened-Answered req cap rounds unreadable c = ends
  opened-Answered req cap rounds unseekable c = ends
  opened-Answered req cap rounds (content b) c = stream-Answered _ _ rounds _ [] c

  pub read_file-Answered :
      (req : FileReadRequest) (cap : ℕ) (rounds : List Round) (file : Opened)
      → Ceases rounds
      → Answered (read_file sha256 req cap rounds file)
  unfolding read_file
  read_file-Answered req cap rounds file c = search (if_both Answered, ends, opened-Answered)
