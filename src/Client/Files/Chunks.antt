-- ===== src/Client/Files/Chunks.antt =====
-- The chunks in which internal/cliclient/handlers_file.go sends the content of a file.
use agbridge.Prelude.{
  ℕ, zero, suc, ◌-◌, ◌<◌, ◌≤◌, ◌≡◌, refl, ap, List, [], ◌∷◌, Bytes, bytes_eq, nat_eq, length, take,
  drop, take-append-drop, length-drop, leb, ◌==◌, false, Bool-cases, inl, inr, some, arith,
}
use agbridge.Tools.Payload.{FileChunk}
use agbridge.Tools.Transfer.{Pull, chunk}
use agbridge.Tools.Transfer.Content.{delivered}
use agbridge.Client.Files.{write_chunk_size, chunks_from, file_chunks}

-- Every chunk comes in and can be written.
abbrev pub pulls_of : List FileChunk → List Pull
pulls_of [] = []
pulls_of (c ∷ cs) = chunk c ∷ pulls_of cs

take_all : (k : ℕ) (b : Bytes) → length b ≤ k → take k b ≡ b
take_all zero [] h = refl
take_all zero (x ∷ b) h = absurd (omega (arith, h))
take_all (suc k) [] h = refl
take_all (suc k) (x ∷ b) h = ap (◌∷◌ x) (take_all k b (omega (arith, h)))

chunks_from-delivered :
    (n : ℕ) (b : Bytes)
    → length b ≤ n
    → 0 < length b
    → delivered (pulls_of (chunks_from n b)) ≡ some b
unfolding chunks_from
chunks_from-delivered zero b h pos = absurd (omega (arith, h, pos))
chunks_from-delivered (suc n) b h pos =
    let some' : (length b == 0) ≡ false = ground (arith, pos) in
    elim (Bool-cases (leb (length b) write_chunk_size)) [
      | inl last ↦ rw (some', last) (ap some (take_all write_chunk_size b (ground (arith, last))))
      | inr more ↦
          let k : length (drop write_chunk_size b) ≡ length b - write_chunk_size =
            length-drop write_chunk_size b in
          let long : write_chunk_size < length b = ground (arith, more) in
          rw
            (
              some',
              more,
              chunks_from-delivered n (drop write_chunk_size b) (omega (arith, k, h, long))
                  (omega (arith, k, long)),
            )
            (ap some (take-append-drop write_chunk_size b))
    ]

-- The chunks, up to the one that is marked as the last, are the content.
pub file_chunks-delivered : (b : Bytes) → delivered (pulls_of (file_chunks b)) ≡ some b
unfolding file_chunks
file_chunks-delivered [] = refl
file_chunks-delivered (x ∷ b) =
    let full : (length (x ∷ b) == 0) ≡ false = ground arith in
    rw full (chunks_from-delivered (length (x ∷ b)) (x ∷ b) (omega arith) (omega arith))
