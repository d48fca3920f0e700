-- ===== src/Handshake/Read.antt =====
-- The two readers of `DecodeHello`, at an offset whose suffix is known, and on success.
use agbridge.Prelude.{
  ℕ, ◌+◌, ◌%◌, ◌^◌, ◌≤◌, ◌<◌, ◌≡◌, refl, ◌∙◌, [], ◌∷◌, ◌++◌, Bytes, length, drop, slice, ok, arith,
  slice-drop, length-suffix, drop-add, take-append, drop-append, length-append,
}
use agbridge.Wire.{big_endian, put_uint16}
use agbridge.Handshake.{read1, read2, str1, str2}

-- A buffer that holds `w` bytes `head` and then `s` from the offset `off` on.
record Field (b head s rest : Bytes) (off w : ℕ) : Type 0 where
  head_slice : slice b off (off + w) ≡ head
  body_slice : slice b (off + w) (off + w + length s) ≡ s
  fits : off + w + length s ≤ length b
  remainder : drop (off + w + length s) b ≡ rest

module _ (b head s rest : Bytes) (off w : ℕ) (inside : off ≤ length b) where
  Field-at : drop off b ≡ head ++ (s ++ rest) → length head ≡ w → Field b head s rest off w
  Field-at e h = record {
    head_slice = slice-drop b off w (off + w) refl ∙ rw (e, ← h) (take-append head (s ++ rest));
    body_slice = slice-drop b (off + w) (length s) _ refl ∙ rw tail (take-append s rest);
    fits = omega (
      arith,
      length-suffix b _ off inside e,
      length-append head (s ++ rest),
      length-append s rest,
    );
    remainder = drop-add (off + w) (length s) b ∙ rw tail (drop-append s rest);
  }
    where
      tail : drop (off + w) b ≡ s ++ rest
      tail = drop-add off w b ∙ rw (e, ← h) (drop-append head (s ++ rest))

module _ (b s rest : Bytes) (off : ℕ) (inside : off ≤ length b) where
  -- A string behind its length is read, and the offset moves behind it.
  pub read1-str1 :
      drop off b ≡ str1 s ++ rest
      → length s < 2 ^ 8
      → (read1 b off ≡ ok (s, off + 1 + length s))
        × (off + 1 + length s ≤ length b)
        × (drop (off + 1 + length s) b ≡ rest)
  unfolding read1
  read1-str1 e h =
      (rw (f.head_slice, len) (ground (arith, f.fits, f.body_slice)), f.fits, f.remainder)
    where
      f : Field b (length s % 2 ^ 8 ∷ []) s rest off 1
      f = Field-at b _ s rest off 1 inside e refl

      len : big_endian (length s % 2 ^ 8 ∷ []) ≡ length s
      len = omega arith

  pub read2-str2 :
      drop off b ≡ str2 s ++ rest
      → length s < 2 ^ 16
      → (read2 b off ≡ ok (s, off + 2 + length s))
        × (off + 2 + length s ≤ length b)
        × (drop (off + 2 + length s) b ≡ rest)
  unfolding read2
  read2-str2 e h =
      (rw (f.head_slice, len) (ground (arith, f.fits, f.body_slice)), f.fits, f.remainder)
    where
      f : Field b (put_uint16 (length s % 2 ^ 16)) s rest off 2
      f = Field-at b _ s rest off 2 inside e refl

      len : big_endian (put_uint16 (length s % 2 ^ 16)) ≡ length s
      len = omega arith
