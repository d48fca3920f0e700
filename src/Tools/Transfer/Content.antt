-- ===== src/Tools/Transfer/Content.antt =====
-- What the source of chunks delivers, and the loop of WriteFile and UploadChunks against it.
use agbridge.Prelude.{
  ℕ, ◌+◌, ◌≤◌, ◌≡◌, ◌≢◌, refl, sym, ◌∙◌, ap, subst, List, [], ◌∷◌, ◌++◌, append_assoc, append-nil,
  Bytes, bytes_eq, nat_eq, codes, length, length-append, ltb, ◌==◌, ◌&&◌, Bool, true, false,
  Bool-cases, inl, inr, if◌then◌else◌, if_split, Option, none, some, arith,
}
use agbridge.Prelude.Maps
use agbridge.Files.{File, Files, append, unlink}
use agbridge.Files.Swap.{Holds, append-Holds, Kept, unlink-Kept}
use agbridge.Tools.Payload.{FileChunk, FileComplete, failed}
use agbridge.Tools.Transfer.{
  Pull, cancelled, source_failed, chunk, unwritable, Collected, complete, stopped, interrupted,
  waiting, collect,
}

abbrev prepend : Bytes → Option Bytes → Option Bytes
prepend b none = none
prepend b (some rest) = some (b ++ rest)

-- The bytes up to the chunk that is marked as the last, where all of them arrive and are written.
abbrev pub delivered : List Pull → Option Bytes
delivered [] = none
delivered (cancelled ∷ pulls) = none
delivered (source_failed e ∷ pulls) = none
delivered (chunk c ∷ pulls) = if c.eof then some c.bytes else prepend c.bytes (delivered pulls)
delivered (unwritable c e ∷ pulls) =
    if length c.bytes == 0 then (if c.eof then some [] else delivered pulls) else none

module _ (fs : Files) (tmp : Bytes) (removes : Bool) (mode : ℕ) (cap : ℕ) (detail : Bytes)
    (write_detail : Bytes → Bytes) (fresh : Maps.get fs tmp ≡ none) where
  abbrev holding : Bytes → File
  holding content = record { content = content; mode = mode }

  abbrev pub Ends : Bytes → List Pull → Collected → Type 0
  Ends content pulls (complete fs' all) =
      Holds fs tmp (holding all) fs'
      × ((rest : Bytes) × (delivered pulls ≡ some rest) × (all ≡ content ++ rest))
      × (length all ≤ cap)
  Ends content pulls (stopped fs' c) = Kept removes tmp fs fs' × (c.err ≢ [])
  Ends content pulls (interrupted fs') = Kept removes tmp fs fs'
  Ends content pulls (waiting fs' all) = Holds fs tmp (holding all) fs'

  skip-Ends :
      (content : Bytes) (c : FileChunk) (e : Bytes) (pulls : List Pull) (r : Collected)
      → (length c.bytes == 0) ≡ true
      → c.eof ≡ false
      → Ends content pulls r
      → Ends content (unwritable c e ∷ pulls) r
  skip-Ends content c e pulls (complete fs' all) empty more h =
      (h.0, (h.1.0, ground (arith, h.1.1), h.1.2), h.2)
  skip-Ends content c e pulls (stopped fs' a) empty more h = h
  skip-Ends content c e pulls (interrupted fs') empty more h = h
  skip-Ends content c e pulls (waiting fs' all) empty more h = h

  next-Ends :
      (content : Bytes) (c : FileChunk) (pulls : List Pull) (r : Collected)
      → c.eof ≡ false
      → Ends (content ++ c.bytes) pulls r
      → Ends content (chunk c ∷ pulls) r
  next-Ends content c pulls (complete fs' all) more h = (
    h.0,
    (c.bytes ++ h.1.0, rw (more, h.1.1) refl, h.1.2 ∙ append_assoc content c.bytes h.1.0),
    h.2,
  )
  next-Ends content c pulls (stopped fs' a) more h = h
  next-Ends content c pulls (interrupted fs') more h = h
  next-Ends content c pulls (waiting fs' all) more h = h

  pub collect-Ends :
      (pulls : List Pull) (fs' : Files) (content : Bytes)
      → Holds fs tmp (holding content) fs'
      → length content ≤ cap
      → Ends content pulls (collect tmp removes cap detail write_detail pulls fs' content)
  unfolding collect
  collect-Ends [] fs' content h fits = h
  collect-Ends (cancelled ∷ pulls) fs' content h fits = unlink-Kept removes fs tmp _ fs' fresh h
  collect-Ends (source_failed e ∷ pulls) fs' content h fits =
      (unlink-Kept removes fs tmp _ fs' fresh h, λ e. cc)
  collect-Ends (chunk c ∷ pulls) fs' content h fits =
      let grown = append-Holds fs tmp _ fs' c.bytes h in
      let fs'' = append fs' tmp c.bytes in
      let all = content ++ c.bytes in
      let more = collect tmp removes cap detail write_detail pulls fs'' all in
      let P = Ends content (chunk c ∷ pulls) in
      if_split P _
        {x = stopped (unlink removes fs' tmp)
          (failed (length content) (codes "exceeds_max_size") detail)}
        {y = if c.eof then complete fs'' all else more}
        (λ large. (unlink-Kept removes fs tmp _ fs' fresh h, λ e. cc))
        (λ small.
          let fits' : length all ≤ cap =
            ground (arith, length-append content c.bytes, small, fits) in
          if_split P c.eof {x = complete fs'' all} {y = more}
            (λ last. (grown, (c.bytes, rw last refl, refl), fits'))
            (λ go. next-Ends content c pulls _ go (collect-Ends pulls fs'' all grown fits')))
  collect-Ends (unwritable c e ∷ pulls) fs' content h fits =
      let more = collect tmp removes cap detail write_detail pulls fs' content in
      let P = Ends content (unwritable c e ∷ pulls) in
      let large = failed (length content) (codes "exceeds_max_size") detail in
      let broken = failed (length content) (codes "write_failed") (write_detail e) in
      if_split P (length c.bytes == 0) {x = if c.eof then complete fs' content else more}
        {y = stopped (unlink removes fs' tmp)
          (if ltb cap (length content + length c.bytes) then large else broken)}
        (λ empty.
          if_split P c.eof {x = complete fs' content} {y = more}
            (λ last. (h, ([], ground (arith, empty, last), sym (append-nil content)), fits))
            (λ go. skip-Ends content c e pulls _ empty go (collect-Ends pulls fs' content h fits)))
        (λ full. (
          unlink-Kept removes fs tmp _ fs' fresh h,
          if_split (λ (a : FileComplete). a.err ≢ []) _ {x = large} {y = broken} (λ _ e. cc)
              (λ _ e. cc),
        ))

abbrev pub Gives : Bytes → Collected → Type 0
Gives all (complete fs' content) = content ≡ all
Gives all _ = ⊥

prepend-eq-some :
    (b rest : Bytes) (o : Option Bytes)
    → prepend b o ≡ some rest
    → (more : Bytes) × (o ≡ some more) × (rest ≡ b ++ more)
prepend-eq-some b rest none h = cc
prepend-eq-some b rest (some more) h = (more, refl, cc)

module _ (tmp : Bytes) (removes : Bool) (cap : ℕ) (detail : Bytes)
    (write_detail : Bytes → Bytes) where
  abbrev run : List Pull → Files → Bytes → Collected
  run pulls fs content = collect tmp removes cap detail write_detail pulls fs content

  -- Where the source delivers no more than the cap, all of it is collected.
  pub collect_delivers :
      (pulls : List Pull) (fs : Files) (content rest : Bytes)
      → delivered pulls ≡ some rest
      → length content + length rest ≤ cap
      → Gives (content ++ rest) (run pulls fs content)
  unfolding collect
  collect_delivers [] fs content rest h fits = cc
  collect_delivers (cancelled ∷ pulls) fs content rest h fits = cc
  collect_delivers (source_failed e ∷ pulls) fs content rest h fits = cc
  collect_delivers (chunk c ∷ pulls) fs content rest h fits = elim (Bool-cases c.eof) [
    | inl last ↦
        let e : c.bytes ≡ rest = ground (arith, h, last) in
        let small : (ltb 0 (length c.bytes) && ltb cap (length content + length c.bytes)) ≡ false =
          ground (arith, ap length e, fits) in
        rw (small, last) (ap (◌++◌ content) e)
    | inr go ↦
        let (more, at, e) =
          prepend-eq-some c.bytes rest (delivered pulls) (ground (arith, h, go)) in
        let fits' : length content + length c.bytes + length more ≤ cap =
          omega (arith, fits, ap length e, length-append c.bytes more) in
        let small : (ltb 0 (length c.bytes) && ltb cap (length content + length c.bytes)) ≡ false =
          ground (arith, fits') in
        rw (small, go)
          (subst
            (λ (all : Bytes). Gives all (run pulls (append fs tmp c.bytes) (content ++ c.bytes)))
            (append_assoc content c.bytes more ∙ ap (◌++◌ content) (sym e))
            (collect_delivers pulls (append fs tmp c.bytes) (content ++ c.bytes) more at
              (omega (arith, fits', length-append content c.bytes))))
  ]
  collect_delivers (unwritable c e ∷ pulls) fs content rest h fits =
      elim (Bool-cases (length c.bytes == 0)) [
        | inr full ↦ absurd (ground (arith, h, full))
        | inl empty ↦ elim (Bool-cases c.eof) [
          | inl last ↦
              rw (empty, last)
                (let e : [] ≡ rest = ground (arith, h, empty, last) in
                  sym (append-nil content) ∙ ap (◌++◌ content) e)
          | inr go ↦
              rw (empty, go)
                (collect_delivers pulls fs content rest (ground (arith, h, empty, go)) fits)
        ]
      ]
