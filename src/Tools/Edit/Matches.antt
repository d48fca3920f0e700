-- ===== src/Tools/Edit/Matches.antt =====
-- matchLines of internal/tools/editfile.go against strings.Count.
use agbridge.Prelude.{
  ℕ, zero, suc, ◌+◌, ◌-◌, ◌<◌, ◌≤◌, ◌≡◌, ◌≢◌, refl, sym, ◌∙◌, ap, [], ◌∷◌, Bytes, bytes_eq, length,
  drop, drop-add, length-drop, ltb, ltb→le, ◌==◌, eq_iff, Bool-cases, Option-cases, inl, inr, none,
  some, arith,
}
use agbridge.Tools.Text.{index, count, count-index, next_count}
use agbridge.Tools.Edit.{match_lines, match_loop}

drop_all : (k : ℕ) (s : Bytes) → length s ≤ k → drop k s ≡ []
drop_all zero [] h = refl
drop_all zero (x ∷ s) h = absurd (omega arith)
drop_all (suc k) [] h = refl
drop_all (suc k) (x ∷ s) h = drop_all k s (omega arith)

count_nil : (needle : Bytes) → count [] needle ≡ 0
unfolding agbridge.Tools.Text.count_from
count_nil needle = refl

past_end :
    (body needle : Bytes) (offset : ℕ) → length body ≤ offset → 0 ≡ count (drop offset body) needle
past_end body needle offset h =
    sym (ap (λ (s : Bytes). count s needle) (drop_all offset body h) ∙ count_nil needle)

length-match_loop :
    (n : ℕ) (body needle : Bytes) (offset : ℕ)
    → 0 < length needle
    → length body ≤ offset + n
    → length (match_loop n body needle offset) ≡ count (drop offset body) needle
unfolding match_loop
length-match_loop zero body needle offset pos fuel =
    past_end body needle offset (omega (arith, fuel))
length-match_loop (suc n) body needle offset pos fuel =
    elim (Bool-cases (ltb offset (length body))) [
      | inr over ↦ rw over (past_end body needle offset (ltb→le offset (length body) over))
      | inl more ↦ elim (Option-cases (index (drop offset body) needle)) [
        | inl none' ↦
            rw (more, none')
              (sym (
                count-index (drop offset body) needle pos
                ∙ ap (next_count (drop offset body) needle) none'))
        | inr (i, here) ↦
            rw (more, here)
              (ap suc (
                  length-match_loop n body needle (offset + i + length needle) pos
                    (omega (arith, fuel, pos))
                  ∙ ap (λ (t : Bytes). count t needle)
                      (ap (λ (k : ℕ). drop k body)
                          (let e : offset + i + length needle ≡ offset + (i + length needle) =
                              omega arith in
                            e)
                        ∙ drop-add offset (i + length needle) body))
                ∙ sym (
                    count-index (drop offset body) needle pos
                    ∙ ap (next_count (drop offset body) needle) here))
      ]
    ]

-- matchLines reports as many lines as strings.Count counts occurrences, and needs no more rounds than
-- there are bytes.
pub length-match_lines :
    (body needle : Bytes) → needle ≢ [] → length (match_lines body needle) ≡ count body needle
unfolding match_lines match_loop agbridge.Prelude.bytes_beq
length-match_lines body [] given = absurd (given refl)
length-match_lines body (x ∷ needle) given =
    length-match_loop (length body) body (x ∷ needle) 0 (omega arith) (omega arith)
