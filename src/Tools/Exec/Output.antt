-- ===== src/Tools/Exec/Output.antt =====
-- The output and the environment of internal/tools/exec.go.
use agbridge.Prelude.{
  ℕ, zero, suc, ◌+◌, ◌-◌, ◌≤◌, ◌≡◌, refl, sym, ◌∙◌, ap, List, [], ◌∷◌, ◌++◌, append-nil,
  take-append_le, take-append_ge, Bytes, bytes_eq, nat_eq, codes, length, length-append, take, drop,
  ltb, ◌==◌, eq_iff, ◌||◌, if◌then◌else◌, if_split, Bool, true, false, All, Bool-cases,
  Option-cases, inl, inr, Option, none, some, arith,
}
use mathlib.Core.Option.{some-injective}
use agbridge.Auth.{has_prefix}
use agbridge.Tools.Text.{index, after_one-eq-some}
use agbridge.Tools.Exec.{
  ExecChunk, Reading, stream_chunks, max_bytes_per_stream, allowed, kept, inherited, extra_env,
  build_env,
}

abbrev pub joined : List ExecChunk → Bytes
joined [] = []
joined (c ∷ cs) = c.bytes ++ joined cs

-- All the output, up to the first error of Read
abbrev pub output : List Reading → Bytes
output [] = []
output (r ∷ reads) = r.got ++ (if r.ended then [] else output reads)

take_nil : (n : ℕ) → [] ≡ take {A = ℕ} n []
take_nil zero = refl
take_nil (suc n) = refl

ended-joined :
    (ended : Bool) (m : ℕ) (more : List ExecChunk) (rest : Bytes)
    → joined more ≡ take m rest
    → joined (if ended then [] else more) ≡ take m (if ended then [] else rest)
ended-joined true m more rest e = take_nil m
ended-joined false m more rest e = e

empty : (b : Bytes) → ltb 0 (length b) ≡ false → b ≡ []
empty [] h = refl
empty (x ∷ b) h = absurd (ground (arith, h))

-- Over the limit: what is left of it is sent.
cut-joined :
    (name : Bytes) (left : ℕ) (got rest : Bytes)
    → left ≤ length got
    → joined (if ltb 0 left then record { stream = name; bytes = take left got } ∷ [] else [])
      ≡ take left (got ++ rest)
cut-joined name zero got rest h = refl
cut-joined name (suc left) got rest h =
    let some' : ltb 0 (suc left) ≡ true = ground arith in
    rw some' (append-nil (take (suc left) got) ∙ sym (take-append_le (suc left) got rest h))

-- What has been sent is within the limit; what is still sent is the output up to it.
stream_chunks-output :
    (name : Bytes) (total : ℕ) (reads : List Reading)
    → total ≤ max_bytes_per_stream
    → joined (stream_chunks name total reads) ≡ take (max_bytes_per_stream - total) (output reads)
unfolding stream_chunks
stream_chunks-output name total [] h = take_nil (max_bytes_per_stream - total)
stream_chunks-output name total (r ∷ reads) h =
    let n = length r.got in
    let left = max_bytes_per_stream - total in
    let later = stream_chunks-output name (total + n) reads in
    elim (Bool-cases (ltb 0 n)) [
      | inr none' ↦
          let m : max_bytes_per_stream - (total + 0) ≡ left = omega arith in
          let same = stream_chunks-output name (total + 0) reads (omega (arith, h)) in
          rw (none', empty r.got none')
            (ended-joined r.ended left (stream_chunks name (total + 0) reads) (output reads)
              (same ∙ ap (λ (k : ℕ). take k (output reads)) m))
      | inl some' ↦ elim (Bool-cases (ltb max_bytes_per_stream (total + n))) [
        | inl over ↦ rw (some', over) (cut-joined name left r.got _ (ground (arith, over, h)))
        | inr fits ↦
            let small : n ≤ left = ground (arith, fits) in
            let m : max_bytes_per_stream - (total + n) ≡ left - n = omega arith in
            rw (some', fits)
              (ap (◌++◌ r.got) (
                  ended-joined r.ended (left - n) (stream_chunks name (total + n) reads)
                    (output reads)
                    (later (ground (arith, fits)) ∙ ap (λ (k : ℕ). take k (output reads)) m))
                ∙ sym (take-append_ge left r.got (if r.ended then [] else output reads) small))
      ]
    ]

-- Each stream's chunks are its output, cut after the first MiB.
pub stream_chunks_cut :
    (name : Bytes) (reads : List Reading)
    → joined (stream_chunks name 0 reads) ≡ take max_bytes_per_stream (output reads)
stream_chunks_cut name reads = stream_chunks-output name 0 reads (omega arith)

-- A variable of a name that is allowed
abbrev pub Allowed : List Bytes → Bytes → Type 0
Allowed allow kv =
    (name : Bytes) × (value : Bytes) × (kv ≡ name ++ (codes "=" ++ value))
    × (allowed allow name ≡ true)

index-splits :
    (s : Bytes) (i : ℕ)
    → index s (codes "=") ≡ some i
    → s ≡ take i s ++ (codes "=" ++ drop (suc i) s)
unfolding index agbridge.Prelude.bytes_beq
index-splits [] i h = cc
index-splits (c ∷ s) i h = elim (Bool-cases (has_prefix (c ∷ s) (codes "="))) [
  | inl here ↦
      let e : c ∷ [] ≡ 61 ∷ [] = (eq_iff (c ∷ []) (61 ∷ [])).0 here in
      let at : 0 ≡ i = some-injective _ _ (rw here at h) in rw (← at) (ap (λ (t : Bytes). t ++ s) e)
  | inr other ↦
      let (j, at, e) = after_one-eq-some (index s (codes "=")) i (rw other at h) in
      rw e (ap (◌∷◌ c) (index-splits s j at))
]

kept-Allowed :
    (allow : List Bytes) (kv : Bytes) (o : Option ℕ) (rest : List Bytes)
    → index kv (codes "=") ≡ o
    → All (Allowed allow) rest
    → All (Allowed allow) (kept allow kv o rest)
kept-Allowed allow kv none rest at h = h
kept-Allowed allow kv (some i) rest at h = elim (Bool-cases (allowed allow (take i kv))) [
  | inl yes' ↦ rw yes' ((take i kv, drop (suc i) kv, index-splits kv i at, yes'), h)
  | inr no' ↦ rw no' h
]

inherited-Allowed : (allow environ : List Bytes) → All (Allowed allow) (inherited allow environ)
inherited-Allowed allow [] = tt
inherited-Allowed allow (kv ∷ environ) =
    kept-Allowed allow kv _ (inherited allow environ) refl (inherited-Allowed allow environ)

extra_env-Allowed :
    (allow : List Bytes) (extra : List (Bytes × Bytes))
    → All (Allowed allow) (extra_env allow extra)
extra_env-Allowed allow [] = tt
extra_env-Allowed allow ((k, v) ∷ extra) = elim (Bool-cases (allowed allow k)) [
  | inl yes' ↦ rw yes' ((k, v, refl, yes'), extra_env-Allowed allow extra)
  | inr no' ↦ rw no' (extra_env-Allowed allow extra)
]

both-Allowed :
    (allow xs ys : List Bytes)
    → All (Allowed allow) xs
    → All (Allowed allow) ys
    → All (Allowed allow) (xs ++ ys)
both-Allowed allow [] ys h h' = h'
both-Allowed allow (x ∷ xs) ys h h' = (h.0, both-Allowed allow xs ys h.1 h')

-- The environment of a process that Exec starts, inherited or asked for, has only variables whose names
-- are on the daemon's allowlist.
pub build_env-Allowed :
    (allow environ : List Bytes) (extra : List (Bytes × Bytes))
    → All (Allowed allow) (build_env allow environ extra)
unfolding build_env
build_env-Allowed allow environ extra =
    both-Allowed allow (inherited allow environ) (extra_env allow extra)
      (inherited-Allowed allow environ) (extra_env-Allowed allow extra)
