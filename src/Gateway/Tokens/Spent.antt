-- ===== src/Gateway/Tokens/Spent.antt =====
-- A used token of internal/gateway/tokens.go, under everything that is done to the store.
use agbridge.Prelude.{
  ℕ, ◌≡◌, ◌⊎◌, refl, List, [], ◌∷◌, All, Bytes, Bool, true, false, ◌==◌, bytes_eq, ltb, Option,
  none, some, Result, ok, err, Bool-cases, inl, inr,
}
use agbridge.Prelude.Maps
use agbridge.Prelude.Maps.{
  Map, entries, get-put, get-remove, get-put_self, get-put_other, get-remove_other, get-remove_self,
}
use agbridge.Gateway.Tokens.{
  Token, TokenRequest, Error, saved, TokenStore, new_token_store, reload, flush, issue,
  issue_checked, checked, new_token, consume, consume_found, stale, swept, gc,
}

-- A token that `Consume` refuses for good: unknown, or marked used.
abbrev pub spent_row : Option Token → Bool
spent_row none = true
spent_row (some tok) = tok.used

abbrev pub spent : Bytes → Map Bytes Token → Bool
spent t toks = spent_row (Maps.get toks t)

pub record IsSpent (t : Bytes) (s : TokenStore) : Type 0 where
  pub toks : Map Bytes Token
  pub on_disk : s.disk ≡ saved toks
  pub disk_spent : spent t toks ≡ true
  pub memory_spent : spent t s.toks ≡ true

-- What the processes do to the file: this one issues, consumes or collects, or another one, started
-- from the file, issues.
pub data Op : Type 0 where
  issues : (random : Option Bytes) → (now : ℕ) → (wrote : Bool) → TokenRequest → Op
  consumes : (now later : ℕ) → (wrote : Bool) → Bytes → Op
  collects : (now retention : ℕ) → (wrote : Bool) → Op
  sibling_issues : (random : Option Bytes) → (now : ℕ) → (wrote : Bool) → TokenRequest → Op

-- The CLI's `agbridge issue-token`: a store opened on the file, and one `Issue`.
abbrev pub sibling :
    (random : Option Bytes) (now : ℕ) (wrote : Bool)
    → TokenRequest
    → TokenStore
    → Result Error TokenStore
    → TokenStore
sibling random now wrote req s (ok other) = record s {
  disk = (issue random now wrote req other).1.disk;
}
sibling random now wrote req s (err e) = s

unfoldable pub act : TokenStore → Op → TokenStore
act s (issues random now wrote req) = (issue random now wrote req s).1
act s (consumes now later wrote t) = (consume now later wrote t s).1
act s (collects now retention wrote) = gc now retention wrote s
act s (sibling_issues random now wrote req) =
    sibling random now wrote req s (new_token_store s.disk)

unfoldable pub acts : TokenStore → List Op → TokenStore
acts s [] = s
acts s (o ∷ os) = acts (act s o) os

-- Random bytes do not spell the token again.
abbrev pub Other : Bytes → Option Bytes → Type 0
Other t none = Unit
Other t (some r) = (r == t) ≡ false

abbrev pub Fresh : Bytes → Op → Type 0
Fresh t (issues random now wrote req) = Other t random
Fresh t (sibling_issues random now wrote req) = Other t random
Fresh t _ = Unit

module _ (t : Bytes) where
  put-spent :
      (toks : Map Bytes Token) (k : Bytes) (tok : Token)
      → ((k == t) ≡ false) ⊎ (tok.used ≡ true)
      → spent t toks ≡ true
      → spent t (Maps.put toks k tok) ≡ true
  put-spent toks k tok (inl other) s = rw (get-put_other toks k t tok other) s
  put-spent toks k tok (inr used) s = elim (Bool-cases (k == t)) [
    | inl here ↦ rw (get-put toks k t tok, here) used
    | inr other ↦ rw (get-put_other toks k t tok other) s
  ]

  remove-spent :
      (toks : Map Bytes Token) (k : Bytes)
      → spent t toks ≡ true
      → spent t (Maps.remove toks k) ≡ true
  remove-spent toks k s = elim (Bool-cases (k == t)) [
    | inl here ↦ rw (get-remove toks k t, here) refl
    | inr other ↦ rw (get-remove_other toks k t other) s
  ]

  swept-spent :
      (now retention : ℕ) (rows : List (Bytes × Token)) (toks : Map Bytes Token)
      → spent t toks ≡ true
      → spent t (swept now retention rows toks) ≡ true
  unfolding swept
  swept-spent now retention [] toks s = s
  swept-spent now retention ((k, tok) ∷ rows) toks s = elim (Bool-cases (stale now retention tok)) [
    | inl old ↦ rw old (swept-spent now retention rows _ (remove-spent toks k s))
    | inr kept ↦ rw kept (swept-spent now retention rows toks s)
  ]

  -- A store whose map is spent, written or not.
  flush-IsSpent :
      (wrote : Bool) (s : TokenStore) (toks : Map Bytes Token)
      → IsSpent t s
      → spent t toks ≡ true
      → IsSpent t (flush wrote (record s { toks = toks }))
  flush-IsSpent true s toks i m = record {
    toks = toks;
    on_disk = refl;
    disk_spent = m;
    memory_spent = m;
  }
  flush-IsSpent false s toks i m = record {
    toks = i.toks;
    on_disk = i.on_disk;
    disk_spent = i.disk_spent;
    memory_spent = m;
  }

  pub reload-IsSpent : (s : TokenStore) → IsSpent t s → IsSpent t (reload s)
  reload-IsSpent s i = record {
    toks = i.toks;
    on_disk = i.on_disk;
    disk_spent = i.disk_spent;
    memory_spent = rw i.on_disk i.disk_spent;
  }

  issue-IsSpent :
      (random : Option Bytes) (now : ℕ) (wrote : Bool) (s : TokenStore)
      → (r : Result Error TokenRequest) → Other t random
      → IsSpent t s
      → IsSpent t (issue_checked random now wrote r s).1
  issue-IsSpent random now wrote s (err e) o i = i
  issue-IsSpent none now wrote s (ok req) o i = i
  issue-IsSpent (some r) now wrote s (ok req) o i =
      let i1 = reload-IsSpent s i in
      flush-IsSpent wrote (reload s) _ i1
        (put-spent (reload s).toks r (new_token req r now) (inl o) i1.memory_spent)

  spend-IsSpent :
      (now later : ℕ) (wrote : Bool) (k : Bytes) (o : Option Token) (s : TokenStore)
      → IsSpent t s
      → IsSpent t (consume_found now later wrote k o s).1
  spend-IsSpent now later wrote k none s i = i
  spend-IsSpent now later wrote k (some tok) s i = elim (Bool-cases tok.used) [
    | inl used ↦ rw used i
    | inr unused ↦ elim (Bool-cases (ltb tok.expires_at now)) [
      | inl late ↦ rw (unused, late) i
      | inr early ↦
          rw (unused, early)
            (flush-IsSpent wrote s _ i (
              put-spent s.toks k (record tok { used = true; used_at = later }) (inr refl)
                i.memory_spent))
    ]
  ]

  sibling-IsSpent :
      (random : Option Bytes) (now : ℕ) (wrote : Bool) (req : TokenRequest) (s : TokenStore)
      → Other t random
      → IsSpent t s
      → IsSpent t (sibling random now wrote req s (new_token_store s.disk))
  unfolding issue
  sibling-IsSpent random now wrote req s o i =
      let other : TokenStore = record { toks = i.toks; disk = saved i.toks } in
      let j : IsSpent t (issue_checked random now wrote (checked req) other).1 =
        issue-IsSpent random now wrote other (checked req) o (record {
          toks = i.toks;
          on_disk = refl;
          disk_spent = i.disk_spent;
          memory_spent = i.disk_spent;
        }) in
      rw i.on_disk (record {
        toks = j.toks;
        on_disk = j.on_disk;
        disk_spent = j.disk_spent;
        memory_spent = i.memory_spent;
      })

  act-IsSpent : (s : TokenStore) (o : Op) → Fresh t o → IsSpent t s → IsSpent t (act s o)
  unfolding act issue consume gc
  act-IsSpent s (issues random now wrote req) f i =
      issue-IsSpent random now wrote s (checked req) f i
  act-IsSpent s (consumes now later wrote k) f i =
      spend-IsSpent now later wrote k _ (reload s) (reload-IsSpent s i)
  act-IsSpent s (collects now retention wrote) f i =
      flush-IsSpent wrote s _ i (swept-spent now retention _ s.toks i.memory_spent)
  act-IsSpent s (sibling_issues random now wrote req) f i =
      sibling-IsSpent random now wrote req s f i

  pub acts-IsSpent :
      (s : TokenStore) (os : List Op) → All (Fresh t) os → IsSpent t s → IsSpent t (acts s os)
  unfolding acts
  acts-IsSpent s [] fs i = i
  acts-IsSpent s (o ∷ os) (f, fs) i = acts-IsSpent (act s o) os fs (act-IsSpent s o f i)
