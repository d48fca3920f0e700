-- ===== src/Gateway/Tokens/Race.antt =====
-- Two processes on the file of internal/gateway/tokens.go.
use agbridge.Prelude.{
  ℕ, ◌≡◌, refl, sym, ap, ◌∙◌, List, [], ◌∷◌, Bytes, Bool, true, false, ◌==◌, bytes_eq, ltb, none,
  some, Result, ok, err, arith, Bool-cases, inl, inr, ok-injective,
}
use agbridge.Prelude.Maps
use agbridge.Prelude.Maps.{Map, entries, get-put_self, get-put_other, get-remove, get-remove_other}
use agbridge.Gateway.Tokens.{
  Token, TokenRequest, Error, not_found, saved, TokenStore, reload, checked, new_token, stored,
  issue, issue_checked, consume, stale, swept, gc,
}
use agbridge.Gateway.Tokens.OneShot.{consume-eq-ok}

issue_checked-ok :
    (r : Bytes) (now : ℕ) (q : Result Error TokenRequest) (s : TokenStore) (tok : Token)
    → (issue_checked (some r) now true q s).0 ≡ ok tok
    → (tok.used ≡ false)
      × ((m : Map Bytes Token) × ((issue_checked (some r) now true q s).1.disk ≡ saved m)
          × (Maps.get m r ≡ some tok))
issue_checked-ok r now (err e) s tok h = ground (arith, h)
issue_checked-ok r now (ok req) s tok h = (
  ap (λ x. x.used) (sym (ok-injective h)),
  (
    Maps.put (reload s).toks r (new_token req r now),
    refl,
    get-put_self (reload s).toks r (new_token req r now) ∙ ap some (ok-injective h),
  ),
)

-- The token that one process issued is consumed by another, whatever that one had in memory, at any
-- time up to its expiry, and the one that consumes gets the issued row.
pub issue-consume :
    (r : Bytes) (now now2 later2 : ℕ) (req : TokenRequest) (other s : TokenStore) (tok : Token)
    → (issue (some r) now true req other).0 ≡ ok tok
    → s.disk ≡ (issue (some r) now true req other).1.disk
    → ltb tok.expires_at now2 ≡ false
    → (consume now2 later2 true r s).0 ≡ ok (record tok { used = true; used_at = later2 })
unfolding issue
issue-consume r now now2 later2 req other s tok h same early =
    let (unused, (m, disk, found)) = issue_checked-ok r now (checked req) other tok h in
    (consume-eq-ok now2 later2 true r (record tok { used = true; used_at = later2 }) s).1 (record {
      tok = tok;
      found = rw (same ∙ disk) found;
      unused = unused;
      in_time = early;
      written = refl;
      marked = refl;
    })

-- A process that issues reads the file, then another consumes a token, then the first writes: the
-- token can be consumed again until it expires.
pub stored-revives :
    (t : Bytes) (now later now2 later2 : ℕ) (m memory : Map Bytes Token) (s : TokenStore)
    → (issued tok : Token) → s.disk ≡ saved m
    → Maps.get m t ≡ some tok
    → tok.used ≡ false
    → ltb tok.expires_at now ≡ false
    → ltb tok.expires_at now2 ≡ false
    → (issued.token == t) ≡ false
    → let first = consume now later true t s in
      let written = (stored true issued (record { toks = memory; disk = s.disk })).1.disk in
      let second = consume now2 later2 true t (record first.1 { disk = written }) in
      (first.0 ≡ ok (record tok { used = true; used_at = later }))
      × (second.0 ≡ ok (record tok { used = true; used_at = later2 }))
stored-revives t now later now2 later2 m memory s issued tok disk found unused early early2 other =
    (
      (consume-eq-ok now later true t (record tok { used = true; used_at = later }) s).1 (record {
        tok = tok;
        found = rw disk found;
        unused = unused;
        in_time = early;
        written = refl;
        marked = refl;
      }),
      (consume-eq-ok now2 later2 true t (record tok { used = true; used_at = later2 }) _).1
          (record {
            tok = tok;
            found = rw disk (get-put_other m issued.token t issued other ∙ found);
            unused = unused;
            in_time = early2;
            written = refl;
            marked = refl;
          }),
    )

swept-none :
    (t : Bytes) (now retention : ℕ) (rows : List (Bytes × Token)) (toks : Map Bytes Token)
    → Maps.get toks t ≡ none
    → Maps.get (swept now retention rows toks) t ≡ none
unfolding swept
swept-none t now retention [] toks e = e
swept-none t now retention ((k, tok) ∷ rows) toks e = elim (Bool-cases (stale now retention tok)) [
  | inl old ↦ rw old (swept-none t now retention rows (Maps.remove toks k) (removed k toks e))
  | inr kept ↦ rw kept (swept-none t now retention rows toks e)
]
  where
    removed :
        (k : Bytes) (toks : Map Bytes Token)
        → Maps.get toks t ≡ none
        → Maps.get (Maps.remove toks k) t ≡ none
    removed k toks e = elim (Bool-cases (k == t)) [
      | inl here ↦ rw (get-remove toks k t, here) refl
      | inr other ↦ get-remove_other toks k t other ∙ e
    ]

-- `GC` does not read the file first: a token that another process issued, and that this one has not
-- read, is lost when it writes.
pub gc-loses :
    (t : Bytes) (now retention now2 later2 : ℕ) (wrote : Bool) (s : TokenStore)
    → Maps.get s.toks t ≡ none
    → (consume now2 later2 wrote t (gc now retention true s)).0 ≡ err not_found
unfolding consume gc
gc-loses t now retention now2 later2 wrote s e =
    rw (swept-none t now retention (entries s.toks) s.toks e) refl
