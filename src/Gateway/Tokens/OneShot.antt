-- ===== src/Gateway/Tokens/OneShot.antt =====
-- A consumed token of internal/gateway/tokens.go stays consumed.
use agbridge.Prelude.{
  ℕ, ◌≡◌, ◌⊎◌, ◌↔◌, refl, List, All, Bytes, Bool, true, false, bytes_eq, ltb, Option, none, some,
  ok, err, arith, Bool-cases, inl, inr,
}
use agbridge.Prelude.Maps
use agbridge.Prelude.Maps.{
  Map, entries, get-put, get-remove, get-put_self, get-put_other, get-remove_other, get-remove_self,
}
use agbridge.Gateway.Tokens.{
  Token, not_found, already_used, TokenStore, reload, reloaded, consume, consume_found,
}
use agbridge.Gateway.Tokens.Spent.{
  spent_row, IsSpent, Op, acts, Fresh, acts-IsSpent, reload-IsSpent,
}

module _ (now later : ℕ) (wrote : Bool) (t : Bytes) where
  -- What `Consume` asks of the row that it finds, and what it gives.
  pub record Accepts (out : Token) (o : Option Token) : Type 0 where
    pub tok : Token
    pub found : o ≡ some tok
    pub unused : tok.used ≡ false
    pub in_time : ltb tok.expires_at now ≡ false
    pub written : wrote ≡ true
    pub marked : out ≡ record tok { used = true; used_at = later }

  found-ok :
      (out : Token) (o : Option Token) (s : TokenStore)
      → (consume_found now later wrote t o s).0 ≡ ok out
      → Accepts out o × IsSpent t (consume_found now later wrote t o s).1
  found-ok out none s e = ground (arith, e)
  found-ok out (some tok) s e = elim (Bool-cases tok.used) [
    | inl used ↦ ground (arith, e)
    | inr unused ↦ elim (Bool-cases (ltb tok.expires_at now)) [
      | inl late ↦ ground (arith, e)
      | inr early ↦ elim (Bool-cases wrote) [
        | inl w ↦ (
          record {
            tok = tok;
            found = refl;
            unused = unused;
            in_time = early;
            written = w;
            marked = ground (arith, e);
          },
          rw (unused, early, w)
              (record {
                toks = Maps.put s.toks t (record tok { used = true; used_at = later });
                on_disk = refl;
                disk_spent =
                    rw (get-put_self s.toks t (record tok { used = true; used_at = later })) refl;
                memory_spent =
                    rw (get-put_self s.toks t (record tok { used = true; used_at = later })) refl;
              }),
        )
        | inr nw ↦ ground (arith, e)
      ]
    ]
  ]

  ok-found :
      (out : Token) (o : Option Token) (s : TokenStore)
      → Accepts out o
      → (consume_found now later wrote t o s).0 ≡ ok out
  ok-found out o s a = rw (a.found, a.unused, a.in_time, a.written, a.marked) refl

  -- `Consume` succeeds just when the file, or the map where the file cannot be read, has the token
  -- unused and not past its expiry, and the write succeeds; it returns the row marked used.
  pub consume-eq-ok :
      (out : Token) (s : TokenStore)
      → ((consume now later wrote t s).0 ≡ ok out)
        ↔ Accepts out (Maps.get (reloaded s.disk s.toks) t)
  unfolding consume
  consume-eq-ok out s = (λ e. (found-ok out _ (reload s) e).0, λ a. ok-found out _ (reload s) a)

-- A token that is not there, or used, is not consumed.
refused :
    (now later : ℕ) (wrote : Bool) (t : Bytes) (o : Option Token) (s : TokenStore)
    → spent_row o ≡ true
    → ((consume_found now later wrote t o s).0 ≡ err not_found)
      ⊎ ((consume_found now later wrote t o s).0 ≡ err already_used)
refused now later wrote t none s e = inl refl
refused now later wrote t (some tok) s e = inr (rw e refl)

-- After a successful `Consume` of a token, whatever this process does to the store and whatever
-- other processes issue in whole steps, each from its reading of the file to its write, as long as the
-- random source does not spell that token again, the next `Consume` of it fails, as unknown or as
-- already used, even if writes of the file fail.
pub consume_once :
    (now later now2 later2 : ℕ) (wrote wrote2 : Bool) (t : Bytes) (out : Token) (s : TokenStore)
    → (os : List Op) → (consume now later wrote t s).0 ≡ ok out
    → All (Fresh t) os
    → let again = consume now2 later2 wrote2 t (acts (consume now later wrote t s).1 os) in
      (again.0 ≡ err not_found) ⊎ (again.0 ≡ err already_used)
unfolding consume
consume_once now later now2 later2 wrote wrote2 t out s os e fresh =
    let i = acts-IsSpent t _ os fresh (found-ok now later wrote t out _ (reload s) e).1 in
    refused now2 later2 wrote2 t _ (reload (acts (consume now later wrote t s).1 os))
      (reload-IsSpent t _ i).memory_spent
