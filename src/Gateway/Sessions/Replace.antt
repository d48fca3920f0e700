-- ===== src/Gateway/Sessions/Replace.antt =====
-- One session for each bridge, in internal/gateway/sessions.go.
use native.Mathlib.Nat.{le_trans}
use agbridge.Prelude.{
  Bool-cases, ℕ, ◌≤◌, ◌≡◌, ◌↔◌, refl, Bytes, true, false, bytes_eq, nat_eq, eq_iff, eq_refl, Option,
  none, some, arith, Option-cases, inl, inr,
}
use agbridge.Prelude.Maps
use agbridge.Prelude.Maps.{Map, get-put_self}
use agbridge.Prelude.Maps.Entries.{find-none, count-remove-find, count-remove_le, count-put}
use agbridge.Gateway.Sessions.{
  Session, SessionTable, is_session, replace_by_role_name, register, release, drop_found,
}

-- How many sessions a role and name have.
abbrev pub live : SessionTable → Bytes → Bytes → ℕ
live st role name = Maps.count (is_session role name) st.sessions

abbrev found : SessionTable → Session → Option (ℕ × Session)
found st s = Maps.find (is_session s.role s.name) st.sessions

dropped_live :
    (st : SessionTable) (s : Session) (role name : Bytes)
    → live (drop_found st (found st s)).0 role name ≤ live st role name
dropped_live st s role name = elim (Option-cases (found st s)) [
  | inl e ↦ rw e (omega arith)
  | inr ((id, old), e) ↦ rw e (count-remove_le (is_session role name) st.sessions id)
]

dropped_lone :
    (st : SessionTable) (s : Session)
    → live st s.role s.name ≤ 1
    → live (drop_found st (found st s)).0 s.role s.name ≡ 0
dropped_lone st s h = elim (Option-cases (found st s)) [
  | inl e ↦ rw e (find-none (is_session s.role s.name) st.sessions e)
  | inr ((id, old), e) ↦
      rw e (omega (arith, count-remove-find (is_session s.role s.name) st.sessions id old e))
]

is_self : (s : Session) (id : ℕ) → is_session s.role s.name id s ≡ true
is_self s id = ground (arith, eq_refl s.role, eq_refl s.name)

registered_lone :
    (st : SessionTable) (s : Session)
    → live st s.role s.name ≡ 0
    → live (register st s).0 s.role s.name ≡ 1
unfolding register
registered_lone st s h = ground (
  arith,
  is_self s st.next,
  count-put (is_session s.role s.name) st.sessions st.next s,
  count-remove_le (is_session s.role s.name) st.sessions st.next,
)

pub registered_other :
    (st : SessionTable) (s : Session) (role name : Bytes)
    → is_session role name st.next s ≡ false
    → live (register st s).0 role name ≤ live st role name
unfolding register
registered_other st s role name h = ground (
  arith,
  count-put (is_session role name) st.sessions st.next s,
  count-remove_le (is_session role name) st.sessions st.next,
)

-- Where a role and name had at most one session, `ReplaceByRoleName` leaves them exactly the new
-- one, found under the id that it returns, and reports a displaced connection exactly if they had
-- one.
pub replace_lone :
    (st : SessionTable) (s : Session)
    → live st s.role s.name ≤ 1
    → (live (replace_by_role_name st s).table s.role s.name ≡ 1)
      × (Maps.get (replace_by_role_name st s).table.sessions (replace_by_role_name st s).id
          ≡ some s)
      × (((replace_by_role_name st s).replaced ≡ none) ↔ (live st s.role s.name ≡ 0))
unfolding replace_by_role_name
replace_lone st s h = (
  registered_lone _ s (dropped_lone st s h),
  get-put_self _ _ s,
  elim (Option-cases (found st s)) [
    | inl e ↦ rw e ((λ _. find-none (is_session s.role s.name) st.sessions e), λ _. refl)
    | inr ((id, old), e) ↦ rw e (
      (λ n. cc),
      λ z.
          absurd (omega (arith, count-remove-find (is_session s.role s.name) st.sessions id old e)),
    )
  ],
)

-- No other role and name gains a session by it.
pub replace_others :
    (st : SessionTable) (s : Session) (role name : Bytes)
    → ¬ ((s.role ≡ role) × (s.name ≡ name))
    → live (replace_by_role_name st s).table role name ≤ live st role name
unfolding replace_by_role_name
replace_others st s role name h =
    le_trans (registered_other _ s role name (other (drop_found st (found st s)).0.next))
      (dropped_live st s role name)
  where
    other : (id : ℕ) → is_session role name id s ≡ false
    other id = elim (Bool-cases (is_session role name id s)) [
      | inl same ↦
          absurd (h (ground (arith, eq_iff s.role role), ground (arith, eq_iff s.name name)))
      | inr e ↦ e
    ]

-- A release leaves at most as many sessions of each role and name.
pub release_live :
    (st : SessionTable) (id : ℕ) (role name : Bytes)
    → live (release st id) role name ≤ live st role name
unfolding release
release_live st id role name = count-remove_le (is_session role name) st.sessions id
