-- ===== src/Gateway/Server/Agreement.antt =====
-- The registry of internal/gateway/server.go against the handlers that hold a name in it.
use mathlib.Core.Option.{some-injective}
use agbridge.Prelude.{
  ◌≡◌, sym, ap, ◌∙◌, Bytes, bytes_eq, nat_eq, ◌==◌, eq_iff, eq_refl, Option, none, some, arith,
  Bool-cases, Option-cases, inl, inr, ok,
}
use agbridge.Prelude.Maps
use agbridge.Prelude.Maps.{
  Map, get-put, get-remove, get-empty, get-put_self, get-put_other, get-put_kept, get-remove_kept,
  get-remove_other, get-put-eq-some, get-remove-eq-some,
}
use agbridge.Gateway.Registry.{ConnId, Registry, register}
use agbridge.Gateway.Server.State.{
  Pc, daemon_session, daemon_ack, daemon_loop, daemon_leave, daemon_release, daemon_unregister,
  Gateway,
}

pub register-eq-ok :
    (r : Registry) (n : Bytes) (p : ConnId) (q : Registry)
    → register r n p ≡ ok q
    → (Maps.get r.daemons n ≡ none) × (q.daemons ≡ Maps.put r.daemons n p)
unfolding register
register-eq-ok r n p q e = elim (Option-cases (Maps.get r.daemons n)) [
  | inl absent ↦ (absent, ground (arith, e))
  | inr (x, present) ↦ ground (arith, e)
]

-- The name that a handler has registered and has yet to unregister.
abbrev pub holds : Pc → Option Bytes
holds (daemon_session h hash) = some h.name
holds (daemon_ack h id) = some h.name
holds (daemon_loop h id) = some h.name
holds (daemon_leave h id) = some h.name
holds (daemon_release h id) = some h.name
holds (daemon_unregister h) = some h.name
holds _ = none

pub record IsRegistered (daemons : Map Bytes ConnId) (handlers : Map ConnId Pc) : Type 0 where
  pub sound :
      (n : Bytes) (p : ConnId)
      → Maps.get daemons n ≡ some p
      → (pc : Pc) × (Maps.get handlers p ≡ some pc) × (holds pc ≡ some n)
  pub complete :
      (n : Bytes) (p : ConnId) (pc : Pc)
      → Maps.get handlers p ≡ some pc
      → holds pc ≡ some n
      → Maps.get daemons n ≡ some p

abbrev pub Agree : Gateway → Type 0
Agree g = IsRegistered g.registry.daemons g.handlers

module _ {daemons : Map Bytes ConnId} {handlers : Map ConnId Pc} (c : ConnId)
    (r : IsRegistered daemons handlers) where
  -- A name has one handler.
  holders_equal :
      (n : Bytes) (p q : ConnId) (pc pc' : Pc)
      → Maps.get handlers p ≡ some pc
      → holds pc ≡ some n
      → Maps.get handlers q ≡ some pc'
      → holds pc' ≡ some n
      → p ≡ q
  holders_equal n p q pc pc' at named at' named' =
      ground (arith, r.complete n p pc at named, r.complete n q pc' at' named')

  -- The other handlers are where they were.
  others_sound :
      (pc pc' : Pc) (n : Bytes) (p : ConnId)
      → Maps.get handlers c ≡ some pc
      → (holds pc ≡ some n → holds pc' ≡ some n)
      → Maps.get daemons n ≡ some p
      → (q : Pc) × (Maps.get (Maps.put handlers c pc') p ≡ some q) × (holds q ≡ some n)
  others_sound pc pc' n p at kept e =
      let (q, found, named) = r.sound n p e in
      elim (Bool-cases (c == p)) [
        | inl here ↦ (
          pc',
          rw (← (eq_iff c p).0 here) (get-put_self handlers c pc'),
          kept (ground (arith, at, found, named, ap (Maps.get handlers) ((eq_iff c p).0 here))),
        )
        | inr other ↦ (q, get-put_other handlers c p pc' other ∙ found, named)
      ]

  -- A handler that keeps its name, or has none before and after, keeps the two in agreement.
  pub goto-Agree :
      (pc pc' : Pc)
      → Maps.get handlers c ≡ some pc
      → holds pc ≡ holds pc'
      → IsRegistered daemons (Maps.put handlers c pc')
  goto-Agree pc pc' at same = record {
    sound = λ n p e. others_sound pc pc' n p at (λ h. sym same ∙ h) e;
    complete = λ n p q found named. elim (get-put-eq-some handlers c p pc' q found) [
      | inl (here, eq) ↦ rw (← here) (r.complete n c pc at (ground (arith, ap holds eq)))
      | inr (_, found') ↦ r.complete n p q found' named
    ];
  }

  -- A handler without a name takes a free one.
  pub register-Agree :
      (pc pc' : Pc) (name : Bytes)
      → Maps.get handlers c ≡ some pc
      → holds pc ≡ none
      → holds pc' ≡ some name
      → Maps.get daemons name ≡ none
      → IsRegistered (Maps.put daemons name c) (Maps.put handlers c pc')
  register-Agree pc pc' name at before after free = record {
    sound = λ n p e. elim (get-put-eq-some daemons name n c p e) [
      | inl (same, here) ↦ (pc', rw (← here) (get-put_self handlers c pc'), rw (← same) after)
      | inr (_, e') ↦ others_sound pc pc' n p at (λ h. ground (arith, before, h)) e'
    ];
    complete = λ n p q found named. elim (get-put-eq-some handlers c p pc' q found) [
      | inl (here, eq) ↦
          rw (← here, ← (some-injective _ _ (sym after ∙ ap holds eq ∙ named)))
            (get-put_self daemons name c)
      | inr (_, found') ↦ get-put_kept daemons name n c p free (r.complete n p q found' named)
    ];
  }

  -- A handler gives up its name.
  pub unregister-Agree :
      (pc pc' : Pc) (name : Bytes)
      → Maps.get handlers c ≡ some pc
      → holds pc ≡ some name
      → holds pc' ≡ none
      → IsRegistered (Maps.remove daemons name) (Maps.put handlers c pc')
  unregister-Agree pc pc' name at before after = record {
    sound = λ n p e.
        let (other, e') = get-remove-eq-some daemons name n p e in
        others_sound pc pc' n p at
          (λ h. ground (arith, other, eq_refl n, some-injective _ _ (sym before ∙ h))) e';
    complete = λ n p q found named. elim (get-put-eq-some handlers c p pc' q found) [
      | inl (here, eq) ↦ ground (arith, sym after ∙ ap holds eq ∙ named)
      | inr (other, found') ↦
          get-remove_kept daemons name n p
            (λ same. ground (
              arith,
              other,
              (eq_iff c p).1 (holders_equal n c p pc q at (before ∙ ap some same) found' named),
            ))
            (r.complete n p q found' named)
    ];
  }
