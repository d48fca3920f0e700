-- ===== src/Gateway/Enroll/Live.antt =====
-- The credential that internal/gateway/enrollserver.go hands out and the one that it installs.
use mathlib.Core.List.{map}
use agbridge.Prelude.{
  ◌≡◌, ◌⊎◌, refl, sym, List, [], ◌∷◌, ◌++◌, Bytes, bytes_eq, Bool, true, false, ◌==◌, ◌||◌, Option,
  none, some, Result, ok, err, arith, Bool-cases, inl, inr, eq_refl, eq_iff,
}
use agbridge.Auth.{prefix, sha256_hex, secret_matches}
use agbridge.Auth.Secrets.{secret_matches_iff}
use agbridge.Config.{AgentEntry, DaemonEntry}
use agbridge.Gateway.Creds.{CredRegistry, lookup_agent, lookup_daemon, add_agent, add_daemon}
use agbridge.Gateway.Creds.Lookup.{lookup-add_agent, lookup-add_daemon}
use agbridge.Gateway.Sessions.{bridge, daemon}
use agbridge.Gateway.Tokens.{DaemonPolicy, Token, Error, consume}
use agbridge.Gateway.Enroll.{
  EnrollRequest, EnrollResponse, EnrollServer, Outside, success, EnrollTarget, finish,
  enroll_bridge, enroll_daemon, keyed, consumed, handle_enroll, resolve, map_live, response,
  with_policy,
}
use agbridge.Gateway.Enroll.Rows.{resolve-eq-ok}

success-injective : {a b : EnrollResponse} → success a ≡ success b → a ≡ b
success-injective e = ground (arith, e)

-- A successful end pushes to the registry, and replies with what it was given.
finish-success :
    (o : Outside) (push : CredRegistry → CredRegistry) (resp resp' : EnrollResponse)
    (s : EnrollServer)
    → (finish o push resp s).0 ≡ success resp'
    → (resp ≡ resp') × ((finish o push resp s).1.live ≡ map_live push s.live)
finish-success o push resp resp' s e = elim (Bool-cases (s.state_path == [])) [
  | inl p ↦ (ground (arith, e), rw p refl)
  | inr p ↦ elim (Bool-cases o.saved) [
    | inl w ↦ (ground (arith, e), rw (p, w) refl)
    | inr w ↦ ground (arith, e)
  ]
]

found_daemon :
    (cr : CredRegistry) (d : DaemonEntry) → lookup_daemon (add_daemon cr d) d.name ≡ some d
found_daemon cr d = rw ((lookup-add_daemon cr d d.name).0, eq_refl d.name) refl

found_agent : (cr : CredRegistry) (a : AgentEntry) → lookup_agent (add_agent cr a) a.name ≡ some a
found_agent cr a = rw ((lookup-add_agent cr a a.name).0, eq_refl a.name) refl

module _ (sha256 : Bytes → Bytes) where
  -- The key that was handed out is accepted for the name in the token's role, and a bridge may reach
  -- exactly the token's targets, which are those that it was told of.
  abbrev pub IsLive : Token → CredRegistry → EnrollResponse → Type 0
  IsLive tok cr resp =
      ((tok.role ≡ daemon)
        × (resp.name ≡ tok.name)
        × ((d : DaemonEntry) × (lookup_daemon cr resp.name ≡ some d)
            × (secret_matches sha256 resp.api_key d.token_hash ≡ true)))
      ⊎ ((tok.role ≡ bridge)
          × (resp.name ≡ tok.name)
          × ((a : AgentEntry) × (lookup_agent cr resp.name ≡ some a)
              × (secret_matches sha256 resp.api_key a.api_key_hash ≡ true)
              × (a.allowed_daemons ≡ tok.targets)
              × (a.allowed_daemons ≡ map (λ t. t.name) resp.targets)))

  -- The token is the one that `Consume` gave for the request.
  abbrev pub Consumed : Option EnrollRequest → Outside → EnrollServer → Token → Type 0
  Consumed none o s tok = ⊥
  Consumed (some req) o s tok = (consume o.now o.later o.wrote req.token s.tokens).0 ≡ ok tok

  -- The registry of a server, where it has one, accepts the key.
  abbrev pub LiveIn : Token → Option CredRegistry → EnrollResponse → Type 0
  LiveIn tok none resp = Unit
  LiveIn tok (some cr) resp = IsLive tok cr resp

  daemon-live :
      (tok : Token) (l : Option CredRegistry) (d : DaemonEntry) (p : Option DaemonPolicy)
      (resp : EnrollResponse)
      → tok.role ≡ daemon
      → resp.name ≡ tok.name
      → d.name ≡ resp.name
      → d.token_hash ≡ prefix ++ sha256_hex sha256 resp.api_key
      → LiveIn tok (map_live (λ cr. add_daemon cr d) l) (with_policy p resp)
  daemon-live tok none d p resp role of named hash = tt
  daemon-live tok (some cr) d none resp role of named hash = inl (
    role,
    of,
    (
      d,
      rw (← named) (found_daemon cr d),
      (secret_matches_iff sha256 resp.api_key d.token_hash).1 hash,
    ),
  )
  daemon-live tok (some cr) d (some p) resp role of named hash = inl (
    role,
    of,
    (
      d,
      rw (← named) (found_daemon cr d),
      (secret_matches_iff sha256 resp.api_key d.token_hash).1 hash,
    ),
  )

  agent-live :
      (tok : Token) (l : Option CredRegistry) (a : AgentEntry) (resp : EnrollResponse)
      → tok.role ≡ bridge
      → resp.name ≡ tok.name
      → a.allowed_daemons ≡ tok.targets
      → a.name ≡ resp.name
      → a.api_key_hash ≡ prefix ++ sha256_hex sha256 resp.api_key
      → a.allowed_daemons ≡ map (λ t. t.name) resp.targets
      → LiveIn tok (map_live (λ cr. add_agent cr a) l) resp
  agent-live tok none a resp role of allowed named hash targets = tt
  agent-live tok (some cr) a resp role of allowed named hash targets = inr (
    role,
    of,
    (
      a,
      rw (← named) (found_agent cr a),
      (secret_matches_iff sha256 resp.api_key a.api_key_hash).1 hash,
      allowed,
      targets,
    ),
  )

  bridge-live :
      (o : Outside) (tok : Token) (key : Bytes) (s : EnrollServer)
      → (r : Result Bytes (List EnrollTarget)) → (resp' : EnrollResponse)
      → resolve s.state.daemons tok.targets ≡ r
      → tok.role ≡ bridge
      → let out =
          enroll_bridge o tok
            (prefix ++ sha256_hex sha256 key)
            r
            (response sha256 tok o.device key s)
            s in
        out.0 ≡ success resp' → LiveIn tok out.1.live resp'
  bridge-live o tok key s (err name) resp' found role e = ground (arith, e)
  bridge-live o tok key s (ok []) resp' found role e = ground (arith, e)
  bridge-live o tok key s (ok (t ∷ ts)) resp' found role e =
      let (same, live) = finish-success o _ _ resp' _ e in
      rw (live, ← same)
        (agent-live tok s.live _ _ role refl refl refl refl
          (sym (resolve-eq-ok s.state.daemons tok.targets (t ∷ ts) found).0))

  keyed-live :
      (o : Outside) (req : EnrollRequest) (tok : Token) (key : Option Bytes) (s : EnrollServer)
      → (resp : EnrollResponse) → (keyed sha256 o req tok key s).0 ≡ success resp
      → LiveIn tok (keyed sha256 o req tok key s).1.live resp
  keyed-live o req tok none s resp e = ground (arith, e)
  keyed-live o req tok (some key) s resp e = elim (Bool-cases (tok.role == daemon)) [
    | inl d ↦ rw d (daemon-done ((eq_iff tok.role daemon).0 d) (ground (arith, e)))
    | inr nd ↦ elim (Bool-cases (tok.role == bridge)) [
      | inl b ↦
          rw (nd, b)
            (bridge-live o tok key s _ resp refl ((eq_iff tok.role bridge).0 b) (ground (arith, e)))
      | inr nb ↦ ground (arith, e)
    ]
  ]
    where
      daemon-done :
          tok.role ≡ daemon
          → (enroll_daemon o tok
              (prefix ++ sha256_hex sha256 key)
              req.device_pubkey_b64
              (response sha256 tok o.device key s)
              s).0
            ≡ success resp
          → LiveIn tok
              (enroll_daemon o tok
                (prefix ++ sha256_hex sha256 key)
                req.device_pubkey_b64
                (response sha256 tok o.device key s)
                s).1.live
              resp
      daemon-done role h =
          let (same, live) = finish-success o _ _ resp _ h in
          rw (live, ← same) (daemon-live tok s.live _ tok.policy _ role refl refl refl)

  -- A successful enrollment has consumed a token. The live registry, where there is one, then has under
  -- the token's name, which is that of the response, a row of the token's role whose hash the response's
  -- key matches: a daemon's, or a bridge's, which allows exactly the token's targets, in the order in
  -- which the response has them.
  pub success-live :
      (is_post : Bool) (body : Option EnrollRequest) (o : Outside) (s : EnrollServer)
      → (resp : EnrollResponse) → (handle_enroll sha256 is_post body o s).0 ≡ success resp
      → (tok : Token) × Consumed body o s tok
        × LiveIn tok (handle_enroll sha256 is_post body o s).1.live resp
  unfolding handle_enroll
  success-live false body o s resp e = ground (arith, e)
  success-live true none o s resp e = ground (arith, e)
  success-live true (some req) o s resp e =
      elim (Bool-cases ((req.token == []) || (req.device_pubkey_b64 == []))) [
        | inl blank ↦ ground (arith, e)
        | inr full ↦ rw full (consumed-live _ (record s { tokens = _ }) refl (ground (arith, e)))
      ]
    where
      consumed-live :
          (r : Result Error Token) (s' : EnrollServer)
          → (consume o.now o.later o.wrote req.token s.tokens).0 ≡ r
          → (consumed sha256 o req r s').0 ≡ success resp
          → (tok : Token) × Consumed (some req) o s tok
            × LiveIn tok (consumed sha256 o req r s').1.live resp
      consumed-live (err x) s' at h = ground (arith, h)
      consumed-live (ok tok) s' at h = (tok, at, keyed-live o req tok o.api_key s' resp h)
