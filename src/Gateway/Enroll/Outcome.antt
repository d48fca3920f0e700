-- ===== src/Gateway/Enroll/Outcome.antt =====
-- What a request to internal/gateway/enrollserver.go leaves behind.
use agbridge.Prelude.{
  ◌≡◌, refl, List, [], ◌∷◌, All, Bytes, bytes_eq, Bool, true, false, ◌==◌, ◌||◌, Option, none, some,
  Result, ok, err, arith, Bool-cases, inl, inr,
}
use agbridge.Gateway.Creds.{CredRegistry}
use agbridge.Gateway.Sessions.{bridge, daemon}
use agbridge.Gateway.Tokens.{Token, Error, consume, not_found, already_used}
use agbridge.Gateway.Tokens.Spent.{Op, acts, Fresh}
use agbridge.Gateway.Tokens.OneShot.{consume_once}
use agbridge.Gateway.Enroll.{
  EnrollRequest, EnrollResponse, EnrollServer, Outside, Reply, method_not_allowed, bad_json,
  fields_required, invalid_token, EnrollTarget, finish, enroll_bridge, keyed, consumed,
  handle_enroll,
}

-- `finish` leaves the tokens as they are.
finish-tokens :
    (o : Outside) (push : CredRegistry → CredRegistry) (resp : EnrollResponse) (s : EnrollServer)
    → (finish o push resp s).1.tokens ≡ s.tokens
finish-tokens o push resp s = elim (Bool-cases (s.state_path == [])) [
  | inl e ↦ rw e refl
  | inr e ↦ elim (Bool-cases o.saved) [ inl w ↦ rw (e, w) refl | inr w ↦ rw (e, w) refl ]
]

enroll_bridge-tokens :
    (o : Outside) (tok : Token) (hash : Bytes) (r : Result Bytes (List EnrollTarget))
    → (resp : EnrollResponse) (s : EnrollServer)
    → (enroll_bridge o tok hash r resp s).1.tokens ≡ s.tokens
enroll_bridge-tokens o tok hash (err name) resp s = refl
enroll_bridge-tokens o tok hash (ok []) resp s = refl
enroll_bridge-tokens o tok hash (ok (t ∷ ts)) resp s = finish-tokens o _ _ _

module _ (sha256 : Bytes → Bytes) where
  keyed-tokens :
      (o : Outside) (req : EnrollRequest) (tok : Token) (key : Option Bytes) (s : EnrollServer)
      → (keyed sha256 o req tok key s).1.tokens ≡ s.tokens
  keyed-tokens o req tok none s = refl
  keyed-tokens o req tok (some key) s = elim (Bool-cases (tok.role == daemon)) [
    | inl d ↦ rw d (finish-tokens o _ _ _)
    | inr nd ↦ elim (Bool-cases (tok.role == bridge)) [
      | inl b ↦ rw (nd, b) (enroll_bridge-tokens o tok _ _ _ s)
      | inr nb ↦ rw (nd, nb) refl
    ]
  ]

-- The replies that come after the token was consumed.
abbrev pub past_token : Reply → Bool
past_token method_not_allowed = false
past_token bad_json = false
past_token fields_required = false
past_token invalid_token = false
past_token _ = true

module _ (sha256 : Bytes → Bytes) where
  past-consumed :
      (o : Outside) (req : EnrollRequest) (s : EnrollServer)
      → past_token (handle_enroll sha256 true (some req) o s).0 ≡ true
      → let c = consume o.now o.later o.wrote req.token s.tokens in
        ((req.token == []) ≡ false)
        × ((out : Token) × (c.0 ≡ ok out))
        × ((handle_enroll sha256 true (some req) o s).1.tokens ≡ c.1)
  unfolding handle_enroll
  past-consumed o req s past =
      elim (Bool-cases ((req.token == []) || (req.device_pubkey_b64 == []))) [
        | inl blank ↦ ground (arith, past)
        | inr full ↦
            let (out, e, tokens) =
              past-ok o req (consume o.now o.later o.wrote req.token s.tokens).0
                (record s { tokens = (consume o.now o.later o.wrote req.token s.tokens).1 })
                (ground (arith, past)) in
            (ground (arith, full), (out, e), rw full tokens)
      ]
    where
      past-ok :
          (o : Outside) (req : EnrollRequest) (r : Result Error Token) (s : EnrollServer)
          → past_token (consumed sha256 o req r s).0 ≡ true
          → (out : Token) × (r ≡ ok out) × ((consumed sha256 o req r s).1.tokens ≡ s.tokens)
      past-ok o req (err e) s p = ground (arith, p)
      past-ok o req (ok out) s p = (out, refl, keyed-tokens sha256 o req out o.api_key s)

  refused :
      (o : Outside) (req : EnrollRequest) (s : EnrollServer)
      → ((req.token == []) ≡ false)
      → ((req.device_pubkey_b64 == []) ≡ false)
      → (r : Error) → (consume o.now o.later o.wrote req.token s.tokens).0 ≡ err r
      → (handle_enroll sha256 true (some req) o s).0 ≡ invalid_token
  unfolding handle_enroll
  refused o req s token pubkey r e = rw (token, pubkey, e) refl

  -- A token buys at most one enrollment, and is used up by a request that fails after it was
  -- consumed, as when a target has not enrolled: as long as the random source does not spell the
  -- token again, every later POST with it and a device key gets "invalid token", whatever this process
  -- does to the store in between and other processes issue in whole steps, and whatever else of the
  -- server has changed.
  pub enroll_once :
      (o o2 : Outside) (req req2 : EnrollRequest) (s s2 : EnrollServer) (os : List Op)
      → past_token (handle_enroll sha256 true (some req) o s).0 ≡ true
      → All (Fresh req.token) os
      → s2.tokens ≡ acts (handle_enroll sha256 true (some req) o s).1.tokens os
      → req2.token ≡ req.token
      → (req2.device_pubkey_b64 == []) ≡ false
      → (handle_enroll sha256 true (some req2) o2 s2).0 ≡ invalid_token
  enroll_once o o2 req req2 s s2 os past fresh between same pubkey =
      let (token, (out, e), tokens) = past-consumed o req s past in
      elim (consume_once o.now o.later o2.now o2.later o.wrote o2.wrote req.token out s.tokens os e
        fresh) [
          | inl r ↦
              refused o2 req2 s2 (rw same token) pubkey not_found (rw (same, between, tokens) r)
          | inr r ↦
              refused o2 req2 s2 (rw same token) pubkey already_used (rw (same, between, tokens) r)
        ]
