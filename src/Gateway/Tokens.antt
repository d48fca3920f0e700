-- ===== src/Gateway/Tokens.antt =====
-- internal/gateway/tokens.go. Each method holds the lock for all that it does. Time is a number of
-- nanoseconds; what the clock, the random source and the file system give is an argument, `wrote`
-- being whether `flushLocked` succeeds. JSON is read back as it was written.
pub mod Spent
pub mod OneShot
pub mod Race
use mathlib.Core.List.{foldl}
use agbridge.Prelude.{
  ℕ, ◌+◌, ◌*◌, List, [], ◌∷◌, Bytes, length, Bool, true, false, not, ◌&&◌, ◌||◌, ◌==◌, bytes_eq,
  nat_eq, ltb, if◌then◌else◌, Option, none, some, Result, ok, err,
}
use agbridge.Prelude.Maps
use agbridge.Prelude.Maps.{Map, entries}
use agbridge.Gateway.Sessions.{bridge, daemon}

pub record DaemonPolicy : Type 0 where
  pub exec_enabled : Bool
  pub env_allowlist : List Bytes
  pub forbidden_ports : List ℕ
  pub allowed_bridge_pubkeys : List Bytes
  pub default_working_dir : Bytes
  pub strict : Bool

pub record Token : Type 0 where
  pub token : Bytes
  pub role : Bytes
  pub name : Bytes
  pub target : Bytes
  pub targets : List Bytes
  pub policy : Option DaemonPolicy
  pub expires_at : ℕ
  pub used : Bool
  pub used_at : ℕ

-- A duration that is not positive is 0 here.
pub record TokenRequest : Type 0 where
  pub role : Bytes
  pub name : Bytes
  pub target : Bytes
  pub targets : List Bytes
  pub policy : Option DaemonPolicy
  pub ttl : ℕ

pub data Error : Type 0 where
  parse_failed read_failed write_failed rand_failed : Error
  bad_role name_required target_required : Error
  not_found already_used expired : Error

-- What `os.ReadFile` and `json.Unmarshal` find at the path.
pub data Disk : Type 0 where
  missing unreadable empty malformed : Disk
  saved : Map Bytes Token → Disk

-- A process's map, and the file that it shares with other processes.
pub record TokenStore : Type 0 where
  pub toks : Map Bytes Token
  pub disk : Disk

abbrev pub new_token_store : Disk → Result Error TokenStore
new_token_store (saved toks) = ok (record { toks = toks; disk = saved toks })
new_token_store malformed = err parse_failed
new_token_store empty = ok (record { toks = Maps.empty; disk = empty })
new_token_store missing = ok (record { toks = Maps.empty; disk = missing })
new_token_store unreadable = err read_failed

-- `reloadLocked`; what it returns is ignored by its callers.
abbrev pub reloaded : Disk → Map Bytes Token → Map Bytes Token
reloaded (saved fresh) toks = fresh
reloaded _ toks = toks

abbrev pub reload : TokenStore → TokenStore
reload s = record s { toks = reloaded s.disk s.toks }

abbrev pub flush : Bool → TokenStore → TokenStore
flush wrote s = record s { disk = if wrote then saved s.toks else s.disk }

-- The shorthand `Target` folded into `Targets`.
abbrev pub fold_targets : TokenRequest → List Bytes
fold_targets req =
    if (length req.targets == 0) && not (req.target == []) then req.target ∷ [] else req.targets

abbrev with_targets : TokenRequest → List Bytes → Result Error TokenRequest
with_targets req [] = err target_required
with_targets req (t ∷ targets) = ok (record req { targets = t ∷ targets; target = t })

unfoldable pub checked : TokenRequest → Result Error TokenRequest
checked req =
    if not (req.role == bridge) && not (req.role == daemon)
    then err bad_role
    else if req.name == []
    then err name_required
    else if req.role == bridge
    then with_targets req (fold_targets req)
    else ok req

abbrev pub minute : ℕ
minute = 60 * 1000000000

abbrev pub lifetime : TokenRequest → ℕ
lifetime req = if req.ttl == 0 then 15 * minute else req.ttl

abbrev pub new_token : TokenRequest → Bytes → ℕ → Token
new_token req token now = record {
  token = token;
  role = req.role;
  name = req.name;
  target = req.target;
  targets = req.targets;
  policy = req.policy;
  expires_at = now + lifetime req;
  used = false;
  used_at = 0;
}

-- The locked part of `Issue`.
abbrev pub stored : Bool → Token → TokenStore → Result Error Token × TokenStore
stored wrote tok s =
    let s1 = reload s in
    (
      if wrote then ok tok else err write_failed,
      flush wrote (record s1 { toks = Maps.put s1.toks tok.token tok }),
    )

abbrev pub issue_checked :
    (random : Option Bytes) (now : ℕ) (wrote : Bool)
    → Result Error TokenRequest
    → TokenStore
    → Result Error Token × TokenStore
issue_checked random now wrote (err e) s = (err e, s)
issue_checked none now wrote (ok req) s = (err rand_failed, s)
issue_checked (some token) now wrote (ok req) s = stored wrote (new_token req token now) s

-- `random` is the token that the random bytes spell.
unfoldable pub issue :
    (random : Option Bytes) (now : ℕ) (wrote : Bool)
    → TokenRequest
    → TokenStore
    → Result Error Token × TokenStore
issue random now wrote req s = issue_checked random now wrote (checked req) s

abbrev pub spend :
    (now later : ℕ) (wrote : Bool) → Bytes → Token → TokenStore → Result Error Token × TokenStore
spend now later wrote t tok s =
    if tok.used
    then (err already_used, s)
    else if ltb tok.expires_at now
    then (err expired, s)
    else let used = record tok { used = true; used_at = later } in
      (
        if wrote then ok used else err write_failed,
        flush wrote (record s { toks = Maps.put s.toks t used }),
      )

abbrev pub consume_found :
    (now later : ℕ) (wrote : Bool)
    → Bytes
    → Option Token
    → TokenStore
    → Result Error Token × TokenStore
consume_found now later wrote t none s = (err not_found, s)
consume_found now later wrote t (some tok) s = spend now later wrote t tok s

-- `now` and `later` are the two readings of the clock.
unfoldable pub consume :
    (now later : ℕ) (wrote : Bool) → Bytes → TokenStore → Result Error Token × TokenStore
consume now later wrote t s =
    let s1 = reload s in consume_found now later wrote t (Maps.get s1.toks t) s1

-- `x.Before(cutoff)`, the cutoff being `now` less the retention.
abbrev pub stale : (now retention : ℕ) → Token → Bool
stale now retention t =
    (t.used && ltb (t.used_at + retention) now)
    || (not t.used && ltb (t.expires_at + retention) now)

unfoldable pub swept :
    (now retention : ℕ) → List (Bytes × Token) → Map Bytes Token → Map Bytes Token
swept now retention [] toks = toks
swept now retention ((k, t) ∷ rows) toks =
    swept now retention rows (if stale now retention t then Maps.remove toks k else toks)

unfoldable pub gc : (now retention : ℕ) (wrote : Bool) → TokenStore → TokenStore
gc now retention wrote s =
    flush wrote (record s { toks = swept now retention (entries s.toks) s.toks })
