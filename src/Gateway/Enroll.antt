-- ===== src/Gateway/Enroll.antt =====
-- internal/gateway/enrollserver.go, and the rows of internal/state that it writes.
-- What the clock, the random source, the decoder of the body and the file system give is an
-- argument. `SHA256Hex` is over the argument `sha256`.
pub mod Rows
pub mod Outcome
pub mod Live
use agbridge.Prelude.{
  ℕ, List, [], ◌∷◌, ◌++◌, Bytes, codes, length, Bool, true, false, not, ◌&&◌, ◌||◌, ◌==◌, bytes_eq,
  nat_eq, if◌then◌else◌, Option, none, some, Result, ok, err,
}
use agbridge.Auth.{prefix, sha256_hex}
use agbridge.Config.{AgentEntry, DaemonEntry}
use agbridge.Gateway.Creds.{CredRegistry, add_agent, add_daemon}
use agbridge.Gateway.Sessions.{bridge, daemon}
use agbridge.Gateway.Tokens.{DaemonPolicy, Token, TokenStore, Error, consume}

pub record EnrollRequest : Type 0 where
  pub token : Bytes
  pub device_pubkey_b64 : Bytes

pub record EnrollTarget : Type 0 where
  pub name : Bytes
  pub daemon_pubkey : Bytes

pub record EnrollResponse : Type 0 where
  pub device_id : Bytes
  pub name : Bytes
  pub api_key : Bytes
  pub api_key_hash : Bytes
  pub gateway_url : Bytes
  pub cert_pin : Bytes
  pub e2e_mode : Bytes
  pub target_daemon : Bytes
  pub daemon_pubkey : Bytes
  pub targets : List EnrollTarget
  pub exec_enabled : Bool
  pub env_allowlist : List Bytes
  pub forbidden_ports : List ℕ
  pub allowed_bridge_pubkeys : List Bytes
  pub default_working_dir : Bytes

-- state.DaemonEntry and state.AgentEntry
pub record DaemonState : Type 0 where
  pub name : Bytes
  pub device_id : Bytes
  pub token_hash : Bytes
  pub noise_pub : Bytes

pub record AgentState : Type 0 where
  pub name : Bytes
  pub device_id : Bytes
  pub api_key_hash : Bytes
  pub allowed_daemons : List Bytes

-- The lists of state.GatewayState that enrollment reads and writes.
pub record GatewayState : Type 0 where
  pub daemons : List DaemonState
  pub agents : List AgentState

-- `persisted` is the last state that `SaveGateway` wrote.
pub record EnrollServer : Type 0 where
  pub tokens : TokenStore
  pub state : GatewayState
  pub state_path : Bytes
  pub persisted : Option GatewayState
  pub gateway_url : Bytes
  pub cert_pin : Bytes
  pub live : Option CredRegistry

-- What one request is given from outside: the two clock readings and the write of `Consume`, the
-- random key, the random device number, and whether `SaveGateway` succeeds.
pub record Outside : Type 0 where
  pub now : ℕ
  pub later : ℕ
  pub wrote : Bool
  pub api_key : Option Bytes
  pub device : Bytes
  pub saved : Bool

-- The replies, each with its HTTP status; `panics` is an index out of range.
pub data Reply : Type 0 where
  method_not_allowed bad_json fields_required invalid_token rand_failed : Reply
  not_yet_enrolled : Bytes → Reply
  unknown_role save_failed panics : Reply
  success : EnrollResponse → Reply

-- The first row with the entry's name is replaced, else the entry is appended.
module _ {ℓ} {A : Type ℓ} (name_of : A → Bytes) (entry : A) where
  unfoldable pub upsert : List A → List A
  upsert [] = entry ∷ []
  upsert (a ∷ rows) =
      let rest = upsert rows in if name_of a == name_of entry then entry ∷ rows else a ∷ rest

-- The Noise key of the first row with the name, or "".
unfoldable pub pubkey_of : List DaemonState → Bytes → Bytes
pubkey_of [] name = []
pubkey_of (d ∷ rows) name =
    let rest = pubkey_of rows name in if d.name == name then d.noise_pub else rest

abbrev prepend : Bytes → Bytes → Result Bytes (List EnrollTarget) → Result Bytes (List EnrollTarget)
prepend name key (err e) = err e
prepend name key (ok rest) = ok (record { name = name; daemon_pubkey = key } ∷ rest)

-- Every target with its key, or the first that has none.
unfoldable pub resolve : List DaemonState → List Bytes → Result Bytes (List EnrollTarget)
resolve rows [] = ok []
resolve rows (name ∷ names) =
    let rest = resolve rows names in
    if pubkey_of rows name == [] then err name else prepend name (pubkey_of rows name) rest

abbrev pub is_strict : Option DaemonPolicy → Bool
is_strict none = false
is_strict (some p) = p.strict

unfoldable pub default_e2e : Token → Bytes
default_e2e tok =
    if (tok.role == daemon) && not (is_strict tok.policy)
    then codes "optional"
    else codes "required"

abbrev pub with_policy : Option DaemonPolicy → EnrollResponse → EnrollResponse
with_policy none resp = resp
with_policy (some p) resp = record resp {
  exec_enabled = p.exec_enabled;
  env_allowlist =
      if length p.env_allowlist == 0
      then codes "PATH" ∷ codes "HOME" ∷ codes "LANG" ∷ []
      else p.env_allowlist;
  forbidden_ports = p.forbidden_ports;
  allowed_bridge_pubkeys = p.allowed_bridge_pubkeys;
  default_working_dir = p.default_working_dir;
}

abbrev pub map_live : (CredRegistry → CredRegistry) → Option CredRegistry → Option CredRegistry
map_live f none = none
map_live f (some cr) = some (f cr)

-- The end of HandleEnroll: save, then push to the live registry.
abbrev pub finish :
    Outside → (CredRegistry → CredRegistry) → EnrollResponse → EnrollServer → Reply × EnrollServer
finish o push resp s =
    if s.state_path == []
    then (success resp, record s { live = map_live push s.live })
    else if not o.saved
    then (save_failed, s)
    else (success resp, record s { live = map_live push s.live; persisted = some s.state })

abbrev pub first_target : List EnrollTarget → EnrollResponse → Option EnrollResponse
first_target [] resp = none
first_target (t ∷ ts) resp =
    some (record resp { targets = t ∷ ts; target_daemon = t.name; daemon_pubkey = t.daemon_pubkey })

abbrev pub finish_bridge :
    Outside
    → (CredRegistry → CredRegistry)
    → Option EnrollResponse
    → EnrollServer
    → Reply × EnrollServer
finish_bridge o push none s = (panics, s)
finish_bridge o push (some resp) s = finish o push resp s

abbrev pub enroll_bridge :
    Outside
    → Token
    → Bytes
    → Result Bytes (List EnrollTarget)
    → EnrollResponse
    → EnrollServer
    → Reply × EnrollServer
enroll_bridge o tok hash (err name) resp s = (not_yet_enrolled name, s)
enroll_bridge o tok hash (ok targets) resp s =
    let entry : AgentState = record {
      name = tok.name;
      device_id = resp.device_id;
      api_key_hash = hash;
      allowed_daemons = tok.targets;
    } in
    let state = record s.state { agents = upsert (λ a. a.name) entry s.state.agents } in
    let live : AgentEntry = record {
      name = tok.name;
      api_key_hash = hash;
      allowed_daemons = tok.targets;
    } in
    finish_bridge o (λ cr. add_agent cr live) (first_target targets resp)
      (record s { state = state })

abbrev pub enroll_daemon :
    Outside
    → Token
    → Bytes
    → (pubkey : Bytes) → EnrollResponse
    → EnrollServer
    → Reply × EnrollServer
enroll_daemon o tok hash pubkey resp s =
    let entry : DaemonState = record {
      name = tok.name;
      device_id = resp.device_id;
      token_hash = hash;
      noise_pub = pubkey;
    } in
    let state = record s.state { daemons = upsert (λ d. d.name) entry s.state.daemons } in
    let live : DaemonEntry = record { name = tok.name; token_hash = hash } in
    finish o (λ cr. add_daemon cr live) (with_policy tok.policy resp) (record s { state = state })

module _ (sha256 : Bytes → Bytes) where
  abbrev pub response : Token → (device api_key : Bytes) → EnrollServer → EnrollResponse
  response tok device api_key s = record {
    device_id = codes "d_" ++ device;
    name = tok.name;
    api_key = api_key;
    api_key_hash = prefix ++ sha256_hex sha256 api_key;
    gateway_url = s.gateway_url;
    cert_pin = s.cert_pin;
    e2e_mode = default_e2e tok;
    target_daemon = [];
    daemon_pubkey = [];
    targets = [];
    exec_enabled = false;
    env_allowlist = [];
    forbidden_ports = [];
    allowed_bridge_pubkeys = [];
    default_working_dir = [];
  }

  abbrev pub keyed :
      Outside → EnrollRequest → Token → Option Bytes → EnrollServer → Reply × EnrollServer
  keyed o req tok none s = (rand_failed, s)
  keyed o req tok (some key) s =
      let hash = prefix ++ sha256_hex sha256 key in
      let resp = response tok o.device key s in
      if tok.role == daemon
      then enroll_daemon o tok hash req.device_pubkey_b64 resp s
      else if tok.role == bridge
      then enroll_bridge o tok hash (resolve s.state.daemons tok.targets) resp s
      else (unknown_role, s)

  abbrev pub consumed :
      Outside → EnrollRequest → Result Error Token → EnrollServer → Reply × EnrollServer
  consumed o req (err e) s = (invalid_token, s)
  consumed o req (ok tok) s = keyed o req tok o.api_key s

  -- The second argument is the decoded body, where it decodes.
  unfoldable pub handle_enroll :
      (is_post : Bool) → Option EnrollRequest → Outside → EnrollServer → Reply × EnrollServer
  handle_enroll false body o s = (method_not_allowed, s)
  handle_enroll true none o s = (bad_json, s)
  handle_enroll true (some req) o s =
      if (req.token == []) || (req.device_pubkey_b64 == [])
      then (fields_required, s)
      else let (result, tokens) = consume o.now o.later o.wrote req.token s.tokens in
        consumed o req result (record s { tokens = tokens })
