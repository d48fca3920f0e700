-- ===== src/State.antt =====
-- internal/state: types.go, validate.go and store.go. Times are nanoseconds; encoding/json and what
-- the system answers are arguments; the modes of TLS are ASCII text.
pub mod Validity
pub mod Store
use agbridge.Prelude.{
  ℕ, ℤ, List, [], ◌∷◌, Bytes, bytes_eq, nat_eq, codes, length, ◌==◌, not, ◌&&◌, ◌||◌, if◌then◌else◌,
  Bool, true, false, Option, none, some, Result, ok, err, ◌>>=◌, to_lower, trim_space,
}
use agbridge.Prelude.Maps.{Map}
use agbridge.Config.{disabled, optional, required, DaemonConfig}
use agbridge.Files.{Files, create_temp, append, chmod, unlink, rename}

abbrev pub current_version : ℕ
current_version = 1

pub record GatewayRef : Type 0 where
  pub url : Bytes
  pub cert_pin : Bytes
  pub tls_mode : Bytes

pub record DaemonRef : Type 0 where
  pub device_id : Bytes
  pub pubkey : Bytes
  pub pin_source : Bytes
  pub first_seen : ℕ
  pub alias : Bytes

pub record BridgeState : Type 0 where
  pub version : ℕ
  pub device_id : Bytes
  pub agent_name : Bytes
  pub api_key : Bytes
  pub gateway : GatewayRef
  pub bridge_static_key_path : Bytes
  pub e2e_mode : Bytes
  pub default_target : Bytes
  pub known_daemons : Map Bytes DaemonRef
  pub working_dir : Bytes
  pub enrolled_at : ℕ

pub record DaemonState : Type 0 where
  pub version : ℕ
  pub device_id : Bytes
  pub daemon_name : Bytes
  pub api_key : Bytes
  pub gateway : GatewayRef
  pub noise_static_key_path : Bytes
  pub e2e_mode : Bytes
  pub exec_enabled : Bool
  pub env_allowlist : List Bytes
  pub forbidden_ports : List ℤ
  pub allowed_bridge_pubkeys : List Bytes
  pub default_working_dir : Bytes
  pub enrolled_at : ℕ

pub data Error : Type 0 where
  name_required api_key_required url_required invalid_tls_mode invalid_e2e_mode : Error
  key_path_required allowlist_required : Error
  empty_path mkdir tempfile marshal chmod_failed close rename_failed : Error
  unreadable empty_file unparsable wrong_version : Error

unfoldable pub validate_gateway_tls_mode : Bytes → Result Error (Unit {0})
validate_gateway_tls_mode mode =
    let m = to_lower (trim_space mode) in
    if m == [] || (m == codes "pin" || m == codes "webpki") then ok tt else err invalid_tls_mode

unfoldable pub validate_e2e_mode : Bytes → Result Error (Unit {0})
validate_e2e_mode mode =
    if mode == disabled || (mode == optional || mode == required)
    then ok tt
    else err invalid_e2e_mode

-- BridgeState.Validate
unfoldable pub validate_bridge : BridgeState → Result Error (Unit {0})
validate_bridge s =
    if s.agent_name == []
    then err name_required
    else if s.api_key == []
    then err api_key_required
    else if s.gateway.url == []
    then err url_required
    else validate_gateway_tls_mode s.gateway.tls_mode >>= λ _. validate_e2e_mode s.e2e_mode >>= λ _.
        if not (s.e2e_mode == disabled) && s.bridge_static_key_path == []
        then err key_path_required
        else ok tt

abbrev pub keyed : DaemonState → Result Error (Unit {0})
keyed s =
    if not (s.e2e_mode == disabled) && s.noise_static_key_path == []
    then err key_path_required
    else if s.e2e_mode == required && length s.allowed_bridge_pubkeys == 0
    then err allowlist_required
    else ok tt

-- DaemonState.Validate
unfoldable pub validate_daemon : DaemonState → Result Error (Unit {0})
validate_daemon s =
    if s.daemon_name == []
    then err name_required
    else if s.api_key == []
    then err api_key_required
    else if s.gateway.url == []
    then err url_required
    else validate_gateway_tls_mode s.gateway.tls_mode >>= λ _.
        validate_e2e_mode s.e2e_mode >>= λ _. keyed s

-- daemonConfigFromState of cmd/agbridge/daemon.go
unfoldable pub daemon_config_from_state : DaemonState → DaemonConfig
daemon_config_from_state s = record {
  gateway_url = s.gateway.url;
  daemon_name = s.daemon_name;
  registration_token = s.api_key;
  cert_pin = s.gateway.cert_pin;
  gateway_tls_mode = s.gateway.tls_mode;
  exec_enabled = s.exec_enabled;
  env_allowlist = s.env_allowlist;
  forbidden_ports = s.forbidden_ports;
  default_working_dir = s.default_working_dir;
  e2e_mode = s.e2e_mode;
  noise_static_key_path = s.noise_static_key_path;
  allowed_bridge_pubkeys = s.allowed_bridge_pubkeys;
}

-- What the system answers to the calls of saveJSON.
pub record System : Type 0 where
  pub mkdir_works : Bool
  pub temp_works : Bool
  pub temp_name : Bytes
  pub chmod_works : Bool
  pub close_works : Bool
  pub rename_works : Bool
  pub removes : Bool

-- saveJSON, for the text that is encoded, none if it cannot be. The temporary file is removed when the
-- function returns; after a rename it is not there.
unfoldable pub save_json :
    System → (path : Bytes) → Option Bytes → Files → Result Error (Unit {0}) × Files
save_json o path text fs =
    if path == []
    then (err empty_path, fs)
    else if not o.mkdir_works
    then (err mkdir, fs)
    else if not o.temp_works
    then (err tempfile, fs)
    else let made = create_temp fs o.temp_name in
      elim text [
        | none ↦ (err marshal, unlink o.removes made o.temp_name)
        | some b ↦
            let written = append made o.temp_name b in
            if not o.chmod_works
            then (err chmod_failed, unlink o.removes written o.temp_name)
            else let moded = chmod written o.temp_name 384 in
              if not o.close_works
              then (err close, unlink o.removes moded o.temp_name)
              else if not o.rename_works
              then (err rename_failed, unlink o.removes moded o.temp_name)
              else (ok tt, unlink o.removes (rename moded o.temp_name path) o.temp_name)
      ]

-- loadJSON
unfoldable pub load_json {ℓ} : {S : Type ℓ} → (Bytes → Option S) → Option Bytes → Result Error S
load_json parse none = err unreadable
load_json parse (some b) =
    if b == [] then err empty_file else elim (parse b) [ none ↦ err unparsable | some s ↦ ok s ]

unfoldable pub load_bridge : (Bytes → Option BridgeState) → Option Bytes → Result Error BridgeState
load_bridge parse file = load_json parse file >>= λ s.
    if not (s.version == current_version) then err wrong_version else ok s

unfoldable pub load_daemon : (Bytes → Option DaemonState) → Option Bytes → Result Error DaemonState
load_daemon parse file = load_json parse file >>= λ s.
    if not (s.version == current_version) then err wrong_version else ok s
