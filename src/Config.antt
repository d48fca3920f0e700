-- ===== src/Config.antt =====
-- internal/config/config.go: the configuration that each role reads, and how it is checked. The parser
-- of YAML is an argument; the modes of TLS are ASCII text.
pub mod Modes
pub mod Loading
use agbridge.Prelude.{
  ℕ, ℤ, Bool, Option, none, some, to_lower, trim_space, ◌>>=◌, List, [], Bytes, bytes_eq, nat_eq,
  codes, length, ◌==◌, ◌&&◌, ◌||◌, if◌then◌else◌, Result, ok, err,
}

pub record AgentEntry : Type 0 where
  pub name : Bytes
  pub api_key_hash : Bytes
  pub allowed_daemons : List Bytes

pub record DaemonEntry : Type 0 where
  pub name : Bytes
  pub token_hash : Bytes

pub record GatewayConfig : Type 0 where
  pub listen : Bytes
  pub public_url : Bytes
  pub audit_path : Bytes
  pub audit_max_bytes : ℕ
  pub audit_max_backups : ℕ
  pub agents : List AgentEntry
  pub daemons : List DaemonEntry

pub record BridgeConfig : Type 0 where
  pub gateway_url : Bytes
  pub agent_name : Bytes
  pub api_key : Bytes
  pub cert_pin : Bytes
  pub gateway_tls_mode : Bytes
  pub target_daemon : Bytes
  pub e2e_mode : Bytes
  pub bridge_static_key_path : Bytes
  pub daemon_pubkey : Bytes

pub record DaemonConfig : Type 0 where
  pub gateway_url : Bytes
  pub daemon_name : Bytes
  pub registration_token : Bytes
  pub cert_pin : Bytes
  pub gateway_tls_mode : Bytes
  pub exec_enabled : Bool
  pub env_allowlist : List Bytes
  pub forbidden_ports : List ℤ
  pub default_working_dir : Bytes
  pub e2e_mode : Bytes
  pub noise_static_key_path : Bytes
  pub allowed_bridge_pubkeys : List Bytes

pub data Error : Type 0 where
  unreadable empty_file unparsable : Error
  listen_required audit_path_required fields_required invalid_tls_mode : Error
  invalid_e2e_mode key_path_required daemon_pubkey_required allowlist_required : Error

abbrev pub disabled : Bytes
disabled = codes "disabled"

abbrev pub optional : Bytes
optional = codes "optional"

abbrev pub required : Bytes
required = codes "required"

-- The switch on the mode, with the empty one replaced.
unfoldable pub e2e_mode_of : Bytes → Result Error Bytes
e2e_mode_of mode =
    if mode == []
    then ok disabled
    else if (mode == disabled) || ((mode == optional) || (mode == required))
    then ok mode
    else err invalid_e2e_mode

abbrev pub checked_bridge : BridgeConfig → Result Error Bytes → Result Error BridgeConfig
checked_bridge cfg (err e) = err e
checked_bridge cfg (ok mode) =
    if mode == disabled
    then ok (record cfg { e2e_mode = mode })
    else if cfg.bridge_static_key_path == []
    then err key_path_required
    else if cfg.daemon_pubkey == []
    then err daemon_pubkey_required
    else ok (record cfg { e2e_mode = mode })

unfoldable pub normalize_bridge_e2e : BridgeConfig → Result Error BridgeConfig
normalize_bridge_e2e cfg = checked_bridge cfg (e2e_mode_of cfg.e2e_mode)

abbrev pub checked_daemon : DaemonConfig → Result Error Bytes → Result Error DaemonConfig
checked_daemon cfg (err e) = err e
checked_daemon cfg (ok mode) =
    if mode == disabled
    then ok (record cfg { e2e_mode = mode })
    else if cfg.noise_static_key_path == []
    then err key_path_required
    else if (mode == required) && (length cfg.allowed_bridge_pubkeys == 0)
    then err allowlist_required
    else ok (record cfg { e2e_mode = mode })

unfoldable pub normalize_daemon_e2e : DaemonConfig → Result Error DaemonConfig
normalize_daemon_e2e cfg = checked_daemon cfg (e2e_mode_of cfg.e2e_mode)

-- normalizeGatewayTLS: the mode that is stored
unfoldable pub normalize_gateway_tls : Bytes → Result Error Bytes
normalize_gateway_tls mode =
    let m = to_lower (trim_space mode) in
    if m == [] || m == codes "pin"
    then ok (codes "pin")
    else if m == codes "webpki"
    then ok (codes "webpki")
    else err invalid_tls_mode

-- loadYAML, for the outcome of reading the file and the parser
unfoldable pub load_yaml {ℓ} : {C : Type ℓ} → (Bytes → Option C) → Option Bytes → Result Error C
load_yaml parse none = err unreadable
load_yaml parse (some b) =
    if b == [] then err empty_file else elim (parse b) [ none ↦ err unparsable | some cfg ↦ ok cfg ]

abbrev pub checked_gateway : GatewayConfig → Result Error GatewayConfig
checked_gateway cfg =
    if cfg.listen == []
    then err listen_required
    else if cfg.audit_path == []
    then err audit_path_required
    else ok cfg

abbrev pub completed_bridge : BridgeConfig → Result Error BridgeConfig
completed_bridge cfg =
    if cfg.gateway_url == []
      || (cfg.agent_name == [] || (cfg.api_key == [] || cfg.target_daemon == []))
    then err fields_required
    else normalize_gateway_tls cfg.gateway_tls_mode >>= λ tls.
        normalize_bridge_e2e (record cfg { gateway_tls_mode = tls })

abbrev pub completed_daemon : DaemonConfig → Result Error DaemonConfig
completed_daemon cfg =
    if cfg.gateway_url == [] || (cfg.daemon_name == [] || cfg.registration_token == [])
    then err fields_required
    else normalize_gateway_tls cfg.gateway_tls_mode >>= λ tls.
        normalize_daemon_e2e (record cfg { gateway_tls_mode = tls })

module _ (file : Option Bytes) where
  unfoldable pub load_gateway : (Bytes → Option GatewayConfig) → Result Error GatewayConfig
  load_gateway parse = load_yaml parse file >>= checked_gateway

  unfoldable pub load_bridge : (Bytes → Option BridgeConfig) → Result Error BridgeConfig
  load_bridge parse = load_yaml parse file >>= completed_bridge

  unfoldable pub load_daemon : (Bytes → Option DaemonConfig) → Result Error DaemonConfig
  load_daemon parse = load_yaml parse file >>= completed_daemon
