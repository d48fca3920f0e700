-- ===== src/Tests/Stored.antt =====
-- The loaders of configurations and states, TLS modes and error payloads on concrete texts.
use agbridge.Prelude.{
  ◌≡◌, ◌≢◌, refl, List, [], ◌∷◌, ◌++◌, Bytes, bytes_eq, bytes_beq, codes, length, take, drop,
  take-append, drop-append, true, false, Option, none, some, ok, Result,
}
use agbridge.Prelude.Maps
use agbridge.Config.{DaemonConfig, load_daemon, load_yaml}
use agbridge.Config.Modes.{IsChecked}
use agbridge.Hex
use agbridge.Auth.{prefix, attach_cert_pin, verify_connection}
use agbridge.Auth.TlsMode.{
  TlsConfig, normalize_gateway_tls_mode, runtime_tls_config, Verifies, runtime_tls_config-Verifies,
}
use agbridge.Errcode.{FramePayload}
use agbridge.State
use agbridge.State.{DaemonState, validate_daemon, daemon_config_from_state, save_json}
use agbridge.State.Validity.{validate_daemon-ok}
use agbridge.State.Store.{Saved, save_json-Saved}
use agbridge.Tests.Fixtures.{toy_sha256, repeat}

abbrev file_config : DaemonConfig
file_config = record {
  gateway_url = codes "wss://g/";
  daemon_name = codes "d";
  registration_token = codes "t";
  cert_pin = [];
  gateway_tls_mode = codes " PIN";
  exec_enabled = true;
  env_allowlist = [];
  forbidden_ports = [];
  default_working_dir = [];
  e2e_mode = codes "required";
  noise_static_key_path = codes "/k";
  allowed_bridge_pubkeys = codes "p" ∷ [];
}

abbrev loaded_config : DaemonConfig
loaded_config = record file_config { gateway_tls_mode = codes "pin" }

config-loads : load_daemon (some (codes "y")) (λ _. some file_config) ≡ ok loaded_config
unfolding load_daemon bytes_beq load_yaml agbridge.Config.normalize_gateway_tls
    agbridge.Config.normalize_daemon_e2e agbridge.Config.e2e_mode_of
config-loads = refl

abbrev state : DaemonState
state = record {
  version = 1;
  device_id = codes "i";
  daemon_name = codes "d";
  api_key = codes "k";
  gateway = record { url = codes "wss://g/"; cert_pin = []; tls_mode = codes "webpki" };
  noise_static_key_path = codes "/k";
  e2e_mode = codes "optional";
  exec_enabled = false;
  env_allowlist = [];
  forbidden_ports = [];
  allowed_bridge_pubkeys = [];
  default_working_dir = [];
  enrolled_at = 9;
}

state-valid : validate_daemon state ≡ ok tt
unfolding validate_daemon bytes_beq State.validate_gateway_tls_mode State.validate_e2e_mode
state-valid = refl

validate_daemon-ok_example :
    IsChecked (daemon_config_from_state state)
    × ((m : Bytes) × (normalize_gateway_tls_mode (daemon_config_from_state state).gateway_tls_mode
          ≡ ok m))
    × ((daemon_config_from_state state).gateway_url ≢ [])
    × ((daemon_config_from_state state).daemon_name ≢ [])
    × ((daemon_config_from_state state).registration_token ≢ [])
validate_daemon-ok_example = validate_daemon-ok state state-valid

abbrev system : State.System
system = record {
  mkdir_works = true;
  temp_works = true;
  temp_name = codes "/t";
  chmod_works = true;
  close_works = true;
  rename_works = true;
  removes = true;
}

save_json-Saved_example :
    Saved true
      (codes "/t")
      Maps.empty
      (codes "/s")
      (some (codes "{}"))
      (save_json system (codes "/s") (some (codes "{}")) Maps.empty)
unfolding bytes_beq Maps.get agbridge.Prelude.Maps.Assoc.lookup Maps.empty
save_json-Saved_example =
    save_json-Saved system (codes "/s") (some (codes "{}")) Maps.empty refl refl

state-saves : (save_json system (codes "/s") (some (codes "{}")) Maps.empty).0 ≡ ok tt
unfolding save_json bytes_beq
state-saves = refl

-- A pin of the stand-in digest, and the configuration for it.
abbrev pin : Bytes
pin = prefix ++ Hex.encode (repeat 32 3)

abbrev pin_config : TlsConfig
pin_config = record {
  insecure_skip_verify = true;
  verify = some (verify_connection toy_sha256 (repeat 32 3));
}

pin-config : runtime_tls_config toy_sha256 (codes "pin") pin ≡ ok pin_config
unfolding runtime_tls_config normalize_gateway_tls_mode attach_cert_pin bytes_beq repeat Hex.encode
    Hex.decode
pin-config = refl

runtime_tls_config-Verifies_example : Verifies toy_sha256 (codes "pin") pin pin_config
runtime_tls_config-Verifies_example =
    runtime_tls_config-Verifies toy_sha256 (codes "pin") pin pin_config pin-config

abbrev toy_marshal : FramePayload → Bytes
toy_marshal p = b'{' ∷ length p.code ∷ p.code ++ p.detail

abbrev toy_unmarshal : Bytes → Option FramePayload
toy_unmarshal (b ∷ n ∷ rest) = some (record { code = take n rest; detail = drop n rest })
toy_unmarshal _ = none

toy_unmarshal-marshal : (p : FramePayload) → toy_unmarshal (toy_marshal p) ≡ some p
toy_unmarshal-marshal p = rw (take-append p.code p.detail, drop-append p.code p.detail) refl
