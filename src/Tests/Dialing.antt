-- ===== src/Tests/Dialing.antt =====
-- internal/dialer and internal/config on concrete settings.
use agbridge.Prelude.{pos, true, ◌-◌, ◌^◌, ◌≡◌, refl, [], ◌∷◌, bytes_beq, codes, ok, err}
use agbridge.Dialer.{Options, with_defaults, doubled, delay_for}
use agbridge.Config.{DaemonConfig, allowlist_required, e2e_mode_of, normalize_daemon_e2e}

abbrev defaults : Options
defaults = record { base = 500000000; cap = 30000000000 }

defaults_used : with_defaults (record { base = 0; cap = 0 }) ≡ defaults
unfolding with_defaults
defaults_used = refl

-- A base of 2^62 wraps to a negative duration, which is what is returned.
delay_for_wraps : delay_for (record { base = 2 ^ 62; cap = 2 ^ 63 - 1 }) 1 ≡ 2 ^ 63
unfolding delay_for doubled
delay_for_wraps = refl

abbrev strict : DaemonConfig
strict = record {
  gateway_url = codes "wss://g/";
  daemon_name = codes "d";
  registration_token = codes "t";
  cert_pin = [];
  gateway_tls_mode = codes "pin";
  exec_enabled = true;
  env_allowlist = codes "PATH" ∷ [];
  forbidden_ports = pos 22 ∷ [];
  default_working_dir = [];
  e2e_mode = codes "required";
  noise_static_key_path = codes "/key";
  allowed_bridge_pubkeys = codes "K" ∷ [];
}

strict_passes : normalize_daemon_e2e strict ≡ ok strict
unfolding normalize_daemon_e2e e2e_mode_of bytes_beq
strict_passes = refl

open_refused :
    normalize_daemon_e2e (record strict { allowed_bridge_pubkeys = [] }) ≡ err allowlist_required
unfolding normalize_daemon_e2e e2e_mode_of bytes_beq
open_refused = refl
