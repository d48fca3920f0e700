-- ===== src/Config/Loading.antt =====
-- What the loaders of internal/config/config.go let through.
use agbridge.Prelude.{
  ◌≡◌, ◌≢◌, ◌⊎◌, sym, [], Bytes, bytes_eq, codes, ◌==◌, ◌||◌, false, eq_iff, arith, Bool-cases, inl,
  inr, ok, ok-injective, >>=-eq-ok, Option, to_lower, trim_space,
}
use agbridge.Config.{DaemonConfig, load_daemon, load_yaml, completed_daemon, normalize_gateway_tls}
use agbridge.Config.Modes.{IsChecked, normalize_daemon_e2e-IsChecked}
use agbridge.Auth.TlsMode.{pin_mode, webpki_mode}

abbrev pub TlsKnown : Bytes → Type 0
TlsKnown m = (m ≡ pin_mode) ⊎ (m ≡ webpki_mode)

normalize_gateway_tls-known : (mode m : Bytes) → normalize_gateway_tls mode ≡ ok m → TlsKnown m
unfolding normalize_gateway_tls
normalize_gateway_tls-known mode m h =
    let t = to_lower (trim_space mode) in
    elim (Bool-cases (t == [] || t == codes "pin")) [
      | inl pins ↦ inl (sym (ok-injective (rw pins at h)))
      | inr other ↦ elim (Bool-cases (t == codes "webpki")) [
        | inl web ↦ inr (sym (ok-injective (rw (other, web) at h)))
        | inr wrong ↦ ground (arith, rw (other, wrong) at h)
      ]
    ]

completed_daemon-ok :
    (cfg out : DaemonConfig)
    → completed_daemon cfg ≡ ok out
    → (tls : Bytes) × TlsKnown tls
      × (cfg.gateway_url ≢ [])
      × (cfg.daemon_name ≢ [])
      × (cfg.registration_token ≢ [])
      × IsChecked out
      × (out ≡ record cfg { gateway_tls_mode = tls; e2e_mode = out.e2e_mode })
completed_daemon-ok cfg out h = elim (Bool-cases (cfg.gateway_url == [])) [
  | inl no_url ↦ ground (arith, rw no_url at h)
  | inr url ↦ elim (Bool-cases (cfg.daemon_name == [])) [
    | inl no_name ↦ ground (arith, rw (url, no_name) at h)
    | inr name ↦ elim (Bool-cases (cfg.registration_token == [])) [
      | inl no_token ↦ ground (arith, rw (url, name, no_token) at h)
      | inr token ↦
          let (tls, at, h') =
            >>=-eq-ok (normalize_gateway_tls cfg.gateway_tls_mode) _ (rw (url, name, token) at h) in
          let (checked, same) =
            normalize_daemon_e2e-IsChecked (record cfg { gateway_tls_mode = tls }) out h' in
          (
            tls,
            normalize_gateway_tls-known cfg.gateway_tls_mode tls at,
            given cfg.gateway_url url,
            given cfg.daemon_name name,
            given cfg.registration_token token,
            checked,
            same,
          )
    ]
  ]
]
  where
    given : (b : Bytes) → (b == []) ≡ false → b ≢ []
    given b h e = ground (arith, h, (eq_iff b []).1 e)

-- A daemon's configuration that LoadDaemon returns is the file's, with its two modes normalised: it
-- has an address, a name and a token, its mode of TLS is "pin" or "webpki", its mode of encryption is
-- known, it has a static key unless that is "disabled", and some bridge is allowed where it is
-- "required".
pub load_daemon-ok :
    (parse : Bytes → Option DaemonConfig) (file : Option Bytes) (out : DaemonConfig)
    → load_daemon file parse ≡ ok out
    → (cfg : DaemonConfig) × (load_yaml parse file ≡ ok cfg)
      × (tls : Bytes) × TlsKnown tls
      × (cfg.gateway_url ≢ [])
      × (cfg.daemon_name ≢ [])
      × (cfg.registration_token ≢ [])
      × IsChecked out
      × (out ≡ record cfg { gateway_tls_mode = tls; e2e_mode = out.e2e_mode })
unfolding load_daemon
load_daemon-ok parse file out h =
    let (cfg, at, h') = >>=-eq-ok (load_yaml parse file) completed_daemon h in
    let (tls, known, url, name, token, checked, same) = completed_daemon-ok cfg out h' in
    (cfg, at, tls, known, url, name, token, checked, same)
