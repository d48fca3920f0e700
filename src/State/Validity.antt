-- ===== src/State/Validity.antt =====
-- A daemon that starts from its state file has what one that starts from a configuration file has.
use agbridge.Prelude.{
  ◌≡◌, ◌≢◌, ◌⊎◌, refl, sym, ◌∙◌, [], Bytes, bytes_eq, nat_eq, false, ◌==◌, ◌||◌, eq_iff, arith,
  Bool-cases, inl, inr, ok, ◌>>=◌, >>=-eq-ok, to_lower, trim_space,
}
use agbridge.Config.{disabled, optional, required}
use agbridge.Config.Modes.{IsChecked}
use agbridge.Auth.TlsMode.{normalize_gateway_tls_mode, pin_mode, webpki_mode}
use agbridge.State.{
  DaemonState, validate_daemon, validate_gateway_tls_mode, validate_e2e_mode, keyed,
  daemon_config_from_state,
}

-- The check of the state file and the normalisation at run time accept the same modes.
tls_mode-agrees :
    (mode : Bytes)
    → validate_gateway_tls_mode mode ≡ ok tt
    → (m : Bytes) × (normalize_gateway_tls_mode mode ≡ ok m)
unfolding validate_gateway_tls_mode normalize_gateway_tls_mode
tls_mode-agrees mode h =
    let t = to_lower (trim_space mode) in
    elim (Bool-cases (t == [] || t == pin_mode)) [
      | inl pins ↦ (pin_mode, rw pins refl)
      | inr other ↦ elim (Bool-cases (t == webpki_mode)) [
        | inl web ↦ (webpki_mode, rw (other, web) refl)
        | inr wrong ↦ ground (arith, h, other, wrong)
      ]
    ]

e2e_mode-known :
    (mode : Bytes)
    → validate_e2e_mode mode ≡ ok tt
    → (mode ≡ disabled) ⊎ ((mode ≡ optional) ⊎ (mode ≡ required))
unfolding validate_e2e_mode
e2e_mode-known mode h = elim (Bool-cases (mode == disabled)) [
  | inl d ↦ inl ((eq_iff mode disabled).0 d)
  | inr nd ↦ elim (Bool-cases (mode == optional)) [
    | inl o ↦ inr (inl ((eq_iff mode optional).0 o))
    | inr not_o ↦ elim (Bool-cases (mode == required)) [
      | inl r ↦ inr (inr ((eq_iff mode required).0 r))
      | inr nr ↦ ground (arith, h, nd, not_o, nr)
    ]
  ]
]

keyed-IsChecked :
    (s : DaemonState)
    → (s.e2e_mode ≡ disabled) ⊎ ((s.e2e_mode ≡ optional) ⊎ (s.e2e_mode ≡ required))
    → keyed s ≡ ok tt
    → IsChecked (daemon_config_from_state s)
unfolding daemon_config_from_state
keyed-IsChecked s known h = record {
  known = known;
  keyed = elim (Bool-cases (s.e2e_mode == disabled)) [
    | inl d ↦ inl ((eq_iff s.e2e_mode disabled).0 d)
    | inr nd ↦ inr (λ e. ground (arith, h, nd, (eq_iff s.noise_static_key_path []).1 e))
  ];
  listed = elim (Bool-cases (s.e2e_mode == required)) [
    | inl r ↦ inr (λ z. elim (Bool-cases (s.e2e_mode == disabled)) [
      | inl d ↦
          ground (arith, sym ((eq_iff s.e2e_mode disabled).0 d) ∙ (eq_iff s.e2e_mode required).0 r)
      | inr nd ↦ ground (arith, h, nd, r, z)
    ])
    | inr nr ↦ inl (λ e. ground (arith, nr, (eq_iff s.e2e_mode required).1 e))
  ];
}

-- A daemon state that passes Validate gives, by daemonConfigFromState, a configuration with an address,
-- a name and a token, whose mode of encryption is known, with a static key unless it is "disabled" and
-- with some bridge allowed where it is "required", and the run-time TLS set-up accepts its TLS mode.
pub validate_daemon-ok :
    (s : DaemonState)
    → validate_daemon s ≡ ok tt
    → IsChecked (daemon_config_from_state s)
      × ((m : Bytes) × (normalize_gateway_tls_mode (daemon_config_from_state s).gateway_tls_mode
            ≡ ok m))
      × ((daemon_config_from_state s).gateway_url ≢ [])
      × ((daemon_config_from_state s).daemon_name ≢ [])
      × ((daemon_config_from_state s).registration_token ≢ [])
unfolding validate_daemon daemon_config_from_state
validate_daemon-ok s h = elim (Bool-cases (s.daemon_name == [])) [
  | inl no_name ↦ ground (arith, rw no_name at h)
  | inr name ↦ elim (Bool-cases (s.api_key == [])) [
    | inl no_key ↦ ground (arith, rw (name, no_key) at h)
    | inr key ↦ elim (Bool-cases (s.gateway.url == [])) [
      | inl no_url ↦ ground (arith, rw (name, key, no_url) at h)
      | inr url ↦ passed name key url (rw (name, key, url) at h)
    ]
  ]
]
  where
    given : (b : Bytes) → (b == []) ≡ false → b ≢ []
    given b h e = ground (arith, h, (eq_iff b []).1 e)

    passed :
        (s.daemon_name == []) ≡ false
        → (s.api_key == []) ≡ false
        → (s.gateway.url == []) ≡ false
        → (validate_gateway_tls_mode s.gateway.tls_mode >>= λ _.
            validate_e2e_mode s.e2e_mode >>= λ _. keyed s)
          ≡ ok tt
        → IsChecked (daemon_config_from_state s)
          × ((m : Bytes) × (normalize_gateway_tls_mode s.gateway.tls_mode ≡ ok m))
          × (s.gateway.url ≢ [])
          × (s.daemon_name ≢ [])
          × (s.api_key ≢ [])
    passed name key url h =
        let (_, tls, h') = >>=-eq-ok (validate_gateway_tls_mode s.gateway.tls_mode) _ h in
        let (_, e2e, h'') = >>=-eq-ok (validate_e2e_mode s.e2e_mode) _ h' in
        (
          keyed-IsChecked s (e2e_mode-known s.e2e_mode e2e) h'',
          tls_mode-agrees s.gateway.tls_mode tls,
          given s.gateway.url url,
          given s.daemon_name name,
          given s.api_key key,
        )
