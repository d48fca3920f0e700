-- ===== src/Config/Modes.antt =====
-- What the checks of internal/config/config.go on end-to-end encryption guarantee.
use agbridge.Prelude.{
  ◌≡◌, ◌≢◌, ◌⊎◌, refl, sym, ap, ◌∙◌, subst, [], Bytes, bytes_eq, nat_eq, length, false, ◌==◌, ◌&&◌,
  eq_iff, arith, Bool-cases, inl, inr, Result, ok, err, ok-injective,
}
use agbridge.Config.{
  DaemonConfig, Error, disabled, optional, required, e2e_mode_of, checked_daemon,
  normalize_daemon_e2e,
}

-- What a daemon that starts has.
pub record IsChecked (cfg : DaemonConfig) : Type 0 where
  pub known : (cfg.e2e_mode ≡ disabled) ⊎ ((cfg.e2e_mode ≡ optional) ⊎ (cfg.e2e_mode ≡ required))
  pub keyed : (cfg.e2e_mode ≡ disabled) ⊎ (cfg.noise_static_key_path ≢ [])
  pub listed : (cfg.e2e_mode ≢ required) ⊎ (length cfg.allowed_bridge_pubkeys ≢ 0)

e2e_mode_of-ok :
    (mode m : Bytes) → e2e_mode_of mode ≡ ok m → (m ≡ disabled) ⊎ ((m ≡ optional) ⊎ (m ≡ required))
unfolding e2e_mode_of
e2e_mode_of-ok mode m h = elim (Bool-cases (mode == [])) [
  | inl empty ↦ inl (ground (arith, h))
  | inr some ↦ elim (Bool-cases (mode == disabled)) [
    | inl d ↦ inl (ground (arith, h, (eq_iff mode disabled).0 d))
    | inr nd ↦ elim (Bool-cases (mode == optional)) [
      | inl o ↦ inr (inl (ground (arith, h, (eq_iff mode optional).0 o)))
      | inr not_o ↦ elim (Bool-cases (mode == required)) [
        | inl r ↦ inr (inr (ground (arith, h, (eq_iff mode required).0 r)))
        | inr nr ↦ ground (arith, h)
      ]
    ]
  ]
]

disabled_apart : disabled ≢ required
disabled_apart e = ground (arith, e)

returned :
    (made out : DaemonConfig) (h : ◌≡◌ {A = Result Error DaemonConfig} (ok made) (ok out))
    → IsChecked made
    → IsChecked out × (out ≡ made)
returned made out h c = (subst IsChecked (ok-injective h) c, sym (ok-injective h))

checked_daemon-ok :
    (cfg out : DaemonConfig) (m : Bytes)
    → (m ≡ disabled) ⊎ ((m ≡ optional) ⊎ (m ≡ required))
    → checked_daemon cfg (ok m) ≡ ok out
    → IsChecked out × (out ≡ record cfg { e2e_mode = m })
checked_daemon-ok cfg out m known h = elim (Bool-cases (m == disabled)) [
  | inl d ↦
      let off = (eq_iff m disabled).0 d in
      returned (record cfg { e2e_mode = m }) out (ground (arith, h))
        (record {
          known = known;
          keyed = inl off;
          listed = inl (λ r. disabled_apart (sym off ∙ r));
        })
  | inr nd ↦ elim (Bool-cases (cfg.noise_static_key_path == [])) [
    | inl keyless ↦ ground (arith, h)
    | inr key ↦ elim (Bool-cases ((m == required) && (length cfg.allowed_bridge_pubkeys == 0))) [
      | inl unlisted ↦ ground (arith, h)
      | inr fine ↦
          returned (record cfg { e2e_mode = m }) out (ground (arith, h))
            (record {
              known = known;
              keyed = inr (λ e. ground (arith, key, (eq_iff cfg.noise_static_key_path []).1 e));
              listed = listed_lem fine;
            })
    ]
  ]
]
  where
    listed_lem :
        ((m == required) && (length cfg.allowed_bridge_pubkeys == 0)) ≡ false
        → (m ≢ required) ⊎ (length cfg.allowed_bridge_pubkeys ≢ 0)
    listed_lem fine = elim (Bool-cases (m == required)) [
      | inl r ↦ inr (λ z. ground (arith, fine, r, z))
      | inr nr ↦ inl (λ e. ground (arith, nr, (eq_iff m required).1 e))
    ]

-- A daemon's configuration that passes has a known mode; unless that is "disabled" it has a static
-- key, and where it is "required" some bridge is allowed. Only the mode is changed.
pub normalize_daemon_e2e-IsChecked :
    (cfg out : DaemonConfig)
    → normalize_daemon_e2e cfg ≡ ok out
    → IsChecked out × (out ≡ record cfg { e2e_mode = out.e2e_mode })
unfolding normalize_daemon_e2e
normalize_daemon_e2e-IsChecked cfg out h = by_mode (e2e_mode_of cfg.e2e_mode) refl h
  where
    by_mode :
        (r : Result Error Bytes)
        → e2e_mode_of cfg.e2e_mode ≡ r
        → checked_daemon cfg r ≡ ok out
        → IsChecked out × (out ≡ record cfg { e2e_mode = out.e2e_mode })
    by_mode (err x) e h = ground (arith, h)
    by_mode (ok m) e h =
        let (checked, same) = checked_daemon-ok cfg out m (e2e_mode_of-ok cfg.e2e_mode m e) h in
        (
          checked,
          same
              ∙ ap (λ (x : Bytes). record cfg { e2e_mode = x })
                  (sym (ap (λ (c : DaemonConfig). c.e2e_mode) same)),
        )
