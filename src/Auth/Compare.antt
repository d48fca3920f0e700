-- ===== src/Auth/Compare.antt =====
-- The comparisons of internal/auth decide equality.
use agbridge.Prelude.{
  ◌≡◌, ◌↔◌, ◌++◌, Bytes, length, take, drop, sym, ◌∙◌, true, arith, eq_iff, eq_refl, bytes_eq,
  take-append-drop, take-append, ap,
}
use agbridge.Auth.{has_prefix, constant_time_compare}

pub constant_time_compare_iff : (x y : Bytes) → (constant_time_compare x y ≡ true) ↔ (x ≡ y)
constant_time_compare_iff x y =
    (λ h. ground (arith, eq_iff x y), λ e. ground (arith, eq_iff x y, ap length e))

pub has_prefix→append : (s p : Bytes) → has_prefix s p ≡ true → s ≡ p ++ drop (length p) s
has_prefix→append s p h =
    sym (take-append-drop (length p) s)
    ∙ ap (λ (t : Bytes). t ++ drop (length p) s) ((eq_iff (take (length p) s) p).0 h)

pub has_prefix-append : (p s : Bytes) → has_prefix (p ++ s) p ≡ true
has_prefix-append p s = rw take-append (eq_refl p)
