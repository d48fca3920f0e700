-- ===== src/E2e/Lockstep.antt =====
-- Two sessions that are in step: what one encrypts the other decrypts, in order.
use mathlib.Core.Option.{some-injective}
use agbridge.Prelude.{◌≡◌, refl, ap, sym, Bytes, Option, none, some}
use agbridge.E2e.{Noise, Session, encrypt, decrypt, sealed}

-- What the Noise protocol gives for the cipher states of its two sides: a state that has sent as
-- many messages as its counterpart has received is paired with it.
pub record Lockstep (n : Noise) : Type 1 where
  pub Paired : n.CipherState → n.CipherState → Type 0
  pub decrypts :
      (s r s' : n.CipherState) (ad m ct : Bytes)
      → Paired s r
      → n.encrypt s ad m ≡ some (ct, s')
      → (r' : n.CipherState) × (n.decrypt r ad ct ≡ some (m, r')) × Paired s' r'

module _ (n : Noise) (l : Lockstep n) where
  -- One side sends what the other receives.
  abbrev pub InStep : Session n → Session n → Type 0
  InStep s r = l.Paired s.send r.recv

  sealed-eq-some :
      (s s' : Session n) (ct : Bytes) (o : Option (Bytes × n.CipherState))
      → sealed n s o ≡ some (ct, s')
      → (o ≡ some (ct, s'.send)) × (s'.recv ≡ s.recv)
  sealed-eq-some s s' ct none e = cc
  sealed-eq-some s s' ct (some (ct', c)) e =
      let e' : (ct', record s { send = c }) ≡ (ct, s') = some-injective _ _ e in
      let sent : c ≡ s'.send = ap (λ (x : Bytes × Session n). x.1.send) e' in
      (
        ap some (cc (ap (λ (x : Bytes × Session n). x.0) e', sent)),
        sym (ap (λ (x : Bytes × Session n). x.1.recv) e'),
      )

  pub encrypt-eq-some :
      (s s' : Session n) (ad m ct : Bytes)
      → encrypt n s ad m ≡ some (ct, s')
      → (n.encrypt s.send ad m ≡ some (ct, s'.send)) × (s'.recv ≡ s.recv)
  unfolding encrypt
  encrypt-eq-some s s' ad m ct e = sealed-eq-some s s' ct (n.encrypt s.send ad m) e

  pub decrypt-encrypt :
      (s s' r : Session n) (ad m ct : Bytes)
      → InStep s r
      → encrypt n s ad m ≡ some (ct, s')
      → (r' : Session n) × (decrypt n r ad ct ≡ some (m, r')) × InStep s' r' × (r'.send ≡ r.send)
  unfolding decrypt
  decrypt-encrypt s s' r ad m ct paired e =
      let (c, at, paired') =
        l.decrypts s.send r.recv s'.send ad m ct paired (encrypt-eq-some s s' ad m ct e).0 in
      (record r { recv = c }, rw at refl, paired', refl)
