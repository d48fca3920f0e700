-- ===== src/E2e.antt =====
-- internal/e2e: keys.go, handshake.go and session.go. The Noise library github.com/flynn/noise, the
-- scalar multiplication and base64 are arguments.
pub mod Lockstep
use agbridge.Prelude.{
  ℕ, ◌≡◌, Bytes, nat_eq, length, ◌==◌, not, if◌then◌else◌, Bool, true, false, Option, none, some,
  Result, ok, err,
}

-- An X25519 key pair.
pub record StaticKey : Type 0 where
  pub private : Bytes
  pub public : Bytes

-- What internal/e2e calls of the library. A cipher state holds its key and its counter of messages;
-- a call that fails leaves it as it is. The random bytes of a handshake state are given to `start`.
pub record Noise : Type 1 where
  pub CipherState : Type 0
  pub encrypt : CipherState → (ad plaintext : Bytes) → Option (Bytes × CipherState)
  pub decrypt : CipherState → (ad ciphertext : Bytes) → Option (Bytes × CipherState)
  pub HandshakeState : Type 0
  pub start :
      (initiator : Bool) (random prologue : Bytes)
      → StaticKey
      → Option Bytes
      → Option HandshakeState
  pub write_message :
      HandshakeState → Option (Bytes × Option (CipherState × CipherState) × HandshakeState)
  pub read_message :
      HandshakeState → Bytes → Option (Option (CipherState × CipherState) × HandshakeState)
  pub peer_static : HandshakeState → Bytes

pub record Session (n : Noise) : Type 0 where
  pub send : n.CipherState
  pub recv : n.CipherState

module _ (n : Noise) where
  abbrev pub sealed : Session n → Option (Bytes × n.CipherState) → Option (Bytes × Session n)
  sealed s none = none
  sealed s (some (ct, c)) = some (ct, record s { send = c })

  -- Session.Encrypt
  unfoldable pub encrypt : Session n → (ad plaintext : Bytes) → Option (Bytes × Session n)
  encrypt s ad plaintext = sealed s (n.encrypt s.send ad plaintext)

  abbrev pub opened : Session n → Option (Bytes × n.CipherState) → Option (Bytes × Session n)
  opened s none = none
  opened s (some (m, c)) = some (m, record s { recv = c })

  -- Session.Decrypt
  unfoldable pub decrypt : Session n → (ad ciphertext : Bytes) → Option (Bytes × Session n)
  decrypt s ad ciphertext = opened s (n.decrypt s.recv ad ciphertext)

  -- NewInitiator, for a key that is there.
  unfoldable pub new_initiator :
      (random : Bytes) → StaticKey → (remote prologue : Bytes) → Option n.HandshakeState
  new_initiator random local remote prologue =
      if not (length remote == 32) then none else n.start true random prologue local (some remote)

  abbrev first :
      Option (Bytes × Option (n.CipherState × n.CipherState) × n.HandshakeState)
      → Option (Bytes × n.HandshakeState)
  first none = none
  first (some (msg, _, hs)) = some (msg, hs)

  -- Initiator.WriteMessage1
  unfoldable pub write_message1 : n.HandshakeState → Option (Bytes × n.HandshakeState)
  write_message1 hs = first (n.write_message hs)

  abbrev initiated :
      Option (Option (n.CipherState × n.CipherState) × n.HandshakeState) → Option (Session n)
  initiated none = none
  initiated (some (none, hs)) = none
  initiated (some (some (cs1, cs2), hs)) = some (record { send = cs1; recv = cs2 })

  -- Initiator.ReadMessage2
  unfoldable pub read_message2 : n.HandshakeState → Bytes → Option (Session n)
  read_message2 hs msg = initiated (n.read_message hs msg)

  -- NewResponder, for a key that is there.
  unfoldable pub new_responder : (random : Bytes) → StaticKey → Bytes → Option n.HandshakeState
  new_responder random local prologue = n.start false random prologue local none

  abbrev revealed :
      Option (Option (n.CipherState × n.CipherState) × n.HandshakeState)
      → Option (Bytes × n.HandshakeState)
  revealed none = none
  revealed (some (_, hs)) = some (n.peer_static hs, hs)

  -- Responder.ReadMessage1, with the state that keeps the peer's key
  unfoldable pub read_message1 : n.HandshakeState → Bytes → Option (Bytes × n.HandshakeState)
  read_message1 hs msg = revealed (n.read_message hs msg)

  abbrev responded :
      Option (Bytes × Option (n.CipherState × n.CipherState) × n.HandshakeState)
      → Option (Bytes × Session n)
  responded none = none
  responded (some (msg, none, hs)) = none
  responded (some (msg, some (cs1, cs2), hs)) = some (msg, record { send = cs2; recv = cs1 })

  -- Responder.WriteMessage2
  unfoldable pub write_message2 : n.HandshakeState → Option (Bytes × Session n)
  write_message2 hs = responded (n.write_message hs)

-- LoadStatic: the outcome of reading the file and that of the scalar multiplication are given.
unfoldable pub load_static : (x25519 : Bytes → Option Bytes) → Option Bytes → Option StaticKey
load_static x25519 none = none
load_static x25519 (some b) =
    if not (length b == 32)
    then none
    else elim (x25519 b) [ none ↦ none | some key ↦ some (record { private = b; public = key }) ]

-- PubFromBase64
unfoldable pub pub_from_base64 : (decode : Bytes → Option Bytes) → Bytes → Option Bytes
pub_from_base64 decode s = elim (decode s) [
  | none ↦ none
  | some b ↦ if not (length b == 32) then none else some b
]
