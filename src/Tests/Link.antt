-- ===== src/Tests/Link.antt =====
-- A bridge and a daemon with a stand-in for the Noise library: a cipher state is a counter, which a
-- message begins with, and a handshake message is the key of its sender.
use agbridge.Prelude.{
  ℕ, suc, ◌<◌, ◌≡◌, refl, sym, ap, ◌∙◌, inl, inr, ◌⊎◌, List, [], ◌∷◌, ◌++◌, All, Bytes, nat_eq,
  bytes_eq, bytes_beq, true, false, codes, ◌==◌, if◌then◌else◌, Bool, Option, none, some, arith,
  subst,
}
use mathlib.Core.Option.{some-injective}
use agbridge.Prelude.Maps
use agbridge.Proto.{Frame}
use agbridge.Proto.FrameType
use agbridge.Proto.RoundTrip.{Fits}
use agbridge.E2e.{Noise}
use agbridge.E2e.Lockstep.{Lockstep}
use agbridge.Config.{required}
use agbridge.Tools.Payload.{FileChunk}
use agbridge.Client.Router.{Router, send_inner}
use agbridge.Daemon.Session.{Channel, Deps}
use agbridge.Daemon.Dispatch.{Codec, Daemon, Slot, ready, sending_chunk}
use agbridge.Daemon.Run.{Move, arrives, push, take_chunk, return_write, run}
use agbridge.Daemon.Stall.{Stalled, return-stalls}
use agbridge.Daemon.Access.{Unopened, Opened, run-Opened}
use agbridge.Relay.Desync.{Numbered, across-send_failed}
use agbridge.Relay.Upstream.{across, accepted, Unbroken, across-eq-accepted}
use agbridge.Tests.Fixtures.{repeat, toy_hmac, length-toy_hmac}

abbrev unsealed : ℕ → Bytes → Option (Bytes × ℕ)
unsealed c [] = none
unsealed c (x ∷ m) = if x == c then some (m, suc c) else none

abbrev counted : Noise
counted = record {
  CipherState = ℕ;
  encrypt = λ c ad m. some (c ∷ m, suc c);
  decrypt = λ c ad ct. unsealed c ct;
  HandshakeState = Bytes;
  start = λ initiator random prologue key remote. some key.public;
  write_message = λ hs. some (hs, some (0, 0), hs);
  read_message = λ hs msg. some (none, msg);
  peer_static = λ hs. hs;
}

unsealed-head : (c : ℕ) (m : Bytes) → unsealed c (c ∷ m) ≡ some (m, suc c)
unsealed-head c m = ground arith

abbrev counted_lockstep : Lockstep counted
counted_lockstep = record {
  Paired = λ s r. s ≡ r;
  decrypts = λ s r s' ad m ct same e. (
    suc r,
    subst (λ (b : Bytes). unsealed r b ≡ some (m, suc r))
        (ap (λ (k : ℕ). k ∷ m) (sym same) ∙ ap (λ (x : Bytes × ℕ). x.0) (some-injective _ _ e))
        (unsealed-head r m),
    sym (ap (λ (x : Bytes × ℕ). x.1) (some-injective _ _ e)) ∙ ap suc same,
  );
}

abbrev bridge_end : Router counted
bridge_end = record {
  api_key = codes "key";
  conn = some 2;
  session = some (record { send = 0; recv = 0 });
  session_id = repeat 8 7;
  pending = Maps.empty;
  evicted = false;
}

abbrev deps : Deps
deps = record {
  noise_key = record { private = []; public = codes "daemon" };
  allowed_pubs = codes "bridge" ∷ [];
  prologue = [];
  mode = required;
}

abbrev daemon_end : Channel counted
daemon_end = record {
  e2e = some deps;
  session = some (record { send = 0; recv = 0 });
  session_id = repeat 8 7;
}

abbrev ping : Frame
ping = record { type = FrameType.ping; req_id = codes "1"; payload = [] }

abbrev exec : Frame
exec = record { type = FrameType.exec_request; req_id = codes "2"; payload = codes "ls" }

ping-Fits : Fits ping
ping-Fits = record { req_id = omega arith; payload = omega arith }

exec-Fits : Fits exec
exec-Fits = record { req_id = omega arith; payload = omega arith }

abbrev two_sends : List (Bool × Frame)
two_sends = (true, ping) ∷ (true, exec) ∷ []

two_taken : Unbroken counted toy_hmac bridge_end two_sends
unfolding send_inner agbridge.Proto.encode repeat agbridge.Client.Router.route_payload
    agbridge.E2e.encrypt agbridge.Auth.sign_frame
two_taken = (refl, (refl, tt))

across-eq-accepted_example :
    across counted toy_hmac bridge_end daemon_end two_sends
    ≡ accepted counted toy_hmac bridge_end two_sends
unfolding repeat
across-eq-accepted_example =
    across-eq-accepted counted counted_lockstep toy_hmac length-toy_hmac 2 two_sends bridge_end
      daemon_end (ping-Fits, (exec-Fits, tt)) refl ((refl, refl, refl), λ gone. cc) two_taken

abbrev no_codec : Codec
no_codec = record {
  decode_file_chunk = λ b. none;
  decode_stream_open = λ b. none;
  decode_stream_data = λ b. none;
}

abbrev fresh_daemon : Daemon counted
fresh_daemon = record {
  channel = record { e2e = some deps; session = none; session_id = [] };
  loop = ready;
  writes = Maps.empty;
  write_slots = Maps.empty;
  streams = Maps.empty;
  stream_slots = Maps.empty;
  next_slot = 0;
  tasks = [];
  sent = [];
}

-- A first message from a peer that is not admitted, then a request in plain text.
abbrev intrusion : List Move
intrusion =
    arrives [] (record {
      type = FrameType.noise_init;
      req_id = codes "0000000000000000";
      payload = codes "eve";
    })
    ∷ arrives [] (record { type = FrameType.route; req_id = []; payload = codes "ls" })
    ∷ []

run-Opened_example :
    Unopened counted deps (run counted no_codec fresh_daemon intrusion)
    ⊎ Opened counted deps refl no_codec intrusion
run-Opened_example =
    run-Opened counted deps refl no_codec fresh_daemon intrusion
      (record { deps_there = refl; closed = refl; idle = refl })

abbrev last_chunk : FileChunk
last_chunk = record { bytes = codes "x"; eof = true }

abbrev full_slot : Slot FileChunk
full_slot = record {
  inbound =
      last_chunk ∷ last_chunk ∷ last_chunk ∷ last_chunk ∷ last_chunk ∷ last_chunk ∷ last_chunk
      ∷ last_chunk ∷ [];
  cancelled = false;
  running = true;
}

abbrev crowded_daemon : Daemon counted
crowded_daemon = record fresh_daemon {
  loop = sending_chunk 0 last_chunk;
  writes = Maps.put Maps.empty (codes "1") 0;
  write_slots = Maps.put Maps.empty 0 full_slot;
  next_slot = 1;
}

return-stalls_example : Stalled counted no_codec 0 last_chunk (
    run counted no_codec crowded_daemon
      (return_write (codes "1") 0 ∷ take_chunk 0 ∷ push ∷ arrives [] ping ∷ []))
unfolding Maps.get agbridge.Prelude.Maps.Assoc.lookup Maps.put
return-stalls_example =
    return-stalls counted no_codec 0 last_chunk crowded_daemon (codes "1") full_slot
      (take_chunk 0 ∷ push ∷ arrives [] ping ∷ []) refl refl (omega arith)

ahead-unsealed : (r s : ℕ) (m : Bytes) → r < s → unsealed r (s ∷ m) ≡ none
ahead-unsealed r s m h = ground (arith, h)

abbrev counted_numbers : Numbered counted counted_lockstep
counted_numbers = record {
  Ahead = λ s r. r < s;
  skips = λ s r s' ad m ct same e.
      let next : suc s ≡ s' = ap (λ (x : Bytes × ℕ). x.1) (some-injective _ _ e) in
      omega (arith, next, same);
  refuses = λ s r s' ad m ct ahead e.
      let next : suc s ≡ s' = ap (λ (x : Bytes × ℕ). x.1) (some-injective _ _ e) in
      let text : s ∷ m ≡ ct = ap (λ (x : Bytes × ℕ). x.0) (some-injective _ _ e) in
      (
        subst (λ (b : Bytes). unsealed r b ≡ none) text (ahead-unsealed r s m ahead),
        omega (arith, next, ahead),
      );
}

across-send_failed_example :
    across counted toy_hmac
      (send_inner counted toy_hmac bridge_end false ping).1
      daemon_end
      ((true, exec) ∷ [])
    ≡ []
unfolding send_inner agbridge.Proto.encode repeat agbridge.Client.Router.route_payload
    agbridge.E2e.encrypt agbridge.Auth.sign_frame
across-send_failed_example =
    across-send_failed counted counted_lockstep counted_numbers toy_hmac length-toy_hmac bridge_end
      daemon_end ping ((true, exec) ∷ []) ping-Fits (exec-Fits, tt)
      (record {
        near = record { send = 0; recv = 0 };
        far = record { send = 0; recv = 0 };
        here = refl;
        there = refl;
        states = refl;
        same = refl;
        width = refl;
      })
      refl
