-- ===== src/Tests/Fixtures.antt =====
-- Inputs for the tests of internal/: frames, digests, a configuration and a schedule.
use agbridge.Prelude.{
  ℕ, zero, suc, ◌+◌, ◌%◌, ◌≡◌, List, [], ◌∷◌, ◌++◌, Bytes, codes, length, All, arith, Bool, true,
  ltb, ◌&&◌,
}
use agbridge.Wire.{IsByte}
use agbridge.Proto.{Frame}
use agbridge.Proto.FrameType
use agbridge.Handshake.{Hello, wire}
use agbridge.Hex
use agbridge.Auth.{prefix}
use agbridge.Config.{AgentEntry, DaemonEntry, GatewayConfig}
use agbridge.Gateway.Sessions.{bridge, daemon}
use agbridge.Gateway.Server.Handlers.{received, proceeds}
use agbridge.Gateway.Server.{Move, accept, handler}

unfoldable pub repeat : ℕ → ℕ → Bytes
repeat zero x = []
repeat (suc n) x = x ∷ repeat n x

pub repeat-IsByte : (n x : ℕ) → IsByte x → All IsByte (repeat n x)
unfolding repeat
repeat-IsByte zero x h = tt
repeat-IsByte (suc n) x h = (h, repeat-IsByte n x h)

pub length-repeat : (n x : ℕ) → length (repeat n x) ≡ n
unfolding repeat
length-repeat zero x = omega arith
length-repeat (suc n) x = omega (arith, length-repeat n x)

-- A test that decides whether all are bytes.
abbrev pub all_bytes : Bytes → Bool
all_bytes [] = true
all_bytes (x ∷ xs) = ltb x 256 && all_bytes xs

pub all_bytes-IsByte : (xs : Bytes) → all_bytes xs ≡ true → All IsByte xs
all_bytes-IsByte [] h = tt
all_bytes-IsByte (x ∷ xs) h = (ground (arith, h), all_bytes-IsByte xs (ground (arith, h)))

-- Stand-ins of the right width.
abbrev pub toy_sha256 : Bytes → Bytes
toy_sha256 b = repeat 32 (length b % 256)

abbrev pub toy_hmac : Bytes → Bytes → Bytes
toy_hmac key b = repeat 32 ((length key + length b) % 256)

pub toy_sha256-IsByte : (b : Bytes) → All IsByte (toy_sha256 b)
toy_sha256-IsByte b = repeat-IsByte 32 (length b % 256) (omega arith)

pub length-toy_sha256 : (b : Bytes) → length (toy_sha256 b) ≡ 32
length-toy_sha256 b = length-repeat 32 (length b % 256)

pub length-toy_hmac : (key b : Bytes) → length (toy_hmac key b) ≡ 32
length-toy_hmac key b = length-repeat 32 ((length key + length b) % 256)

abbrev pub search_frame : Frame
search_frame = record { type = FrameType.route; req_id = codes "r1"; payload = codes "find" }

abbrev pub daemon_hello : Hello
daemon_hello = record {
  role = daemon;
  name = codes "d";
  secret = codes "token";
  target_daemon = [];
}

abbrev pub bridge_hello : Hello
bridge_hello = record {
  role = bridge;
  name = codes "a";
  secret = codes "key";
  target_daemon = codes "d";
}

abbrev pub agent : AgentEntry
agent = record {
  name = codes "a";
  api_key_hash = prefix ++ Hex.encode (repeat 32 3);
  allowed_daemons = codes "d" ∷ [];
}

abbrev pub daemon_entry : DaemonEntry
daemon_entry = record { name = codes "d"; token_hash = prefix ++ Hex.encode (repeat 32 5) }

abbrev pub two_peers : GatewayConfig
two_peers = record {
  listen = codes ":443";
  public_url = [];
  audit_path = codes "/log";
  audit_max_bytes = 0;
  audit_max_backups = 0;
  agents = agent ∷ [];
  daemons = daemon_entry ∷ [];
}

abbrev pub hello_frame : Hello → Frame
hello_frame h = record { type = FrameType.hello; req_id = []; payload = wire h }

-- A route frame of the bridge: "ls", signed.
abbrev pub route_frame : Frame
route_frame = record { type = FrameType.route; req_id = []; payload = codes "ls" ++ repeat 32 5 }

-- Connection 1 is the daemon's, and gets into its loop.
abbrev pub daemon_joins : List Move
daemon_joins =
    accept 1
    ∷ handler 1 (received (hello_frame daemon_hello))
    ∷ handler 1 proceeds
    ∷ handler 1 proceeds
    ∷ handler 1 proceeds
    ∷ handler 1 proceeds
    ∷ []

-- A bridge on the connection `c`, up to its loop.
abbrev pub bridge_joins : ℕ → List Move
bridge_joins c =
    accept c
    ∷ handler c (received (hello_frame bridge_hello))
    ∷ handler c proceeds
    ∷ handler c proceeds
    ∷ handler c proceeds
    ∷ handler c proceeds
    ∷ handler c proceeds
    ∷ handler c proceeds
    ∷ []

-- Then the bridge on connection 2 sends a signed frame.
abbrev pub bridge_routes : List Move
bridge_routes = daemon_joins ++ bridge_joins 2 ++ handler 2 (received route_frame) ∷ []
