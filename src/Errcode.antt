-- ===== src/Errcode.antt =====
-- internal/errcode/errcode.go: the payloads of Error frames, and the classes of error codes. JSON is
-- an argument.
pub mod Payload
use agbridge.Prelude.{
  ℕ, ◌≡◌, List, [], ◌∷◌, Bytes, bytes_eq, nat_eq, codes, ◌==◌, not, ◌&&◌, ◌||◌, if◌then◌else◌, Bool,
  true, false, Option, none, some,
}

pub record Error : Type 0 where
  pub code : Bytes
  pub message : Bytes

pub record FramePayload : Type 0 where
  pub code : Bytes
  pub detail : Bytes

pub record Meta : Type 0 where
  pub error_code : Bytes
  pub category : Bytes
  pub retryable : Bool
  pub retry_after_ms : ℕ
  pub message : Bytes

unfoldable pub encode_frame_payload : (FramePayload → Bytes) → (code detail : Bytes) → Bytes
encode_frame_payload marshal code detail = marshal (record { code = code; detail = detail })

-- The code and the detail of a payload that is parsed, or else the payload itself as the code.
abbrev pub parsed_or : Bytes → Option FramePayload → Bytes × Bytes
parsed_or b none = (b, [])
parsed_or b (some p) = if not (p.code == []) then (p.code, p.detail) else (b, [])

unfoldable pub decode_frame_payload : (Bytes → Option FramePayload) → Bytes → Bytes × Bytes
decode_frame_payload unmarshal [] = (codes "unknown", [])
decode_frame_payload unmarshal (c ∷ b) =
    if c == b'{' then parsed_or (c ∷ b) (unmarshal (c ∷ b)) else (c ∷ b, [])

abbrev pub one_of : Bytes → List Bytes → Bool
one_of code [] = false
one_of code (c ∷ cs) = code == c || one_of code cs

abbrev pub network_codes : List Bytes
network_codes =
    codes "network_lost"
    ∷ codes "daemon_offline"
    ∷ codes "daemon_send_failed"
    ∷ codes "daemon_recv_failed"
    ∷ []

unfoldable pub classify : Bytes → Bytes × Bool
classify code =
    if one_of code (codes "auth_failed" ∷ codes "bad_mac" ∷ [])
    then (codes "auth", false)
    else if one_of code (
        codes "tool_forbidden"
        ∷ codes "path_forbidden"
        ∷ codes "port_forbidden"
        ∷ codes "daemon_not_allowed"
        ∷ [])
    then (codes "authz", false)
    else if one_of code network_codes
    then (codes "network", true)
    else if code == codes "exec_timeout"
    then (codes "exec", false)
    else if one_of code (codes "exec_failed" ∷ codes "spawn_failed" ∷ [])
    then (codes "exec", false)
    else if one_of code (codes "protocol_error" ∷ codes "bad_payload" ∷ [])
    then (codes "protocol", false)
    else (codes "unknown", false)

unfoldable pub to_mcp_meta : Error → Meta
to_mcp_meta e =
    let (category, retry) = classify e.code in
    record {
      error_code = e.code;
      category = category;
      retryable = retry;
      retry_after_ms = if retry then 1000 else 0;
      message = e.message;
    }
