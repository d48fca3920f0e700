-- ===== src/Client/Files.antt =====
-- internal/cliclient/handlers_file.go: ReadFileHandler and WriteFileHandler. encoding/json, base64, the
-- test for UTF-8, decimal numbers, the texts of errors and what arrives on the call's channel are
-- arguments. Reports of progress are left out.
pub mod Chunks
use agbridge.Prelude.{
  ℕ, zero, suc, ◌+◌, List, [], ◌∷◌, ◌++◌, Bytes, bytes_eq, nat_eq, codes, length, take, drop, ltb,
  leb, ◌==◌, not, if◌then◌else◌, Bool, true, false, Option, none, some, Result, ok, err, ◌>>=◌,
}
use agbridge.Proto.{Frame}
use agbridge.Proto.FrameType
use agbridge.Errcode
use agbridge.E2e.{Noise}
use agbridge.Tools.Payload.{FileReadRequest, FileWriteRequest, FileChunk, FileComplete}
use agbridge.Client.Router
use agbridge.Client.Router.{Router, send_inner, register_call, unregister_call, new_req_id}

pub record ClientCodec : Type 0 where
  pub encode_read : FileReadRequest → Bytes
  pub encode_write : FileWriteRequest → Bytes
  pub encode_chunk : FileChunk → Bytes
  pub decode_chunk : Bytes → Result Bytes FileChunk
  pub decode_complete : Bytes → Result Bytes FileComplete
  pub decode_base64 : Bytes → Result Bytes Bytes
  pub encode_base64 : Bytes → Bytes
  pub valid_utf8 : Bytes → Bool
  pub decimal : ℕ → Bytes

-- The context is cancelled, the call's channel is closed, or it gives a frame.
pub data Event : Type 0 where
  cancelled closed : Event
  received : Frame → Event

-- The result of a tool, or mcpErrorResult of an error; none while the channel is waited for.
abbrev pub Outcome : Type 0 → Type 0
Outcome R = Option (Result Errcode.Error R)

abbrev pub failure : {R : Type 0} → (code message : Bytes) → Outcome R
failure code message = some (err (record { code = code; message = message }))

-- 10 MiB
abbrev pub max_buffered_output : ℕ
max_buffered_output = 10485760

-- The error that a FileComplete carries, with its detail in brackets.
abbrev pub complete_failure : {R : Type 0} → (tool : Bytes) → FileComplete → Outcome R
complete_failure tool c = failure c.err (
    tool
    ++ (codes ": "
        ++ (if c.err_detail == []
            then c.err
            else c.err ++ (codes " (" ++ (c.err_detail ++ codes ")")))))

pub record ReadResult : Type 0 where
  pub text : Bytes
  pub size : ℕ
  pub sha256 : Bytes
  pub content_b64 : Option Bytes

pub record WriteResult : Type 0 where
  pub text : Bytes
  pub size : ℕ
  pub sha256 : Bytes

-- The arguments of write_file
pub record WriteFileArgs : Type 0 where
  pub path : Bytes
  pub content : Option Bytes
  pub content_b64 : Option Bytes
  pub mode : ℕ

abbrev pub write_chunk_size : ℕ
write_chunk_size = 65536

-- The loop over the content: a round for each chunk, so one for each byte is enough.
unfoldable pub chunks_from : (rounds : ℕ) → Bytes → List FileChunk
chunks_from zero b = []
chunks_from (suc n) b =
    let rest = chunks_from n (drop write_chunk_size b) in
    if length b == 0
    then []
    else record { bytes = take write_chunk_size b; eof = leb (length b) write_chunk_size } ∷ rest

unfoldable pub file_chunks : Bytes → List FileChunk
file_chunks b =
    if length b == 0 then record { bytes = []; eof = true } ∷ [] else chunks_from (length b) b

module _ (codec : ClientCodec) where
  -- buildReadFileResult
  unfoldable pub build_read_file_result : Bytes → FileComplete → Outcome ReadResult
  build_read_file_result content c =
      if not (c.err == [])
      then complete_failure (codes "read_file") c
      else if codec.valid_utf8 content
      then some
          (ok (record { text = content; size = c.size; sha256 = c.sha256; content_b64 = none }))
      else some (
          ok (record {
            text =
                codes "(binary "
                ++ (codec.decimal c.size ++ (codes " bytes, sha256=" ++ (c.sha256 ++ codes ")")));
            size = c.size;
            sha256 = c.sha256;
            content_b64 = some (codec.encode_base64 content);
          }))

  abbrev pub chunk_read :
      Bytes → (Bytes → Outcome ReadResult) → Result Bytes FileChunk → Outcome ReadResult
  chunk_read content more (err e) = failure (codes "bad_payload") e
  chunk_read content more (ok c) =
      if ltb max_buffered_output (length content + length c.bytes)
      then failure (codes "exceeds_max_size") (codes "file exceeds 10 MB cap")
      else more (content ++ c.bytes)

  abbrev pub read_completed : Bytes → Result Bytes FileComplete → Outcome ReadResult
  read_completed content (err e) = failure (codes "bad_payload") (codes "read_file: " ++ e)
  read_completed content (ok c) = build_read_file_result content c

  -- The loop of ReadFileHandler
  unfoldable pub read_loop : List Event → Bytes → Outcome ReadResult
  read_loop [] content = none
  read_loop (cancelled ∷ es) content = failure (codes "network_lost") (codes "context cancelled")
  read_loop (closed ∷ es) content = failure (codes "network_lost") (codes "connection reset")
  read_loop (received f ∷ es) content =
      let stray = read_loop es content in
      if f.type == FrameType.file_chunk
      then chunk_read content (read_loop es) (codec.decode_chunk f.payload)
      else if f.type == FrameType.file_complete
      then read_completed content (codec.decode_complete f.payload)
      else if f.type == FrameType.error
      then failure f.payload (codes "daemon error")
      else stray

  abbrev pub write_completed : Result Bytes FileComplete → Outcome WriteResult
  write_completed (err e) = failure (codes "bad_payload") (codes "write_file: " ++ e)
  write_completed (ok c) =
      if not (c.err == [])
      then complete_failure (codes "write_file") c
      else some (
          ok (record {
            text =
                codes "wrote "
                ++ (codec.decimal c.size ++ (codes " bytes (sha256=" ++ (c.sha256 ++ codes ")")));
            size = c.size;
            sha256 = c.sha256;
          }))

  -- The loop of WriteFileHandler, after everything is sent
  unfoldable pub write_loop : List Event → Outcome WriteResult
  write_loop [] = none
  write_loop (cancelled ∷ es) = failure (codes "network_lost") (codes "context cancelled")
  write_loop (closed ∷ es) = failure (codes "network_lost") (codes "connection reset")
  write_loop (received f ∷ es) =
      let stray = write_loop es in
      if f.type == FrameType.file_complete
      then write_completed (codec.decode_complete f.payload)
      else if f.type == FrameType.error
      then failure f.payload (codes "daemon error")
      else stray

  abbrev pub bad : {A : Type 0} → Bytes → Result Errcode.Error A
  bad message = err (record { code = codes "bad_payload"; message = message })

  abbrev pub decoded_content : Result Bytes Bytes → Result Errcode.Error Bytes
  decoded_content (err e) = bad (codes "content_b64: " ++ e)
  decoded_content (ok b) = ok b

  abbrev pub given_content : (content content_b64 : Option Bytes) → Result Errcode.Error Bytes
  given_content (some b) (some t) = bad (codes "only one of content / content_b64 may be set")
  given_content none none = bad (codes "content or content_b64 required")
  given_content (some b) none = ok b
  given_content none (some t) = decoded_content (codec.decode_base64 t)

  -- The content to write, by the checks of WriteFileHandler.
  unfoldable pub content_of :
      Result Bytes WriteFileArgs → Result Errcode.Error (WriteFileArgs × Bytes)
  content_of (err e) = bad e
  content_of (ok args) =
      if args.path == []
      then bad (codes "path is required")
      else given_content args.content args.content_b64 >>= λ b.
          if ltb max_buffered_output (length b)
          then err (record {
            code = codes "exceeds_max_size";
            message = codes "content exceeds 10 MB cap";
          })
          else ok (args, b)

  abbrev pub chunk_frame : Bytes → FileChunk → Frame
  chunk_frame id c = record {
    type = FrameType.file_chunk;
    req_id = id;
    payload = codec.encode_chunk c;
  }

  abbrev pub chunk_frames : Bytes → List FileChunk → List Frame
  chunk_frames id [] = []
  chunk_frames id (c ∷ cs) = chunk_frame id c ∷ chunk_frames id cs

  -- Everything that WriteFileHandler sends
  unfoldable pub write_frames : Bytes → WriteFileArgs → Bytes → List Frame
  write_frames id args b =
      record {
        type = FrameType.file_write_request;
        req_id = id;
        payload = codec.encode_write (record { path = args.path; mode = args.mode });
      }
      ∷ chunk_frames id (file_chunks b)
