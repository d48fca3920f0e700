-- ===== src/Tests/Through.antt =====
-- Requests through the handlers of bridge and daemon, with stand-ins for JSON: a chunk is its mark and its
-- bytes, and a completion its numbers, its lengths and its texts.
use agbridge.Prelude.{
  ℕ, ◌≡◌, refl, zero, suc, pos, List, [], ◌∷◌, ◌++◌, Bytes, bytes_eq, bytes_beq, codes, length,
  take, drop, take-append, drop-append, if◌then◌else◌, ◌==◌, nat_eq, arith, Bool, true, false,
  Option, none, some, Result, ok, err,
}
use agbridge.Prelude.Maps
use agbridge.Proto.{Frame}
use agbridge.Proto.FrameType
use agbridge.Files.Swap.{Holds}
use agbridge.Tools.Payload.{FileReadRequest, FileWriteRequest, FileChunk, FileComplete}
use agbridge.Tools.Transfer.{System, written_complete}
use agbridge.Tools.ReadFile.{Round, gives, content}
use agbridge.Client.Files.{ClientCodec, read_loop, file_chunks}
use agbridge.Client.Files.Chunks.{pulls_of}
use agbridge.Daemon.Handlers.{FileCodec, handle_write, handle_read, complete_frame}
use agbridge.Relay.Writing.{handle_write-file_chunks}
use agbridge.Relay.Reading.{Shows, events, read_loop-handle_read}
use agbridge.Tests.Fixtures.{toy_sha256}

abbrev encode_chunk : FileChunk → Bytes
encode_chunk c = (if c.eof then 1 else 0) ∷ c.bytes

abbrev decode_chunk : Bytes → Result Bytes FileChunk
decode_chunk [] = err []
decode_chunk (t ∷ b) = ok (record { bytes = b; eof = t == 1 })

abbrev encode_complete : FileComplete → Bytes
encode_complete c =
    c.size ∷ length c.sha256 ∷ length c.err ∷ length c.err_detail ∷ c.sha256
    ++ (c.err ++ (c.err_detail ++ c.backup_path))

abbrev decode_complete : Bytes → Result Bytes FileComplete
decode_complete (n ∷ i ∷ j ∷ k ∷ b) =
    let c = drop i b in
    let d = drop j c in
    ok (record {
      size = n;
      sha256 = take i b;
      err = take j c;
      err_detail = take k d;
      backup_path = drop k d;
    })
decode_complete _ = err []

chunk-decodes : (c : FileChunk) → decode_chunk (encode_chunk c) ≡ ok c
chunk-decodes c = ground arith

complete-decodes : (c : FileComplete) → decode_complete (encode_complete c) ≡ ok c
complete-decodes c =
    rw
      (
        take-append c.sha256 (c.err ++ (c.err_detail ++ c.backup_path)),
        drop-append c.sha256 (c.err ++ (c.err_detail ++ c.backup_path)),
        take-append c.err (c.err_detail ++ c.backup_path),
        drop-append c.err (c.err_detail ++ c.backup_path),
        take-append c.err_detail c.backup_path,
        drop-append c.err_detail c.backup_path,
      )
      refl

abbrev read_request : FileReadRequest
read_request = record { path = codes "/a"; max_size = pos 0; offset = pos 1; limit = pos 0 }

abbrev write_request : FileWriteRequest
write_request = record { path = codes "/b"; mode = 384 }

abbrev daemon_codec : FileCodec
daemon_codec = record {
  decode_read = λ b. some read_request;
  decode_write = λ b. some write_request;
  decode_edit = λ b. none;
  decode_upload = λ b. none;
  decode_download = λ b. none;
  encode_chunk = encode_chunk;
  encode_complete = encode_complete;
}

abbrev bridge_codec : ClientCodec
bridge_codec = record {
  encode_read = λ r. r.path;
  encode_write = λ r. r.path;
  encode_chunk = encode_chunk;
  decode_chunk = decode_chunk;
  decode_complete = decode_complete;
  decode_base64 = λ b. ok b;
  encode_base64 = λ b. b;
  valid_utf8 = λ b. true;
  decimal = λ n. n ∷ [];
}

abbrev system : System
system = record {
  mkdir_error = none;
  temp_name = codes "/t";
  temp_error = none;
  sync_error = none;
  close_error = none;
  chmod_works = true;
  rename_error = none;
  removes = true;
}

abbrev request : ℕ → Frame
request t = record { type = t; req_id = codes "7"; payload = [] }

abbrev rounds : List Round
rounds = gives 1 false ∷ gives 9 false ∷ gives 9 true ∷ gives 9 true ∷ gives 9 true ∷ []

handle_write-file_chunks_example :
    ((handle_write daemon_codec toy_sha256
        (λ n. n ∷ [])
        (request FrameType.file_write_request)
        system
        (pulls_of (file_chunks (codes "abc")))
        Maps.empty).0
      ≡ complete_frame daemon_codec (codes "7") (written_complete toy_sha256 (codes "abc")) ∷ [])
    × Holds Maps.empty
        (codes "/b")
        (record { content = codes "abc"; mode = 384 })
        (handle_write daemon_codec toy_sha256
          (λ n. n ∷ [])
          (request FrameType.file_write_request)
          system
          (pulls_of (file_chunks (codes "abc")))
          Maps.empty).1
unfolding Maps.get agbridge.Prelude.Maps.Assoc.lookup Maps.empty agbridge.Files.syscall_mode
handle_write-file_chunks_example =
    handle_write-file_chunks daemon_codec toy_sha256 (λ n. n ∷ []) system
      (record {
        makes = refl;
        opens = refl;
        syncs = refl;
        closes = refl;
        chmods = refl;
        renames = refl;
      })
      (request FrameType.file_write_request) write_request (codes "abc") Maps.empty refl
      (omega arith) refl

read_loop-handle_read_example : Shows toy_sha256 bridge_codec (codes "bcd") (
    read_loop bridge_codec
      (events (
        handle_read daemon_codec toy_sha256
          (λ n. n ∷ [])
          (request FrameType.file_read_request)
          rounds
          (content (codes "abcd"))))
      [])
read_loop-handle_read_example =
    read_loop-handle_read daemon_codec bridge_codec toy_sha256 (λ n. n ∷ [])
      (request FrameType.file_read_request) read_request rounds (codes "abcd")
      (record { chunks = chunk-decodes; completes = complete-decodes }) refl tt (omega arith)
