-- ===== src/Daemon/Handlers.antt =====
-- cmd/agbridge/daemon.go: handleRead, handleDownload, handleWrite, handleUpload and handleEdit, as the
-- frames that they send by `sendInner` while their context lives, and the files that they leave. The deferred removal of a write's
-- slot is a step of Daemon/Run. encoding/json, SHA-256, decimal numbers and what the system answers to the
-- tools are arguments.
use agbridge.Prelude.{
  ℕ, List, [], ◌∷◌, ◌++◌, Bytes, bytes_eq, codes, ◌==◌, if◌then◌else◌, Option, none, some, pos,
}
use agbridge.Proto.{Frame}
use agbridge.Proto.FrameType
use agbridge.Files.{Files}
use agbridge.Tools.Payload.{
  FileReadRequest, FileWriteRequest, FileEditRequest, UploadRequest, DownloadRequest, FileChunk,
  FileComplete, failed,
}
use agbridge.Tools.Transfer
use agbridge.Tools.Transfer.{
  Pull, Fetch, Returned, answer, context_error, pending, write_file, upload_chunks, upload_url,
  upload_max_bytes,
}
use agbridge.Tools.Edit
use agbridge.Tools.Edit.{edit_file}
use agbridge.Tools.ReadFile.{Round, Opened, Sent, read_file}

pub record FileCodec : Type 0 where
  pub decode_read : Bytes → Option FileReadRequest
  pub decode_write : Bytes → Option FileWriteRequest
  pub decode_edit : Bytes → Option FileEditRequest
  pub decode_upload : Bytes → Option UploadRequest
  pub decode_download : Bytes → Option DownloadRequest
  pub encode_chunk : FileChunk → Bytes
  pub encode_complete : FileComplete → Bytes

-- 10 MiB
abbrev pub max_file_bytes : ℕ
max_file_bytes = 10485760

-- The request by which ReadFile serves a download.
abbrev pub download_request : DownloadRequest → FileReadRequest
download_request req = record {
  path = req.src_path;
  max_size = pos 0;
  offset = req.offset;
  limit = req.limit;
}

module _ (codec : FileCodec) where
  abbrev pub chunk_frame : Bytes → FileChunk → Frame
  chunk_frame id c = record {
    type = FrameType.file_chunk;
    req_id = id;
    payload = codec.encode_chunk c;
  }

  -- emitFileComplete
  abbrev pub complete_frame : Bytes → FileComplete → Frame
  complete_frame id c = record {
    type = FrameType.file_complete;
    req_id = id;
    payload = codec.encode_complete c;
  }

  abbrev pub chunk_frames : Bytes → List FileChunk → List Frame
  chunk_frames id [] = []
  chunk_frames id (c ∷ cs) = chunk_frame id c ∷ chunk_frames id cs

  -- The answer of a tool. It returns an error only where its context has ended; the completion is then
  -- made of the zero value, and the connection's Send, under the same context, does not take it.
  abbrev pub completed : Bytes → Returned → List Frame
  completed id (answer c) = complete_frame id c ∷ []
  completed id context_error = []
  completed id pending = []

  abbrev pub streamed : Bytes → Sent → List Frame
  streamed id (cs, r) = chunk_frames id cs ++ completed id r

  abbrev pub bad_payload : Bytes → List Frame
  bad_payload id = complete_frame id (failed 0 (codes "bad_payload") []) ∷ []

  abbrev pub with_files : Bytes → Returned × Files → List Frame × Files
  with_files id (r, fs) = (completed id r, fs)

  module _ (sha256 : Bytes → Bytes) (decimal : ℕ → Bytes) where
    unfoldable pub handle_read : Frame → List Round → Opened → List Frame
    handle_read f rounds file = elim (codec.decode_read f.payload) [
      | none ↦ bad_payload f.req_id
      | some req ↦ streamed f.req_id (read_file sha256 req max_file_bytes rounds file)
    ]

    unfoldable pub handle_download : Frame → List Round → Opened → List Frame
    handle_download f rounds file = elim (codec.decode_download f.payload) [
      | none ↦ bad_payload f.req_id
      | some req ↦
          streamed f.req_id (read_file sha256 (download_request req) upload_max_bytes rounds file)
    ]

    unfoldable pub handle_write : Frame → Transfer.System → List Pull → Files → List Frame × Files
    handle_write f o pulls fs = elim (codec.decode_write f.payload) [
      | none ↦ (bad_payload f.req_id, fs)
      | some req ↦ with_files f.req_id (write_file sha256 o req max_file_bytes pulls fs)
    ]

    abbrev pub uploaded :
        UploadRequest → Transfer.System → List Pull → Fetch → Files → Returned × Files
    uploaded req o pulls fetch fs =
        if req.source == codes "chunks"
        then upload_chunks sha256 decimal o req pulls fs
        else if req.source == codes "url"
        then upload_url sha256 decimal o req fetch fs
        else (
          answer (
              failed 0 (codes "bad_payload")
                (codes "source must be 'chunks' or 'url', got " ++ req.source)),
          fs,
        )

    unfoldable pub handle_upload :
        Frame → Transfer.System → List Pull → Fetch → Files → List Frame × Files
    handle_upload f o pulls fetch fs = elim (codec.decode_upload f.payload) [
      | none ↦ (bad_payload f.req_id, fs)
      | some req ↦ with_files f.req_id (uploaded req o pulls fetch fs)
    ]

    unfoldable pub handle_edit : Frame → Edit.System → Files → List Frame × Files
    handle_edit f o fs = elim (codec.decode_edit f.payload) [
      | none ↦ (bad_payload f.req_id, fs)
      | some req ↦ with_files f.req_id (edit_file sha256 decimal o req max_file_bytes fs)
    ]
