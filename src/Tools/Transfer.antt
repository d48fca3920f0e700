-- ===== src/Tools/Transfer.antt =====
-- WriteFile of internal/tools/writefile.go, and UploadChunks and UploadURL of upload.go: a file that
-- arrives in chunks is written beside its target and renamed into place.
-- What the system, the source of chunks and the server answer is an argument.
pub mod Atomic
pub mod Content
pub mod Upload
use agbridge.Prelude.{
  ℕ, ◌+◌, ℤ, pos_part, ◌≡◌, List, [], ◌∷◌, ◌++◌, Bytes, bytes_eq, nat_eq, codes, length, ltb, leb,
  ◌==◌, not, ◌&&◌, ◌||◌, Bool, true, false, if◌then◌else◌, Option, none, some, Result, ok, err,
  take,
}
use agbridge.Hex
use agbridge.Files.{Files, create_temp, append, chmod, unlink, rename}
use agbridge.Tools.Payload.{
  FileWriteRequest, UploadRequest, FileChunk, FileComplete, zero_complete, failed,
}

-- One round of the loop: the context was cancelled, the source failed, or it gave a chunk, which
-- the file took or not, with the error's text.
pub data Pull : Type 0 where
  cancelled : Pull
  source_failed : Bytes → Pull
  chunk : FileChunk → Pull
  unwritable : FileChunk → Bytes → Pull

-- Where the loop ends: with the files and all content, with an answer, with the context's error, or
-- still waiting for the source.
pub data Collected : Type 0 where
  complete : Files → Bytes → Collected
  stopped : Files → FileComplete → Collected
  interrupted : Files → Collected
  waiting : Files → Bytes → Collected

abbrev pub source_error : ℕ → Bytes → FileComplete
source_error total e = failed total (codes "source_error: " ++ e) []

-- The loops of WriteFile and UploadChunks over the temporary file. They differ in the details that
-- they report.
module _ (tmp : Bytes) (removes : Bool) (cap : ℕ) (cap_detail : Bytes)
    (write_detail : Bytes → Bytes) where
  unfoldable pub collect : List Pull → Files → Bytes → Collected
  collect [] fs content = waiting fs content
  collect (cancelled ∷ pulls) fs content = interrupted (unlink removes fs tmp)
  collect (source_failed e ∷ pulls) fs content =
      stopped (unlink removes fs tmp) (source_error (length content) e)
  collect (chunk c ∷ pulls) fs content =
      let written = append fs tmp c.bytes in
      let all = content ++ c.bytes in
      let more = collect pulls written all in
      if ltb 0 (length c.bytes) && ltb cap (length content + length c.bytes)
      then stopped (unlink removes fs tmp)
          (failed (length content) (codes "exceeds_max_size") cap_detail)
      else if c.eof
      then complete written all
      else more
  collect (unwritable c e ∷ pulls) fs content =
      let more = collect pulls fs content in
      if length c.bytes == 0
      then (if c.eof then complete fs content else more)
      else stopped (unlink removes fs tmp) (
          if ltb cap (length content + length c.bytes)
          then failed (length content) (codes "exceeds_max_size") cap_detail
          else failed (length content) (codes "write_failed") (write_detail e))

-- What a call returns: an answer, the context's error, or nothing while the source is waited for.
pub data Returned : Type 0 where
  answer : FileComplete → Returned
  context_error : Returned
  pending : Returned

-- The answers of the system to the calls; the errors with their texts. `removes` says whether the
-- temporary file can be removed.
pub record System : Type 0 where
  pub mkdir_error : Option Bytes
  pub temp_name : Bytes
  pub temp_error : Option Bytes
  pub sync_error : Option Bytes
  pub close_error : Option Bytes
  pub chmod_works : Bool
  pub rename_error : Option Bytes
  pub removes : Bool

-- An answer after which the temporary file is removed.
abbrev pub discard : (tmp : Bytes) (removes : Bool) → Files → FileComplete → Returned × Files
discard tmp removes fs c = (answer c, unlink removes fs tmp)

module _ (sha256 : Bytes → Bytes) where
  abbrev pub written_complete : Bytes → FileComplete
  written_complete content = record zero_complete {
    size = length content;
    sha256 = Hex.encode (sha256 content);
  }

  -- The last call of both tools, with its cleanup.
  abbrev pub rename_or :
      (detail : Bytes → Bytes)
      → Option Bytes
      → (tmp : Bytes) (removes : Bool) (path : Bytes) → Files
      → Bytes
      → Returned × Files
  rename_or detail none tmp removes path fs content =
      (answer (written_complete content), rename fs tmp path)
  rename_or detail (some e) tmp removes path fs content =
      (answer (failed (length content) (codes "rename_failed") (detail e)), unlink removes fs tmp)

  -- The end of WriteFile.
  unfoldable pub commit_write : System → FileWriteRequest → Files → Bytes → Returned × Files
  commit_write o req fs content = elim o.close_error [
    | some e ↦ discard o.temp_name o.removes fs (failed (length content) (codes "close_failed") [])
    | none ↦
        if not o.chmod_works
        then discard o.temp_name o.removes fs (failed (length content) (codes "chmod_failed") [])
        else rename_or (λ e. []) o.rename_error o.temp_name o.removes req.path
            (chmod fs o.temp_name (if req.mode == 0 then 420 else req.mode)) content
  ]

  abbrev pub after_write : System → FileWriteRequest → Collected → Returned × Files
  after_write o req (complete fs content) = commit_write o req fs content
  after_write o req (stopped fs c) = (answer c, fs)
  after_write o req (interrupted fs) = (context_error, fs)
  after_write o req (waiting fs content) = (pending, fs)

  unfoldable pub write_file : System → FileWriteRequest → ℕ → List Pull → Files → Returned × Files
  write_file o req max_bytes pulls fs = elim o.temp_error [
    | some e ↦ (answer (failed 0 (codes "tmp_create_failed") []), fs)
    | none ↦
        after_write o req (
          collect o.temp_name o.removes max_bytes [] (λ e. []) pulls (create_temp fs o.temp_name)
            [])
  ]

abbrev pub upload_max_bytes : ℕ
upload_max_bytes = 1073741824

abbrev pub moded : System → ℕ → Files → Files
moded o mode fs = if not (mode == 0) && o.chmod_works then chmod fs o.temp_name mode else fs

-- openUploadTemp, whose chmod may fail unnoticed: the files, or an error's text.
unfoldable pub open_upload_temp : System → ℕ → Files → Result Bytes Files
open_upload_temp o mode fs = elim o.mkdir_error [
  | some e ↦ err e
  | none ↦ elim o.temp_error [
    | some e ↦ err e
    | none ↦ ok (moded o mode (create_temp fs o.temp_name))
  ]
]

module _ (sha256 : Bytes → Bytes) (decimal : ℕ → Bytes) where
  -- finalizeUpload
  unfoldable pub finalize_upload : System → UploadRequest → Files → Bytes → Returned × Files
  finalize_upload o req fs content =
      let total = length content in
      let sum = Hex.encode (sha256 content) in
      let give_up = discard o.temp_name o.removes fs in
      elim o.sync_error [
        | some e ↦ give_up (failed total (codes "write_failed") e)
        | none ↦ elim o.close_error [
          | some e ↦ give_up (failed total (codes "close_failed") e)
          | none ↦
              if not (req.expected_sha256 == []) && not (sum == req.expected_sha256)
              then give_up (
                  failed total (codes "sha256_mismatch")
                    (codes "expected " ++ (req.expected_sha256 ++ (codes " got " ++ sum))))
              else if ltb 0 (pos_part req.expected_size)
                  && not (pos_part req.expected_size == total)
              then give_up (
                  failed total (codes "size_mismatch") (
                    codes "expected "
                    ++ (decimal (pos_part req.expected_size) ++ (codes " got " ++ decimal total))))
              else rename_or sha256 (λ e. e) o.rename_error o.temp_name o.removes req.dest_path
                  (moded o req.mode fs) content
        ]
      ]

  abbrev pub after_upload : System → UploadRequest → Collected → Returned × Files
  after_upload o req (complete fs content) = finalize_upload o req fs content
  after_upload o req (stopped fs c) = (answer c, fs)
  after_upload o req (interrupted fs) = (context_error, fs)
  after_upload o req (waiting fs content) = (pending, fs)

  abbrev pub upload_opened :
      System → UploadRequest → List Pull → Files → Result Bytes Files → Returned × Files
  upload_opened o req pulls fs (err e) = (answer (failed 0 (codes "tmp_create_failed") e), fs)
  upload_opened o req pulls fs (ok opened) = after_upload o req (
      collect o.temp_name o.removes upload_max_bytes
        (codes "upload cap is " ++ (decimal upload_max_bytes ++ codes " bytes")) (λ e. e) pulls
        opened [])

  unfoldable pub upload_chunks : System → UploadRequest → List Pull → Files → Returned × Files
  upload_chunks o req pulls fs = upload_opened o req pulls fs (open_upload_temp o req.mode fs)

-- What the server of a URL does: no request can be made, none is answered, or a status and a body,
-- whose transfer may fail after what is given of it.
pub data Fetch : Type 0 where
  invalid_url : Bytes → Fetch
  unanswered : Bytes → Fetch
  response : (status : ℕ) (body : Bytes) (copy_error : Option Bytes) → Fetch

module _ (sha256 : Bytes → Bytes) (decimal : ℕ → Bytes) where
  -- After `io.Copy` of at most one byte more than the cap; an error behind that byte is not met.
  abbrev pub copied : System → UploadRequest → Files → Bytes → Option Bytes → Returned × Files
  copied o req fs got (some e) =
      discard o.temp_name o.removes fs (failed (length got) (codes "fetch_failed") e)
  copied o req fs got none =
      if ltb upload_max_bytes (length got)
      then discard o.temp_name o.removes fs (
          failed (length got) (codes "exceeds_max_size")
            (codes "URL response > " ++ (decimal upload_max_bytes ++ codes " byte upload cap")))
      else finalize_upload sha256 decimal o req (append fs o.temp_name got) got

  abbrev pub url_opened :
      System → UploadRequest → Bytes → Option Bytes → Files → Result Bytes Files → Returned × Files
  url_opened o req got copy_error fs (err e) = (answer (failed 0 (codes "tmp_create_failed") e), fs)
  url_opened o req got copy_error fs (ok opened) = copied o req opened got copy_error

  abbrev pub fetched : System → UploadRequest → Files → Fetch → Returned × Files
  fetched o req fs (invalid_url e) =
      (answer (failed 0 (codes "bad_payload") (codes "invalid url: " ++ e)), fs)
  fetched o req fs (unanswered e) = (answer (failed 0 (codes "fetch_failed") e), fs)
  fetched o req fs (response status body copy_error) =
      if ltb status 200 || leb 300 status
      then (
        answer (
            failed 0 (codes "fetch_failed")
              (codes "HTTP " ++ (decimal status ++ codes " from upstream"))),
        fs,
      )
      else url_opened o req (take (upload_max_bytes + 1) body) copy_error fs
          (open_upload_temp o req.mode fs)

  unfoldable pub upload_url : System → UploadRequest → Fetch → Files → Returned × Files
  upload_url o req fetch fs =
      if req.url == []
      then (answer (failed 0 (codes "bad_payload") (codes "url is required when source=url")), fs)
      else fetched o req fs fetch
