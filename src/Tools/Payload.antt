-- ===== src/Tools/Payload.antt =====
-- internal/fileproto/fileproto.go: the requests and answers of the file tools.
use agbridge.Prelude.{ℕ, ℤ, [], Bytes, Bool}

pub record FileReadRequest : Type 0 where
  pub path : Bytes
  pub max_size : ℤ
  pub offset : ℤ
  pub limit : ℤ

pub record FileWriteRequest : Type 0 where
  pub path : Bytes
  pub mode : ℕ

pub record FileEditRequest : Type 0 where
  pub path : Bytes
  pub old_string : Bytes
  pub new_string : Bytes
  pub replace_all : Bool

pub record UploadRequest : Type 0 where
  pub dest_path : Bytes
  pub mode : ℕ
  pub source : Bytes
  pub url : Bytes
  pub expected_size : ℤ
  pub expected_sha256 : Bytes

pub record DownloadRequest : Type 0 where
  pub src_path : Bytes
  pub offset : ℤ
  pub limit : ℤ

pub record FileChunk : Type 0 where
  pub bytes : Bytes
  pub eof : Bool

pub record FileComplete : Type 0 where
  pub size : ℕ
  pub sha256 : Bytes
  pub err : Bytes
  pub err_detail : Bytes
  pub backup_path : Bytes

-- FileComplete with nothing set, and with only some fields set.
abbrev pub zero_complete : FileComplete
zero_complete = record { size = 0; sha256 = []; err = []; err_detail = []; backup_path = [] }

abbrev pub failed : ℕ → Bytes → Bytes → FileComplete
failed size err detail = record zero_complete { size = size; err = err; err_detail = detail }
