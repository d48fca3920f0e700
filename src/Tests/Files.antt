-- ===== src/Tests/Files.antt =====
-- The file tools of internal/tools on a small file system.
use agbridge.Prelude.{
  ℕ, ◌≡◌, refl, zero, suc, pos, List, [], ◌∷◌, ◌++◌, Bytes, bytes_eq, bytes_beq, codes, length,
  arith, true, false, Option, none, some,
}
use agbridge.Prelude.Maps
use agbridge.Files.{Files, File}
use agbridge.Tools.Payload.{FileWriteRequest, FileEditRequest, FileReadRequest, UploadRequest}
use agbridge.Tools.Text.{count}
use agbridge.Tools.Transfer.{Pull, chunk, System, write_file, upload_chunks, upload_max_bytes}
use agbridge.Tools.Transfer.Atomic.{Swapped, write_file-Swapped}
use agbridge.Tools.Transfer.Upload.{Expected, upload_chunks-Swapped}
use agbridge.Tools.Edit
use agbridge.Tools.Edit.{match_lines, match_loop, next_match, edit_file, found}
use agbridge.Tools.Edit.Outcome.{Edited, edit_file-Edited}
use agbridge.Tools.ReadFile.{Round, gives, read_file, content, hard_cap}
use agbridge.Tools.ReadFile.Stream.{Sends, read_file-Sends}
use agbridge.Tools.ReadFile.Ending.{IsAnswer, read_file-IsAnswer}
use agbridge.Tests.Fixtures.{toy_sha256}

abbrev old_file : File
old_file = record { content = codes "one two one"; mode = 420 }

abbrev disk : Files
disk = Maps.put Maps.empty (codes "/a") old_file

abbrev system : System
system = record {
  mkdir_error = none;
  temp_name = codes "/t";
  temp_error = none;
  sync_error = none;
  close_error = none;
  chmod_works = true;
  rename_error = none;
  removes = true;
}

abbrev write_request : FileWriteRequest
write_request = record { path = codes "/a"; mode = 0 }

abbrev pulls : List Pull
pulls =
    chunk (record { bytes = codes "ab"; eof = false })
    ∷ chunk (record { bytes = codes "c"; eof = true })
    ∷ []

write_file-Swapped_example :
    Swapped toy_sha256 disk
      (codes "/t")
      true
      (codes "/a")
      10
      420
      (λ _. Unit {0})
      pulls
      (write_file toy_sha256 system write_request 10 pulls disk)
unfolding Maps.get agbridge.Prelude.Maps.Assoc.lookup Maps.put bytes_beq
    agbridge.Prelude.Maps.Assoc.without Maps.empty agbridge.Files.syscall_mode
write_file-Swapped_example = write_file-Swapped toy_sha256 system write_request 10 disk refl pulls

abbrev upload_request : UploadRequest
upload_request = record {
  dest_path = codes "/b";
  mode = 384;
  source = [];
  url = [];
  expected_size = pos 3;
  expected_sha256 = [];
}

upload_chunks-Swapped_example :
    Swapped toy_sha256 disk
      (codes "/t")
      true
      (codes "/b")
      upload_max_bytes
      384
      (Expected toy_sha256 (λ n. n ∷ []) system upload_request)
      pulls
      (upload_chunks toy_sha256 (λ n. n ∷ []) system upload_request pulls disk)
unfolding Maps.get agbridge.Prelude.Maps.Assoc.lookup Maps.put bytes_beq
    agbridge.Prelude.Maps.Assoc.without Maps.empty agbridge.Files.syscall_mode
upload_chunks-Swapped_example =
    upload_chunks-Swapped toy_sha256 (λ n. n ∷ []) system upload_request disk refl pulls

abbrev edit_system : Edit.System
edit_system = record {
  stat = found 11 420;
  open_works = true;
  contents = some (codes "one two one");
  cancelled = false;
  stamp = codes "7";
  backup_works = true;
  temp_works = true;
  temp_name = codes "/t";
  write_works = true;
  sync_works = true;
  close_works = true;
  chmod_works = true;
  rename_works = true;
  removes = λ name. true;
  siblings = (codes "/a.bak.1", some 1) ∷ [];
}

abbrev edit_request : FileEditRequest
edit_request = record {
  path = codes "/a";
  old_string = codes "two";
  new_string = codes "2";
  replace_all = false;
}

edit_file-Edited_example :
    Edited toy_sha256
      (λ n. n ∷ [])
      edit_system
      edit_request
      (codes "one two one")
      420
      disk
      (edit_file toy_sha256 (λ n. n ∷ []) edit_system edit_request 100 disk)
unfolding Maps.get agbridge.Prelude.Maps.Assoc.lookup Maps.put bytes_beq
    agbridge.Prelude.Maps.Assoc.without Maps.empty
edit_file-Edited_example =
    edit_file-Edited toy_sha256 (λ n. n ∷ []) edit_system edit_request disk 100
      (record { fresh = refl; beside = refl; siblings = (refl, tt) })

lines_found : match_lines (codes "a\nb\na") (codes "a") ≡ 1 ∷ 3 ∷ []
unfolding match_lines match_loop bytes_beq agbridge.Tools.Text.index agbridge.Tools.Text.count_from
lines_found = refl

abbrev read_request : FileReadRequest
read_request = record { path = codes "/a"; max_size = pos 0; offset = pos 2; limit = pos 3 }

abbrev rounds : List Round
rounds = gives 1 false ∷ gives 9 true ∷ gives 9 true ∷ gives 9 true ∷ gives 0 true ∷ []

read_file-Sends_example :
    Sends toy_sha256
      (hard_cap 100 (pos 0))
      3
      []
      (codes "cd")
      (read_file toy_sha256 read_request 100 rounds (content (codes "abcd")))
read_file-Sends_example = read_file-Sends toy_sha256 read_request 100 rounds (codes "abcd")

read_file-IsAnswer_example :
    IsAnswer (read_file toy_sha256 read_request 100 rounds (content (codes "abcd")))
read_file-IsAnswer_example =
    read_file-IsAnswer toy_sha256 read_request 100 rounds (codes "abcd") tt (omega arith)
