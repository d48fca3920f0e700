-- ===== src/Tools/Edit.antt =====
-- EditFile of internal/tools/editfile.go. What the system answers to its calls is an argument; a file
-- is read as it was at the call of Stat unless the arguments say otherwise.
pub mod Matches
pub mod Backups
pub mod Swapping
pub mod Outcome
use agbridge.Prelude.{
  ℕ, zero, suc, ◌+◌, ◌%◌, List, [], ◌∷◌, ◌++◌, Bytes, bytes_eq, nat_eq, codes, length, take, drop,
  ltb, leb, ◌==◌, not, ◌&&◌, if◌then◌else◌, Bool, true, false, Option, none, some,
}
use agbridge.Prelude.Maps
use agbridge.Hex
use agbridge.Files.{Files, create_temp, append, chmod, unlink, rename}
use agbridge.Tools.Payload.{FileEditRequest, FileComplete, zero_complete, failed}
use agbridge.Tools.Text.{index, count, replace, replace_all}
use agbridge.Tools.Transfer.{Returned, answer, context_error, discard}

abbrev pub newline : Bytes
newline = 10 ∷ []

-- The loop of matchLines: a round for each match, so one for each byte is enough.
abbrev pub next_match : Bytes → Bytes → ℕ → Option ℕ → (ℕ → List ℕ) → List ℕ
next_match body needle offset none rest = []
next_match body needle offset (some i) rest =
    (1 + count (take (offset + i) body) newline) ∷ rest (offset + i + length needle)

unfoldable pub match_loop : (rounds : ℕ) → Bytes → Bytes → ℕ → List ℕ
match_loop zero body needle offset = []
match_loop (suc n) body needle offset =
    if ltb offset (length body)
    then next_match body needle offset (index (drop offset body) needle) (match_loop n body needle)
    else []

unfoldable pub match_lines : Bytes → Bytes → List ℕ
match_lines body needle = if needle == [] then [] else match_loop (length body) body needle 0

-- joinInts
unfoldable pub join_ints : (ℕ → Bytes) → List ℕ → Bytes → Bytes
join_ints itoa [] sep = []
join_ints itoa (x ∷ []) sep = itoa x
join_ints itoa (x ∷ y ∷ xs) sep = itoa x ++ (sep ++ join_ints itoa (y ∷ xs) sep)

-- os.Stat: no such file, another error, or the size and the os.FileMode, of which `Perm` is taken
pub data Stat : Type 0 where
  missing : Stat
  unreadable : Stat
  found : (size mode : ℕ) → Stat

pub record System : Type 0 where
  pub stat : Stat
  pub open_works : Bool
  pub contents : Option Bytes
  pub cancelled : Bool
  pub stamp : Bytes
  pub backup_works : Bool
  pub temp_works : Bool
  pub temp_name : Bytes
  pub write_works : Bool
  pub sync_works : Bool
  pub close_works : Bool
  pub chmod_works : Bool
  pub rename_works : Bool
  pub removes : Bytes → Bool
  pub siblings : List (Bytes × Option ℕ)

-- The files of pruneOldBackups that Stat still finds, with their times of modification.
abbrev dated : List (Bytes × Option ℕ) → List (Bytes × ℕ)
dated [] = []
dated ((name, none) ∷ rest) = dated rest
dated ((name, some t) ∷ rest) = (name, t) ∷ dated rest

-- sort.Slice, the newest first
unfoldable pub insert_entry : Bytes × ℕ → List (Bytes × ℕ) → List (Bytes × ℕ)
insert_entry e [] = e ∷ []
insert_entry e (x ∷ xs) =
    let rest = insert_entry e xs in if ltb x.1 e.1 then e ∷ x ∷ xs else x ∷ rest

unfoldable pub newest_first : List (Bytes × ℕ) → List (Bytes × ℕ)
newest_first [] = []
newest_first (x ∷ xs) = insert_entry x (newest_first xs)

abbrev pub remove_each : (removes : Bytes → Bool) → Files → List (Bytes × ℕ) → Files
remove_each removes fs [] = fs
remove_each removes fs ((name, t) ∷ rest) = remove_each removes (unlink (removes name) fs name) rest

abbrev pub backup_retain_count : ℕ
backup_retain_count = 5

-- pruneOldBackups, on the names that Glob gives
unfoldable pub prune_old_backups :
    (removes : Bytes → Bool) → Files → List (Bytes × Option ℕ) → (keep : ℕ) → Files
unfolding newest_first insert_entry
prune_old_backups removes fs siblings keep =
    if (keep == 0)
    then fs
    else if leb (length siblings) keep
    then fs
    else remove_each removes fs (drop keep (newest_first (dated siblings)))

module _ (sha256 : Bytes → Bytes) (itoa : ℕ → Bytes) (o : System) (req : FileEditRequest) where
  abbrev pub ambiguous : Bytes → ℕ → FileComplete
  ambiguous body times = failed 0 (codes "ambiguous_match") (
      codes "old_string occurs "
      ++ (itoa times
          ++ (codes " times (at lines "
              ++ (join_ints itoa (match_lines body req.old_string) (codes ", ")
                  ++ codes
                      "); pass replace_all=true or extend old_string with surrounding context to make the match unique"))))

  -- The path of the backup, empty where there is none, and the files with it.
  abbrev pub backup_name : Bytes → Bytes
  backup_name body =
      req.path ++ (codes ".bak." ++ (o.stamp ++ (codes "." ++ Hex.encode (take 4 (sha256 body)))))

  abbrev pub backed_up : ℕ → Bytes → Files → Bytes × Files
  backed_up mode body fs =
      if ltb 0 (length body) && o.backup_works
      then (
        backup_name body,
        Maps.put fs (backup_name body) (record { content = body; mode = mode % 512 }),
      )
      else ([], fs)

  abbrev pub fail : Bytes → FileComplete
  fail code = failed 0 code []

  -- From the creation of the temporary file on.
  unfoldable pub swap_in : ℕ → Bytes → Bytes → Files → Returned × Files
  swap_in mode next backup fs =
      if not o.temp_works
      then (answer (fail (codes "tmp_create_failed")), fs)
      else let made = create_temp fs o.temp_name in
        let written = append made o.temp_name next in
        if not o.write_works
        then discard o.temp_name (o.removes o.temp_name) made (fail (codes "write_failed"))
        else if not o.sync_works
        then discard o.temp_name (o.removes o.temp_name) written (fail (codes "write_failed"))
        else if not o.close_works
        then discard o.temp_name (o.removes o.temp_name) written (fail (codes "close_failed"))
        else let moded =
            if o.chmod_works then chmod written o.temp_name (mode % 512) else written in
          if not o.rename_works
          then discard o.temp_name (o.removes o.temp_name) moded (fail (codes "rename_failed"))
          else (
            answer (record zero_complete {
              size = length next;
              sha256 = Hex.encode (sha256 next);
              backup_path = backup;
            }),
            prune_old_backups o.removes (rename moded o.temp_name req.path) o.siblings
                backup_retain_count,
          )

  abbrev pub edited : Bytes → Bytes
  edited body =
      if req.replace_all
      then replace_all body req.old_string req.new_string
      else replace body req.old_string req.new_string 1

  -- From the count of matches on.
  unfoldable pub edit_body : ℕ → Bytes → Files → Returned × Files
  edit_body mode body fs =
      let times = count body req.old_string in
      if times == 0
      then (answer (fail (codes "old_string_not_found")), fs)
      else if ltb 1 times && not req.replace_all
      then (answer (ambiguous body times), fs)
      else let (backup, fs') = backed_up mode body fs in swap_in mode (edited body) backup fs'

  abbrev pub with_contents : (max_bytes mode : ℕ) → Option Bytes → Files → Returned × Files
  with_contents max_bytes mode none fs = (answer (fail (codes "read_failed")), fs)
  with_contents max_bytes mode (some all) fs =
      let body = take (max_bytes + 1) all in
      if ltb max_bytes (length body)
      then (answer (failed (length body) (codes "exceeds_max_size") []), fs)
      else if o.cancelled
      then (context_error, fs)
      else edit_body mode body fs

  abbrev pub with_stat : (max_bytes : ℕ) → Stat → Files → Returned × Files
  with_stat max_bytes missing fs = (answer (fail (codes "not_found")), fs)
  with_stat max_bytes unreadable fs = (answer (fail (codes "open_failed")), fs)
  with_stat max_bytes (found size mode) fs =
      if ltb max_bytes size
      then (answer (failed size (codes "exceeds_max_size") []), fs)
      else if not o.open_works
      then (answer (fail (codes "open_failed")), fs)
      else with_contents max_bytes mode o.contents fs

  unfoldable pub edit_file : (max_bytes : ℕ) → Files → Returned × Files
  edit_file max_bytes fs =
      if req.old_string == []
      then (
        answer (
            failed 0 (codes "bad_payload")
              (codes "old_string must not be empty (would match every position)")),
        fs,
      )
      else with_stat max_bytes o.stat fs
