-- ===== src/Files.antt =====
-- The file system as the tools and the state store use it: regular files by path, the calls of
-- package os that change them, and path/filepath's Dir is left to the caller.
pub mod Swap
use agbridge.Prelude.{
  ℕ, ◌+◌, ◌*◌, ◌/◌, ◌%◌, Bool, if◌then◌else◌, [], Bytes, bytes_eq, Option, none, some, ◌++◌,
}
use agbridge.Prelude.Maps

pub record File : Type 0 where
  pub content : Bytes
  pub mode : ℕ

abbrev pub Files : Type 0
Files = Maps.Map Bytes File

abbrev pub changed : (File → File) → Files → Bytes → Option File → Files
changed f fs path none = fs
changed f fs path (some file) = Maps.put fs path (f file)

-- os.CreateTemp: an empty file with mode 0600, under the name that the system chose.
unfoldable pub create_temp : Files → Bytes → Files
create_temp fs name = Maps.put fs name (record { content = []; mode = 384 })

-- File.Write at the end of the file
unfoldable pub append : Files → Bytes → Bytes → Files
append fs path b = changed (λ f. record f { content = f.content ++ b }) fs path (Maps.get fs path)

abbrev bit : ℕ → ℕ → ℕ
bit mode weight = (mode / weight) % 2

-- What the system is asked for by an os.FileMode: the permissions, and the bits that Go has for setuid,
-- setgid and sticky, which are not where the system has them. All others are dropped.
unfoldable pub syscall_mode : ℕ → ℕ
syscall_mode mode =
    mode % 512 + (2048 * bit mode 8388608 + (1024 * bit mode 4194304 + 512 * bit mode 1048576))

-- os.Chmod
unfoldable pub chmod : Files → Bytes → ℕ → Files
chmod fs path mode = changed (λ f. record f { mode = syscall_mode mode }) fs path (Maps.get fs path)

-- os.Remove, whose error no caller looks at, and whether it works
unfoldable pub unlink : (works : Bool) → Files → Bytes → Files
unlink works fs path = if works then Maps.remove fs path else fs

abbrev pub moved : Files → Bytes → Bytes → Option File → Files
moved fs from to none = fs
moved fs from to (some file) = Maps.put (Maps.remove fs from) to file

-- os.Rename, which replaces what stood at the new path.
unfoldable pub rename : Files → Bytes → Bytes → Files
rename fs from to = moved fs from to (Maps.get fs from)
