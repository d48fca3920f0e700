-- ===== src/Tools/Buffer.antt =====
-- bgBuffer of internal/tools/bgexec.go: the last bytes that a background process wrote. The count
-- of bytes written stays far below 2^63, so it does not wrap.
pub mod Stream
pub mod Lines
use agbridge.Prelude.{
  ℕ, ◌+◌, ◌-◌, List, [], ◌∷◌, ◌++◌, Bytes, length, drop, Bool, true, false, ltb, leb, if◌then◌else◌,
  ◌==◌, nat_eq, ◌&&◌, ◌||◌, zero, suc,
}

pub record BgBuffer : Type 0 where
  pub retained : Bytes
  pub cap : ℕ
  pub written : ℕ

abbrev pub new_bg_buffer : ℕ → BgBuffer
new_bg_buffer cap = record { retained = []; cap = cap; written = 0 }

unfoldable pub write : BgBuffer → Bytes → BgBuffer
write b p =
    let appended = b.retained ++ p in
    record b {
      written = b.written + length p;
      retained =
          if ltb b.cap (length appended) then drop (length appended - b.cap) appended else appended;
    }

-- The offset that a client sends is signed.
pub data Offset : Type 0 where
  negative : Offset
  from : ℕ → Offset

abbrev pub before : Offset → ℕ → Bool
before negative start = true
before (from offset) start = ltb offset start

abbrev pub at_end : Offset → ℕ → Bool
at_end negative written = false
at_end (from offset) written = leb written offset

abbrev pub slice_start : Offset → ℕ → ℕ
slice_start negative start = 0
slice_start (from offset) start = if ltb offset start then 0 else offset - start

unfoldable pub since_offset : BgBuffer → Offset → Bytes × ℕ × Bool
since_offset b offset =
    if at_end offset b.written
    then ([], b.written, false)
    else let start = b.written - length b.retained in
      (drop (slice_start offset start) b.retained, b.written, before offset start)

abbrev pub is_newline : Bytes → Bool
is_newline [] = false
is_newline (x ∷ xs) = x == 10

-- The backward loop of `Tail`, with the bytes before the index left to scan.
unfoldable pub scan_back : Bytes → (n index count : ℕ) → Bytes
scan_back bs n zero count = bs
scan_back bs n (suc i) count =
    let here = is_newline (drop i bs) in
    let counted = if here then count + 1 else count in
    let rest = scan_back bs n i counted in if here && ltb n counted then drop (suc i) bs else rest

-- A number of lines that is not positive is 0 here.
unfoldable pub tail : BgBuffer → ℕ → Bytes × ℕ × Bool
tail b n = if (n == 0) || (length b.retained == 0) then ([], b.written, false) else (
  scan_back b.retained n (length b.retained) 0,
  b.written,
  ltb (length b.retained) b.written,
)
