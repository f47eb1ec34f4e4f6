-- ===== src/Util/Utf8.antt =====
-- include/util/utf8.h: cutting a string on a character boundary.
pub mod Boundary
use ragger_cpp.Prelude.{
  Bool, Bytes, bit_and, get_or, if◌then◌else◌, leb, length, suc, take, true, zero, ℕ, ◌&&◌, ◌+◌,
  ◌-◌, ◌==◌,
}

-- `(b & 0xC0) == 0x80`
unfoldable pub is_continuation : ℕ → Bool
is_continuation b = bit_and b 0xC0 == 0x80

-- `s[i]`; the code reads in bounds only.
abbrev pub byte_at : Bytes → ℕ → ℕ
byte_at s i = get_or s i 0

-- `while (i > 0 && (s[i] & 0xC0) == 0x80) --i;`
pub walk_back : Bytes → ℕ → ℕ
walk_back s zero = zero
walk_back s (suc i) =
    let rest = walk_back s i in if is_continuation (byte_at s (suc i)) then rest else suc i

-- The length that a lead byte announces, 0 if it announces none.
unfoldable pub sequence_need : ℕ → ℕ
sequence_need lead =
    if bit_and lead 0xE0 == 0xC0
    then 2
    else if bit_and lead 0xF0 == 0xE0
    then 3
    else if bit_and lead 0xF8 == 0xF0
    then 4
    else 0

-- `for (k = from; k < from + n; ++k)`: are all of `s[i + k]` continuation bytes?
pub all_continuation : Bytes → ℕ → ℕ → Bool
all_continuation s j zero = true
all_continuation s j (suc n) = is_continuation (byte_at s j) && all_continuation s (j + 1) n

-- The cut for a sequence that starts at `i`, before `max_bytes`.
pub sequence_cut : Bytes → ℕ → ℕ → ℕ
sequence_cut s i max_bytes =
    let need = sequence_need (byte_at s i) in
    if leb 2 need && leb (i + need) max_bytes
    then if all_continuation s (i + 1) (need - 1) then i + need else i
    else i

-- The number of bytes kept.
pub safe_cut : Bytes → ℕ → ℕ
safe_cut s max_bytes =
    let i = walk_back s max_bytes in if i == max_bytes then i else sequence_cut s i max_bytes

unfoldable pub utf8_safe_prefix : Bytes → ℕ → Bytes
utf8_safe_prefix s max_bytes = if leb (length s) max_bytes then s else take (safe_cut s max_bytes) s
