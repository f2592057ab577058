-- ===== src/HeadSize.antt =====
-- obfsutil.c: the size of the header at the head of the data of a stream.
pub mod Header
mod Tests
use openwrt_helloworld.Prelude.{
  ℕ, Bool, not, ◌||◌, ◌+◌, ◌-◌, bit_and, List, Option, none, some, ◌==◌, leb, ltb, if◌then◌else◌,
  get_or, length,
}

-- An int, of either sign.
pub data ℤ : Type 0 where
  pos negsuc : ℕ → ℤ

unfoldable pub sub_int : ℕ → ℕ → ℤ
sub_int m n = if leb n m then pos (m - n) else negsuc (n - m - 1)

-- The sum with a byte that is read as a char. `char_signed` says whether `char` is signed.
unfoldable pub plus_char : Bool → ℕ → ℕ → ℤ
plus_char char_signed n byte =
    if not char_signed || ltb byte 128 then pos (n + byte) else sub_int (n + byte) 256

-- `plaindata` is the memory of `size` bytes, `none` for NULL.
unfoldable pub get_head_size : Bool → Option (List ℕ) → ℤ → ℤ
get_head_size char_signed none def_size = def_size
get_head_size char_signed (some plaindata) def_size =
    if ltb (length plaindata) 2
    then def_size
    else if bit_and (get_or plaindata 0 0) 0x7 == 1
    then pos 7
    else if bit_and (get_or plaindata 0 0) 0x7 == 4
    then pos 19
    else if bit_and (get_or plaindata 0 0) 0x7 == 3
    then plus_char char_signed 4 (get_or plaindata 1 0)
    else def_size
