-- ===== src/Crc32.antt =====
-- crc32.c: the CRC-32 table, the checksum of a buffer, and the functions that store it behind the
-- bytes that it covers. A buffer is the list of its `size` bytes; the table is the static array
-- `crc32_table`, which starts as zeros.
pub mod Residue
mod Tests
use openwrt_helloworld.Prelude.{
  ℕ, zero, suc, ◌+◌, ◌-◌, ◌/◌, ◌*◌, ◌%◌, ◌^◌, Bool, true, false, List, [], ◌∷◌, ◌++◌, Option, none,
  some, bit_and, bit_xor, ltb, leb, ◌==◌, if◌then◌else◌, length, get_or, take, drop,
}
use openwrt_helloworld.Prelude.Words.{u8, u32, ◌>>>◌}

-- The body of the inner loop.
pub table_round : ℕ → ℕ
table_round c = if bit_and c 1 == 0 then c >>> 1 else bit_xor 0xedb88320 (c >>> 1)

pub table_rounds : ℕ → ℕ → ℕ
table_rounds zero c = c
table_rounds (suc j) c = table_rounds j (table_round c)

-- `crc32_table[i]` for `left` values of `i` on.
pub table_from : ℕ → ℕ → List ℕ
table_from zero i = []
table_from (suc left) i = table_rounds 8 i ∷ table_from left (i + 1)

unfoldable pub init_crc32_table : List ℕ → List ℕ
unfolding table_from table_rounds table_round
init_crc32_table table = if get_or table 0 0 == 0 then table_from 256 0 else table

-- One round of the loops over a buffer.
unfoldable pub crc_step : List ℕ → ℕ → ℕ → ℕ
crc_step table crc b = bit_xor (get_or table (bit_and (bit_xor crc b) 0xff) 0) (crc >>> 8)

unfoldable pub crc_loop : List ℕ → ℕ → List ℕ → ℕ
crc_loop table crc [] = crc
crc_loop table crc (b ∷ buffer) = crc_loop table (crc_step table crc b) buffer

unfoldable pub crc32 : List ℕ → List ℕ → ℕ
crc32 table buffer = bit_xor (crc_loop table 0xffffffff buffer) 0xffffffff

-- A 32-bit number as four bytes, the lowest first.
abbrev pub le32 : ℕ → List ℕ
le32 c = u8 c ∷ u8 (c >>> 8) ∷ u8 (c >>> 16) ∷ u8 (c >>> 24) ∷ []

-- The four bytes that are written to `outbuffer`.
unfoldable pub fillcrc32to : List ℕ → List ℕ → List ℕ
fillcrc32to table buffer = le32 (bit_xor (crc_loop table 0xffffffff buffer) 0xffffffff)

-- The last four bytes of the buffer are overwritten, by the register as it is. With less than four
-- bytes `size -= 4` wraps and the loop leaves the buffer, which is `none`.
unfoldable pub fillcrc32 : List ℕ → List ℕ → Option (List ℕ)
fillcrc32 table buffer =
    let body = take (length buffer - 4) buffer in
    if ltb (length buffer) 4 then none else some (body ++ le32 (crc_loop table 0xffffffff body))

-- `adler32_short`: `uint32_t` sums with one remainder at the end.
pub adler32_sums : List ℕ → ℕ → ℕ → ℕ × ℕ
adler32_sums [] a b = (a, b)
adler32_sums (x ∷ buffer) a b = let a' = u32 (a + x) in adler32_sums buffer a' (u32 (b + a'))

pub adler32_short : List ℕ → ℕ × ℕ → ℕ × ℕ
adler32_short buffer (a, b) = let (a', b') = adler32_sums buffer a b in (a' % 65521, b' % 65521)

abbrev pub nmax : ℕ
nmax = 5552

-- The `while` loop; every round takes `nmax` bytes, so one unit of fuel for each byte is enough.
pub adler32_blocks : ℕ → List ℕ → ℕ × ℕ → ℕ × ℕ
adler32_blocks zero buffer ab = adler32_short buffer ab
adler32_blocks (suc fuel) buffer ab = elim (leb nmax (length buffer)) [
  | true ↦ adler32_blocks fuel (drop nmax buffer) (adler32_short (take nmax buffer) ab)
  | false ↦ adler32_short buffer ab
]

pub adler32 : List ℕ → ℕ
adler32 buffer =
    let (a, b) = adler32_blocks (length buffer) buffer (1, 0) in u32 (u32 (b * 2 ^ 16) + a)

pub filladler32 : List ℕ → Option (List ℕ)
filladler32 buffer =
    let body = take (length buffer - 4) buffer in
    if ltb (length buffer) 4 then none else some (body ++ le32 (adler32 body))

-- The four bytes are joined by shifts and `|`, which do not overlap.
pub read_le32 : List ℕ → ℕ
read_le32 tail =
    get_or tail 3 0 * 2 ^ 24 + get_or tail 2 0 * 2 ^ 16 + get_or tail 1 0 * 2 ^ 8 + get_or tail 0 0

pub checkadler32 : List ℕ → Option Bool
checkadler32 buffer =
    let size = length buffer - 4 in
    if ltb (length buffer) 4
    then none
    else some (adler32 (take size buffer) == read_le32 (drop size buffer))
