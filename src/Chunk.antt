-- ===== src/Chunk.antt =====
-- encrypt.c: the authentication of the chunks of a payload.
pub mod Stream
pub mod Memory
pub mod Round
pub mod Finish
pub mod Refine
pub mod RoundTrip
mod Tests
use openwrt_helloworld.Prelude.{
  ℕ, zero, suc, ◌+◌, ◌-◌, ◌*◌, ◌/◌, ◌%◌, ◌^◌, bit_or, bit_xor, Bool, true, false, List, [], ◌∷◌,
  ◌++◌, Option, none, some, leb, ltb, ◌==◌, if◌then◌else◌, get_elem?, get_or, length, take, drop,
  replicate,
}

-- CLEN_BYTES, ONETIMEAUTH_BYTES and AUTH_BYTES of encrypt.h.
abbrev pub clen_bytes : ℕ
clen_bytes = 2

abbrev pub onetimeauth_bytes : ℕ
onetimeauth_bytes = 10

abbrev pub auth_bytes : ℕ
auth_bytes = clen_bytes + onetimeauth_bytes

-- `chunk_t`; `buf` is the memory of its buffer.
pub record Chunk : Type 0 where
  pub idx : ℕ
  pub len : ℕ
  pub counter : ℕ
  pub buf : List ℕ

-- The bytes of a number in network order.
abbrev pub be16 : ℕ → List ℕ
be16 n = (n / 2 ^ 8 % 2 ^ 8) ∷ (n % 2 ^ 8) ∷ []

abbrev pub be32 : ℕ → List ℕ
be32 n = (n / 2 ^ 24 % 2 ^ 8) ∷ (n / 2 ^ 16 % 2 ^ 8) ∷ (n / 2 ^ 8 % 2 ^ 8) ∷ (n % 2 ^ 8) ∷ []

-- `ntohs` of the first two bytes.
unfoldable pub read_be16 : List ℕ → ℕ
read_be16 memory = get_or memory 0 0 * 2 ^ 8 + get_or memory 1 0

-- `ret` of `safe_memcmp` after its loop; the result is whether it is not 0.
unfoldable pub difference : ℕ → List ℕ → List ℕ → ℕ
difference ret [] ys = ret
difference ret (x ∷ xs) [] = ret
difference ret (x ∷ xs) (y ∷ ys) = difference (bit_or ret (bit_xor x y)) xs ys

unfoldable pub safe_memcmp : List ℕ → List ℕ → Bool
safe_memcmp s1 s2 = if difference 0 s1 s2 == 0 then false else true

-- The `n` bytes at `i`, and a write there; `none` is an access outside of the memory.
unfoldable pub bytes_at : List ℕ → ℕ → ℕ → Option (List ℕ)
bytes_at memory i n = if leb (i + n) (length memory) then some (take n (drop i memory)) else none

unfoldable pub write_at : List ℕ → ℕ → List ℕ → Option (List ℕ)
write_at memory i xs =
    if leb (i + length xs) (length memory)
    then some (take i memory ++ (xs ++ drop (i + length xs) memory))
    else none

infixl 5 ◌>>=◌
abbrev pub ◌>>=◌ {ℓ κ} : {A : Type ℓ} {B : Type κ} → Option A → (A → Option B) → Option B
none >>= f = none
some a >>= f = f a

-- `brealloc`: at least `len` and `capacity` bytes. `realloc` leaves any bytes behind the old ones:
-- `junk`.
unfoldable pub brealloc : ℕ → List ℕ → ℕ → ℕ → List ℕ
brealloc junk memory len capacity =
    let real_capacity = if ltb len capacity then capacity else len in
    memory ++ replicate (real_capacity - length memory) junk

-- The variables of the loop of `ss_check_hash`, with the two memories.
pub record Loop : Type 0 where
  pub array : List ℕ
  pub chunk_buf : List ℕ
  pub chunk_len : ℕ
  pub counter : ℕ
  pub cidx : ℕ
  pub j : ℕ
  pub k : ℕ

-- The function returns 0, or 1 with its buffers.
pub data Checked {ℓ} (A : Type ℓ) : Type ℓ where
  wrong_hash : Checked A
  passed : A → Checked A

-- The keyed hash (HMAC-SHA1), the IV, what `realloc` leaves in new memory, and BUF_SIZE.
pub record Settings : Type 0 where
  pub hmac : List ℕ → List ℕ → List ℕ
  pub iv : List ℕ
  pub junk : ℕ
  pub capacity : ℕ

-- The first bytes of the hash of a chunk.
unfoldable pub chunk_hash : Settings → ℕ → List ℕ → List ℕ
chunk_hash s counter bytes = take onetimeauth_bytes (s.hmac (s.iv ++ be32 counter) bytes)

-- The length of a chunk is known: `brealloc` of the chunk's buffer.
unfoldable pub read_len : Settings → Loop → Loop
read_len s l =
    if l.cidx == clen_bytes
    then record l {
      chunk_buf = brealloc s.junk l.chunk_buf (read_be16 l.chunk_buf + auth_bytes) s.capacity;
      chunk_len = read_be16 l.chunk_buf;
    }
    else l

-- `memmove` of the unread bytes behind the data, and `memcpy` of the data.
unfoldable pub move_data : List ℕ → ℕ → ℕ → ℕ → ℕ → List ℕ → Option (List ℕ)
move_data array j k rest chunk_len bytes = do
  unread ← bytes_at array k rest
  moved ← write_at array (j + chunk_len) unread
  write_at moved j bytes

-- A chunk is complete; `rest` is `blen - i - 1`.
unfoldable pub finish_chunk : Settings → ℕ → Loop → Option (Checked Loop)
finish_chunk s rest l = do
  bytes ← bytes_at l.chunk_buf auth_bytes l.chunk_len
  hash ← bytes_at l.chunk_buf clen_bytes onetimeauth_bytes
  if safe_memcmp (chunk_hash s l.counter bytes) hash then some wrong_hash else (do
    array ← move_data l.array l.j l.k rest l.chunk_len bytes
    some (
        passed (record l {
          array = array;
          j = l.j + l.chunk_len;
          k = l.j + l.chunk_len;
          cidx = 0;
          counter = (l.counter + 1) % 2 ^ 32;
        })))

-- The byte at `k` goes to the chunk's buffer.
unfoldable pub take_byte : Loop → Option Loop
take_byte l = do
  c ← get_elem? l.array l.k
  chunk_buf ← write_at l.chunk_buf l.cidx (c ∷ [])
  some (record l { chunk_buf = chunk_buf; cidx = l.cidx + 1; k = l.k + 1 })

unfoldable pub check_round : Settings → ℕ → Loop → Option (Checked Loop)
check_round s rest l = do
  taken ← take_byte l
  if (read_len s taken).cidx == (read_len s taken).chunk_len + auth_bytes
      then finish_chunk s rest (read_len s taken)
      else some (passed (read_len s taken))

-- The loop, with the number of rounds that are left.
unfoldable pub check_loop : Settings → ℕ → Loop → Option (Checked Loop)
check_loop s zero l = some (passed l)
check_loop s (suc rest) l = elim (check_round s rest l) [
  | none ↦ none
  | some wrong_hash ↦ some wrong_hash
  | some (passed l') ↦ check_loop s rest l'
]

-- The result: the buffer's memory, its `len`, and the chunk.
unfoldable pub check_result : Option (Checked Loop) → Option (Checked (List ℕ × ℕ × Chunk))
check_result none = none
check_result (some wrong_hash) = some wrong_hash
check_result (some (passed l)) = some (
    passed (
      l.array,
      l.j,
      record { idx = l.cidx; len = l.chunk_len; counter = l.counter; buf = l.chunk_buf },
    ))

-- The variables in front of the loop.
abbrev pub start_loop : Settings → List ℕ → ℕ → Chunk → Loop
start_loop s memory blen chunk = record {
  array = brealloc s.junk memory (chunk.len + blen) s.capacity;
  chunk_buf = brealloc s.junk chunk.buf (chunk.len + blen) s.capacity;
  chunk_len = chunk.len;
  counter = chunk.counter;
  cidx = chunk.idx;
  j = 0;
  k = 0;
}

-- `ss_check_hash`, on the memory of a buffer and its `len`.
unfoldable pub ss_check_hash : Settings → List ℕ → ℕ → Chunk → Option (Checked (List ℕ × ℕ × Chunk))
ss_check_hash s memory blen chunk =
    check_result (check_loop s blen (start_loop s memory blen chunk))

-- `ss_gen_hash`, on the bytes of a buffer: the chunk, and the next counter.
unfoldable pub ss_gen_hash : Settings → List ℕ → ℕ → List ℕ × ℕ
ss_gen_hash s bytes counter =
    (be16 (length bytes) ++ (chunk_hash s counter bytes ++ bytes), (counter + 1) % 2 ^ 32)
