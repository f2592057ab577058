-- ===== src/VerifySimple.antt =====
-- verify.c: the `verify_simple` protocol plugin, which cuts a stream into packets
-- (size, padding, data, CRC-32) and puts the packets of a stream together again.
pub mod Packet
pub mod RoundTrip
pub mod Safety
pub mod Attack
mod Tests
use openwrt_helloworld.Prelude.{
  ℕ, zero, suc, ◌+◌, ◌-◌, ◌/◌, ◌*◌, ◌%◌, ◌^◌, Bool, true, false, not, ◌||◌, List, [], ◌∷◌, ◌++◌,
  Option, none, some, bit_and, ltb, leb, ◌==◌, if◌then◌else◌, length, get_or, take, drop,
}
use openwrt_helloworld.Prelude.Words.{u8, ◌>>>◌}
use openwrt_helloworld.Crc32.{crc32, fillcrc32}
use openwrt_helloworld.Xorshift.{Xorshift, xorshift128plus}

abbrev pub pack_unit_size : ℕ
pack_unit_size = 2000

abbrev pub recv_buffer_cap : ℕ
recv_buffer_cap = 16384

infixl 5 ◌>>=◌
abbrev pub ◌>>=◌ : {A B : Type 0} → Option A → (A → Option B) → Option B
none >>= k = none
some a >>= k = k a

-- `realloc` when the result does not fit: the new `*capacity`.
abbrev pub grow : ℕ → ℕ → ℕ
grow capacity len = if ltb capacity len then len * 2 else capacity

-- What a round of that loop finds: too few bytes, a wrong length or checksum, a negative
-- `data_size`, or a packet with its length and its `recv_buffer[2]`.
pub data Round : Type 0 where
  wait wrong negative : Round
  packet : ℕ → ℕ → Round

-- What the loop over `recv_buffer` ends with: the bytes delivered and those kept; a packet that
-- is refused; a `memmove` with a negative size.
pub data Unpacked : Type 0 where
  done : List ℕ → List ℕ → Unpacked
  bad overrun no_fuel : Unpacked

abbrev pub deliver : List ℕ → Unpacked → Unpacked
deliver bytes (done out kept) = done (bytes ++ out) kept
deliver bytes other = other

-- The result of `post_decrypt`: the bytes at `*pplaindata`, the new `*capacity` and what
-- `recv_buffer` holds; or -1 and what `recv_buffer` holds; or a `memmove` with a negative size; or a
-- loop out of fuel.
pub data Decrypted : Type 0 where
  delivered : List ℕ → ℕ → List ℕ → Decrypted
  refused : List ℕ → Decrypted
  fault no_end : Decrypted

pub decrypted : ℕ → Unpacked → Decrypted
decrypted capacity (done out kept) = delivered out (grow capacity (length out)) kept
decrypted capacity bad = refused []
decrypted capacity overrun = fault
decrypted capacity no_fuel = no_end

-- The table is the contents of `crc32_table`.
module _ (table : List ℕ) where
  -- The `out_size` bytes at `outdata` before the checksum is stored: the padding after the byte
  -- `rand_len` and the last four bytes are what the memory held.
  unfoldable pub packet_bytes : ℕ → List ℕ → List ℕ → List ℕ
  packet_bytes rand_len source outdata =
      let out_size = rand_len + length source + 6 in
      u8 (out_size >>> 8)
      ∷ u8 out_size
      ∷ rand_len
      ∷ (take (rand_len - 1) (drop 3 outdata)
          ++ (source ++ take 4 (drop (rand_len + length source + 2) outdata)))

  -- `outdata` is the memory from the write position on. The packet written there, the memory behind
  -- it and the generator; `none` is a write behind the end of the memory.
  unfoldable pub pack_data : Xorshift → List ℕ → List ℕ → Option (List ℕ × List ℕ × Xorshift)
  pack_data g source outdata =
      let (r, g') = xorshift128plus g in
      let rand_len = bit_and r 0xf + 1 in
      let out_size = rand_len + length source + 6 in
      if ltb (length outdata) out_size then none else (do
        written ← fillcrc32 table (packet_bytes rand_len source outdata)
        some (written, drop out_size outdata, g'))

  -- The loop and the `if` behind it, with the bytes that are left and the memory that is left. A
  -- round takes 2000 bytes, so fuel above the number of bytes is enough.
  unfoldable pub pack_units : ℕ → Xorshift → List ℕ → List ℕ → Option (List ℕ × Xorshift)
  pack_units zero g source buffer = none
  pack_units (suc fuel) g source buffer = elim (ltb pack_unit_size (length source)) [
    | true ↦ do
      (first, buffer', g') ← pack_data g (take pack_unit_size source) buffer
      (rest, g'') ← pack_units fuel g' (drop pack_unit_size source) buffer'
      some (first ++ rest, g'')
    | false ↦ elim (ltb 0 (length source)) [
      | true ↦ do (first, _, g') ← pack_data g source buffer; some (first, g')
      | false ↦ some ([], g)
    ]
  ]

  -- `out_buffer` is the memory that `malloc(datalength * 2 + 32)` returns. The result is the bytes
  -- at `*pplaindata`, the new `*capacity` and the generator.
  unfoldable pub client_pre_encrypt :
      Xorshift → List ℕ → List ℕ → ℕ → Option (List ℕ × ℕ × Xorshift)
  client_pre_encrypt g out_buffer plaindata capacity = do
    (out, g') ← pack_units (suc (length plaindata)) g plaindata out_buffer
    some (out, grow capacity (length out), g')

  -- The server's function has the same body.
  unfoldable pub server_pre_encrypt :
      Xorshift → List ℕ → List ℕ → ℕ → Option (List ℕ × ℕ × Xorshift)
  server_pre_encrypt g out_buffer plaindata capacity = do
    (out, g') ← pack_units (suc (length plaindata)) g plaindata out_buffer
    some (out, grow capacity (length out), g')

  -- The tests of one round, on the first `recv_buffer_size` bytes of `recv_buffer`. The two bytes of
  -- the length are joined by `<<` and `|`, which do not overlap.
  unfoldable pub round : List ℕ → Round
  round recv =
      let len = get_or recv 0 0 * 2 ^ 8 + get_or recv 1 0 in
      let pad = get_or recv 2 0 in
      if leb (length recv) 2
      then wait
      else if leb 8192 len || ltb len 7
      then wrong
      else if ltb (length recv) len
      then wait
      else if not (crc32 table (take len recv) == 0xffffffff)
      then wrong
      else if ltb len (pad + 6)
      then negative
      else packet len pad

  unfoldable pub unpack : ℕ → List ℕ → Unpacked
  unpack zero recv = no_fuel
  unpack (suc fuel) recv = elim (round recv) [
    | wait ↦ done [] recv
    | wrong ↦ bad
    | negative ↦ overrun
    | packet len pad ↦
        deliver (take (len - pad - 6) (drop (pad + 2) recv)) (unpack fuel (drop len recv))
  ]

  -- `recv` is the first `recv_buffer_size` bytes of `recv_buffer`.
  unfoldable pub client_post_decrypt : List ℕ → List ℕ → ℕ → Decrypted
  unfolding decrypted
  client_post_decrypt recv plaindata capacity =
      let all = recv ++ plaindata in
      if ltb recv_buffer_cap (length recv + length plaindata)
      then refused recv
      else decrypted capacity (unpack (suc (length all)) all)

  -- The server's function has the same body, and logs.
  unfoldable pub server_post_decrypt : List ℕ → List ℕ → ℕ → Decrypted
  unfolding decrypted
  server_post_decrypt recv plaindata capacity =
      let all = recv ++ plaindata in
      if ltb recv_buffer_cap (length recv + length plaindata)
      then refused recv
      else decrypted capacity (unpack (suc (length all)) all)
