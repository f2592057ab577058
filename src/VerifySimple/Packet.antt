-- ===== src/VerifySimple/Packet.antt =====
-- `verify_simple_pack_data`: what one packet holds, and that it fits the memory it is given.
use openwrt_helloworld.Prelude.{
  ℕ, suc, ◌+◌, ◌-◌, ◌*◌, ◌^◌, ◌≤◌, ◌<◌, ◌≡◌, refl, arith, List, ◌∷◌, ◌++◌, append_assoc, Option,
  some, bit_and, length, get_or, take, drop, take-append, drop-append, length-append, length-take,
  length-drop,
}
use openwrt_helloworld.Prelude.Bits.{bit_and_mask}
use openwrt_helloworld.Prelude.Words.{u8, ◌>>>◌}
use openwrt_helloworld.Crc32.{crc_loop, crc32, le32, fillcrc32}
use openwrt_helloworld.Crc32.Residue.{crc32_table, crc32-fillcrc32}
use openwrt_helloworld.Xorshift.{Xorshift, xorshift128plus}
use openwrt_helloworld.VerifySimple.{packet_bytes, pack_data}

-- A whole packet that carries `source`, as the receiver reads it.
pub record IsPacket (source packet : List ℕ) : Type 0 where
  pub size : get_or packet 0 0 * 2 ^ 8 + get_or packet 1 0 ≡ length packet
  pub small : length packet < 8192
  pub large : 7 ≤ length packet
  pub padded : get_or packet 2 0 + 6 ≤ length packet
  pub checked : crc32 crc32_table packet ≡ 0xffffffff
  pub payload :
      take (length packet - get_or packet 2 0 - 6) (drop (get_or packet 2 0 + 2) packet) ≡ source

fillcrc32-append :
    (table body tail : List ℕ)
    → length tail ≡ 4
    → fillcrc32 table (body ++ tail) ≡ some (body ++ le32 (crc_loop table 0xffffffff body))
unfolding fillcrc32
fillcrc32-append table body tail e = ground (
  arith,
  length-append body tail,
  take-append (length (body ++ tail) - 4) body tail (omega (arith, length-append body tail)),
)

-- The data stands between the padding and the checksum.
payload_lem :
    (h l pad_len : ℕ) (pad source tail : List ℕ)
    → pad_len ≡ length pad + 1
    → length tail ≡ 4
    → let packet = h ∷ l ∷ pad_len ∷ ((pad ++ source) ++ tail) in
      (length packet ≡ pad_len + length source + 6)
      × (take (length packet - pad_len - 6) (drop (pad_len + 2) packet) ≡ source)
payload_lem h l pad_len pad source tail e f =
    (total, rw (skip, count, behind) (take-append _ source tail refl))
  where
    total : length (h ∷ l ∷ pad_len ∷ ((pad ++ source) ++ tail)) ≡ pad_len + length source + 6
    total = omega (arith, length-append (pad ++ source) tail, length-append pad source)

    skip : pad_len + 2 ≡ suc (suc (suc (length pad)))
    skip = omega arith

    count : length (h ∷ l ∷ pad_len ∷ ((pad ++ source) ++ tail)) - pad_len - 6 ≡ length source
    count = omega (arith, total)

    behind : drop (length pad) ((pad ++ source) ++ tail) ≡ source ++ tail
    behind = rw append_assoc (drop-append (length pad) pad (source ++ tail) refl)

-- The random padding is 1 to 16 bytes, the byte `rand_len` among them.
pub pad_len : Xorshift → ℕ
pad_len g = bit_and (xorshift128plus g).0 0xf + 1

pad_len_bounds : (g : Xorshift) → (1 ≤ pad_len g) × (pad_len g ≤ 16)
unfolding pad_len
pad_len_bounds g = omega (arith, bit_and_mask 4 (xorshift128plus g).0)

-- The outcome of a `pack_data` that has room.
pub record Packed (source outdata : List ℕ) (result : Option (List ℕ × List ℕ × Xorshift))
    : Type 0 where
  pub packet : List ℕ
  pub rest : List ℕ
  pub generator : Xorshift
  pub returns : result ≡ some (packet, rest, generator)
  pub is_packet : IsPacket source packet
  pub overhead : length packet ≤ length source + 22
  pub rest_length : length rest + length packet ≡ length outdata

module _ (n : ℕ) (source outdata : List ℕ) (lo : 1 ≤ n) (hi : n ≤ 16) (small : length source ≤ 2000)
    (room : n + length source + 6 ≤ length outdata) where
  abbrev total : ℕ
  total = n + length source + 6

  abbrev padding : List ℕ
  padding = take (n - 1) (drop 3 outdata)

  abbrev covered : List ℕ
  covered = u8 (total >>> 8) ∷ u8 total ∷ n ∷ (padding ++ source)

  abbrev framed : List ℕ
  framed = covered ++ le32 (crc_loop crc32_table 0xffffffff covered)

  padding-length : n ≡ length padding + 1
  padding-length = omega (arith, length-take (n - 1) (drop 3 outdata), length-drop 3 outdata)

  tail_length : length (take 4 (drop (n + length source + 2) outdata)) ≡ 4
  tail_length = omega (
    arith,
    length-take 4 (drop (n + length source + 2) outdata),
    length-drop (n + length source + 2) outdata,
  )

  completes : fillcrc32 crc32_table (packet_bytes crc32_table n source outdata) ≡ some framed
  unfolding packet_bytes
  completes =
      rw (← append_assoc padding source (take 4 (drop (n + length source + 2) outdata)))
        (fillcrc32-append crc32_table covered _ tail_length)

  framed-IsPacket : IsPacket source framed × (length framed ≡ total)
  framed-IsPacket =
      let crc_bytes = le32 (crc_loop crc32_table 0xffffffff covered) in
      let (count, payload) =
        payload_lem (u8 (total >>> 8)) (u8 total) n padding source crc_bytes padding-length refl in
      (
        record {
          size = omega (arith, count);
          small = omega (arith, count);
          large = omega (arith, count);
          padded = omega (arith, count);
          checked = crc32-fillcrc32 (packet_bytes crc32_table n source outdata) completes;
          payload = payload;
        },
        count,
      )

-- With room for the largest padding, a packet of at most 2000 bytes is written whole.
pub pack_data-Packed :
    (g : Xorshift) (source outdata : List ℕ)
    → length source ≤ 2000
    → length source + 22 ≤ length outdata
    → Packed source outdata (pack_data crc32_table g source outdata)
unfolding pack_data pad_len
pack_data-Packed g source outdata small room =
    let n = pad_len g in
    let (lo, hi) = pad_len_bounds g in
    let fits : n + length source + 6 ≤ length outdata = omega arith in
    let (is_packet, count) = framed-IsPacket n source outdata lo hi small fits in
    record {
      packet = framed n source outdata lo hi small fits;
      rest = drop (n + length source + 6) outdata;
      generator = (xorshift128plus g).1;
      returns = ground (arith, completes n source outdata lo hi small fits);
      is_packet = is_packet;
      overhead = omega (arith, count);
      rest_length = omega (arith, count, length-drop (n + length source + 6) outdata);
    }
