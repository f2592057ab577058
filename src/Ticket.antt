-- ===== src/Ticket.antt =====
-- tls1.2_ticket.c: the records of a connection behind its handshake (handshake_status 8).
mod Encoding
mod Decoding
mod Left
pub mod RoundTrip
mod Tests
use openwrt_helloworld.Prelude.{
  ℕ, zero, suc, ◌+◌, ◌-◌, ◌*◌, ◌/◌, ◌%◌, ◌^◌, min, Bool, true, false, ◌||◌, not, List, [], ◌∷◌,
  ◌++◌, ltb, ◌==◌, if◌then◌else◌, get_or, length, take, drop,
}
use openwrt_helloworld.Xorshift.{Xorshift, xorshift128plus}

-- `tls12_ticket_auth_pack_data`: the record of `len` bytes from `start` on.
unfoldable pub pack_record : List ℕ → List ℕ
pack_record bytes =
    0x17 ∷ 0x3 ∷ 0x3 ∷ (length bytes / 2 ^ 8 % 2 ^ 8) ∷ (length bytes % 2 ^ 8) ∷ bytes

-- The length of a record in the loop.
unfoldable pub random_len : ℕ → ℕ → ℕ
random_len number left = if ltb left (number % 4096 + 100) then left else number % 4096 + 100

-- The loop of `client_encode` on the data from `start` on, with the record behind it. A round takes
-- at least a byte.
unfoldable pub encode_loop : ℕ → List ℕ → Xorshift → List ℕ × Xorshift
encode_loop zero bytes g = ([], g)
encode_loop (suc fuel) bytes g =
    let len : ℕ = random_len (xorshift128plus g).0 (length bytes) in
    let more : List ℕ × Xorshift = encode_loop fuel (drop len bytes) (xorshift128plus g).1 in
    if ltb 2048 (length bytes)
    then (pack_record (take len bytes) ++ more.0, more.1)
    else if ltb 0 (length bytes)
    then (pack_record bytes, g)
    else ([], g)

-- `client_encode` and `server_encode` behind the handshake: the bytes that are sent.
unfoldable pub encode_ready : List ℕ → Xorshift → List ℕ × Xorshift
encode_ready bytes g =
    if ltb (length bytes) 1024
    then (pack_record bytes, g)
    else encode_loop (suc (length bytes)) bytes g

-- The result of `server_decode`: -1, or the data with what stays in `recv_buffer`.
pub data Opened : Type 0 where
  refused no_fuel : Opened
  opened : List ℕ → List ℕ → Opened

unfoldable pub put_first : List ℕ → Opened → Opened
put_first bytes refused = refused
put_first bytes no_fuel = no_fuel
put_first bytes (opened out recv) = opened (bytes ++ out) recv

-- `size`.
unfoldable pub record_size : List ℕ → ℕ
record_size recv = get_or recv 3 0 * 2 ^ 8 + get_or recv 4 0

unfoldable pub is_other : List ℕ → Bool
is_other recv =
    not (get_or recv 0 0 == 0x17)
    || (not (get_or recv 1 0 == 0x03) || not (get_or recv 2 0 == 0x03))

-- The loop over `recv_buffer`. A round takes at least 5 bytes.
unfoldable pub decode_loop : ℕ → List ℕ → Opened
decode_loop zero recv = no_fuel
decode_loop (suc fuel) recv =
    let rest : Opened = decode_loop fuel (drop (5 + record_size recv) recv) in
    if ltb 5 (length recv)
    then if is_other recv
      then refused
      else if ltb (length recv) (record_size recv + 5)
      then opened [] recv
      else put_first (take (record_size recv) (drop 5 recv)) rest
    else opened [] recv

-- `server_decode` behind the handshake.
unfoldable pub decode_ready : List ℕ → List ℕ → Opened
decode_ready recv bytes = decode_loop (suc (length (recv ++ bytes))) (recv ++ bytes)
