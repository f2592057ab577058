-- ===== src/Udp.antt =====
-- udprelay.c: the header of a packet.
pub mod RoundTrip
mod Tests
use openwrt_helloworld.Prelude.{
  ℕ, zero, suc, ◌+◌, ◌*◌, ◌^◌, Bool, true, false, List, [], ◌∷◌, ◌++◌, Option, none, some, leb,
  ◌==◌, if◌then◌else◌, get_elem?, get_or,
}
use openwrt_helloworld.Relay.{Buffer, addr_type}
use openwrt_helloworld.Relay.Request.{
  Services, Outcome, ok, closed, fault, no_fuel, ◌>>=◌, reading, bytes_at, c_string, host_memory,
  SockAddr, unset, sockaddr_in, sockaddr_in6,
}

-- The bytes at `addr_header`; there is none for another family.
unfoldable pub construct_udprealy_header : SockAddr → List ℕ
construct_udprealy_header unset = []
construct_udprealy_header (sockaddr_in addr port) = 1 ∷ (addr ++ port)
construct_udprealy_header (sockaddr_in6 addr port) = 4 ∷ (addr ++ port)

-- What the parser finds: `offset`, `*storage`, `host`, and the number that `port` prints.
pub record UdpHeader : Type 0 where
  pub offset : ℕ
  pub storage : SockAddr
  pub host : List ℕ
  pub port : ℕ

-- `dns_ntop` of the two families; the libraries of `Services` read a name.
pub record Printers : Type 0 where
  pub services : Services
  pub ntop : List ℕ → List ℕ
  pub ntop6 : List ℕ → List ℕ

-- The variables in front of the port.
pub record Found : Type 0 where
  pub offset : ℕ
  pub storage : SockAddr
  pub host : List ℕ

-- `ntohs` of two bytes.
abbrev pub ntohs : List ℕ → ℕ
ntohs bytes = get_or bytes 0 0 * 2 ^ 8 + get_or bytes 1 0

abbrev pub nothing : Found
nothing = record { offset = 1; storage = unset; host = [] }

-- An address of `n` bytes with the port behind it.
unfoldable pub binary_address :
    Buffer → ℕ → (List ℕ → List ℕ → SockAddr) → (List ℕ → List ℕ) → Outcome Found
binary_address buf n sockaddr ntop =
    if leb (n + 3) buf.len
    then (do
      addr ← bytes_at buf.array 1 n
      port ← bytes_at buf.array (1 + n) 2
      ok (record { offset = 1 + n; storage = sockaddr addr port; host = ntop addr }))
    else ok nothing

-- `*storage` for a name that is an address in text. The code reads both versions as AF_INET.
unfoldable pub named_storage : Services → Option ℕ → List ℕ → List ℕ → SockAddr
named_storage s none text port = unset
named_storage s (some version) text port =
    if version == 4
    then sockaddr_in (s.pton text) port
    else if version == 6
    then sockaddr_in6 (s.pton text) port
    else unset

unfoldable pub named_address : Services → Buffer → Outcome Found
named_address s buf = do
  name_len ← reading (get_elem? buf.array 1)
  if leb (name_len + 4) buf.len
      then (do
        name ← bytes_at buf.array 2 name_len
        port ← bytes_at buf.array (2 + name_len) 2
        ok (record {
          offset = 2 + name_len;
          storage =
              named_storage s (s.ip_version (c_string (host_memory name)))
                (c_string (host_memory name)) port;
          host = name;
        }))
      else ok nothing

unfoldable pub find_address : Printers → ℕ → Buffer → Outcome Found
find_address p atyp buf =
    if addr_type atyp == 1
    then binary_address buf 4 sockaddr_in p.ntop
    else if addr_type atyp == 3
    then named_address p.services buf
    else if addr_type atyp == 4
    then binary_address buf 16 sockaddr_in6 p.ntop6
    else ok nothing

-- `none` is a return of 0.
unfoldable pub finish_header : Buffer → Found → Outcome (Option UdpHeader)
finish_header buf f = if f.offset == 1 then ok none else (do
  port ← bytes_at buf.array f.offset 2
  ok (
      some
        (record { offset = f.offset + 2; storage = f.storage; host = f.host; port = ntohs port })))

unfoldable pub parse_udprealy_header : Printers → Buffer → Outcome (Option UdpHeader)
parse_udprealy_header p buf = do
  atyp ← reading (get_elem? buf.array 0)
  found ← find_address p atyp buf
  finish_header buf found
