-- ===== src/Relay.antt =====
-- server.c: the relay of a TCP connection. Here the header of a request, with its length.
pub mod Request
pub mod Header
pub mod RoundTrip
pub mod Safety
pub mod Callbacks
pub mod Receive
pub mod Transfer
pub mod Stages
pub mod Watchers
pub mod Reception
pub mod Parsing
pub mod Lifetime
pub mod Directions
pub mod Handshake
mod Tests
use openwrt_helloworld.Prelude.{
  ℕ, zero, suc, ◌+◌, Bool, true, false, ◌||◌, not, List, [], ◌∷◌, ◌++◌, Option, none, some, leb,
  ltb, ◌==◌, if◌then◌else◌, get_elem?, bit_and,
}

-- `buffer_t`: the memory at `array`, all of it, and the number of bytes in use.
pub record Buffer : Type 0 where
  pub array : List ℕ
  pub len : ℕ

-- The masks and lengths of encrypt.h.
abbrev pub addrtype_mask : ℕ
addrtype_mask = 0xEF

abbrev pub onetimeauth_flag : ℕ
onetimeauth_flag = 0x10

abbrev pub onetimeauth_bytes : ℕ
onetimeauth_bytes = 10

-- `atyp & ADDRTYPE_MASK`: the mask keeps the low eight bits, so a negative `char` is its byte.
unfoldable pub addr_type : ℕ → ℕ
addr_type atyp = bit_and atyp addrtype_mask

-- `atyp & ONETIMEAUTH_FLAG`.
unfoldable pub has_auth_flag : ℕ → Bool
has_auth_flag atyp = not (bit_and atyp onetimeauth_flag == 0)

-- The length behind the type byte; 0 for an unknown type. `none` is a read outside of the memory.
unfoldable pub parse_header_len : ℕ → List ℕ → ℕ → Option ℕ
parse_header_len atyp bytes offset =
    if addr_type atyp == 1
    then some (4 + 2)
    else if addr_type atyp == 3
    then elim (get_elem? bytes offset) [ none ↦ none | some name_len ↦ some (name_len + 1 + 2) ]
    else if addr_type atyp == 4
    then some (16 + 2)
    else some 0

-- What `is_header_complete` returns: 1, 0 or -1.
pub data Completeness : Type 0 where
  complete incomplete malformed : Completeness

-- The tail of `is_header_complete`, with the length of the header without its authentication.
unfoldable pub enough : Bool → ℕ → ℕ → ℕ → Completeness
enough auth atyp buf_len header_len =
    let total = if auth || has_auth_flag atyp then header_len + onetimeauth_bytes else header_len in
    if leb total buf_len then complete else incomplete

unfoldable pub is_header_complete : Bool → Buffer → Option Completeness
is_header_complete auth buf = elim (get_elem? buf.array 0) [
  | none ↦ none
  | some atyp ↦
      if addr_type atyp == 1
      then some (enough auth atyp buf.len (1 + 4 + 2))
      else if addr_type atyp == 3
      then if ltb buf.len (1 + 1) then some incomplete else (elim (get_elem? buf.array 1) [
        | none ↦ none
        | some name_len ↦ some (enough auth atyp buf.len (1 + (name_len + 1) + 2))
      ])
      else if addr_type atyp == 4
      then some (enough auth atyp buf.len (1 + 16 + 2))
      else some malformed
]
