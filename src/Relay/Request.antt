-- ===== src/Relay/Request.antt =====
-- server.c: STAGE_PARSE of `server_recv_cb`, from the header of a request to its target.
use openwrt_helloworld.Prelude.{
  ℕ, ◌+◌, ◌-◌, Bool, true, false, ◌||◌, List, [], ◌∷◌, ◌++◌, Option, none, some, leb, ltb, ◌==◌,
  if◌then◌else◌, get_elem?, take, drop, length, replicate,
}
use openwrt_helloworld.Relay.{Buffer, addr_type, has_auth_flag, parse_header_len, onetimeauth_bytes}
use openwrt_helloworld.Netutils.{validate_hostname}

-- The levels of `report_addr` that the relay uses.
pub data Level : Type 0 where
  malformed bad suspicious malicious : Level

-- A result, a connection that is closed with a report or without, a read outside of the memory, or
-- a loop out of fuel.
pub data Outcome {ℓ} (A : Type ℓ) : Type ℓ where
  ok : A → Outcome A
  closed : Option Level → Outcome A
  fault no_fuel : Outcome A

infixl 5 ◌>>=◌
abbrev pub ◌>>=◌ {ℓ κ} : {A : Type ℓ} {B : Type κ} → Outcome A → (A → Outcome B) → Outcome B
ok a >>= f = f a
closed l >>= f = closed l
fault >>= f = fault
no_fuel >>= f = no_fuel

abbrev pub reading {ℓ} : {A : Type ℓ} → Option A → Outcome A
reading none = fault
reading (some a) = ok a

-- The `n` bytes at `i`, all of them in the memory.
unfoldable pub bytes_at : List ℕ → ℕ → ℕ → Outcome (List ℕ)
bytes_at memory i n = if leb (i + n) (length memory) then ok (take n (drop i memory)) else fault

-- The C string at the head of the memory.
unfoldable pub c_string : List ℕ → List ℕ
c_string [] = []
c_string (c ∷ cs) = if c == 0 then [] else c ∷ c_string cs

-- What the parser asks of other code: the flag `auth`, the test of the header's HMAC
-- (`ss_onetimeauth_verify` is not 0), the access lists (`acl` is set and
-- `outbound_block_match_host` is 1), libcork's `cork_ip_init` with the version it finds, and
-- `dns_pton`.
pub record Services : Type 0 where
  pub auth : Bool
  pub onetimeauth_fails : List ℕ → Bool
  pub outbound_blocked : List ℕ → Bool
  pub ip_version : List ℕ → Option ℕ
  pub pton : List ℕ → List ℕ
  pub pton6 : List ℕ → List ℕ

-- `info`: left zero, `sockaddr_in` or `sockaddr_in6`, with the address and the port as in the
-- header.
pub data SockAddr : Type 0 where
  unset : SockAddr
  sockaddr_in sockaddr_in6 : List ℕ → List ℕ → SockAddr

-- The variables of the parser behind the address: the offset, `info`, and the host to look up.
pub record ReadAddress : Type 0 where
  pub offset : ℕ
  pub info : SockAddr
  pub need_query : Option (List ℕ)

-- The authentication of the header; the result is the new `server->auth`.
unfoldable pub verify_header : Services → Bool → ℕ → Buffer → Outcome Bool
verify_header s server_auth atyp buf =
    if s.auth || has_auth_flag atyp
    then (do
      header_len ← reading (parse_header_len atyp buf.array 1)
      if (header_len == 0) || ltb buf.len (1 + header_len + onetimeauth_bytes)
          then closed (some malformed)
          else (do
            header ← bytes_at buf.array 0 (1 + header_len + onetimeauth_bytes)
            if s.onetimeauth_fails header then closed (some bad) else ok true))
    else ok server_auth

-- `host`: the 257 zeroed bytes with the name copied into them.
abbrev pub host_memory : List ℕ → List ℕ
host_memory name = name ++ replicate (257 - length name) 0

-- An address at `offset`, whose port stands behind it.
unfoldable pub with_port : (List ℕ → SockAddr) → List ℕ → ℕ → Outcome ReadAddress
with_port sockaddr memory offset = do
  port ← bytes_at memory offset 2
  ok (record { offset = offset; info = sockaddr port; need_query = none })

-- The target of a name: an address in text, or a name to look up.
unfoldable pub name_target : Services → List ℕ → ℕ → List ℕ → ℕ → Outcome ReadAddress
name_target s host name_len memory offset = elim (s.ip_version (c_string host)) [
  | some version ↦
      if version == 4
      then with_port (sockaddr_in (s.pton (c_string host))) memory offset
      else if version == 6
      then with_port (sockaddr_in6 (s.pton6 (c_string host))) memory offset
      else ok (record { offset = offset; info = unset; need_query = none })
  | none ↦ elim (validate_hostname host name_len) [
    | none ↦ no_fuel
    | some false ↦ closed (some malformed)
    | some true ↦ ok (record { offset = offset; info = unset; need_query = some (c_string host) })
  ]
]

-- The three kinds of address; behind an unknown type the offset stays at 1.
unfoldable pub read_address : Services → ℕ → Buffer → Outcome ReadAddress
read_address s atyp buf =
    if addr_type atyp == 1
    then (if leb (4 + 3) buf.len
        then (do addr ← bytes_at buf.array 1 4; with_port (sockaddr_in addr) buf.array (1 + 4))
        else closed (some malformed))
    else if addr_type atyp == 3
    then (do
      name_len ← reading (get_elem? buf.array 1)
      if leb (name_len + 4) buf.len
          then (do
            name ← bytes_at buf.array 2 name_len
            if s.outbound_blocked (c_string (host_memory name))
                then closed none
                else name_target s (host_memory name) name_len buf.array (2 + name_len))
          else closed (some malformed))
    else if addr_type atyp == 4
    then (if leb (16 + 3) buf.len
        then (do addr ← bytes_at buf.array 1 16; with_port (sockaddr_in6 addr) buf.array (1 + 16))
        else closed (some malformed))
    else ok (record { offset = 1; info = unset; need_query = none })

-- A request that was read: `server->auth`, the target with its port, and the buffer, from which
-- the header is gone.
pub record Request : Type 0 where
  pub auth : Bool
  pub info : SockAddr
  pub need_query : Option (List ℕ)
  pub port : List ℕ
  pub buf : Buffer

-- `memmove` of the bytes behind the header to the front.
unfoldable pub cut_header : Buffer → ℕ → Outcome Buffer
cut_header buf offset = if ltb buf.len offset then closed (some malformed) else (do
  rest ← bytes_at buf.array offset (buf.len - offset)
  ok (record { array = rest ++ drop (buf.len - offset) buf.array; len = buf.len - offset }))

-- From the address on.
unfoldable pub finish_request : Bool → Buffer → ReadAddress → Outcome Request
finish_request auth buf a = if a.offset == 1 then closed (some malformed) else (do
  port ← bytes_at buf.array a.offset 2
  rest ← cut_header buf (if auth then a.offset + 2 + onetimeauth_bytes else a.offset + 2)
  ok (record { auth = auth; info = a.info; need_query = a.need_query; port = port; buf = rest }))

-- STAGE_PARSE up to `ss_check_hash`.
unfoldable pub parse_request : Services → Bool → Buffer → Outcome Request
parse_request s server_auth buf = do
  atyp ← reading (get_elem? buf.array 0)
  auth ← verify_header s server_auth atyp buf
  a ← read_address s atyp buf
  finish_request auth buf a
