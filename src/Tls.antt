-- ===== src/Tls.antt =====
-- tls.c: the parser that finds the server name in a TLS client hello.
pub mod Safety
mod Tests
pub mod ClientHello
use openwrt_helloworld.Prelude.{
  ℕ, zero, suc, ◌+◌, ◌*◌, ◌^◌, Bool, true, false, ◌&&◌, ◌||◌, not, List, [], ◌∷◌, ◌++◌, Option,
  none, some, min, bit_and, ltb, leb, ◌==◌, if◌then◌else◌, length, get_elem?, take, drop, replicate,
}

-- What a parser returns: a negative code; the length of the host name, with the memory at
-- `*hostname`; or a read outside of the bytes that it was handed (`no_fuel`: the loop's fuel).
pub data Outcome : Type 0 where
  found : ℕ → List ℕ → Outcome
  error : ℕ → Outcome
  fault no_fuel : Outcome

infixl 5 ◌>>=◌
abbrev pub ◌>>=◌ {ℓ} : {A : Type ℓ} → Option A → (A → Outcome) → Outcome
none >>= k = fault
some x >>= k = k x

-- `strncpy`: `n` bytes, with zeros from the first zero on. `none` is a read behind the source.
unfoldable pub strncpy : ℕ → List ℕ → Option (List ℕ)
strncpy zero source = some []
strncpy (suc n) [] = none
strncpy (suc n) (zero ∷ source) = some (replicate (suc n) 0)
strncpy (suc n) (suc c ∷ source) = elim (strncpy n source) [
  | none ↦ none
  | some rest ↦ some (suc c ∷ rest)
]

-- A 16-bit number in network order at `i`, then the rest.
abbrev pub word_at : List ℕ → ℕ → (ℕ → Outcome) → Outcome
word_at bytes i k = do hi ← get_elem? bytes i; lo ← get_elem? bytes (i + 1); k (hi * 2 ^ 8 + lo)

module _ (malloc_ok : Bool) where
  -- The name entry at `pos`: the `host_name` case of the `switch`.
  pub host_name : List ℕ → ℕ → ℕ → Outcome
  host_name bytes pos len =
      if not malloc_ok
      then error 4
      else (do name ← strncpy len (drop (pos + 3) bytes); found len (name ++ (0 ∷ [])))

  -- The list is the `data_len` bytes at `data`. A round moves `pos` by at least 3.
  pub server_name_loop : ℕ → List ℕ → ℕ → Outcome
  server_name_loop zero bytes pos = no_fuel
  server_name_loop (suc fuel) bytes pos = elim (ltb (pos + 3) (length bytes)) [
    | false ↦ if not (pos == length bytes) then error 5 else error 2
    | true ↦ word_at bytes (pos + 1) (λ len. elim (ltb (length bytes) (pos + 3 + len)) [
      | true ↦ error 5
      | false ↦ do
        name_type ← get_elem? bytes pos
        elim (name_type == 0) [
          | true ↦ host_name bytes pos len
          | false ↦ server_name_loop fuel bytes (pos + (3 + len))
        ]
    ])
  ]

  unfoldable pub parse_server_name_extension : List ℕ → Outcome
  unfolding server_name_loop host_name
  parse_server_name_extension bytes = server_name_loop (suc (length bytes)) bytes 2

  -- The extension header at `pos`. A round moves `pos` by at least 4.
  pub extensions_loop : ℕ → List ℕ → ℕ → Outcome
  extensions_loop zero bytes pos = no_fuel
  extensions_loop (suc fuel) bytes pos = elim (leb (pos + 4) (length bytes)) [
    | false ↦ if not (pos == length bytes) then error 5 else error 2
    | true ↦ word_at bytes (pos + 2) (λ len. do
      hi ← get_elem? bytes pos
      lo ← get_elem? bytes (pos + 1)
      elim (hi == 0 && lo == 0) [
        | true ↦
            if ltb (length bytes) (pos + 4 + len)
            then error 5
            else parse_server_name_extension (take len (drop (pos + 4) bytes))
        | false ↦ extensions_loop fuel bytes (pos + (4 + len))
      ])
  ]

  unfoldable pub parse_extensions : List ℕ → Outcome
  unfolding extensions_loop
  parse_extensions bytes = extensions_loop (suc (length bytes)) bytes 0

  -- `parse_tls_header` from the extensions on. `data_len` is the length of the TLS record.
  pub after_compression : List ℕ → ℕ → ℕ → ℕ → ℕ → Outcome
  after_compression bytes data_len major minor pos =
      if pos == data_len && (major == 3 && minor == 0)
      then error 2
      else if ltb data_len (pos + 2)
      then error 5
      else word_at bytes pos (λ len.
        if ltb data_len (pos + 2 + len)
        then error 5
        else parse_extensions (take len (drop (pos + 2) bytes)))

  -- From the compression methods on.
  pub after_ciphers : List ℕ → ℕ → ℕ → ℕ → ℕ → Outcome
  after_ciphers bytes data_len major minor pos = if ltb data_len (pos + 1) then error 5 else (do
    len ← get_elem? bytes pos
    after_compression bytes data_len major minor (pos + (1 + len)))

  -- From the cipher suites on.
  pub after_session : List ℕ → ℕ → ℕ → ℕ → ℕ → Outcome
  after_session bytes data_len major minor pos =
      if ltb data_len (pos + 2)
      then error 5
      else word_at bytes pos (λ len. after_ciphers bytes data_len major minor (pos + (2 + len)))

  -- From the handshake on: the type at 5, the session id at 5 + 38.
  pub handshake : List ℕ → ℕ → ℕ → ℕ → Outcome
  handshake bytes data_len major minor = if ltb data_len (5 + 1) then error 5 else (do
    handshake_type ← get_elem? bytes 5
    if not (handshake_type == 1) then error 5 else if ltb data_len (43 + 1) then error 5 else (do
      len ← get_elem? bytes 43
      after_session bytes data_len major minor (43 + (1 + len))))

  -- From the record's length on.
  pub from_length : List ℕ → ℕ → ℕ → Outcome
  from_length bytes major minor = word_at bytes 3 (λ n.
      let len = n + 5 in
      let data_len = min (length bytes) len in
      if ltb data_len len then error 1 else handshake bytes data_len major minor)

  -- `char_signed` says whether `char` is signed: then a byte from 128 on is below 3.
  -- `has_hostname` is false for a NULL `hostname`.
  unfoldable pub parse_tls_header : Bool → Bool → List ℕ → Outcome
  parse_tls_header char_signed has_hostname bytes =
      if not has_hostname then error 3 else if ltb (length bytes) 5 then error 1 else (do
        content_type ← get_elem? bytes 0
        major ← get_elem? bytes 1
        minor ← get_elem? bytes 2
        if not (bit_and content_type 0x80 == 0) && minor == 1
            then error 2
            else if not (content_type == 0x16)
            then error 5
            else if ltb major 3 || (char_signed && leb 128 major)
            then error 2
            else from_length bytes major minor)
