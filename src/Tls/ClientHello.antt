-- ===== src/Tls/ClientHello.antt =====
-- What the parser finds in a client hello that is put together as RFC 5246 and RFC 6066 say.
use openwrt_helloworld.Prelude.{
  ℕ, zero, suc, ◌+◌, ◌-◌, ◌/◌, ◌%◌, ◌^◌, ◌≤◌, ◌<◌, ◌≡◌, refl, sym, ◌∙◌, ap, arith, List, [], ◌∷◌,
  ◌++◌, length-append, ◌&&◌, some, ◌==◌, length, get_elem?, drop, All, append_assoc, Bool, true,
  false, get_elem?-append_right, drop-append_right, take-append, take_all,
}
use openwrt_helloworld.Tls.{
  found, strncpy, host_name, server_name_loop, parse_server_name_extension, extensions_loop,
  parse_extensions, after_compression, after_ciphers, after_session, handshake, from_length,
  parse_tls_header,
}

-- A 16-bit length in network order.
abbrev pub high : ℕ → ℕ
high n = n / 256

abbrev pub low : ℕ → ℕ
low n = n % 256

-- An extension that is no server name: its type, not 0, and its body.
pub record Extension : Type 0 where
  pub type_high : ℕ
  pub type_low : ℕ
  pub body : List ℕ

abbrev pub IsOther : Extension → Type 0
IsOther x = ((x.type_high == 0 && x.type_low == 0) ≡ false) × (length x.body < 2 ^ 16)

abbrev pub extension_bytes : Extension → List ℕ → List ℕ
extension_bytes x rest =
    x.type_high ∷ x.type_low ∷ high (length x.body) ∷ low (length x.body) ∷ (x.body ++ rest)

abbrev pub extensions_bytes : List Extension → List ℕ → List ℕ
extensions_bytes [] rest = rest
extensions_bytes (x ∷ before) rest = extension_bytes x (extensions_bytes before rest)

-- The body of a server name extension: the list's length (which the parser skips), the entry's
-- type, the name's length and the name.
abbrev pub name_bytes : ℕ → List ℕ → List ℕ
name_bytes skipped host =
    high skipped ∷ low skipped ∷ 0 ∷ high (length host) ∷ low (length host) ∷ host

-- The extensions: some others, the server name, and whatever follows.
abbrev pub server_name_bytes : List ℕ → List ℕ → List ℕ
server_name_bytes name rest = 0 ∷ 0 ∷ high (length name) ∷ low (length name) ∷ (name ++ rest)

strncpy-eq_self : (host : List ℕ) → All (λ c. 0 < c) host → strncpy (length host) host ≡ some host
unfolding strncpy
strncpy-eq_self [] h = refl
strncpy-eq_self (zero ∷ host) h = absurd (omega arith)
strncpy-eq_self (suc c ∷ host) h = rw (strncpy-eq_self host h.1)

server_name-found :
    (skipped : ℕ) (host : List ℕ)
    → 0 < length host
    → length host < 2 ^ 16
    → All (λ c. 0 < c) host
    → parse_server_name_extension true (name_bytes skipped host)
      ≡ found (length host) (host ++ (0 ∷ []))
unfolding parse_server_name_extension server_name_loop host_name
server_name-found skipped host pos short clean = ground (arith, strncpy-eq_self host clean)

-- `bytes` holds `pieces` behind `pre`: what the reads and tests at the position see.
module _ (bytes pre pieces : List ℕ) (pos : ℕ) (e : bytes ≡ pre ++ pieces)
    (at : pos ≡ length pre) where
  read_at : (k i : ℕ) → i ≡ pos + k → get_elem? bytes i ≡ get_elem? pieces k
  read_at k i h = rw e (get_elem?-append_right pre pieces k i (omega arith))

  drop_at : (k i : ℕ) → i ≡ pos + k → drop i bytes ≡ drop k pieces
  drop_at k i h = rw e (drop-append_right pre pieces k i (omega arith))

  length_at : length bytes ≡ pos + length pieces
  length_at = omega (arith, ap length e, length-append pre pieces)

module _ (bytes pre : List ℕ) (pos : ℕ) (at : pos ≡ length pre) where
  -- Over an extension of another type.
  extensions_loop-other :
      (fuel : ℕ) (x : Extension) (rest : List ℕ)
      → bytes ≡ pre ++ extension_bytes x rest
      → IsOther x
      → extensions_loop true (suc fuel) bytes pos
        ≡ extensions_loop true fuel bytes (pos + (4 + length x.body))
  unfolding extensions_loop
  extensions_loop-other fuel x rest e other =
      let read = read_at bytes pre (extension_bytes x rest) pos e at in
      ground (
        arith,
        read 0 pos (omega arith),
        read 1 (pos + 1) (omega arith),
        read 2 (pos + 2) (omega arith),
        read 3 (pos + 2 + 1) (omega arith),
        length_at bytes pre (extension_bytes x rest) pos e at,
        length-append x.body rest,
      )

  -- At the server name.
  extensions_loop-server_name :
      (fuel : ℕ) (name rest : List ℕ)
      → bytes ≡ pre ++ server_name_bytes name rest
      → length name < 2 ^ 16
      → extensions_loop true (suc fuel) bytes pos ≡ parse_server_name_extension true name
  unfolding extensions_loop
  extensions_loop-server_name fuel name rest e short =
      let read = read_at bytes pre (server_name_bytes name rest) pos e at in
      ground (
        arith,
        read 0 pos (omega arith),
        read 1 (pos + 1) (omega arith),
        read 2 (pos + 2) (omega arith),
        read 3 (pos + 2 + 1) (omega arith),
        drop_at bytes pre (server_name_bytes name rest) pos e at 4 (pos + 4) (omega arith),
        take-append (length name) name rest refl,
        length_at bytes pre (server_name_bytes name rest) pos e at,
        length-append name rest,
      )

  -- The stages: each leaves its field behind.
  after_session-lem :
      (data_len major minor : ℕ) (ciphers rest : List ℕ)
      → bytes ≡ pre ++ (high (length ciphers) ∷ low (length ciphers) ∷ (ciphers ++ rest))
      → data_len ≡ length bytes
      → after_session true bytes data_len major minor pos
        ≡ after_ciphers true bytes data_len major minor (pos + (2 + length ciphers))
  unfolding after_session
  after_session-lem data_len major minor ciphers rest e whole =
      let pieces : List ℕ = high (length ciphers) ∷ low (length ciphers) ∷ (ciphers ++ rest) in
      ground (
        arith,
        read_at bytes pre pieces pos e at 0 pos (omega arith),
        read_at bytes pre pieces pos e at 1 (pos + 1) (omega arith),
        length_at bytes pre pieces pos e at,
      )

  after_ciphers-lem :
      (data_len major minor : ℕ) (compression rest : List ℕ)
      → bytes ≡ pre ++ (length compression ∷ (compression ++ rest))
      → data_len ≡ length bytes
      → after_ciphers true bytes data_len major minor pos
        ≡ after_compression true bytes data_len major minor (pos + (1 + length compression))
  unfolding after_ciphers
  after_ciphers-lem data_len major minor compression rest e whole =
      let pieces : List ℕ = length compression ∷ (compression ++ rest) in
      ground (
        arith,
        read_at bytes pre pieces pos e at 0 pos (omega arith),
        length_at bytes pre pieces pos e at,
      )

  after_compression-lem :
      (data_len major minor : ℕ) (extensions : List ℕ)
      → bytes ≡ pre ++ (high (length extensions) ∷ low (length extensions) ∷ extensions)
      → data_len ≡ length bytes
      → after_compression true bytes data_len major minor pos ≡ parse_extensions true extensions
  unfolding after_compression
  after_compression-lem data_len major minor extensions e whole =
      let pieces : List ℕ = high (length extensions) ∷ low (length extensions) ∷ extensions in
      ground (
        arith,
        read_at bytes pre pieces pos e at 0 pos (omega arith),
        read_at bytes pre pieces pos e at 1 (pos + 1) (omega arith),
        drop_at bytes pre pieces pos e at 2 (pos + 2) (omega arith),
        take_all (length extensions) extensions (omega arith),
        length_at bytes pre pieces pos e at,
      )

-- The loop comes to the server name behind any number of other extensions.
extensions_loop-found :
    (bytes pre name rest : List ℕ) (before : List Extension) (fuel pos : ℕ)
    → bytes ≡ pre ++ extensions_bytes before (server_name_bytes name rest)
    → pos ≡ length pre
    → length bytes - pos < fuel
    → All IsOther before
    → length name < 2 ^ 16
    → extensions_loop true fuel bytes pos ≡ parse_server_name_extension true name
extensions_loop-found bytes pre name rest before zero pos e at enough others short =
    absurd (omega arith)
extensions_loop-found bytes pre name rest [] (suc fuel) pos e at enough others short =
    extensions_loop-server_name bytes pre pos at fuel name rest e short
extensions_loop-found bytes pre name rest (x ∷ before) (suc fuel) pos e at enough others short =
    extensions_loop-other bytes pre pos at fuel x after e others.0
    ∙ extensions_loop-found bytes (pre ++ piece) name rest before fuel (pos + (4 + length x.body))
        (e ∙ sym (append_assoc pre piece after)) (omega (arith, length-append pre piece))
        (omega (arith, length_at bytes pre (extension_bytes x after) pos e at)) others.1 short
  where
    after : List ℕ
    after = extensions_bytes before (server_name_bytes name rest)

    piece : List ℕ
    piece = x.type_high ∷ x.type_low ∷ high (length x.body) ∷ low (length x.body) ∷ x.body

-- A client hello: the record's version, the 37 bytes before the session id (length, version and
-- random), the session id, the cipher suites, the compression methods and the extensions.
pub record Hello : Type 0 where
  pub major : ℕ
  pub minor : ℕ
  pub fixed : List ℕ
  pub session : List ℕ
  pub ciphers : List ℕ
  pub compression : List ℕ
  pub extensions : List ℕ

module _ (hello : Hello) where
  open hello use {major, minor, fixed, session, ciphers, compression, extensions}

  abbrev pub from_extensions : List ℕ
  from_extensions = high (length extensions) ∷ low (length extensions) ∷ extensions

  abbrev pub from_compression : List ℕ
  from_compression = length compression ∷ (compression ++ from_extensions)

  abbrev pub from_ciphers : List ℕ
  from_ciphers = high (length ciphers) ∷ low (length ciphers) ∷ (ciphers ++ from_compression)

  abbrev pub from_session : List ℕ
  from_session = length session ∷ (session ++ from_ciphers)

  abbrev pub message : List ℕ
  message = 1 ∷ (fixed ++ from_session)

  abbrev pub record_header : List ℕ
  record_header = 0x16 ∷ major ∷ minor ∷ high (length message) ∷ low (length message) ∷ []

  abbrev pub hello_bytes : List ℕ
  hello_bytes = record_header ++ message

pub record IsHello (hello : Hello) : Type 0 where
  pub modern : 3 ≤ hello.major
  pub ascii : hello.major < 128
  pub fixed_size : length hello.fixed ≡ 37
  pub session_size : length hello.session < 256
  pub compression_size : length hello.compression < 256
  pub ciphers_size : length hello.ciphers < 2 ^ 16
  pub extensions_size : length hello.extensions < 2 ^ 16
  pub record_size : length (message hello) < 2 ^ 16

module _ (hello : Hello) (w : IsHello hello) where
  open hello use {major, minor, fixed, session, ciphers, compression, extensions}

  abbrev bytes : List ℕ
  bytes = hello_bytes hello

  -- What stands before each stage.
  abbrev before_session : List ℕ
  before_session = record_header hello ++ (1 ∷ fixed)

  abbrev before_ciphers : List ℕ
  before_ciphers = before_session ++ (length session ∷ session)

  abbrev before_compression : List ℕ
  before_compression = before_ciphers ++ (high (length ciphers) ∷ low (length ciphers) ∷ ciphers)

  abbrev before_extensions : List ℕ
  before_extensions = before_compression ++ (length compression ∷ compression)

  at_session : bytes ≡ before_session ++ from_session hello
  at_session = sym (append_assoc (record_header hello) (1 ∷ fixed) (from_session hello))

  at_ciphers : bytes ≡ before_ciphers ++ from_ciphers hello
  at_ciphers =
      at_session ∙ sym (append_assoc before_session (length session ∷ session) (from_ciphers hello))

  at_compression : bytes ≡ before_compression ++ from_compression hello
  at_compression =
      at_ciphers
      ∙ sym (
          append_assoc before_ciphers (high (length ciphers) ∷ low (length ciphers) ∷ ciphers)
            (from_compression hello))

  at_extensions : bytes ≡ before_extensions ++ from_extensions hello
  at_extensions =
      at_compression
      ∙ sym (
          append_assoc before_compression (length compression ∷ compression)
            (from_extensions hello))

  handshake-lem :
      handshake true bytes (length bytes) major minor
      ≡ after_session true bytes (length bytes) major minor (43 + (1 + length session))
  unfolding handshake
  handshake-lem = ground (
    arith,
    read_at bytes before_session (from_session hello) 43 at_session (omega (arith, w.fixed_size)) 0
        43 (omega arith),
    length_at bytes before_session (from_session hello) 43 at_session (omega (arith, w.fixed_size)),
  )

  from_length-lem :
      from_length true bytes major minor ≡ handshake true bytes (length bytes) major minor
  unfolding from_length
  from_length-lem = ground (arith, w.record_size)

  parse_tls_header-lem :
      (char_signed : Bool)
      → parse_tls_header true char_signed true bytes ≡ from_length true bytes major minor
  unfolding parse_tls_header
  parse_tls_header-lem char_signed = ground (arith, w.modern, w.ascii)

  hello-extensions :
      (char_signed : Bool)
      → parse_tls_header true char_signed true bytes ≡ parse_extensions true extensions
  hello-extensions char_signed =
      parse_tls_header-lem char_signed
      ∙ from_length-lem
      ∙ handshake-lem
      ∙ ap (after_session true bytes (length bytes) major minor) (omega arith)
      ∙ after_session-lem bytes before_ciphers (44 + length session) cipher_pos (length bytes) major
          minor ciphers (from_compression hello) at_ciphers refl
      ∙ after_ciphers-lem bytes before_compression (44 + length session + (2 + length ciphers))
          compression_pos (length bytes) major minor compression (from_extensions hello)
          at_compression refl
      ∙ after_compression-lem bytes before_extensions
          (44 + length session + (2 + length ciphers) + (1 + length compression)) extensions_pos
          (length bytes) major minor extensions at_extensions refl
    where
      cipher_pos : 44 + length session ≡ length before_ciphers
      cipher_pos = omega (
        arith,
        w.fixed_size,
        length-append before_session (length session ∷ session),
        length-append (record_header hello) (1 ∷ fixed),
      )

      compression_pos : 44 + length session + (2 + length ciphers) ≡ length before_compression
      compression_pos = omega (
        arith,
        cipher_pos,
        length-append before_ciphers (high (length ciphers) ∷ low (length ciphers) ∷ ciphers),
      )

      extensions_pos :
          44 + length session + (2 + length ciphers) + (1 + length compression)
          ≡ length before_extensions
      extensions_pos = omega (
        arith,
        compression_pos,
        length-append before_compression (length compression ∷ compression),
      )

-- The name of a well-formed client hello that carries one, of at least one byte and without zero
-- bytes, behind any number of other extensions and before any bytes, is what the parser returns.
pub parse_tls_header-server_name :
    (hello : Hello) (before : List Extension) (skipped : ℕ) (host rest : List ℕ)
    (char_signed : Bool)
    → IsHello hello
    → All IsOther before
    → hello.extensions ≡ extensions_bytes before (server_name_bytes (name_bytes skipped host) rest)
    → 0 < length host
    → length host + 5 < 2 ^ 16
    → All (λ c. 0 < c) host
    → parse_tls_header true char_signed true (hello_bytes hello)
      ≡ found (length host) (host ++ (0 ∷ []))
unfolding parse_extensions
parse_tls_header-server_name hello before skipped host rest char_signed w others e pos short clean =
    hello-extensions hello w char_signed
    ∙ extensions_loop-found hello.extensions [] (name_bytes skipped host) rest before
        (suc (length hello.extensions)) 0 e refl (omega arith) others (omega arith)
    ∙ server_name-found skipped host pos (omega arith) clean
