-- ===== src/Tls/Safety.antt =====
-- The parser reads only inside the bytes that it is handed, and its loops end.
use openwrt_helloworld.Prelude.{
  ℕ, zero, suc, ◌+◌, ◌-◌, ◌*◌, ◌^◌, ◌≤◌, ◌<◌, ◌≡◌, refl, arith, List, [], ◌∷◌, length-append, ◌&&◌,
  ◌||◌, not, bit_and, some, ltb, leb, ◌==◌, length, get_elem?, take, drop, if◌then◌else◌,
  length-drop, length-take, length-replicate, min, Bool, true, false, leb→le, ltb→lt,
}
use openwrt_helloworld.Tls.{
  Outcome, found, error, fault, no_fuel, ◌>>=◌, strncpy, word_at, host_name, server_name_loop,
  parse_server_name_extension, extensions_loop, parse_extensions, after_compression, after_ciphers,
  after_session, handshake, from_length, parse_tls_header,
}

-- A normal return: a code from 1 to 5, or a name that lies inside the `n` bytes and is stored with
-- its final zero.
abbrev pub IsReturn : ℕ → Outcome → Type 0
IsReturn n (found len name) = (len ≤ n) × (length name ≡ len + 1)
IsReturn n (error code) = (1 ≤ code) × (code ≤ 5)
IsReturn n fault = ⊥
IsReturn n no_fuel = ⊥

IsReturn-mono : (n m : ℕ) (o : Outcome) → n ≤ m → IsReturn n o → IsReturn m o
IsReturn-mono n m (found len name) h r = omega arith
IsReturn-mono n m (error code) h r = r
IsReturn-mono n m fault h r = r
IsReturn-mono n m no_fuel h r = r

-- A read inside the list goes on with some value.
read-IsReturn :
    (n : ℕ) (bytes : List ℕ) (i : ℕ) (k : ℕ → Outcome)
    → i < length bytes
    → ((v : ℕ) → IsReturn n (k v))
    → IsReturn n (get_elem? bytes i >>= k)
read-IsReturn n [] i k h r = absurd (omega arith)
read-IsReturn n (x ∷ bytes) zero k h r = r x
read-IsReturn n (x ∷ bytes) (suc i) k h r = read-IsReturn n bytes i k (omega arith) r

word-IsReturn :
    (n : ℕ) (bytes : List ℕ) (i : ℕ) (k : ℕ → Outcome)
    → i + 1 < length bytes
    → ((v : ℕ) → IsReturn n (k v))
    → IsReturn n (word_at bytes i k)
word-IsReturn n bytes i k h r =
    read-IsReturn n bytes i _ (omega arith)
      (λ hi. read-IsReturn n bytes (i + 1) _ h (λ lo. r (hi * 2 ^ 8 + lo)))

-- A test hands each branch its outcome.
if-IsReturn :
    (n : ℕ) (b : Bool) (x y : Outcome)
    → (b ≡ true → IsReturn n x)
    → (b ≡ false → IsReturn n y)
    → IsReturn n (if b then x else y)
if-IsReturn n true x y p q = p refl
if-IsReturn n false x y p q = q refl

elim-IsReturn :
    (n : ℕ) (b : Bool) (x y : Outcome)
    → (b ≡ true → IsReturn n x)
    → (b ≡ false → IsReturn n y)
    → IsReturn n (elim b [ true ↦ x | false ↦ y ])
elim-IsReturn n true x y p q = p refl
elim-IsReturn n false x y p q = q refl

-- A parser that is handed a part of the bytes.
IsReturn-slice :
    (bytes : List ℕ) (from len : ℕ) (parse : List ℕ → Outcome)
    → ((part : List ℕ) → IsReturn (length part) (parse part))
    → IsReturn (length bytes) (parse (take len (drop from bytes)))
IsReturn-slice bytes from len parse h =
    IsReturn-mono _ _ (parse (take len (drop from bytes)))
      (omega (arith, length-take len (drop from bytes), length-drop from bytes))
      (h (take len (drop from bytes)))

pub strncpy-some :
    (n : ℕ) (source : List ℕ)
    → n ≤ length source
    → (name : List ℕ) × (strncpy n source ≡ some name) × (length name ≡ n)
unfolding strncpy
strncpy-some zero source h = ([], refl, refl)
strncpy-some (suc n) [] h = absurd (omega arith)
strncpy-some (suc n) (zero ∷ source) h = (_, refl, length-replicate (suc n) 0)
strncpy-some (suc n) (suc c ∷ source) h =
    let (name, e, l) = strncpy-some n source (omega arith) in (suc c ∷ name, rw e, omega (arith, l))

module _ (malloc_ok : Bool) where
  host_name-IsReturn :
      (bytes : List ℕ) (pos len : ℕ)
      → pos + 3 + len ≤ length bytes
      → IsReturn (length bytes) (host_name malloc_ok bytes pos len)
  unfolding host_name
  host_name-IsReturn bytes pos len h =
      let (name, e, l) =
        strncpy-some len (drop (pos + 3) bytes) (omega (arith, length-drop (pos + 3) bytes)) in
      if-IsReturn _ (not malloc_ok) _ _ (λ _. omega arith)
        (λ _. rw e (omega (arith, l, length-append name (0 ∷ []))))

  server_name_loop-IsReturn :
      (fuel : ℕ) (bytes : List ℕ) (pos : ℕ)
      → length bytes - pos < fuel
      → IsReturn (length bytes) (server_name_loop malloc_ok fuel bytes pos)
  unfolding server_name_loop
  server_name_loop-IsReturn zero bytes pos h = absurd (omega arith)
  server_name_loop-IsReturn (suc fuel) bytes pos h =
      elim-IsReturn _ (ltb (pos + 3) (length bytes)) _ _
        (λ more.
          let inside : pos + 3 < length bytes = ltb→lt _ _ more in
          word-IsReturn _ bytes (pos + 1) _ (omega arith) λ len.
            elim-IsReturn _ (ltb (length bytes) (pos + 3 + len)) (error 5) _ (λ _. omega arith)
              λ fits. read-IsReturn _ bytes pos _ (omega arith) λ name_type.
                elim-IsReturn _ (name_type == 0) _ _
                  (λ _. host_name-IsReturn bytes pos len (ground arith))
                  (λ _. server_name_loop-IsReturn fuel bytes (pos + (3 + len)) (ground arith)))
        (λ _.
          if-IsReturn _ (not (pos == length bytes)) (error 5) (error 2) (λ _. omega arith)
            (λ _. omega arith))

  parse_server_name_extension-IsReturn :
      (bytes : List ℕ) → IsReturn (length bytes) (parse_server_name_extension malloc_ok bytes)
  unfolding parse_server_name_extension
  parse_server_name_extension-IsReturn bytes =
      server_name_loop-IsReturn (suc (length bytes)) bytes 2 (omega arith)

  extensions_loop-IsReturn :
      (fuel : ℕ) (bytes : List ℕ) (pos : ℕ)
      → length bytes - pos < fuel
      → IsReturn (length bytes) (extensions_loop malloc_ok fuel bytes pos)
  unfolding extensions_loop
  extensions_loop-IsReturn zero bytes pos h = absurd (omega arith)
  extensions_loop-IsReturn (suc fuel) bytes pos h =
      elim-IsReturn _ (leb (pos + 4) (length bytes)) _ _
        (λ more.
          let inside : pos + 4 ≤ length bytes = leb→le _ _ more in
          word-IsReturn _ bytes (pos + 2) _ (omega arith) λ len.
            read-IsReturn _ bytes pos _ (omega arith) λ hi.
              read-IsReturn _ bytes (pos + 1) _ (omega arith) λ lo.
                elim-IsReturn _ (hi == 0 && lo == 0) _ _
                  (λ _.
                    if-IsReturn _ (ltb (length bytes) (pos + 4 + len)) (error 5) _
                      (λ _. omega arith)
                      λ fits.
                        IsReturn-slice bytes (pos + 4) len (parse_server_name_extension malloc_ok)
                          parse_server_name_extension-IsReturn)
                  (λ _. extensions_loop-IsReturn fuel bytes (pos + (4 + len)) (omega arith)))
        (λ _.
          if-IsReturn _ (not (pos == length bytes)) (error 5) (error 2) (λ _. omega arith)
            (λ _. omega arith))

  parse_extensions-IsReturn :
      (bytes : List ℕ) → IsReturn (length bytes) (parse_extensions malloc_ok bytes)
  unfolding parse_extensions
  parse_extensions-IsReturn bytes =
      extensions_loop-IsReturn (suc (length bytes)) bytes 0 (omega arith)

  -- The stages of the header, which test positions against `data_len`.
  module _ (bytes : List ℕ) (data_len major minor : ℕ) (within : data_len ≤ length bytes) where
    after_compression-IsReturn :
        (pos : ℕ)
        → IsReturn (length bytes) (after_compression malloc_ok bytes data_len major minor pos)
    unfolding after_compression
    after_compression-IsReturn pos =
        if-IsReturn _ (pos == data_len && (major == 3 && minor == 0)) (error 2) _ (λ _. omega arith)
          λ _.
            if-IsReturn _ (ltb data_len (pos + 2)) (error 5) _ (λ _. omega arith)
              λ room. word-IsReturn _ bytes pos _ (ground arith) λ len.
                if-IsReturn _ (ltb data_len (pos + 2 + len)) (error 5) _ (λ _. omega arith)
                  λ _.
                    IsReturn-slice bytes (pos + 2) len (parse_extensions malloc_ok)
                      parse_extensions-IsReturn

    after_ciphers-IsReturn :
        (pos : ℕ) → IsReturn (length bytes) (after_ciphers malloc_ok bytes data_len major minor pos)
    unfolding after_ciphers
    after_ciphers-IsReturn pos =
        if-IsReturn _ (ltb data_len (pos + 1)) (error 5) _ (λ _. omega arith)
          λ room.
            read-IsReturn _ bytes pos _ (ground arith)
              λ len. after_compression-IsReturn (pos + (1 + len))

    after_session-IsReturn :
        (pos : ℕ) → IsReturn (length bytes) (after_session malloc_ok bytes data_len major minor pos)
    unfolding after_session
    after_session-IsReturn pos =
        if-IsReturn _ (ltb data_len (pos + 2)) (error 5) _ (λ _. omega arith)
          λ room.
            word-IsReturn _ bytes pos _ (ground arith)
              λ len. after_ciphers-IsReturn (pos + (2 + len))

    handshake-IsReturn : IsReturn (length bytes) (handshake malloc_ok bytes data_len major minor)
    unfolding handshake
    handshake-IsReturn =
        if-IsReturn _ (ltb data_len 6) (error 5) _ (λ _. omega arith)
          λ room. read-IsReturn _ bytes 5 _ (ground arith) λ handshake_type.
            if-IsReturn _ (not (handshake_type == 1)) (error 5) _ (λ _. omega arith)
              λ _.
                if-IsReturn _ (ltb data_len 44) (error 5) _ (λ _. omega arith)
                  λ room'.
                    read-IsReturn _ bytes 43 _ (ground arith)
                      λ len. after_session-IsReturn (43 + (1 + len))

  from_length-IsReturn :
      (bytes : List ℕ) (major minor : ℕ)
      → 5 ≤ length bytes
      → IsReturn (length bytes) (from_length malloc_ok bytes major minor)
  unfolding from_length
  from_length-IsReturn bytes major minor room = word-IsReturn _ bytes 3 _ (omega arith) λ n.
      if-IsReturn _ (ltb (min (length bytes) (n + 5)) (n + 5)) (error 1) _ (λ _. omega arith)
        λ _. handshake-IsReturn bytes (min (length bytes) (n + 5)) major minor (omega arith)

  -- Whatever the bytes, `parse_tls_header` reads none outside of them and its loops end: it returns
  -- a code from -1 to -5, or the length of a name that is no longer than the packet and is stored
  -- with a final zero.
  pub parse_tls_header-IsReturn :
      (char_signed has_hostname : Bool) (bytes : List ℕ)
      → IsReturn (length bytes) (parse_tls_header malloc_ok char_signed has_hostname bytes)
  unfolding parse_tls_header
  parse_tls_header-IsReturn char_signed has_hostname bytes =
      if-IsReturn _ (not has_hostname) (error 3) _ (λ _. omega arith)
        λ _.
          if-IsReturn _ (ltb (length bytes) 5) (error 1) _ (λ _. omega arith)
            λ room. read-IsReturn _ bytes 0 _ (ground arith) λ content_type.
              read-IsReturn _ bytes 1 _ (ground arith) λ major.
                read-IsReturn _ bytes 2 _ (ground arith) λ minor.
                  if-IsReturn _ (not (bit_and content_type 0x80 == 0) && minor == 1) (error 2) _
                    (λ _. omega arith)
                    λ _.
                      if-IsReturn _ (not (content_type == 0x16)) (error 5) _ (λ _. omega arith)
                        λ _.
                          if-IsReturn _ (ltb major 3 || (char_signed && leb 128 major)) (error 2) _
                            (λ _. omega arith)
                            λ _. from_length-IsReturn bytes major minor (ground arith)
