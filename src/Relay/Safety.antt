-- ===== src/Relay/Safety.antt =====
-- The parser of a request reads only memory of its buffer, whatever the buffer holds.
use openwrt_helloworld.Prelude.{
  ℕ, zero, suc, ◌+◌, ◌-◌, ◌≤◌, ◌<◌, ◌≡◌, ◌≢◌, ◌⊎◌, refl, arith, Bool, true, false, ◌||◌, List, [],
  ◌∷◌, none, leb, ltb, ◌==◌, if◌then◌else◌, get_elem?, get_or, length, drop, Bool-cases, inl, inr,
  length-append, length-take, length-drop, leb→le, le→leb, Option-cases, ltb_false→le,
}
use openwrt_helloworld.Relay.{Buffer, addr_type, has_auth_flag, onetimeauth_bytes, parse_header_len}
use openwrt_helloworld.Relay.Request.{
  Services, Outcome, ok, closed, fault, no_fuel, ◌>>=◌, reading, bytes_at, c_string, SockAddr,
  ReadAddress, verify_header, host_memory, with_port, name_target, read_address, Request,
  cut_header, finish_request, parse_request,
}
use openwrt_helloworld.Netutils.{validate_hostname, labels_loop, label_length, is_label}

-- A result has the property, and there is no read outside of the memory.
abbrev pub Holds {ℓ} : {A : Type ℓ} → (A → Type 0) → Outcome A → Type 0
Holds P (ok a) = P a
Holds P (closed l) = Unit
Holds P fault = ⊥
Holds P no_fuel = ⊥

bind-Holds {ℓ κ} :
    {A : Type ℓ} {B : Type κ} (P : A → Type 0) (Q : B → Type 0) (m : Outcome A) (f : A → Outcome B)
    → Holds P m
    → ((a : A) → P a → Holds Q (f a))
    → Holds Q (m >>= f)
bind-Holds P Q (ok a) f h k = k a h
bind-Holds P Q (closed l) f h k = tt
bind-Holds P Q fault f h k = absurd h
bind-Holds P Q no_fuel f h k = absurd h

if-Holds {ℓ} :
    {A : Type ℓ} (P : A → Type 0) (b : Bool) (x y : Outcome A)
    → (b ≡ true → Holds P x)
    → (b ≡ false → Holds P y)
    → Holds P (if b then x else y)
if-Holds P true x y p q = p refl
if-Holds P false x y p q = q refl

bytes_at-Holds :
    (memory : List ℕ) (i n : ℕ)
    → i + n ≤ length memory
    → Holds (λ xs. length xs ≡ n) (bytes_at memory i n)
unfolding bytes_at
bytes_at-Holds memory i n h =
    rw (le→leb (i + n) (length memory) h)
      (omega (arith, length-take n (drop i memory), length-drop i memory))

reading-Holds {ℓ} :
    {A : Type ℓ} (xs : List A) (i : ℕ)
    → i < length xs
    → Holds (λ a. Unit) (reading (get_elem? xs i))
reading-Holds [] i h = absurd (omega arith)
reading-Holds (x ∷ xs) zero h = tt
reading-Holds (x ∷ xs) (suc i) h = reading-Holds xs i (omega arith)

-- The loop over the labels ends on any memory.
labels_loop-some :
    (fuel : ℕ) (label : List ℕ) (left : ℕ) → left ≤ fuel → labels_loop fuel label left ≢ none
unfolding labels_loop
labels_loop-some fuel label zero h = λ e. ground arith
labels_loop-some zero label (suc left) h = absurd (omega arith)
labels_loop-some (suc fuel) label (suc left) h =
    elim (Bool-cases (is_label label (label_length label (suc left)) (suc left))) [
      | inl e ↦ rw (labels_loop, e) (labels_loop-some fuel _ _ (omega arith))
      | inr e ↦ rw (labels_loop, e) (λ k. ground arith)
    ]

validate_hostname-some :
    (hostname : List ℕ) (hostname_len : ℕ) → validate_hostname hostname hostname_len ≢ none
unfolding validate_hostname
validate_hostname-some hostname n = elim (Bool-cases (ltb n 1 || ltb 255 n)) [
  | inl e ↦ rw (e) (λ k. ground arith)
  | inr e ↦ elim (Bool-cases (get_or hostname 0 0 == b'.')) [
    | inl d ↦ rw (e, d) (λ k. ground arith)
    | inr d ↦ rw (e, d) (labels_loop-some n hostname n (omega arith))
  ]
]

-- What a step leaves of the offset, in a buffer with `n` bytes.
abbrev IsInside : ℕ → ReadAddress → Type 0
IsInside n a = (a.offset ≡ 1) ⊎ ((2 ≤ a.offset) × (a.offset + 2 ≤ n))

with_port-Holds :
    (f : List ℕ → SockAddr) (memory : List ℕ) (offset n : ℕ)
    → 2 ≤ offset
    → offset + 2 ≤ n
    → n ≤ length memory
    → Holds (IsInside n) (with_port f memory offset)
unfolding with_port
with_port-Holds f memory offset n two h b =
    bind-Holds _ (IsInside n) (bytes_at memory offset 2) _
      (bytes_at-Holds memory offset 2 (omega arith)) (λ port e. inr (two, h))

name_target-Holds :
    (s : Services) (host : List ℕ) (name_len n : ℕ) (memory : List ℕ) (offset : ℕ)
    → 2 ≤ offset
    → offset + 2 ≤ n
    → n ≤ length memory
    → Holds (IsInside n) (name_target s host name_len memory offset)
unfolding name_target
name_target-Holds s host name_len n memory offset two h b =
    elim (Option-cases (s.ip_version (c_string host))) [
      | inr (version, e) ↦
          rw (name_target, e)
            (if-Holds (IsInside n) (version == 4) _ _
              (λ k. with_port-Holds _ memory offset n two h b)
              (λ k.
                if-Holds (IsInside n) (version == 6) _ _
                  (λ k. with_port-Holds _ memory offset n two h b) (λ k. inr (two, h))))
      | inl e ↦ elim (Option-cases (validate_hostname host name_len)) [
        | inl d ↦ absurd (validate_hostname-some host name_len d)
        | inr (true, d) ↦ rw (name_target, e, d) (inr (two, h))
        | inr (false, d) ↦ rw (name_target, e, d) tt
      ]
    ]

read_address-Holds :
    (s : Services) (atyp : ℕ) (buf : Buffer)
    → buf.len ≤ length buf.array
    → 2 ≤ length buf.array
    → Holds (IsInside buf.len) (read_address s atyp buf)
unfolding read_address
read_address-Holds s atyp buf b two =
    let P : ReadAddress → Type 0 = IsInside buf.len in
    if-Holds P (addr_type atyp == 1) _ _
      (λ e.
        if-Holds P (leb 7 buf.len) _ _
          (λ k.
            bind-Holds _ P (bytes_at buf.array 1 4) _
              (bytes_at-Holds buf.array 1 4 (omega (arith, leb→le 7 buf.len k)))
              (λ addr d.
                with_port-Holds _ buf.array 5 buf.len (omega arith)
                  (omega (arith, leb→le 7 buf.len k)) b))
          (λ k. tt))
      (λ e.
        if-Holds P (addr_type atyp == 3) _ _
          (λ e.
            bind-Holds _ P (reading (get_elem? buf.array 1)) _
              (reading-Holds buf.array 1 (omega arith))
              (λ name_len d.
                if-Holds P (leb (name_len + 4) buf.len) _ _
                  (λ k.
                    bind-Holds _ P (bytes_at buf.array 2 name_len) _
                      (bytes_at-Holds buf.array 2 name_len
                        (omega (arith, leb→le (name_len + 4) buf.len k)))
                      (λ name d.
                        if-Holds P (s.outbound_blocked (c_string (host_memory name))) _ _ (λ j. tt)
                          (λ j.
                            name_target-Holds s (host_memory name) name_len buf.len buf.array
                              (2 + name_len) (omega arith)
                              (omega (arith, leb→le (name_len + 4) buf.len k)) b)))
                  (λ k. tt)))
          (λ e.
            if-Holds P (addr_type atyp == 4) _ _
              (λ e.
                if-Holds P (leb 19 buf.len) _ _
                  (λ k.
                    bind-Holds _ P (bytes_at buf.array 1 16) _
                      (bytes_at-Holds buf.array 1 16 (omega (arith, leb→le 19 buf.len k)))
                      (λ addr d.
                        with_port-Holds _ buf.array 17 buf.len (omega arith)
                          (omega (arith, leb→le 19 buf.len k)) b))
                  (λ k. tt))
              (λ e. inl refl)))

parse_header_len-Holds :
    (atyp : ℕ) (memory : List ℕ)
    → 2 ≤ length memory
    → Holds (λ n. Unit) (reading (parse_header_len atyp memory 1))
unfolding parse_header_len
parse_header_len-Holds atyp [] h = absurd (omega arith)
parse_header_len-Holds atyp (x ∷ []) h = absurd (omega arith)
parse_header_len-Holds atyp (x ∷ y ∷ memory) h = elim (Bool-cases (addr_type atyp == 1)) [
  | inl e ↦ rw (e) tt
  | inr e ↦ elim (Bool-cases (addr_type atyp == 3)) [
    | inl d ↦ rw (e, d) tt
    | inr d ↦ elim (Bool-cases (addr_type atyp == 4)) [
      | inl c ↦ rw (e, d, c) tt
      | inr c ↦ rw (e, d, c) tt
    ]
  ]
]

||-right : (a b : Bool) → a || b ≡ false → b ≡ false
||-right true b h = ground arith
||-right false b h = h

verify_header-Holds :
    (s : Services) (server_auth : Bool) (atyp : ℕ) (buf : Buffer)
    → buf.len ≤ length buf.array
    → 2 ≤ length buf.array
    → Holds (λ auth. Unit) (verify_header s server_auth atyp buf)
unfolding verify_header
verify_header-Holds s server_auth atyp buf b two =
    let P : Bool → Type 0 = λ auth. Unit in
    if-Holds P (s.auth || has_auth_flag atyp) _ _
      (λ e.
        bind-Holds (λ n. Unit) P (reading (parse_header_len atyp buf.array 1)) _
          (parse_header_len-Holds atyp buf.array two)
          (λ n d.
            if-Holds P ((n == 0) || ltb buf.len (1 + n + onetimeauth_bytes)) _ _ (λ k. tt)
              (λ k.
                bind-Holds _ P (bytes_at buf.array 0 (1 + n + onetimeauth_bytes)) _
                  (bytes_at-Holds buf.array 0 (1 + n + onetimeauth_bytes) (
                    omega (
                      arith,
                      ltb_false→le buf.len (1 + n + onetimeauth_bytes) (||-right (n == 0) _ k),
                    )))
                  (λ header d. if-Holds P (s.onetimeauth_fails header) _ _ (λ j. tt) (λ j. tt)))))
      (λ e. tt)

cut_header-Holds :
    (buf : Buffer) (offset : ℕ)
    → buf.len ≤ length buf.array
    → Holds
        (λ rest. (rest.len + offset ≡ buf.len) × (length rest.array ≡ length buf.array))
        (cut_header buf offset)
unfolding cut_header
cut_header-Holds buf offset b =
    let P : Buffer → Type 0 =
      λ rest. (rest.len + offset ≡ buf.len) × (length rest.array ≡ length buf.array) in
    if-Holds P (ltb buf.len offset) _ _ (λ e. tt)
      (λ e.
        let inside : offset ≤ buf.len = ltb_false→le buf.len offset e in
        bind-Holds _ P (bytes_at buf.array offset (buf.len - offset)) _
          (bytes_at-Holds buf.array offset (buf.len - offset) (omega arith))
          (λ rest d. (
            omega arith,
            omega (
              arith,
              d,
              length-append rest (drop (buf.len - offset) buf.array),
              length-drop (buf.len - offset) buf.array,
            ),
          )))

-- What is left of a buffer: at least the type, a length and a port are gone, and the memory has its
-- size.
abbrev pub IsCut : Buffer → Request → Type 0
IsCut buf r = (r.buf.len + 4 ≤ buf.len) × (length r.buf.array ≡ length buf.array)

abbrev offset_behind : Bool → ReadAddress → ℕ
offset_behind auth a = if auth then a.offset + 2 + onetimeauth_bytes else a.offset + 2

offset_behind-le : (auth : Bool) (a : ReadAddress) → a.offset + 2 ≤ offset_behind auth a
offset_behind-le auth a = ground arith

finish_request-Holds :
    (auth : Bool) (buf : Buffer) (a : ReadAddress)
    → buf.len ≤ length buf.array
    → IsInside buf.len a
    → Holds (IsCut buf) (finish_request auth buf a)
unfolding finish_request
finish_request-Holds auth buf a b h =
    if-Holds (IsCut buf) (a.offset == 1) _ _ (λ e. tt)
      (λ e.
        let inside : (2 ≤ a.offset) × (a.offset + 2 ≤ buf.len) = ground (arith, h) in
        bind-Holds _ (IsCut buf) (bytes_at buf.array a.offset 2) _
          (bytes_at-Holds buf.array a.offset 2 (omega (arith, inside)))
          (λ port d.
            bind-Holds _ (IsCut buf) (cut_header buf (offset_behind auth a)) _
              (cut_header-Holds buf (offset_behind auth a) b)
              (λ rest k. (omega (arith, k.0, inside, offset_behind-le auth a), k.1))))

-- On any buffer with memory for two bytes, and whatever the services answer, the parser reads only
-- memory of the buffer and its loop ends; a request that it accepts leaves at least four bytes less
-- than there were, in a memory of the same size.
pub parse_request-IsCut :
    (s : Services) (server_auth : Bool) (buf : Buffer)
    → buf.len ≤ length buf.array
    → 2 ≤ length buf.array
    → Holds (IsCut buf) (parse_request s server_auth buf)
unfolding parse_request
parse_request-IsCut s server_auth buf b two =
    bind-Holds _ (IsCut buf) (reading (get_elem? buf.array 0)) _
      (reading-Holds buf.array 0 (omega arith))
      (λ atyp d.
        bind-Holds _ (IsCut buf) (verify_header s server_auth atyp buf) _
          (verify_header-Holds s server_auth atyp buf b two)
          (λ auth d.
            bind-Holds _ (IsCut buf) (read_address s atyp buf) _
              (read_address-Holds s atyp buf b two) (λ a h. finish_request-Holds auth buf a b h)))
