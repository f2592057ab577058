-- ===== src/Relay/RoundTrip.antt =====
-- What the parser makes of a header, by the parts that the header is put together from.
use openwrt_helloworld.Prelude.{
  ℕ, suc, ◌+◌, ◌-◌, ◌≤◌, ◌<◌, ◌≡◌, refl, sym, ap, ◌∙◌, subst, arith, Bool, true, false, ◌||◌, List,
  [], ◌∷◌, ◌++◌, Option, none, some, if◌then◌else◌, length, drop, All, replicate, Bool-cases, inl,
  inr, length-append, append_assoc, take-append, drop-append, ltb_of_le, le→leb, ==_false,
}
use openwrt_helloworld.Relay.{has_auth_flag, onetimeauth_bytes, parse_header_len}
use openwrt_helloworld.Relay.Request.{
  Services, ok, bytes_at, c_string, SockAddr, unset, sockaddr_in, sockaddr_in6, ReadAddress,
  verify_header, host_memory, with_port, name_target, read_address, cut_header, finish_request,
  parse_request,
}
use openwrt_helloworld.Relay.Header.{Target, ipv4, name, ipv6, address_bytes, IsTarget, IsTypeOf}
use openwrt_helloworld.Netutils.Hostname.{is_host_name, validate_hostname-is_host_name}

pub bytes_at-append :
    (pre xs post : List ℕ) (i n : ℕ)
    → i ≡ length pre
    → n ≡ length xs
    → bytes_at (pre ++ (xs ++ post)) i n ≡ ok xs
unfolding bytes_at
bytes_at-append pre xs post i n e k =
    rw
      (
        le→leb (i + n) (length (pre ++ (xs ++ post)))
            (omega (arith, length-append pre (xs ++ post), length-append xs post)),
        drop-append i pre (xs ++ post) e,
        take-append n xs post k,
      )
      refl

pub c_string-host_memory : (a pad : List ℕ) → All (λ c. 0 < c) a → c_string (a ++ (0 ∷ pad)) ≡ a
unfolding c_string
c_string-host_memory [] pad h = refl
c_string-host_memory (c ∷ a) pad h =
    rw (==_false c 0 (omega (arith, h.0))) (ap (λ k. c ∷ k) (c_string-host_memory a pad h.1))

-- The zeroed memory behind a name of at most 255 bytes.
pub host_memory_lem :
    (a : List ℕ) → length a < 256 → host_memory a ≡ a ++ (0 ∷ replicate (256 - length a) 0)
host_memory_lem a h =
    let more : 257 - length a ≡ suc (256 - length a) = omega arith in
    ap (λ n. a ++ replicate n 0) more

-- The authentication's flag, and the bytes that stand between the port and the payload.
abbrev pub is_authenticated : Services → ℕ → Bool
is_authenticated s atyp = s.auth || has_auth_flag atyp

-- The memory of a buffer with a header: the type byte, the target, the port, the HMAC, and what
-- follows it.
abbrev pub header_memory : ℕ → Target → List ℕ → List ℕ → List ℕ → List ℕ
header_memory atyp t port mac after = atyp ∷ (address_bytes t ++ (port ++ (mac ++ after)))

-- The name is not blocked, no address in text, and a good host name.
abbrev pub IsServed : Services → Target → Type 0
IsServed s (ipv4 a) = Unit
IsServed s (ipv6 a) = Unit
IsServed s (name a) =
    (s.outbound_blocked a ≡ false)
    × (s.ip_version a ≡ none)
    × (is_host_name a ≡ true)
    × All (λ c. 0 < c) a

abbrev pub info_of : Target → List ℕ → SockAddr
info_of (ipv4 a) port = sockaddr_in a port
info_of (name a) port = unset
info_of (ipv6 a) port = sockaddr_in6 a port

abbrev pub query_of : Target → Option (List ℕ)
query_of (ipv4 a) = none
query_of (name a) = some a
query_of (ipv6 a) = none

name_target-lookup :
    (s : Services) (a pad memory : List ℕ) (i offset : ℕ)
    → IsServed s (name a)
    → i ≡ offset
    → name_target s (a ++ (0 ∷ pad)) (length a) memory i
      ≡ ok (record { offset = offset; info = unset; need_query = some a })
unfolding name_target
name_target-lookup s a pad memory i offset h e =
    rw
      (
        name_target,
        c_string-host_memory a pad h.3,
        h.1,
        validate_hostname-is_host_name a pad h.3,
        h.2,
        c_string-host_memory a pad h.3,
        e,
      )
      refl

with_port-append :
    (f : List ℕ → SockAddr) (pre port after : List ℕ) (i offset : ℕ)
    → i ≡ length pre
    → i ≡ offset
    → length port ≡ 2
    → with_port f (pre ++ (port ++ after)) i
      ≡ ok (record { offset = offset; info = f port; need_query = none })
unfolding with_port
with_port-append f pre port after i offset e k p =
    rw (bytes_at-append pre port after i 2 e (sym p), k) refl

read_address-header :
    (s : Services) (atyp n : ℕ) (t : Target) (port after : List ℕ)
    → IsTypeOf atyp t
    → IsTarget t
    → IsServed s t
    → length port ≡ 2
    → 1 + length (address_bytes t) + 2 ≤ n
    → read_address s atyp (record { array = atyp ∷ (address_bytes t ++ (port ++ after)); len = n })
      ≡ ok (record {
        offset = 1 + length (address_bytes t);
        info = info_of t port;
        need_query = query_of t;
      })
unfolding read_address
read_address-header s atyp n (ipv4 a) port after e h sv p b =
    rw
      (
        e,
        le→leb 7 n (omega arith),
        bytes_at-append (atyp ∷ []) a (port ++ after) 1 4 (omega arith) (omega arith),
      )
      (with_port-append (sockaddr_in a) (atyp ∷ a) port after 5 _ (omega arith) (omega arith) p)
read_address-header s atyp n (name a) port after e h sv p b =
    rw
      (
        e,
        le→leb (length a + 4) n (omega arith),
        bytes_at-append (atyp ∷ length a ∷ []) a (port ++ after) 2 (length a) (omega arith) refl,
        host_memory_lem a h,
        c_string-host_memory a (replicate (256 - length a) 0) sv.3,
        sv.0,
      )
      (name_target-lookup s a _ _ (2 + length a) _ sv (omega arith))
read_address-header s atyp n (ipv6 a) port after e h sv p b =
    rw
      (
        e,
        le→leb 19 n (omega arith),
        bytes_at-append (atyp ∷ []) a (port ++ after) 1 16 (omega arith) (omega arith),
      )
      (with_port-append (sockaddr_in6 a) (atyp ∷ a) port after 17 _ (omega arith) (omega arith) p)

cut_header-append :
    (front payload slack m : List ℕ) (n offset : ℕ)
    → m ≡ front ++ (payload ++ slack)
    → offset ≡ length front
    → n ≡ length front + length payload
    → cut_header (record { array = m; len = n }) offset
      ≡ ok (record { array = payload ++ drop (length payload) m; len = length payload })
unfolding cut_header
cut_header-append front payload slack m n offset e k size =
    let rest : n - offset ≡ length payload = omega arith in
    rw
      (
        ltb_of_le n offset (omega arith),
        rest,
        e,
        bytes_at-append front payload slack offset (length payload) k refl,
      )
      refl

-- `m` is the memory, split around the port, and in front of the payload.
finish_request-append :
    (auth : Bool) (pre port after front payload slack m : List ℕ) (n : ℕ) (a : ReadAddress)
    → m ≡ pre ++ (port ++ after)
    → m ≡ front ++ (payload ++ slack)
    → 1 < a.offset
    → a.offset ≡ length pre
    → length port ≡ 2
    → (if auth then a.offset + 2 + onetimeauth_bytes else a.offset + 2) ≡ length front
    → n ≡ length front + length payload
    → finish_request auth (record { array = m; len = n }) a
      ≡ ok (record {
        auth = auth;
        info = a.info;
        need_query = a.need_query;
        port = port;
        buf = record { array = payload ++ drop (length payload) m; len = length payload };
      })
unfolding finish_request
finish_request-append auth pre port after front payload slack m n a e f big o p k size =
    rw
      (
        ==_false a.offset 1 big,
        subst (λ x. bytes_at x a.offset 2 ≡ ok port) (sym e)
            (bytes_at-append pre port after a.offset 2 o (sym p)),
        cut_header-append front payload slack m n
            (if auth then a.offset + 2 + onetimeauth_bytes else a.offset + 2) f k size,
      )
      refl

parse_header_len-header :
    (atyp : ℕ) (t : Target) (after : List ℕ)
    → IsTypeOf atyp t
    → IsTarget t
    → parse_header_len atyp (atyp ∷ (address_bytes t ++ after)) 1
      ≡ some (length (address_bytes t) + 2)
unfolding parse_header_len
parse_header_len-header atyp (ipv4 a) after e h = rw (e) (ap some (omega arith))
parse_header_len-header atyp (name a) after e h = rw (e) (ap some (omega arith))
parse_header_len-header atyp (ipv6 a) after e h = rw (e) (ap some (omega arith))

-- The number of bytes of the HMAC.
abbrev pub mac_len : Services → ℕ → ℕ
mac_len s atyp = if is_authenticated s atyp then onetimeauth_bytes else 0

header_memory-split :
    (atyp : ℕ) (t : Target) (port mac after : List ℕ)
    → header_memory atyp t port mac after ≡ (atyp ∷ (address_bytes t ++ (port ++ mac))) ++ after
header_memory-split atyp t port mac after =
    ap (λ l. atyp ∷ l)
      (sym (
        append_assoc (address_bytes t) (port ++ mac) after
        ∙ ap (λ l. address_bytes t ++ l) (append_assoc port mac after)))

length-front :
    (atyp : ℕ) (t : Target) (port mac : List ℕ)
    → length port ≡ 2
    → length (atyp ∷ (address_bytes t ++ (port ++ mac)))
      ≡ 1 + length (address_bytes t) + 2 + length mac
length-front atyp t port mac p =
    omega (arith, length-append (address_bytes t) (port ++ mac), length-append port mac, p)

verify_header-header :
    (s : Services) (atyp n : ℕ) (t : Target) (port mac after : List ℕ)
    → IsTypeOf atyp t
    → IsTarget t
    → length port ≡ 2
    → length mac ≡ mac_len s atyp
    → (is_authenticated s atyp ≡ true
        → s.onetimeauth_fails (atyp ∷ (address_bytes t ++ (port ++ mac))) ≡ false)
    → 1 + length (address_bytes t) + 2 + length mac ≤ n
    → verify_header s false atyp (record { array = header_memory atyp t port mac after; len = n })
      ≡ ok (is_authenticated s atyp)
unfolding verify_header
verify_header-header s atyp n t port mac after e h p m good b =
    elim (Bool-cases (is_authenticated s atyp)) [
      | inr off ↦ rw (off) refl
      | inl on ↦
          let size : length mac ≡ 10 = rw (on) at m in
          rw
            (
              on,
              parse_header_len-header atyp t (port ++ (mac ++ after)) e h,
              ==_false (length (address_bytes t) + 2) 0 (omega arith),
              ltb_of_le n (1 + (length (address_bytes t) + 2) + 10) (omega arith),
              header_memory-split atyp t port mac after,
              bytes_at-append [] (atyp ∷ (address_bytes t ++ (port ++ mac))) after 0
                  (1 + (length (address_bytes t) + 2) + 10) refl
                  (omega (arith, length-front atyp t port mac p)),
              good on,
            )
            refl
    ]

pub address_bytes-pos : (t : Target) → IsTarget t → 0 < length (address_bytes t)
address_bytes-pos (ipv4 a) h = omega arith
address_bytes-pos (name a) h = omega arith
address_bytes-pos (ipv6 a) h = omega arith

offset_lem :
    (s : Services) (atyp offset : ℕ) (mac : List ℕ)
    → length mac ≡ mac_len s atyp
    → (if is_authenticated s atyp then offset + 2 + onetimeauth_bytes else offset + 2)
      ≡ offset + 2 + length mac
offset_lem s atyp offset mac m = elim (Bool-cases (is_authenticated s atyp)) [
  | inl on ↦ rw (m, on) refl
  | inr off ↦ rw (m, off) (omega arith)
]

pub parse_request-header_memory :
    (s : Services) (atyp : ℕ) (t : Target) (port mac payload slack : List ℕ)
    → IsTypeOf atyp t
    → IsTarget t
    → IsServed s t
    → length port ≡ 2
    → length mac ≡ mac_len s atyp
    → (is_authenticated s atyp ≡ true
        → s.onetimeauth_fails (atyp ∷ (address_bytes t ++ (port ++ mac))) ≡ false)
    → parse_request s false (record {
      array = header_memory atyp t port mac (payload ++ slack);
      len = 1 + length (address_bytes t) + 2 + length mac + length payload;
    })
      ≡ ok (record {
        auth = is_authenticated s atyp;
        info = info_of t port;
        need_query = query_of t;
        port = port;
        buf = record {
          array =
              payload ++ drop (length payload) (header_memory atyp t port mac (payload ++ slack));
          len = length payload;
        };
      })
unfolding parse_request
parse_request-header_memory s atyp t port mac payload slack e h sv p m good =
    let n : ℕ = 1 + length (address_bytes t) + 2 + length mac + length payload in
    rw
      (
        verify_header-header s atyp n t port mac (payload ++ slack) e h p m good (omega arith),
        read_address-header s atyp n t port (mac ++ (payload ++ slack)) e h sv p (omega arith),
      )
      (finish_request-append (is_authenticated s atyp) (atyp ∷ address_bytes t) port
        (mac ++ (payload ++ slack)) (atyp ∷ (address_bytes t ++ (port ++ mac))) payload slack _ n _
        refl (header_memory-split atyp t port mac (payload ++ slack))
        (omega (arith, address_bytes-pos t h)) (omega arith) p
        (offset_lem s atyp (1 + length (address_bytes t)) mac m
          ∙ sym (length-front atyp t port mac p))
        (omega (arith, length-front atyp t port mac p)))
