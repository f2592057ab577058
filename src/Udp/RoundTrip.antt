-- ===== src/Udp/RoundTrip.antt =====
-- What the parser of a packet makes of a header, and what the parser of a stream makes of it.
use openwrt_helloworld.Prelude.{
  ℕ, suc, ◌+◌, ◌≤◌, ◌<◌, ◌≡◌, refl, sym, ap, ◌∙◌, arith, false, List, [], ◌∷◌, ◌++◌, some, length,
  All, replicate, le→leb, ==_false, length-append, append_assoc, ◌-◌,
}
use openwrt_helloworld.Relay.{addr_type}
use openwrt_helloworld.Relay.Request.{
  Services, ok, SockAddr, unset, sockaddr_in, sockaddr_in6, Request, parse_request,
}
use openwrt_helloworld.Relay.Header.{Target, ipv4, name, ipv6, address_bytes, IsTarget, IsTypeOf}
use openwrt_helloworld.Relay.RoundTrip.{
  bytes_at-append, c_string-host_memory, host_memory_lem, IsServed, info_of, header_memory,
  is_authenticated, parse_request-header_memory, address_bytes-pos,
}
use openwrt_helloworld.Relay.Stages.{true≢false}
use openwrt_helloworld.Udp.{
  construct_udprealy_header, UdpHeader, Printers, ntohs, binary_address, named_storage,
  named_address, find_address, finish_header, parse_udprealy_header,
}

-- A name without zeros.
abbrev pub IsText : Target → Type 0
IsText (ipv4 a) = Unit
IsText (name a) = All (λ c. 0 < c) a
IsText (ipv6 a) = Unit

abbrev pub storage_of : Printers → Target → List ℕ → SockAddr
storage_of p (ipv4 a) port = sockaddr_in a port
storage_of p (name a) port = named_storage p.services (p.services.ip_version a) a port
storage_of p (ipv6 a) port = sockaddr_in6 a port

abbrev pub host_of : Printers → Target → List ℕ
host_of p (ipv4 a) = p.ntop a
host_of p (name a) = a
host_of p (ipv6 a) = p.ntop6 a

binary_address-append :
    (atyp n len : ℕ) (a port after : List ℕ) (f : List ℕ → List ℕ → SockAddr) (g : List ℕ → List ℕ)
    → length a ≡ n
    → length port ≡ 2
    → n + 3 ≤ len
    → binary_address (record { array = atyp ∷ (a ++ (port ++ after)); len = len }) n f g
      ≡ ok (record { offset = 1 + n; storage = f a port; host = g a })
unfolding binary_address
binary_address-append atyp n len a port after f g e p b =
    rw
      (
        le→leb (n + 3) len b,
        bytes_at-append (atyp ∷ []) a (port ++ after) 1 n (omega arith) (sym e),
        bytes_at-append (atyp ∷ a) port after (1 + n) 2 (omega arith) (sym p),
      )
      refl

find_address-header :
    (p : Printers) (atyp len : ℕ) (t : Target) (port after : List ℕ)
    → IsTypeOf atyp t
    → IsTarget t
    → IsText t
    → length port ≡ 2
    → 1 + length (address_bytes t) + 2 ≤ len
    → find_address p atyp
        (record { array = atyp ∷ (address_bytes t ++ (port ++ after)); len = len })
      ≡ ok (record {
        offset = 1 + length (address_bytes t);
        storage = storage_of p t port;
        host = host_of p t;
      })
unfolding find_address named_address
find_address-header p atyp len (ipv4 a) port after e h z q b = rw (e) (
    binary_address-append atyp 4 len a port after sockaddr_in p.ntop h q (omega arith)
    ∙ ap (λ n. ok (record { offset = n; storage = sockaddr_in a port; host = p.ntop a }))
        (omega arith))
find_address-header p atyp len (name a) port after e h z q b =
    rw
      (
        e,
        le→leb (length a + 4) len (omega arith),
        bytes_at-append (atyp ∷ length a ∷ []) a (port ++ after) 2 (length a) (omega arith) refl,
        bytes_at-append (atyp ∷ length a ∷ a) port after (2 + length a) 2 (omega arith) (sym q),
        host_memory_lem a h,
        c_string-host_memory a (replicate (256 - length a) 0) z,
      )
      (ap (λ n. ok (record { offset = n; storage = storage_of p (name a) port; host = a }))
        (omega arith))
find_address-header p atyp len (ipv6 a) port after e h z q b = rw (e) (
    binary_address-append atyp 16 len a port after sockaddr_in6 p.ntop6 h q (omega arith)
    ∙ ap (λ n. ok (record { offset = n; storage = sockaddr_in6 a port; host = p.ntop6 a }))
        (omega arith))

-- A header in front of a payload, with its target of any kind.
pub parse_udprealy_header-header :
    (p : Printers) (atyp len : ℕ) (t : Target) (port after : List ℕ)
    → IsTypeOf atyp t
    → IsTarget t
    → IsText t
    → length port ≡ 2
    → 1 + length (address_bytes t) + 2 ≤ len
    → parse_udprealy_header p
        (record { array = atyp ∷ (address_bytes t ++ (port ++ after)); len = len })
      ≡ ok (
          some (record {
            offset = 1 + length (address_bytes t) + 2;
            storage = storage_of p t port;
            host = host_of p t;
            port = ntohs port;
          }))
unfolding parse_udprealy_header finish_header
parse_udprealy_header-header p atyp len t port after e h z q b =
    rw
      (
        find_address-header p atyp len t port after e h z q b,
        ==_false (1 + length (address_bytes t)) 1 (omega (arith, address_bytes-pos t h)),
        bytes_at-append (atyp ∷ address_bytes t) port after (1 + length (address_bytes t)) 2
            (omega arith) (sym q),
      )
      refl

-- A socket address that a header can hold.
abbrev pub IsSocket : SockAddr → Type 0
IsSocket unset = ⊥
IsSocket (sockaddr_in addr port) = (length addr ≡ 4) × (length port ≡ 2)
IsSocket (sockaddr_in6 addr port) = (length addr ≡ 16) × (length port ≡ 2)

abbrev pub port_of : SockAddr → List ℕ
port_of unset = []
port_of (sockaddr_in addr port) = port
port_of (sockaddr_in6 addr port) = port

abbrev pub printed : Printers → SockAddr → List ℕ
printed p unset = []
printed p (sockaddr_in addr port) = p.ntop addr
printed p (sockaddr_in6 addr port) = p.ntop6 addr

-- The header that is made for an IPv4 or IPv6 socket address, in front of any payload, is read back:
-- the address, its text and its port, and the length of the header.
pub parse_udprealy_header-construct :
    (p : Printers) (a : SockAddr) (payload : List ℕ)
    → IsSocket a
    → parse_udprealy_header p (record {
      array = construct_udprealy_header a ++ payload;
      len = length (construct_udprealy_header a) + length payload;
    })
      ≡ ok (
          some (record {
            offset = length (construct_udprealy_header a);
            storage = a;
            host = printed p a;
            port = ntohs (port_of a);
          }))
unfolding construct_udprealy_header addr_type
parse_udprealy_header-construct p unset payload h = absurd h
parse_udprealy_header-construct p (sockaddr_in addr port) payload h =
    let size : suc (length (addr ++ port)) ≡ 1 + length addr + 2 =
      omega (arith, length-append addr port, h.1) in
    rw (append_assoc addr port payload) (
      parse_udprealy_header-header p 1 _ (ipv4 addr) port payload refl h.0 tt h.1
        (omega (arith, size))
      ∙ ap
          (λ n. ok (
            some (record {
              offset = n;
              storage = sockaddr_in addr port;
              host = p.ntop addr;
              port = ntohs port;
            })))
          (sym size))
parse_udprealy_header-construct p (sockaddr_in6 addr port) payload h =
    let size : suc (length (addr ++ port)) ≡ 1 + length addr + 2 =
      omega (arith, length-append addr port, h.1) in
    rw (append_assoc addr port payload) (
      parse_udprealy_header-header p 4 _ (ipv6 addr) port payload refl h.0 tt h.1
        (omega (arith, size))
      ∙ ap
          (λ n. ok (
            some (record {
              offset = n;
              storage = sockaddr_in6 addr port;
              host = p.ntop6 addr;
              port = ntohs port;
            })))
          (sym size))

IsServed-IsText : (s : Services) (t : Target) → IsServed s t → IsText t
IsServed-IsText s (ipv4 a) h = tt
IsServed-IsText s (name a) h = h.3
IsServed-IsText s (ipv6 a) h = tt

storage_of-info :
    (p : Printers) (t : Target) (port : List ℕ)
    → IsServed p.services t
    → storage_of p t port ≡ info_of t port
unfolding named_storage
storage_of-info p (ipv4 a) port h = refl
storage_of-info p (name a) port h = rw (h.1) refl
storage_of-info p (ipv6 a) port h = refl

-- On a header without authentication, to an address or to a name that is served, the parser of a
-- packet and the parser of a stream agree: the same socket address, and the payload behind the same
-- number of bytes.
pub parse_udprealy_header-parse_request :
    (p : Printers) (atyp : ℕ) (t : Target) (port payload slack : List ℕ)
    → IsTypeOf atyp t
    → IsTarget t
    → IsServed p.services t
    → length port ≡ 2
    → is_authenticated p.services atyp ≡ false
    → (r : Request) × (u : UdpHeader) × (parse_request p.services false (record {
      array = header_memory atyp t port [] (payload ++ slack);
      len = 1 + length (address_bytes t) + 2 + 0 + length payload;
    })
        ≡ ok r)
      × (parse_udprealy_header p (record {
        array = header_memory atyp t port [] (payload ++ slack);
        len = 1 + length (address_bytes t) + 2 + 0 + length payload;
      })
          ≡ ok (some u))
      × (u.storage ≡ r.info)
      × (u.offset + r.buf.len ≡ 1 + length (address_bytes t) + 2 + length payload)
parse_udprealy_header-parse_request p atyp t port payload slack e h sv q off = (
  _,
  _,
  parse_request-header_memory p.services atyp t port [] payload slack e h sv q (rw (off) refl)
      (λ on. true≢false _ on off),
  parse_udprealy_header-header p atyp _ t port (payload ++ slack) e h
      (IsServed-IsText p.services t sv) q (omega arith),
  storage_of-info p t port sv,
  refl,
)
