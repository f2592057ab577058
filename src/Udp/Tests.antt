-- ===== src/Udp/Tests.antt =====
-- A packet for an IPv4 address, and one for a name.
use openwrt_helloworld.Prelude.{◌+◌, ◌≡◌, refl, [], ◌∷◌, ◌++◌, none, some, length, false}
use openwrt_helloworld.Relay.{addr_type, has_auth_flag}
use openwrt_helloworld.Relay.Request.{ok, Request, parse_request, sockaddr_in}
use openwrt_helloworld.Relay.Header.{ipv4}
use openwrt_helloworld.Relay.RoundTrip.{header_memory}
use openwrt_helloworld.Udp.{construct_udprealy_header, UdpHeader, Printers, parse_udprealy_header}
use openwrt_helloworld.Udp.RoundTrip.{
  parse_udprealy_header-construct, parse_udprealy_header-parse_request,
}

abbrev toy : Printers
toy = record {
  services = record {
    auth = false;
    onetimeauth_fails = λ header. false;
    outbound_blocked = λ host. false;
    ip_version = λ host. none;
    pton = λ host. host;
    pton6 = λ host. host;
  };
  ntop = λ addr. addr;
  ntop6 = λ addr. addr;
}

parse_udprealy_header-construct_example :
    parse_udprealy_header toy (record {
      array =
          construct_udprealy_header (sockaddr_in (8 ∷ 8 ∷ 4 ∷ 4 ∷ []) (0 ∷ 53 ∷ []))
          ++ (1 ∷ 2 ∷ []);
      len = length (construct_udprealy_header (sockaddr_in (8 ∷ 8 ∷ 4 ∷ 4 ∷ []) (0 ∷ 53 ∷ []))) + 2;
    })
    ≡ ok (
        some (record {
          offset =
              length (construct_udprealy_header (sockaddr_in (8 ∷ 8 ∷ 4 ∷ 4 ∷ []) (0 ∷ 53 ∷ [])));
          storage = sockaddr_in (8 ∷ 8 ∷ 4 ∷ 4 ∷ []) (0 ∷ 53 ∷ []);
          host = 8 ∷ 8 ∷ 4 ∷ 4 ∷ [];
          port = 53;
        }))
parse_udprealy_header-construct_example =
    parse_udprealy_header-construct toy (sockaddr_in (8 ∷ 8 ∷ 4 ∷ 4 ∷ []) (0 ∷ 53 ∷ []))
      (1 ∷ 2 ∷ []) (refl, refl)

parse_udprealy_header-parse_request_example :
    (r : Request) × (u : UdpHeader) × (parse_request toy.services false (record {
      array = header_memory 1 (ipv4 (8 ∷ 8 ∷ 4 ∷ 4 ∷ [])) (0 ∷ 53 ∷ []) [] (7 ∷ 7 ∷ []);
      len = 8;
    })
      ≡ ok r)
    × (parse_udprealy_header toy (record {
      array = header_memory 1 (ipv4 (8 ∷ 8 ∷ 4 ∷ 4 ∷ [])) (0 ∷ 53 ∷ []) [] (7 ∷ 7 ∷ []);
      len = 8;
    })
        ≡ ok (some u))
    × (u.storage ≡ r.info)
    × (u.offset + r.buf.len ≡ 8)
unfolding addr_type has_auth_flag
parse_udprealy_header-parse_request_example =
    parse_udprealy_header-parse_request toy 1 (ipv4 (8 ∷ 8 ∷ 4 ∷ 4 ∷ [])) (0 ∷ 53 ∷ []) (7 ∷ [])
      (7 ∷ []) refl refl tt refl refl
