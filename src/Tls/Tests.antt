-- ===== src/Tls/Tests.antt =====
-- A client hello, parsed.
use openwrt_helloworld.Prelude.{ℕ, ◌≡◌, refl, arith, List, [], ◌∷◌, replicate, true}
use openwrt_helloworld.Tls.{parse_tls_header, found}
use openwrt_helloworld.Tls.Safety.{parse_tls_header-IsReturn, IsReturn}
use openwrt_helloworld.Tls.ClientHello.{
  Hello, IsHello, Extension, hello_bytes, extensions_bytes, server_name_bytes, name_bytes,
  parse_tls_header-server_name,
}

-- "a.b"
abbrev host : List ℕ
host = 97 ∷ 46 ∷ 98 ∷ []

abbrev session_ticket : Extension
session_ticket = record { type_high = 0; type_low = 35; body = [] }

abbrev hello : Hello
hello = record {
  major = 3;
  minor = 1;
  fixed = replicate 37 7;
  session = 1 ∷ 2 ∷ [];
  ciphers = 0x13 ∷ 0x01 ∷ [];
  compression = 0 ∷ [];
  extensions =
      extensions_bytes (session_ticket ∷ [])
        (server_name_bytes (name_bytes 6 host) (0 ∷ 23 ∷ 0 ∷ 0 ∷ []));
}

hello-IsHello : IsHello hello
hello-IsHello = omega arith

parse_tls_header-server_name_example :
    parse_tls_header true true true (hello_bytes hello) ≡ found 3 (97 ∷ 46 ∷ 98 ∷ 0 ∷ [])
parse_tls_header-server_name_example =
    parse_tls_header-server_name hello (session_ticket ∷ []) 6 host (0 ∷ 23 ∷ 0 ∷ 0 ∷ []) true
      hello-IsHello ((refl, omega arith), tt) refl (omega arith) (omega arith) (omega arith)

parse_tls_header-IsReturn_example : IsReturn 3 (parse_tls_header true true true host)
parse_tls_header-IsReturn_example = parse_tls_header-IsReturn true true true host
