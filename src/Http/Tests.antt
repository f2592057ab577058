-- ===== src/Http/Tests.antt =====
-- A request with a port in its Host header.
use openwrt_helloworld.Prelude.{ℕ, ◌≡◌, refl, arith, List, [], ◌∷◌, ◌++◌, Option, true, some}
use openwrt_helloworld.Prelude.Text.{codes, same_key}
use openwrt_helloworld.Http.{parse_http_header, is_host}
use openwrt_helloworld.Http.Headers.{lines_text}
use openwrt_helloworld.Http.Host.{IsHostLine, host_line, name_of, parse_http_header-name}

abbrev field : List ℕ
field = codes "oST:"

abbrev port : Option (List ℕ)
port = some (codes "80")

request-IsHostLine : IsHostLine b'H' field (codes " ") b'a' (codes ".b") port
unfolding same_key
request-IsHostLine = record {
  five = refl;
  field_name = refl;
  blank = (refl, tt);
  no_blank = refl;
  no_colon = (omega arith, (omega arith, (omega arith, tt)));
  is_port = (omega arith, (omega arith, tt));
  one_line = omega arith;
  no_zero = omega arith;
}

parse_http_header-name_example :
    name_of (
      parse_http_header true true (
        codes "GET /"
        ++ (13
            ∷ 10
            ∷ lines_text (codes "Via: x" ∷ []) (
                host_line b'H' field (codes " ") b'a' (codes ".b") port
                ++ (13 ∷ 10 ∷ 13 ∷ 10 ∷ [])))))
    ≡ some (codes "a.b")
unfolding is_host same_key
parse_http_header-name_example =
    parse_http_header-name b'H' field (codes " ") b'a' (codes ".b") port request-IsHostLine
      (codes "GET /") (codes "Via: x" ∷ []) (13 ∷ 10 ∷ []) (omega arith) ((omega arith, refl), tt)
