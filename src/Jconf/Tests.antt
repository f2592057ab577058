-- ===== src/Jconf/Tests.antt =====
-- A configuration, and the ways to write an address.
use openwrt_helloworld.Prelude.{ℕ, ◌≡◌, refl, arith, List, [], Bool, false, Option, some}
use openwrt_helloworld.Prelude.Text.{codes, same_key}
use openwrt_helloworld.Jconf.Value.{
  Json, json_integer, json_array, json_string, json_boolean, json_object, Members, no_members,
  member_and, no_values, value_and, json_null, parse_addr, to_string,
}
use openwrt_helloworld.Jconf.Options.{bad_free, key_of, read_option}
use openwrt_helloworld.Jconf.{read_jconf, read_object}
use openwrt_helloworld.Jconf.Arrays.{EndsWell}
use openwrt_helloworld.Jconf.Config.{read_jconf-EndsWell}
use openwrt_helloworld.Jconf.Loading.{IsLoaded, read_jconf-IsLoaded, suits, all_suit}
use openwrt_helloworld.Jconf.Address.{bracketed, parse_addr-text_of}

abbrev no_ip : List ℕ → Bool
no_ip s = false

parse_addr-text_of_example :
    parse_addr no_ip (codes "[::1]:80") ≡ record { host = codes "::1"; port = some (codes "80") }
parse_addr-text_of_example =
    parse_addr-text_of no_ip (bracketed [] (codes ":1") (codes "80"))
      (omega arith, (omega arith, tt)) refl

abbrev members : Members
members =
    member_and (codes "server")
      (json_array (value_and (json_string (codes "a.b:80")) (value_and (json_integer 7) no_values)))
      (member_and (codes "server_port") (json_integer 8388) (
        member_and (codes "fast_open") (json_boolean 1)
          (member_and (codes "mode") (json_string (codes "udp_only")) no_members)))

abbrev parse : List ℕ → Option Json
parse s = some (json_object members)

read_jconf-IsLoaded_example : IsLoaded (read_jconf parse no_ip (some (codes "{}")))
unfolding all_suit suits key_of same_key
read_jconf-IsLoaded_example =
    read_jconf-IsLoaded parse no_ip (codes "{}") members (omega arith) (omega arith) refl refl

read_jconf-EndsWell_example : EndsWell (read_jconf parse no_ip (some (codes "{}")))
read_jconf-EndsWell_example = read_jconf-EndsWell parse no_ip (some (codes "{}"))

-- A null among the servers, or as the mode, makes the program free a string of its text.
bad_free_run :
    read_object no_ip (some (json_object (member_and (codes "mode") json_null no_members)))
    ≡ bad_free
unfolding read_object key_of same_key read_option to_string
bad_free_run = refl
