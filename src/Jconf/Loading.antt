-- ===== src/Jconf/Loading.antt =====
-- Well-typed options load.
use openwrt_helloworld.Prelude.{
  ℕ, ◌≡◌, refl, Bool, true, false, ◌&&◌, List, Option, some, leb, ◌==◌, ◌*◌, length, Bool-cases,
  inl, inr, ◌%◌, ◌^◌, ◌+◌, arith, ◌<◌, lt→leb_false,
}
use openwrt_helloworld.Utils.{ss_itoa}
use openwrt_helloworld.Jconf.Value.{
  Json, json_none, json_object, json_array, json_integer, json_double, json_string, json_boolean,
  json_null, Values, no_values, value_and, Members, no_members, member_and, Text, to_string,
}
use openwrt_helloworld.Jconf.Options.{
  Jconf, zeroed, Reading, loaded, key_of, read_option, read_servers, read_server,
  read_port_password, text_option, boolean_option, integer_option, read_mode, with_mode, Key,
  server_key, port_password_key, server_port_key, local_address_key, local_port_key, password_key,
  protocol_key, protocol_param_key, method_key, obfs_key, obfs_param_key, timeout_key, user_key,
  fast_open_key, auth_key, nofile_key, nameserver_key, tunnel_address_key, mode_key, mtu_key,
  mptcp_key, ipv6_first_key, unknown_key, max_remote_num,
}
use openwrt_helloworld.Jconf.{read_members, read_object, read_jconf}

-- What an option may be: a string or an integer; these or null; a Boolean; an integer; for the
-- servers an array of strings and integers, or what is no array.
abbrev pub is_plain : Json → Bool
is_plain (json_string s) = true
is_plain (json_integer n) = true
is_plain _ = false

abbrev pub is_text : Json → Bool
is_text json_null = true
is_text v = is_plain v

abbrev pub is_boolean : Json → Bool
is_boolean (json_boolean b) = true
is_boolean _ = false

abbrev pub is_integer : Json → Bool
is_integer (json_integer n) = true
is_integer _ = false

abbrev pub all_plain : Values → Bool
all_plain no_values = true
all_plain (value_and v values) = is_plain v && all_plain values

abbrev pub is_servers : Json → Bool
is_servers (json_array values) = all_plain values
is_servers _ = true

unfoldable pub suits : Key → Json → Bool
suits server_key v = is_servers v
suits port_password_key v = true
suits server_port_key v = is_text v
suits local_address_key v = is_text v
suits local_port_key v = is_text v
suits password_key v = is_text v
suits protocol_key v = is_text v
suits protocol_param_key v = is_text v
suits method_key v = is_text v
suits obfs_key v = is_text v
suits obfs_param_key v = is_text v
suits timeout_key v = is_text v
suits user_key v = is_text v
suits fast_open_key v = is_boolean v
suits auth_key v = is_boolean v
suits nofile_key v = is_integer v
suits nameserver_key v = is_text v
suits tunnel_address_key v = is_text v
suits mode_key v = is_plain v
suits mtu_key v = is_integer v
suits mptcp_key v = is_boolean v
suits ipv6_first_key v = is_boolean v
suits unknown_key v = true

unfoldable pub all_suit : Members → Bool
all_suit no_members = true
all_suit (member_and name v members) = suits (key_of name) v && all_suit members

-- The reading ends with a configuration.
abbrev pub IsLoaded : Reading → Type 0
IsLoaded r = (c : Jconf) × (r ≡ loaded c)

&&-true : (a b : Bool) → (a && b) ≡ true → (a ≡ true) × (b ≡ true)
&&-true a b h = ground (arith, h)

to_string-plain :
    (v : Json)
    → is_plain v ≡ true
    → (s : List ℕ) × (to_string v ≡ some (record { allocated = true; bytes = s }))
unfolding to_string
to_string-plain json_none h = absurd (ground (arith, h))
to_string-plain (json_object o) h = absurd (ground (arith, h))
to_string-plain (json_array a) h = absurd (ground (arith, h))
to_string-plain (json_integer n) h = (ss_itoa (n % 2 ^ 32), refl)
to_string-plain json_double h = absurd (ground (arith, h))
to_string-plain (json_string s) h = (s, refl)
to_string-plain (json_boolean b) h = absurd (ground (arith, h))
to_string-plain json_null h = absurd (ground (arith, h))

read_servers-IsLoaded :
    (is_ip : List ℕ → Bool) (values : Values) (j : ℕ) (conf : Jconf)
    → all_plain values ≡ true
    → IsLoaded (read_servers is_ip values j conf)
unfolding read_servers
read_servers-IsLoaded is_ip no_values j conf h = (conf, refl)
read_servers-IsLoaded is_ip (value_and v values) j conf h =
    let (one, others) = &&-true (is_plain v) (all_plain values) h in
    let (s, e) = to_string-plain v one in
    elim (Bool-cases (leb max_remote_num j)) [
      | inl full ↦ (conf, rw (read_servers, full) refl)
      | inr room ↦ rw (read_servers, room, e) (read_servers-IsLoaded is_ip values (j + 1) _ others)
    ]

read_server-IsLoaded :
    (is_ip : List ℕ → Bool) (v : Json) (conf : Jconf)
    → is_servers v ≡ true
    → IsLoaded (read_server is_ip v conf)
unfolding read_server
read_server-IsLoaded is_ip json_none conf h = (_, refl)
read_server-IsLoaded is_ip (json_object o) conf h = (_, refl)
read_server-IsLoaded is_ip (json_array a) conf h = read_servers-IsLoaded is_ip a 0 conf h
read_server-IsLoaded is_ip (json_integer n) conf h = (_, refl)
read_server-IsLoaded is_ip json_double conf h = (_, refl)
read_server-IsLoaded is_ip (json_string s) conf h = (_, refl)
read_server-IsLoaded is_ip (json_boolean b) conf h = (_, refl)
read_server-IsLoaded is_ip json_null conf h = (_, refl)

text_option-IsLoaded :
    (v : Json) (put : Text → Jconf) → is_text v ≡ true → IsLoaded (text_option v put)
unfolding text_option to_string
text_option-IsLoaded json_none put h = absurd (ground (arith, h))
text_option-IsLoaded (json_object o) put h = absurd (ground (arith, h))
text_option-IsLoaded (json_array a) put h = absurd (ground (arith, h))
text_option-IsLoaded (json_integer n) put h = (_, refl)
text_option-IsLoaded json_double put h = absurd (ground (arith, h))
text_option-IsLoaded (json_string s) put h = (_, refl)
text_option-IsLoaded (json_boolean b) put h = absurd (ground (arith, h))
text_option-IsLoaded json_null put h = (_, refl)

boolean_option-IsLoaded :
    (v : Json) (put : ℕ → Jconf) → is_boolean v ≡ true → IsLoaded (boolean_option v put)
unfolding boolean_option
boolean_option-IsLoaded json_none put h = absurd (ground (arith, h))
boolean_option-IsLoaded (json_object o) put h = absurd (ground (arith, h))
boolean_option-IsLoaded (json_array a) put h = absurd (ground (arith, h))
boolean_option-IsLoaded (json_integer n) put h = absurd (ground (arith, h))
boolean_option-IsLoaded json_double put h = absurd (ground (arith, h))
boolean_option-IsLoaded (json_string s) put h = absurd (ground (arith, h))
boolean_option-IsLoaded (json_boolean b) put h = (_, refl)
boolean_option-IsLoaded json_null put h = absurd (ground (arith, h))

integer_option-IsLoaded :
    (v : Json) (put : ℕ → Jconf) → is_integer v ≡ true → IsLoaded (integer_option v put)
unfolding integer_option
integer_option-IsLoaded json_none put h = absurd (ground (arith, h))
integer_option-IsLoaded (json_object o) put h = absurd (ground (arith, h))
integer_option-IsLoaded (json_array a) put h = absurd (ground (arith, h))
integer_option-IsLoaded (json_integer n) put h = (_, refl)
integer_option-IsLoaded json_double put h = absurd (ground (arith, h))
integer_option-IsLoaded (json_string s) put h = absurd (ground (arith, h))
integer_option-IsLoaded (json_boolean b) put h = absurd (ground (arith, h))
integer_option-IsLoaded json_null put h = absurd (ground (arith, h))

read_mode-IsLoaded : (v : Json) (conf : Jconf) → is_plain v ≡ true → IsLoaded (read_mode v conf)
unfolding read_mode
read_mode-IsLoaded v conf h =
    let (s, e) = to_string-plain v h in (with_mode s conf, rw (read_mode, e) refl)

read_option-IsLoaded :
    (is_ip : List ℕ → Bool) (k : Key) (v : Json) (conf : Jconf)
    → suits k v ≡ true
    → IsLoaded (read_option is_ip k v conf)
unfolding read_option suits
read_option-IsLoaded is_ip server_key v conf h = read_server-IsLoaded is_ip v conf h
read_option-IsLoaded is_ip port_password_key v conf h = (read_port_password v conf, refl)
read_option-IsLoaded is_ip server_port_key v conf h = text_option-IsLoaded v _ h
read_option-IsLoaded is_ip local_address_key v conf h = text_option-IsLoaded v _ h
read_option-IsLoaded is_ip local_port_key v conf h = text_option-IsLoaded v _ h
read_option-IsLoaded is_ip password_key v conf h = text_option-IsLoaded v _ h
read_option-IsLoaded is_ip protocol_key v conf h = text_option-IsLoaded v _ h
read_option-IsLoaded is_ip protocol_param_key v conf h = text_option-IsLoaded v _ h
read_option-IsLoaded is_ip method_key v conf h = text_option-IsLoaded v _ h
read_option-IsLoaded is_ip obfs_key v conf h = text_option-IsLoaded v _ h
read_option-IsLoaded is_ip obfs_param_key v conf h = text_option-IsLoaded v _ h
read_option-IsLoaded is_ip timeout_key v conf h = text_option-IsLoaded v _ h
read_option-IsLoaded is_ip user_key v conf h = text_option-IsLoaded v _ h
read_option-IsLoaded is_ip fast_open_key v conf h = boolean_option-IsLoaded v _ h
read_option-IsLoaded is_ip auth_key v conf h = boolean_option-IsLoaded v _ h
read_option-IsLoaded is_ip nofile_key v conf h = integer_option-IsLoaded v _ h
read_option-IsLoaded is_ip nameserver_key v conf h = text_option-IsLoaded v _ h
read_option-IsLoaded is_ip tunnel_address_key v conf h = text_option-IsLoaded v _ h
read_option-IsLoaded is_ip mode_key v conf h = read_mode-IsLoaded v conf h
read_option-IsLoaded is_ip mtu_key v conf h = integer_option-IsLoaded v _ h
read_option-IsLoaded is_ip mptcp_key v conf h = boolean_option-IsLoaded v _ h
read_option-IsLoaded is_ip ipv6_first_key v conf h = boolean_option-IsLoaded v _ h
read_option-IsLoaded is_ip unknown_key v conf h = (conf, refl)

read_members-IsLoaded :
    (is_ip : List ℕ → Bool) (members : Members) (conf : Jconf)
    → all_suit members ≡ true
    → IsLoaded (read_members is_ip members conf)
unfolding read_members all_suit
read_members-IsLoaded is_ip no_members conf h = (conf, refl)
read_members-IsLoaded is_ip (member_and name v members) conf h =
    let (one, others) = &&-true (suits (key_of name) v) (all_suit members) h in
    let (c, e) = read_option-IsLoaded is_ip (key_of name) v conf one in
    rw (read_members, e) (read_members-IsLoaded is_ip members c others)

not_empty : (n : ℕ) → 0 < n → (n == 0) ≡ false
not_empty n h = ground arith

-- A file that is not empty and shorter than 131072 bytes, and that parses to an object with
-- well-typed options, is read: the program does not end, and no string of the program text is freed.
pub read_jconf-IsLoaded :
    (parse : List ℕ → Option Json) (is_ip : List ℕ → Bool) (buf : List ℕ) (members : Members)
    → 0 < length buf
    → length buf < 131072
    → parse buf ≡ some (json_object members)
    → all_suit members ≡ true
    → IsLoaded (read_jconf parse is_ip (some buf))
unfolding read_jconf read_object
read_jconf-IsLoaded parse is_ip buf members some_bytes few e h =
    rw
      (read_jconf, lt→leb_false (128 * 1024) (length buf) few, not_empty (length buf) some_bytes, e)
      (read_members-IsLoaded is_ip members zeroed h)
