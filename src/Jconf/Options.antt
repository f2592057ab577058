-- ===== src/Jconf/Options.antt =====
-- jconf.c: the options of the configuration, and what each sets.
use openwrt_helloworld.Prelude.{
  ℕ, ◌+◌, ◌%◌, ◌^◌, Bool, true, false, List, Option, none, some, leb, ◌==◌, if◌then◌else◌,
}
use openwrt_helloworld.Prelude.Text.{codes, same_key}
use openwrt_helloworld.Jconf.Value.{
  Json, json_none, json_object, json_array, json_integer, json_double, json_string, json_boolean,
  json_null, Values, no_values, value_and, Members, no_members, member_and, Text, to_string, Addr,
  parse_addr,
}

abbrev pub max_port_num : ℕ
max_port_num = 1024

abbrev pub max_remote_num : ℕ
max_remote_num = 10

-- `jconf_t`: an array holds `none` where it was not written, a NULL string is `none`.
pub record Jconf : Type 0 where
  pub remote_num : ℕ
  pub remote_addr : ℕ → Option Addr
  pub port_password_num : ℕ
  pub port_password : ℕ → Option (List ℕ × Text)
  pub remote_port : Option Text
  pub local_addr : Option Text
  pub local_port : Option Text
  pub password : Option Text
  pub protocol : Option Text
  pub protocol_param : Option Text
  pub method : Option Text
  pub obfs : Option Text
  pub obfs_param : Option Text
  pub timeout : Option Text
  pub user : Option Text
  pub nameserver : Option Text
  pub tunnel_address : Option Text
  pub auth : ℕ
  pub fast_open : ℕ
  pub nofile : ℕ
  pub mode : ℕ
  pub mtu : ℕ
  pub mptcp : ℕ
  pub ipv6_first : ℕ

-- `memset(&conf, 0, sizeof(jconf_t))`.
abbrev pub zeroed : Jconf
zeroed = record {
  remote_num = 0;
  remote_addr = λ i. none;
  port_password_num = 0;
  port_password = λ i. none;
  remote_port = none;
  local_addr = none;
  local_port = none;
  password = none;
  protocol = none;
  protocol_param = none;
  method = none;
  obfs = none;
  obfs_param = none;
  timeout = none;
  user = none;
  nameserver = none;
  tunnel_address = none;
  auth = 0;
  fast_open = 0;
  nofile = 0;
  mode = 0;
  mtu = 0;
  mptcp = 0;
  ipv6_first = 0;
}

-- How reading ends: with a configuration, in `FATAL`, or in `free` of a string of the program text.
pub data Reading : Type 0 where
  loaded : Jconf → Reading
  fatal bad_free : Reading

-- A write to an array.
unfoldable pub store_at {ℓ} : {A : Type ℓ} → (ℕ → Option A) → ℕ → A → ℕ → Option A
store_at cells j a i = if i == j then some a else cells i

-- The loop over the array of servers, at index `j`.
unfoldable pub read_servers : (List ℕ → Bool) → Values → ℕ → Jconf → Reading
read_servers is_ip no_values j conf = loaded conf
read_servers is_ip (value_and v values) j conf = elim (leb max_remote_num j) [
  | true ↦ loaded conf
  | false ↦ elim (to_string v) [
    | none ↦ fatal
    | some text ↦ elim text.allocated [
      | true ↦ read_servers is_ip values (j + 1) (record conf {
        remote_addr = store_at conf.remote_addr j (parse_addr is_ip text.bytes);
        remote_num = j + 1;
      })
      | false ↦ bad_free
    ]
  ]
]

unfoldable pub read_server : (List ℕ → Bool) → Json → Jconf → Reading
unfolding read_servers
read_server is_ip (json_array values) conf = read_servers is_ip values 0 conf
read_server is_ip (json_string s) conf = loaded (record conf {
  remote_addr = store_at conf.remote_addr 0 (record { host = s; port = none });
  remote_num = 1;
})
read_server is_ip json_none conf = loaded conf
read_server is_ip (json_object o) conf = loaded conf
read_server is_ip (json_integer n) conf = loaded conf
read_server is_ip json_double conf = loaded conf
read_server is_ip (json_boolean b) conf = loaded conf
read_server is_ip json_null conf = loaded conf

abbrev pub is_string : Json → Bool
is_string (json_string s) = true
is_string _ = false

-- The loop over the ports with their passwords. A value that is no string leaves its cell as it is.
unfoldable pub read_passwords : Members → ℕ → Jconf → Jconf
read_passwords no_members j conf = conf
read_passwords (member_and name v members) j conf = elim (leb max_port_num j) [
  | true ↦ conf
  | false ↦ elim (is_string v) [
    | true ↦ elim (to_string v) [
      | none ↦ conf
      | some text ↦ read_passwords members (j + 1) (record conf {
        port_password = store_at conf.port_password j (name, text);
        port_password_num = j + 1;
      })
    ]
    | false ↦ read_passwords members (j + 1) conf
  ]
]

unfoldable pub read_port_password : Json → Jconf → Jconf
unfolding read_passwords
read_port_password (json_object members) conf = read_passwords members 0 conf
read_port_password json_none conf = conf
read_port_password (json_array a) conf = conf
read_port_password (json_integer n) conf = conf
read_port_password json_double conf = conf
read_port_password (json_string s) conf = conf
read_port_password (json_boolean b) conf = conf
read_port_password json_null conf = conf

-- A string option, and what it sets.
unfoldable pub text_option : Json → (Text → Jconf) → Reading
text_option value put = elim (to_string value) [ none ↦ fatal | some text ↦ loaded (put text) ]

-- A Boolean and an integer option, whose type is checked.
unfoldable pub boolean_option : Json → (ℕ → Jconf) → Reading
boolean_option (json_boolean b) put = loaded (put b)
boolean_option _ put = fatal

unfoldable pub integer_option : Json → (ℕ → Jconf) → Reading
integer_option (json_integer n) put = loaded (put (n % 2 ^ 32))
integer_option _ put = fatal

-- The constants TCP_ONLY, TCP_AND_UDP and UDP_ONLY are 0, 1 and 3.
unfoldable pub with_mode : List ℕ → Jconf → Jconf
with_mode mode_str conf =
    if same_key mode_str (codes "tcp_only")
    then record conf { mode = 0 }
    else if same_key mode_str (codes "tcp_and_udp")
    then record conf { mode = 1 }
    else if same_key mode_str (codes "udp_only")
    then record conf { mode = 3 }
    else conf

unfoldable pub read_mode : Json → Jconf → Reading
unfolding with_mode
read_mode value conf = elim (to_string value) [
  | none ↦ fatal
  | some text ↦ if text.allocated then loaded (with_mode text.bytes conf) else bad_free
]

-- The names of the options.
pub data Key : Type 0 where
  server_key port_password_key server_port_key local_address_key local_port_key password_key
        protocol_key protocol_param_key :
      Key
  method_key obfs_key obfs_param_key timeout_key user_key fast_open_key auth_key nofile_key : Key
  nameserver_key tunnel_address_key mode_key mtu_key mptcp_key ipv6_first_key unknown_key : Key

-- The comparisons of a name.
unfoldable pub key_of : List ℕ → Key
key_of name =
    if same_key name (codes "server")
    then server_key
    else if same_key name (codes "port_password")
    then port_password_key
    else if same_key name (codes "server_port")
    then server_port_key
    else if same_key name (codes "local_address")
    then local_address_key
    else if same_key name (codes "local_port")
    then local_port_key
    else if same_key name (codes "password")
    then password_key
    else if same_key name (codes "protocol")
    then protocol_key
    else if same_key name (codes "protocol_param")
    then protocol_param_key
    else if same_key name (codes "method")
    then method_key
    else if same_key name (codes "obfs")
    then obfs_key
    else if same_key name (codes "obfs_param")
    then obfs_param_key
    else if same_key name (codes "timeout")
    then timeout_key
    else if same_key name (codes "user")
    then user_key
    else if same_key name (codes "fast_open")
    then fast_open_key
    else if same_key name (codes "auth")
    then auth_key
    else if same_key name (codes "nofile")
    then nofile_key
    else if same_key name (codes "nameserver")
    then nameserver_key
    else if same_key name (codes "tunnel_address")
    then tunnel_address_key
    else if same_key name (codes "mode")
    then mode_key
    else if same_key name (codes "mtu")
    then mtu_key
    else if same_key name (codes "mptcp")
    then mptcp_key
    else if same_key name (codes "ipv6_first")
    then ipv6_first_key
    else unknown_key

-- One member of the object.
unfoldable pub read_option : (List ℕ → Bool) → Key → Json → Jconf → Reading
unfolding text_option boolean_option integer_option read_mode
read_option is_ip server_key value conf = read_server is_ip value conf
read_option is_ip port_password_key value conf = loaded (read_port_password value conf)
read_option is_ip server_port_key value conf =
    text_option value (λ t. record conf { remote_port = some t })
read_option is_ip local_address_key value conf =
    text_option value (λ t. record conf { local_addr = some t })
read_option is_ip local_port_key value conf =
    text_option value (λ t. record conf { local_port = some t })
read_option is_ip password_key value conf =
    text_option value (λ t. record conf { password = some t })
read_option is_ip protocol_key value conf =
    text_option value (λ t. record conf { protocol = some t })
read_option is_ip protocol_param_key value conf =
    text_option value (λ t. record conf { protocol_param = some t })
read_option is_ip method_key value conf = text_option value (λ t. record conf { method = some t })
read_option is_ip obfs_key value conf = text_option value (λ t. record conf { obfs = some t })
read_option is_ip obfs_param_key value conf =
    text_option value (λ t. record conf { obfs_param = some t })
read_option is_ip timeout_key value conf = text_option value (λ t. record conf { timeout = some t })
read_option is_ip user_key value conf = text_option value (λ t. record conf { user = some t })
read_option is_ip fast_open_key value conf =
    boolean_option value (λ b. record conf { fast_open = b })
read_option is_ip auth_key value conf = boolean_option value (λ b. record conf { auth = b })
read_option is_ip nofile_key value conf = integer_option value (λ n. record conf { nofile = n })
read_option is_ip nameserver_key value conf =
    text_option value (λ t. record conf { nameserver = some t })
read_option is_ip tunnel_address_key value conf =
    text_option value (λ t. record conf { tunnel_address = some t })
read_option is_ip mode_key value conf = read_mode value conf
read_option is_ip mtu_key value conf = integer_option value (λ n. record conf { mtu = n })
read_option is_ip mptcp_key value conf = boolean_option value (λ b. record conf { mptcp = b })
read_option is_ip ipv6_first_key value conf =
    boolean_option value (λ b. record conf { ipv6_first = b })
read_option is_ip unknown_key value conf = loaded conf
