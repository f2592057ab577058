-- ===== src/Jconf/Config.antt =====
-- The configuration that is read: its arrays stay within their bounds.
use openwrt_helloworld.Prelude.{
  ℕ, ◌*◌, ◌%◌, ◌^◌, Bool, ◌||◌, List, Option, none, some, leb, ◌==◌, length,
}
use openwrt_helloworld.Prelude.Text.{codes, same_key}
use openwrt_helloworld.Prelude.{◌≡◌, ◌⊎◌, subst, refl, arith, Bool-cases, Option-cases, inl, inr}
use openwrt_helloworld.Jconf.Value.{
  Json, json_none, json_object, json_array, json_integer, json_double, json_string, json_boolean,
  json_null, Members, no_members, member_and, Text, to_string,
}
use openwrt_helloworld.Jconf.Options.{
  Jconf, zeroed, Reading, loaded, fatal, bad_free, key_of, read_option, read_server,
  read_port_password, text_option, boolean_option, integer_option, read_mode, with_mode, Key,
  server_key, port_password_key, server_port_key, local_address_key, local_port_key, password_key,
  protocol_key, protocol_param_key, method_key, obfs_key, obfs_param_key, timeout_key, user_key,
  fast_open_key, auth_key, nofile_key, nameserver_key, tunnel_address_key, mode_key, mtu_key,
  mptcp_key, ipv6_first_key, unknown_key,
}
use openwrt_helloworld.Jconf.{read_members, read_object, read_jconf}
use openwrt_helloworld.Jconf.Arrays.{
  IsConf, EndsWell, store_at-IsConf, read_servers-EndsWell, read_passwords-IsConf,
}

read_server-EndsWell :
    (is_ip : List ℕ → Bool) (v : Json) (conf : Jconf)
    → IsConf conf
    → EndsWell (read_server is_ip v conf)
unfolding read_server
read_server-EndsWell is_ip (json_array values) conf h =
    read_servers-EndsWell is_ip values 0 conf (λ i below. absurd (omega arith)) h
read_server-EndsWell is_ip (json_string text) conf h =
    store_at-IsConf 0 conf (record { host = text; port = none }) (omega arith)
      (λ i below. absurd (omega arith)) h
read_server-EndsWell is_ip json_none conf h = h
read_server-EndsWell is_ip (json_object o) conf h = h
read_server-EndsWell is_ip (json_integer n) conf h = h
read_server-EndsWell is_ip json_double conf h = h
read_server-EndsWell is_ip (json_boolean b) conf h = h
read_server-EndsWell is_ip json_null conf h = h

read_port_password-IsConf :
    (v : Json) (conf : Jconf) → IsConf conf → IsConf (read_port_password v conf)
unfolding read_port_password
read_port_password-IsConf (json_object members) conf h = read_passwords-IsConf members 0 conf h
read_port_password-IsConf json_none conf h = h
read_port_password-IsConf (json_array a) conf h = h
read_port_password-IsConf (json_integer n) conf h = h
read_port_password-IsConf json_double conf h = h
read_port_password-IsConf (json_string s) conf h = h
read_port_password-IsConf (json_boolean b) conf h = h
read_port_password-IsConf json_null conf h = h

text_option-EndsWell :
    (v : Json) (put : Text → Jconf) → ((t : Text) → IsConf (put t)) → EndsWell (text_option v put)
unfolding text_option
text_option-EndsWell v put h = elim (Option-cases (to_string v)) [
  | inl e ↦ rw (EndsWell, e) tt
  | inr (t, e) ↦ rw (EndsWell, e) (h t)
]

boolean_option-EndsWell :
    (v : Json) (put : ℕ → Jconf) → ((n : ℕ) → IsConf (put n)) → EndsWell (boolean_option v put)
unfolding boolean_option
boolean_option-EndsWell (json_boolean b) put h = h b
boolean_option-EndsWell json_none put h = tt
boolean_option-EndsWell (json_object o) put h = tt
boolean_option-EndsWell (json_array a) put h = tt
boolean_option-EndsWell (json_integer n) put h = tt
boolean_option-EndsWell json_double put h = tt
boolean_option-EndsWell (json_string s) put h = tt
boolean_option-EndsWell json_null put h = tt

integer_option-EndsWell :
    (v : Json) (put : ℕ → Jconf) → ((n : ℕ) → IsConf (put n)) → EndsWell (integer_option v put)
unfolding integer_option
integer_option-EndsWell (json_integer n) put h = h (n % 2 ^ 32)
integer_option-EndsWell json_none put h = tt
integer_option-EndsWell (json_object o) put h = tt
integer_option-EndsWell (json_array a) put h = tt
integer_option-EndsWell json_double put h = tt
integer_option-EndsWell (json_string s) put h = tt
integer_option-EndsWell (json_boolean b) put h = tt
integer_option-EndsWell json_null put h = tt

with_mode-IsConf : (m : List ℕ) (conf : Jconf) → IsConf conf → IsConf (with_mode m conf)
unfolding with_mode
with_mode-IsConf m conf h = elim (Bool-cases (same_key m (codes "tcp_only"))) [
  | inl a ↦ rw (with_mode, a) h
  | inr not_a ↦ elim (Bool-cases (same_key m (codes "tcp_and_udp"))) [
    | inl b ↦ rw (with_mode, not_a, b) h
    | inr not_b ↦ elim (Bool-cases (same_key m (codes "udp_only"))) [
      | inl c ↦ rw (with_mode, not_a, not_b, c) h
      | inr not_c ↦ rw (with_mode, not_a, not_b, not_c) h
    ]
  ]
]

read_mode-EndsWell : (v : Json) (conf : Jconf) → IsConf conf → EndsWell (read_mode v conf)
unfolding read_mode
read_mode-EndsWell v conf h = elim (Option-cases (to_string v)) [
  | inl e ↦ rw (EndsWell, e) tt
  | inr (t, e) ↦ elim (Bool-cases t.allocated) [
    | inl here ↦ rw (EndsWell, e, here) (with_mode-IsConf t.bytes conf h)
    | inr literal ↦ rw (EndsWell, e, literal) tt
  ]
]

read_option-EndsWell :
    (is_ip : List ℕ → Bool) (k : Key) (v : Json) (conf : Jconf)
    → IsConf conf
    → EndsWell (read_option is_ip k v conf)
unfolding read_option
read_option-EndsWell is_ip server_key v conf h = read_server-EndsWell is_ip v conf h
read_option-EndsWell is_ip port_password_key v conf h = read_port_password-IsConf v conf h
read_option-EndsWell is_ip server_port_key v conf h = text_option-EndsWell v _ (λ t. h)
read_option-EndsWell is_ip local_address_key v conf h = text_option-EndsWell v _ (λ t. h)
read_option-EndsWell is_ip local_port_key v conf h = text_option-EndsWell v _ (λ t. h)
read_option-EndsWell is_ip password_key v conf h = text_option-EndsWell v _ (λ t. h)
read_option-EndsWell is_ip protocol_key v conf h = text_option-EndsWell v _ (λ t. h)
read_option-EndsWell is_ip protocol_param_key v conf h = text_option-EndsWell v _ (λ t. h)
read_option-EndsWell is_ip method_key v conf h = text_option-EndsWell v _ (λ t. h)
read_option-EndsWell is_ip obfs_key v conf h = text_option-EndsWell v _ (λ t. h)
read_option-EndsWell is_ip obfs_param_key v conf h = text_option-EndsWell v _ (λ t. h)
read_option-EndsWell is_ip timeout_key v conf h = text_option-EndsWell v _ (λ t. h)
read_option-EndsWell is_ip user_key v conf h = text_option-EndsWell v _ (λ t. h)
read_option-EndsWell is_ip fast_open_key v conf h = boolean_option-EndsWell v _ (λ n. h)
read_option-EndsWell is_ip auth_key v conf h = boolean_option-EndsWell v _ (λ n. h)
read_option-EndsWell is_ip nofile_key v conf h = integer_option-EndsWell v _ (λ n. h)
read_option-EndsWell is_ip nameserver_key v conf h = text_option-EndsWell v _ (λ t. h)
read_option-EndsWell is_ip tunnel_address_key v conf h = text_option-EndsWell v _ (λ t. h)
read_option-EndsWell is_ip mode_key v conf h = read_mode-EndsWell v conf h
read_option-EndsWell is_ip mtu_key v conf h = integer_option-EndsWell v _ (λ n. h)
read_option-EndsWell is_ip mptcp_key v conf h = boolean_option-EndsWell v _ (λ n. h)
read_option-EndsWell is_ip ipv6_first_key v conf h = boolean_option-EndsWell v _ (λ n. h)
read_option-EndsWell is_ip unknown_key v conf h = h

pub Reading-cases : (r : Reading) → ((c : Jconf) × (r ≡ loaded c)) ⊎ ((r ≡ fatal) ⊎ (r ≡ bad_free))
Reading-cases (loaded c) = inl (c, refl)
Reading-cases fatal = inr (inl refl)
Reading-cases bad_free = inr (inr refl)

read_members-EndsWell :
    (is_ip : List ℕ → Bool) (members : Members) (conf : Jconf)
    → IsConf conf
    → EndsWell (read_members is_ip members conf)
unfolding read_members
read_members-EndsWell is_ip no_members conf h = h
read_members-EndsWell is_ip (member_and name v members) conf h =
    let one : EndsWell (read_option is_ip (key_of name) v conf) =
      read_option-EndsWell is_ip (key_of name) v conf h in
    elim (Reading-cases (read_option is_ip (key_of name) v conf)) [
      | inl (c, e) ↦
          rw (EndsWell, read_members, e)
            (read_members-EndsWell is_ip members c (subst EndsWell e one))
      | inr (inl e) ↦ rw (EndsWell, read_members, e) tt
      | inr (inr e) ↦ rw (EndsWell, read_members, e) tt
    ]

read_object-EndsWell :
    (is_ip : List ℕ → Bool) (parsed : Option Json) → EndsWell (read_object is_ip parsed)
unfolding read_object
read_object-EndsWell is_ip none = tt
read_object-EndsWell is_ip (some (json_object members)) =
    read_members-EndsWell is_ip members zeroed
      (omega arith, λ i below. absurd (omega arith), λ i h. refl, omega arith, λ i h. refl)
read_object-EndsWell is_ip (some json_none) = tt
read_object-EndsWell is_ip (some (json_array a)) = tt
read_object-EndsWell is_ip (some (json_integer n)) = tt
read_object-EndsWell is_ip (some json_double) = tt
read_object-EndsWell is_ip (some (json_string s)) = tt
read_object-EndsWell is_ip (some (json_boolean b)) = tt
read_object-EndsWell is_ip (some json_null) = tt

-- Whatever the file holds and the parser returns: a configuration that is read has at most 10
-- servers and 1024 ports, every counted server has an address, and nothing is written outside the
-- arrays.
pub read_jconf-EndsWell :
    (parse : List ℕ → Option Json) (is_ip : List ℕ → Bool) (file : Option (List ℕ))
    → EndsWell (read_jconf parse is_ip file)
unfolding read_jconf
read_jconf-EndsWell parse is_ip none = tt
read_jconf-EndsWell parse is_ip (some buf) =
    elim (Bool-cases (leb (128 * 1024) (length buf) || length buf == 0)) [
      | inl refused ↦ rw (EndsWell, refused) tt
      | inr small ↦ rw (EndsWell, small) (read_object-EndsWell is_ip (parse buf))
    ]
