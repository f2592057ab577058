-- ===== src/Jconf/Arrays.antt =====
-- The arrays of the configuration: what the loops over servers and ports write.
use openwrt_helloworld.Prelude.{ℕ, ◌+◌, Bool, List, Option, none, leb, ◌==◌}
use openwrt_helloworld.Prelude.{◌≡◌, ◌≢◌, ◌≤◌, ◌<◌, arith, Bool-cases, Option-cases, inl, inr}
use openwrt_helloworld.Jconf.Value.{
  Values, no_values, value_and, Members, no_members, member_and, to_string, Addr, parse_addr,
}
use openwrt_helloworld.Jconf.Options.{
  Jconf, Reading, loaded, fatal, bad_free, store_at, read_servers, is_string, read_passwords,
  max_remote_num, max_port_num,
}

-- The numbers of servers and ports are at most the sizes of their arrays, each server that is
-- counted has an address, and nothing is written behind the arrays.
abbrev pub IsConf : Jconf → Type 0
IsConf c =
    (c.remote_num ≤ 10)
    × ((i : ℕ) → i < c.remote_num → c.remote_addr i ≢ none)
    × ((i : ℕ) → 10 ≤ i → c.remote_addr i ≡ none)
    × (c.port_password_num ≤ 1024)
    × ((i : ℕ) → 1024 ≤ i → c.port_password i ≡ none)

-- A configuration that is returned is one.
abbrev pub EndsWell : Reading → Type 0
EndsWell (loaded c) = IsConf c
EndsWell fatal = Unit
EndsWell bad_free = Unit

store_at-lt :
    {A : Type 0} (cells : ℕ → Option A) (j : ℕ) (a : A)
    → ((i : ℕ) → i < j → cells i ≢ none)
    → (i : ℕ) → i < j + 1
    → store_at cells j a i ≢ none
unfolding store_at
store_at-lt cells j a set i h e = elim (Bool-cases (i == j)) [
  | inl here ↦ absurd (ground (arith, here, e))
  | inr other ↦ set i (ground arith) (ground (arith, other, e))
]

store_at-room :
    {A : Type 0} (cells : ℕ → Option A) (j size : ℕ) (a : A)
    → j < size
    → ((i : ℕ) → size ≤ i → cells i ≡ none)
    → (i : ℕ) → size ≤ i
    → store_at cells j a i ≡ none
unfolding store_at
store_at-room cells j size a h room i behind = elim (Bool-cases (i == j)) [
  | inl here ↦ absurd (ground (arith, here))
  | inr other ↦ rw other (room i behind)
]

pub store_at-IsConf :
    (j : ℕ) (conf : Jconf) (a : Addr)
    → j < 10
    → ((i : ℕ) → i < j → conf.remote_addr i ≢ none)
    → IsConf conf
    → IsConf (record conf { remote_addr = store_at conf.remote_addr j a; remote_num = j + 1 })
store_at-IsConf j conf a below set (bound, counted, room, ports, rest) = (
  omega arith,
  store_at-lt conf.remote_addr j a set,
  store_at-room conf.remote_addr j 10 a below room,
  ports,
  rest,
)

-- After `j` servers of an array, the first `j` cells are written.
pub read_servers-EndsWell :
    (is_ip : List ℕ → Bool) (values : Values) (j : ℕ) (conf : Jconf)
    → ((i : ℕ) → i < j → conf.remote_addr i ≢ none)
    → IsConf conf
    → EndsWell (read_servers is_ip values j conf)
unfolding read_servers
read_servers-EndsWell is_ip no_values j conf before h = h
read_servers-EndsWell is_ip (value_and v values) j conf before h =
    elim (Bool-cases (leb max_remote_num j)) [
      | inl full ↦ rw (EndsWell, read_servers, full) h
      | inr room ↦ elim (Option-cases (to_string v)) [
        | inl e ↦ rw (EndsWell, read_servers, room, e) tt
        | inr (text, e) ↦ elim (Bool-cases text.allocated) [
          | inr literal ↦ rw (EndsWell, read_servers, room, e, literal) tt
          | inl here ↦
              let a = parse_addr is_ip text.bytes in
              rw (EndsWell, read_servers, room, e, here)
                (read_servers-EndsWell is_ip values (j + 1) _
                  (store_at-lt conf.remote_addr j a before)
                  (store_at-IsConf j conf a (ground arith) before h))
        ]
      ]
    ]

pub read_passwords-IsConf :
    (members : Members) (j : ℕ) (conf : Jconf)
    → IsConf conf
    → IsConf (read_passwords members j conf)
unfolding read_passwords
read_passwords-IsConf no_members j conf h = h
read_passwords-IsConf (member_and name v members) j conf h =
    elim (Bool-cases (leb max_port_num j)) [
      | inl full ↦ rw (read_passwords, full) h
      | inr room ↦ elim (Bool-cases (is_string v)) [
        | inr other ↦
            rw (read_passwords, room, other) (read_passwords-IsConf members (j + 1) conf h)
        | inl string ↦ elim (Option-cases (to_string v)) [
          | inl e ↦ rw (read_passwords, room, string, e) h
          | inr (text, e) ↦
              let (bound, counted, behind, ports, rest) = h in
              rw (read_passwords, room, string, e)
                (read_passwords-IsConf members (j + 1) _ (
                  bound,
                  counted,
                  behind,
                  ground arith,
                  store_at-room conf.port_password j 1024 (name, text) (ground arith) rest,
                ))
        ]
      ]
    ]
