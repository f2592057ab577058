-- ===== src/Jconf/Value.antt =====
-- jconf.c: JSON values as strings, and addresses. The JSON parser is a copy of another project; `Json`
-- is what it returns. Strings and names hold no zero byte.
use openwrt_helloworld.Prelude.{
  ℕ, ◌+◌, ◌-◌, ◌%◌, ◌^◌, Bool, true, false, List, [], ◌∷◌, Option, none, some, ltb, ◌==◌,
  if◌then◌else◌, length, drop, get_or,
}
use openwrt_helloworld.Prelude.Text.{codes}
use openwrt_helloworld.Utils.{ss_itoa, ss_strndup}

-- `json_value`: an integer is a pattern of 64 bits; the number of a `json_double` is not read.
mutual
  pub data Json : Type 0 where
    json_none : Json
    json_object : Members → Json
    json_array : Values → Json
    json_integer : ℕ → Json
    json_double : Json
    json_string : List ℕ → Json
    json_boolean : ℕ → Json
    json_null : Json

  pub data Values : Type 0 where
    no_values : Values
    value_and : Json → Values → Values

  pub data Members : Type 0 where
    no_members : Members
    member_and : List ℕ → Json → Members → Members

-- A string with where it stands: in memory of its own, or in the program text.
pub record Text : Type 0 where
  pub allocated : Bool
  pub bytes : List ℕ

-- `none` is the end of the program by `FATAL`.
unfoldable pub to_string : Json → Option Text
to_string (json_string s) = some (record { allocated = true; bytes = s })
to_string (json_integer n) = some (record { allocated = true; bytes = ss_itoa (n % 2 ^ 32) })
to_string json_null = some (record { allocated = false; bytes = codes "null" })
to_string json_none = none
to_string (json_object o) = none
to_string (json_array a) = none
to_string json_double = none
to_string (json_boolean b) = none

-- `ss_addr_t`; a NULL port is `none`.
pub record Addr : Type 0 where
  pub host : List ℕ
  pub port : Option (List ℕ)

-- The loop over the colons: their number, and where the last one is.
unfoldable pub colons : List ℕ → ℕ × Option ℕ
colons [] = (0, none)
colons (c ∷ s) =
    let (n, last) = colons s in
    if c == b':'
    then (n + 1, elim last [ none ↦ some 0 | some i ↦ some (i + 1) ])
    else (n, elim last [ none ↦ none | some i ↦ some (i + 1) ])

-- Where the port begins, given the number of colons and the last one.
unfoldable pub port_colon : List ℕ → ℕ → Option ℕ → Option ℕ
port_colon str n none = none
port_colon str n (some ret) =
    if ltb 1 n then if get_or str (ret - 1) 0 == b']' then some ret else none else some ret

-- The host and the port, given whether there is more than one colon and where the port begins. More
-- than one colon gives a text of at least two bytes, with the last colon not before the second.
unfoldable pub addr_at : List ℕ → Bool → Option ℕ → Addr
addr_at str ipv6 none = record {
  host = if ipv6 then ss_strndup (drop 1 str) (length str - 2) else str;
  port = none;
}
addr_at str ipv6 (some ret) = record {
  host = if ipv6 then ss_strndup (drop 1 str) (ret - 2) else ss_strndup str ret;
  port = some (drop (ret + 1) str);
}

-- `is_ip` is whether `cork_ip_init` parses the text.
unfoldable pub parse_addr : (List ℕ → Bool) → List ℕ → Addr
parse_addr is_ip str =
    let (n, last) = colons str in
    if is_ip str
    then record { host = str; port = none }
    else addr_at str (ltb 1 n) (port_colon str n last)
