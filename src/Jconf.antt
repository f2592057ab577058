-- ===== src/Jconf.antt =====
-- jconf.c: reading the configuration. The parts are the values, the options, and this loop over them.
pub mod Value
pub mod Options
pub mod Address
pub mod Arrays
pub mod Config
pub mod Loading
mod Tests
use openwrt_helloworld.Prelude.{
  ℕ, zero, suc, ◌+◌, ◌-◌, ◌*◌, ◌%◌, ◌^◌, Bool, true, false, not, ◌&&◌, ◌||◌, List, [], ◌∷◌, Option,
  none, some, ltb, leb, ◌==◌, if◌then◌else◌, length, take, drop, get_or,
}
use openwrt_helloworld.Prelude.Text.{codes, same_key}
use Value.{
  Json, json_none, json_object, json_array, json_integer, json_double, json_string, json_boolean,
  json_null, Values, no_values, value_and, Members, no_members, member_and, Text, to_string, Addr,
  parse_addr,
}
use Options.{Jconf, zeroed, Reading, loaded, fatal, bad_free, key_of, read_option}

-- The loop over the members of the object.
unfoldable pub read_members : (List ℕ → Bool) → Members → Jconf → Reading
read_members is_ip no_members conf = loaded conf
read_members is_ip (member_and name value members) conf =
    elim (read_option is_ip (key_of name) value conf) [
      | loaded conf' ↦ read_members is_ip members conf'
      | fatal ↦ fatal
      | bad_free ↦ bad_free
    ]

-- What is read of the parsed value, `none` where parsing fails: it must be an object.
unfoldable pub read_object : (List ℕ → Bool) → Option Json → Reading
unfolding read_members
read_object is_ip none = fatal
read_object is_ip (some (json_object members)) = read_members is_ip members zeroed
read_object is_ip (some json_none) = fatal
read_object is_ip (some (json_array a)) = fatal
read_object is_ip (some (json_integer n)) = fatal
read_object is_ip (some json_double) = fatal
read_object is_ip (some (json_string s)) = fatal
read_object is_ip (some (json_boolean b)) = fatal
read_object is_ip (some json_null) = fatal

-- `parse` is `json_parse_ex`, and the file is what `fopen` and `fread` give: `none` is one that cannot
-- be opened. Memory does not run out.
unfoldable pub read_jconf : (List ℕ → Option Json) → (List ℕ → Bool) → Option (List ℕ) → Reading
read_jconf parse is_ip none = fatal
read_jconf parse is_ip (some buf) =
    if leb (128 * 1024) (length buf) || length buf == 0
    then fatal
    else read_object is_ip (parse buf)
