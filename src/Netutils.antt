-- ===== src/Netutils.antt =====
-- netutils.c: the test of a host name.
pub mod Hostname
mod Tests
use openwrt_helloworld.Prelude.{
  ℕ, zero, suc, ◌+◌, ◌-◌, Bool, true, false, ◌||◌, ◌&&◌, List, [], ◌∷◌, Option, none, some, leb,
  ltb, ◌==◌, if◌then◌else◌, get_or, drop,
}

-- `strchr`: the index of the character, before the zero that ends the string.
unfoldable pub strchr : List ℕ → ℕ → Option ℕ
strchr [] c = none
strchr (x ∷ xs) c =
    if x == c
    then some 0
    else if x == 0
    then none
    else (elim (strchr xs c) [ none ↦ none | some i ↦ some (suc i) ])

-- The characters of `valid_label_bytes`.
unfoldable pub is_valid_label_byte : ℕ → Bool
is_valid_label_byte c =
    (c == b'-')
    || (leb b'0' c && leb c b'9')
    || (leb b'A' c && leb c b'Z')
    || (c == b'_')
    || (leb b'a' c && leb c b'z')

-- `strspn(label, valid_label_bytes)`.
unfoldable pub strspn : List ℕ → ℕ
strspn [] = 0
strspn (x ∷ xs) = if is_valid_label_byte x then suc (strspn xs) else 0

-- The tests of one round on the label at the head of the memory; `left` bytes of the name are left.
unfoldable pub is_label : List ℕ → ℕ → ℕ → Bool
is_label label label_len left =
    if ltb left label_len
    then false
    else if ltb 63 label_len || ltb label_len 1
    then false
    else if (get_or label 0 0 == b'-') || (get_or label (label_len - 1) 0 == b'-')
    then false
    else if ltb (strspn label) label_len
    then false
    else true

-- The length of the label at the head, where `left` bytes of the name are left.
unfoldable pub label_length : List ℕ → ℕ → ℕ
label_length label left = elim (strchr label b'.') [ none ↦ left | some i ↦ i ]

-- The loop. A round moves `label` by at least 1, so that the fuel `left` is enough.
unfoldable pub labels_loop : ℕ → List ℕ → ℕ → Option Bool
labels_loop fuel label zero = some true
labels_loop zero label (suc left) = none
labels_loop (suc fuel) label (suc left) =
    elim (is_label label (label_length label (suc left)) (suc left)) [
      | false ↦ some false
      | true ↦
          labels_loop fuel (drop (label_length label (suc left) + 1) label)
            (suc left - (label_length label (suc left) + 1))
    ]

-- `hostname` is the memory from the name's first byte on; `none` is a loop out of fuel.
unfoldable pub validate_hostname : List ℕ → ℕ → Option Bool
validate_hostname hostname hostname_len =
    if ltb hostname_len 1 || ltb 255 hostname_len
    then some false
    else if get_or hostname 0 0 == b'.'
    then some false
    else labels_loop hostname_len hostname hostname_len
