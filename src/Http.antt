-- ===== src/Http.antt =====
-- http.c: the Host header of a request. The data is the bytes from the pointer on; every read is of
-- a byte that is there.
pub mod Headers
pub mod Host
mod Tests
use openwrt_helloworld.Prelude.{
  ℕ, zero, suc, ◌+◌, Bool, true, false, not, ◌&&◌, ◌||◌, List, [], ◌∷◌, ◌++◌, Option, none, some,
  leb, ltb, ◌==◌, if◌then◌else◌, length, take, drop, map,
}
use openwrt_helloworld.Prelude.Text.{codes, same_key}

-- The result of `parse_http_header`: the memory at `*hostname` and the length returned, or the
-- codes -1 to -4.
pub data Parsed : Type 0 where
  hostname : List ℕ → ℕ → Parsed
  incomplete no_host no_pointer no_memory no_fuel : Parsed

-- The first loop of `next_header`: on to the end of the line.
unfoldable pub skip_line : List ℕ → List ℕ
skip_line [] = []
skip_line (a ∷ []) = a ∷ []
skip_line (a ∷ b ∷ []) = a ∷ b ∷ []
skip_line (a ∷ b ∷ c ∷ s) = elim (not (a == 13) && not (b == 10)) [
  | true ↦ skip_line (b ∷ c ∷ s)
  | false ↦ a ∷ b ∷ c ∷ s
]

-- Its second loop: the length of the line.
unfoldable pub line_len : List ℕ → ℕ
line_len [] = 0
line_len (a ∷ []) = 0
line_len (a ∷ b ∷ s) = elim (not (a == 13) && not (b == 10)) [
  | true ↦ suc (line_len (b ∷ s))
  | false ↦ 0
]

-- Past the two bytes of the line's end; `none` when fewer are left: `len` is negative then.
unfoldable pub past_end : List ℕ → Option (List ℕ)
past_end [] = none
past_end (a ∷ []) = none
past_end (a ∷ b ∷ s) = some s

-- The length of the next header, and the data from it on.
unfoldable pub next_header : List ℕ → ℕ × Option (List ℕ)
unfolding skip_line line_len past_end
next_header s = elim (past_end (skip_line s)) [
  | none ↦ (0, none)
  | some rest ↦ (line_len rest, some rest)
]

-- `tolower` of an ASCII character.
abbrev pub lower : ℕ → ℕ
lower c = if leb 65 c && leb c 90 then c + 32 else c

-- `strncasecmp("Host:", data, 5) == 0`, where the line is longer than that.
unfoldable pub is_host : ℕ → List ℕ → Bool
is_host len s = ltb 5 len && same_key (map lower (take 5 s)) (codes "host:")

abbrev pub isblank : ℕ → Bool
isblank c = c == 32 || c == 9

unfoldable pub drop_blanks : List ℕ → List ℕ
drop_blanks [] = []
drop_blanks (c ∷ s) = elim (isblank c) [ true ↦ drop_blanks s | false ↦ c ∷ s ]

-- `strncpy` of as many bytes as there are: zeros from the first zero on.
unfoldable pub copied : Bool → List ℕ → List ℕ
copied ended [] = []
copied ended (c ∷ s) = let e = ended || c == 0 in (if e then 0 else c) ∷ copied e s

-- One round of the loop of `get_header`, on what `next_header` gave; `again` is the rounds that
-- follow.
unfoldable pub header_round : Bool → (List ℕ → Parsed) → ℕ → Option (List ℕ) → Parsed
header_round malloc_ok again len none = no_host
header_round malloc_ok again len (some rest) = elim (len == 0) [
  | true ↦ if length rest == 0 then incomplete else no_host
  | false ↦ elim (is_host len rest) [
    | true ↦
        let value = drop_blanks (drop 5 (take len rest)) in
        if malloc_ok then hostname (copied false value ++ (0 ∷ [])) (length value) else no_memory
    | false ↦ again rest
  ]
]

-- The loop, on fuel above the number of bytes: a round moves on by at least 2.
unfoldable pub header_loop : ℕ → Bool → List ℕ → Parsed
header_loop zero malloc_ok s = no_fuel
header_loop (suc fuel) malloc_ok s =
    let (len, next) = next_header s in header_round malloc_ok (header_loop fuel malloc_ok) len next

unfoldable pub get_header : Bool → List ℕ → Parsed
unfolding header_loop
get_header malloc_ok s = header_loop (suc (length s)) malloc_ok s

-- Where the last colon is.
unfoldable pub last_colon : List ℕ → Option ℕ
last_colon [] = none
last_colon (c ∷ s) = elim (last_colon s) [
  | some i ↦ some (i + 1)
  | none ↦ if c == b':' then some 0 else none
]

-- The loop of `parse_http_header`: the port is cut off.
unfoldable pub cut_port : Parsed → Parsed
cut_port (hostname s n) = elim (last_colon (take n s)) [
  | none ↦ hostname s n
  | some i ↦ hostname (take i s ++ (0 ∷ drop (i + 1) s)) i
]
cut_port incomplete = incomplete
cut_port no_host = no_host
cut_port no_pointer = no_pointer
cut_port no_memory = no_memory
cut_port no_fuel = no_fuel

-- `has_hostname` is false for a NULL `hostname`.
unfoldable pub parse_http_header : Bool → Bool → List ℕ → Parsed
unfolding cut_port
parse_http_header malloc_ok has_hostname s =
    if not has_hostname
    then no_pointer
    else if length s == 0
    then incomplete
    else cut_port (get_header malloc_ok s)
