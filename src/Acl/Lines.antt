-- ===== src/Acl/Lines.antt =====
-- acl.c: the text of an access list: trimming, headers, and addresses with a prefix length.
use openwrt_helloworld.Prelude.{
  ℕ, Bool, true, ◌||◌, List, [], ◌∷◌, Option, none, some, ◌==◌, if◌then◌else◌,
}
use openwrt_helloworld.Prelude.Text.{codes, same_key, isspace, drop_spaces, atoi}

-- `acl_mode`, and which lists a line of the file goes to.
pub data Mode : Type 0 where
  black_mode white_mode : Mode

pub data Section : Type 0 where
  black white outbound : Section

-- `trimwhitespace`: the end goes back over spaces, but not over the first character, which is no
-- space.
unfoldable pub trim_end : List ℕ → List ℕ
trim_end [] = []
trim_end (c ∷ s) = elim (trim_end s) [ [] ↦ if isspace c then [] else c ∷ [] | d ∷ r ↦ c ∷ d ∷ r ]

unfoldable pub trimwhitespace : List ℕ → List ℕ
unfolding trim_end
trimwhitespace str = trim_end (drop_spaces str)

-- The text up to the last '/', and the text behind it.
unfoldable pub split_slash : List ℕ → Option (List ℕ × List ℕ)
split_slash [] = none
split_slash (c ∷ s) = elim (split_slash s) [
  | some (before, after) ↦ some (c ∷ before, after)
  | none ↦ if c == b'/' then some ([], s) else none
]

-- The host and the prefix length; `none` is a negative one.
unfoldable pub parse_addr_cidr : List ℕ → List ℕ × Option ℕ
unfolding split_slash
parse_addr_cidr str = elim (split_slash str) [
  | none ↦ (str, none)
  | some (host, rest) ↦ (host, atoi rest)
]

-- The headers of the file: the section that follows, or the mode.
unfoldable pub section_header : List ℕ → Option Section
section_header line =
    if same_key line (codes "[outbound_block_list]")
    then some outbound
    else if same_key line (codes "[black_list]") || same_key line (codes "[bypass_list]")
    then some black
    else if same_key line (codes "[white_list]") || same_key line (codes "[proxy_list]")
    then some white
    else none

unfoldable pub mode_header : List ℕ → Option Mode
mode_header line =
    if same_key line (codes "[reject_all]") || same_key line (codes "[bypass_all]")
    then some white_mode
    else if same_key line (codes "[accept_all]") || same_key line (codes "[proxy_all]")
    then some black_mode
    else none

-- An empty line or a comment.
unfoldable pub is_skipped : List ℕ → Bool
is_skipped [] = true
is_skipped (c ∷ s) = c == b'#'
