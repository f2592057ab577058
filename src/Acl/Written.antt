-- ===== src/Acl/Written.antt =====
-- An access list as it is written: its lines with the spaces around them.
use openwrt_helloworld.Prelude.{
  ℕ, Bool, true, false, List, [], ◌∷◌, ◌++◌, ◌≡◌, if◌then◌else◌, ◌==◌, All,
}
use openwrt_helloworld.Prelude.Text.{codes, isspace}
use openwrt_helloworld.Acl.Lines.{Mode, black_mode, white_mode, Section, black, white, outbound}
use openwrt_helloworld.Acl.{Acl}
use openwrt_helloworld.Acl.Load.{Kind, same_section}

-- What a line says. A header and a mode have two names each, but for the outbound list.
pub data Written : Type 0 where
  blank : Written
  comment : List ℕ → Written
  heading : Section → Bool → Written
  mode_line : Mode → Bool → Written
  entry_line : List ℕ → Written

unfoldable pub text : Written → List ℕ
text blank = []
text (comment s) = b'#' ∷ s
text (heading outbound _) = codes "[outbound_block_list]"
text (heading black true) = codes "[black_list]"
text (heading black false) = codes "[bypass_list]"
text (heading white true) = codes "[white_list]"
text (heading white false) = codes "[proxy_list]"
text (mode_line white_mode true) = codes "[reject_all]"
text (mode_line white_mode false) = codes "[bypass_all]"
text (mode_line black_mode true) = codes "[accept_all]"
text (mode_line black_mode false) = codes "[proxy_all]"
text (entry_line s) = s

-- A line of the file, with the spaces before and after what it says.
pub data Line : Type 0 where
  line : List ℕ → Written → List ℕ → Line

abbrev pub raw_line : Line → List ℕ
raw_line (line before w after) = before ++ (text w ++ after)

abbrev pub raw_lines : List Line → List (List ℕ)
raw_lines [] = []
raw_lines (l ∷ ls) = raw_line l ∷ raw_lines ls

abbrev pub last_of : ℕ → List ℕ → ℕ
last_of c [] = c
last_of c (d ∷ s) = last_of d s

-- No space stands at either end.
abbrev pub IsTrimmed : List ℕ → Type 0
IsTrimmed [] = Unit
IsTrimmed (c ∷ s) = (isspace c ≡ false) × (isspace (last_of c s) ≡ false)

-- An entry begins neither like a comment nor like a header.
abbrev pub IsWritten : Written → Type 0
IsWritten (entry_line []) = ⊥
IsWritten (entry_line (c ∷ s)) = ((c == b'#') ≡ false) × ((c == b'[') ≡ false)
IsWritten _ = Unit

abbrev pub IsLine : Line → Type 0
IsLine (line before w after) =
    All (λ c. isspace c ≡ true) before
    × All (λ c. isspace c ≡ true) after
    × IsTrimmed (text w)
    × IsWritten w

-- The entries of one section, where `current` is the section that the first line is in; and the mode
-- behind the lines.
unfoldable pub entries : Section → Section → List Line → List (List ℕ)
entries s current [] = []
entries s current (line _ blank _ ∷ ls) = entries s current ls
entries s current (line _ (comment _) _ ∷ ls) = entries s current ls
entries s current (line _ (heading next _) _ ∷ ls) = entries s next ls
entries s current (line _ (mode_line _ _) _ ∷ ls) = entries s current ls
entries s current (line _ (entry_line e) _ ∷ ls) =
    let rest = entries s current ls in if same_section s current then e ∷ rest else rest

unfoldable pub last_mode : Mode → List Line → Mode
last_mode mode [] = mode
last_mode mode (line _ blank _ ∷ ls) = last_mode mode ls
last_mode mode (line _ (comment _) _ ∷ ls) = last_mode mode ls
last_mode mode (line _ (heading _ _) _ ∷ ls) = last_mode mode ls
last_mode mode (line _ (mode_line next _) _ ∷ ls) = last_mode next ls
last_mode mode (line _ (entry_line _) _ ∷ ls) = last_mode mode ls

-- The kind of what a line says.
abbrev kind : Written → Kind
kind blank = Kind.skipped
kind (comment s) = Kind.skipped
kind (heading s _) = Kind.header s
kind (mode_line m _) = Kind.setting m
kind (entry_line e) = Kind.entry
