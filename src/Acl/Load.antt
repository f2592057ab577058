-- ===== src/Acl/Load.antt =====
-- Loading an access list: each line goes to the section whose header stands last above it.
use openwrt_helloworld.Prelude.{
  ℕ, Bool, true, false, List, [], ◌∷◌, none, some, ◌≡◌, refl, ◌∙◌, ap, arith, if◌then◌else◌,
}
use openwrt_helloworld.Rule.{Pcre}
use openwrt_helloworld.Acl.Lines.{
  Mode, Section, black, white, outbound, trimwhitespace, section_header, mode_header, is_skipped,
}
use openwrt_helloworld.Acl.{
  Net, Acl, Listing, listing_of, with_listing, empty_listing, add_line, acl_line, acl_lines,
  init_acl,
}

unfoldable pub same_section : Section → Section → Bool
same_section black black = true
same_section white white = true
same_section outbound outbound = true
same_section _ _ = false

-- What a line of the file is.
pub data Kind : Type 0 where
  skipped : Kind
  header : Section → Kind
  setting : Mode → Kind
  entry : Kind

unfoldable pub kind_of : List ℕ → Kind
kind_of line = if is_skipped line then Kind.skipped else elim (section_header line) [
  | some next ↦ Kind.header next
  | none ↦ elim (mode_header line) [ some mode ↦ Kind.setting mode | none ↦ Kind.entry ]
]

-- The trimmed lines that are entries of one section, in a file that is read from `current` on.
unfoldable pub entries_of : Section → Section → List (List ℕ) → List (List ℕ)
entries_of s current [] = []
entries_of s current (raw ∷ lines) = elim (kind_of (trimwhitespace raw)) [
  | Kind.skipped ↦ entries_of s current lines
  | Kind.header next ↦ entries_of s next lines
  | Kind.setting mode ↦ entries_of s current lines
  | Kind.entry ↦
      let rest = entries_of s current lines in
      if same_section s current then trimwhitespace raw ∷ rest else rest
]

-- The mode after the file: that of the last mode header.
unfoldable pub mode_after : Mode → List (List ℕ) → Mode
mode_after mode [] = mode
mode_after mode (raw ∷ lines) = elim (kind_of (trimwhitespace raw)) [
  | Kind.setting next ↦ mode_after next lines
  | _ ↦ mode_after mode lines
]

module _ (net : Net) (pcre : Pcre) where
  abbrev pub add_lines : List (List ℕ) → Listing net pcre → Listing net pcre
  add_lines [] l = l
  add_lines (line ∷ lines) l = add_lines lines (add_line net pcre line l)

  listing_of-setting :
      (s : Section) (mode : Mode) (acl : Acl net pcre)
      → listing_of net pcre s (record acl { mode = mode }) ≡ listing_of net pcre s acl
  listing_of-setting black mode acl = refl
  listing_of-setting white mode acl = refl
  listing_of-setting outbound mode acl = refl

  -- An entry counts for its own section and for no other.
  entry_goes :
      (s current : Section) (line : List ℕ) (rest : List (List ℕ)) (acl : Acl net pcre)
      → add_lines rest (
          listing_of net pcre s (
            with_listing net pcre current
              (add_line net pcre line (listing_of net pcre current acl))
              acl))
        ≡ add_lines
            (if same_section s current then line ∷ rest else rest)
            (listing_of net pcre s acl)
  unfolding same_section
  entry_goes black black line rest acl = refl
  entry_goes black white line rest acl = refl
  entry_goes black outbound line rest acl = refl
  entry_goes white black line rest acl = refl
  entry_goes white white line rest acl = refl
  entry_goes white outbound line rest acl = refl
  entry_goes outbound black line rest acl = refl
  entry_goes outbound white line rest acl = refl
  entry_goes outbound outbound line rest acl = refl

  mode-with_listing :
      (current : Section) (l : Listing net pcre) (acl : Acl net pcre)
      → (with_listing net pcre current l acl).mode ≡ acl.mode
  mode-with_listing black l acl = refl
  mode-with_listing white l acl = refl
  mode-with_listing outbound l acl = refl

  -- One line, by its kind.
  abbrev of_kind : Kind → List ℕ → Section → Acl net pcre → Section × Acl net pcre
  of_kind Kind.skipped line current acl = (current, acl)
  of_kind (Kind.header next) line current acl = (next, acl)
  of_kind (Kind.setting mode) line current acl = (current, record acl { mode = mode })
  of_kind Kind.entry line current acl = (
    current,
    with_listing net pcre current (add_line net pcre line (listing_of net pcre current acl)) acl,
  )

  acl_line-kind :
      (raw : List ℕ) (current : Section) (acl : Acl net pcre)
      → acl_line net pcre raw (current, acl)
        ≡ of_kind (kind_of (trimwhitespace raw)) (trimwhitespace raw) current acl
  unfolding acl_line kind_of
  acl_line-kind raw current acl = ground arith

  cleared_listing :
      (s : Section) (mode : Mode)
      → listing_of net pcre s (record {
        black_list = empty_listing net pcre;
        white_list = empty_listing net pcre;
        outbound_list = empty_listing net pcre;
        mode = mode;
      })
        ≡ empty_listing net pcre
  cleared_listing black mode = refl
  cleared_listing white mode = refl
  cleared_listing outbound mode = refl

  acl_lines-cons :
      (raw : List ℕ) (lines : List (List ℕ)) (current : Section) (acl : Acl net pcre) (k : Kind)
      → kind_of (trimwhitespace raw) ≡ k
      → acl_lines net pcre (raw ∷ lines) (current, acl)
        ≡ acl_lines net pcre lines (of_kind k (trimwhitespace raw) current acl)
  unfolding acl_lines
  acl_lines-cons raw lines current acl k e =
      ap (acl_lines net pcre lines)
        (acl_line-kind raw current acl ∙ ap (λ j. of_kind j (trimwhitespace raw) current acl) e)

  -- After the file, each list is what its own entries make of it, in their order.
  pub acl_lines-listing :
      (lines : List (List ℕ)) (s current : Section) (acl : Acl net pcre)
      → listing_of net pcre s (acl_lines net pcre lines (current, acl)).1
        ≡ add_lines (entries_of s current lines) (listing_of net pcre s acl)
  unfolding entries_of
  acl_lines-listing [] s current acl = unfold acl_lines in refl
  acl_lines-listing (raw ∷ lines) s current acl = go (acl_lines-listing lines s) (kind_of line) refl
    where
      line : List ℕ
      line = trimwhitespace raw

      go :
          ((now : Section) (a : Acl net pcre)
            → listing_of net pcre s (acl_lines net pcre lines (now, a)).1
              ≡ add_lines (entries_of s now lines) (listing_of net pcre s a))
          → (k : Kind) → kind_of line ≡ k
          → listing_of net pcre s (acl_lines net pcre (raw ∷ lines) (current, acl)).1
            ≡ add_lines (entries_of s current (raw ∷ lines)) (listing_of net pcre s acl)
      go ih Kind.skipped e =
          rw (acl_lines-cons raw lines current acl _ e, e, entries_of) (ih current acl)
      go ih (Kind.header next) e =
          rw (acl_lines-cons raw lines current acl _ e, e, entries_of) (ih next acl)
      go ih (Kind.setting mode) e =
          rw (acl_lines-cons raw lines current acl _ e, e, entries_of)
            (ih current (record acl { mode = mode })
              ∙ ap (add_lines (entries_of s current lines)) (listing_of-setting s mode acl))
      go ih Kind.entry e =
          let stored =
            with_listing net pcre current (add_line net pcre line (listing_of net pcre current acl))
              acl in
          rw (acl_lines-cons raw lines current acl _ e, e, entries_of)
            (ih current stored ∙ entry_goes s current line (entries_of s current lines) acl)

  acl_lines-mode :
      (lines : List (List ℕ)) (current : Section) (acl : Acl net pcre)
      → (acl_lines net pcre lines (current, acl)).1.mode ≡ mode_after acl.mode lines
  unfolding mode_after
  acl_lines-mode [] current acl = unfold acl_lines in refl
  acl_lines-mode (raw ∷ lines) current acl = go (acl_lines-mode lines) (kind_of line) refl
    where
      line : List ℕ
      line = trimwhitespace raw

      go :
          ((now : Section) (a : Acl net pcre)
            → (acl_lines net pcre lines (now, a)).1.mode ≡ mode_after a.mode lines)
          → (k : Kind) → kind_of line ≡ k
          → (acl_lines net pcre (raw ∷ lines) (current, acl)).1.mode
            ≡ mode_after acl.mode (raw ∷ lines)
      go ih Kind.skipped e =
          rw (acl_lines-cons raw lines current acl _ e, e, mode_after) (ih current acl)
      go ih (Kind.header next) e =
          rw (acl_lines-cons raw lines current acl _ e, e, mode_after) (ih next acl)
      go ih (Kind.setting mode) e =
          rw (acl_lines-cons raw lines current acl _ e, e, mode_after)
            (ih current (record acl { mode = mode }))
      go ih Kind.entry e =
          let stored =
            with_listing net pcre current (add_line net pcre line (listing_of net pcre current acl))
              acl in
          rw (acl_lines-cons raw lines current acl _ e, e, mode_after)
            (ih current stored
              ∙ ap (λ m. mode_after m lines)
                  (mode-with_listing current
                    (add_line net pcre line (listing_of net pcre current acl)) acl))

  -- `init_acl` fills each of the three lists with the entries of its own sections, in the order of
  -- the file, the black list being the section before any header; the mode is that of the last mode
  -- header, or what it was.
  pub init_acl-listing :
      (file : List (List ℕ)) (acl : Acl net pcre) (s : Section)
      → let (opened, acl') = init_acl net pcre (some file) acl in
        (opened ≡ true)
        × (listing_of net pcre s acl'
            ≡ add_lines (entries_of s black file) (empty_listing net pcre))
        × (acl'.mode ≡ mode_after acl.mode file)
  unfolding init_acl
  init_acl-listing file acl s =
      let cleared : Acl net pcre = record {
        black_list = empty_listing net pcre;
        white_list = empty_listing net pcre;
        outbound_list = empty_listing net pcre;
        mode = acl.mode;
      } in
      (
        refl,
        acl_lines-listing file s black cleared
            ∙ ap (add_lines (entries_of s black file)) (cleared_listing s acl.mode),
        acl_lines-mode file black cleared,
      )
