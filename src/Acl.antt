-- ===== src/Acl.antt =====
-- acl.c: the access lists and what they say of a host. libcork's addresses, ipset's sets and PCRE2
-- are parameters.
pub mod Lines
pub mod Match
pub mod Load
pub mod Written
pub mod BlockList
mod Tests
use openwrt_helloworld.Prelude.{
  ℕ, zero, suc, ◌+◌, ◌-◌, ◌*◌, Bool, true, false, not, ◌&&◌, ◌||◌, List, [], ◌∷◌, ◌++◌, Option,
  none, some, ◌==◌, if◌then◌else◌,
}
use Lines.{
  Mode, black_mode, white_mode, Section, black, white, outbound, trimwhitespace, parse_addr_cidr,
  section_header, mode_header, is_skipped,
}
use openwrt_helloworld.Rule.{Pcre, Rule, new_rule, accept_rule_arg, init_rule, lookup_rule}

-- What acl.c calls of libcork: `cork_ip_init` parses an address (`none` is an error) and gives its
-- version; and of ipset, for one family of addresses.
pub record Net : Type 1 where
  pub Address : Type 0
  pub ip_init : List ℕ → Option (ℕ × Address)
  pub IpSet : Type 0
  pub empty_set : IpSet
  pub add_ip : Address → IpSet → IpSet
  pub add_network : Address → ℕ → IpSet → IpSet
  pub remove_ip : Address → IpSet → IpSet
  pub contains_ip : Address → IpSet → Bool

-- The results 0, 1 and -1 of `acl_match_host`.
pub data Verdict : Type 0 where
  no_match in_black in_white : Verdict

module _ (net : Net) (pcre : Pcre) where
  open net use {Address, ip_init, IpSet, empty_set, add_ip, add_network, remove_ip, contains_ip}

  -- One of the three access lists: its sets and its rules.
  pub record Listing : Type 0 where
    pub ipv4 : IpSet
    pub ipv6 : IpSet
    pub rules : List (Rule pcre)

  -- The static variables of acl.c that a match reads.
  pub record Acl : Type 0 where
    pub black_list : Listing
    pub white_list : Listing
    pub outbound_list : Listing
    pub mode : Mode

  abbrev pub listing_of : Section → Acl → Listing
  listing_of black acl = acl.black_list
  listing_of white acl = acl.white_list
  listing_of outbound acl = acl.outbound_list

  abbrev pub with_listing : Section → Listing → Acl → Acl
  with_listing black l acl = record acl { black_list = l }
  with_listing white l acl = record acl { white_list = l }
  with_listing outbound l acl = record acl { outbound_list = l }

  abbrev pub empty_listing : Listing
  empty_listing = record { ipv4 = empty_set; ipv6 = empty_set; rules = [] }

  -- The address or network of a line, put into the set of its family.
  abbrev pub add_to : Address → Option ℕ → IpSet → IpSet
  add_to a none set = add_ip a set
  add_to a (some cidr) set = add_network a cidr set

  unfoldable pub add_address : ℕ → Address → Option ℕ → Listing → Listing
  add_address version a cidr l =
      if version == 4
      then record l { ipv4 = add_to a cidr l.ipv4 }
      else if version == 6
      then record l { ipv6 = add_to a cidr l.ipv6 }
      else l

  -- A line that is no address becomes a rule; `malloc` and `strdup` succeed here, and the rule is
  -- added whatever `init_rule` returns.
  unfoldable pub line_rule : List ℕ → Rule pcre
  line_rule line =
      let fresh : Rule pcre = record {
        pattern_text = none;
        pattern_re = none;
        match_data = false;
      } in
      (init_rule pcre (accept_rule_arg pcre true fresh line).1).1

  -- The entry that a line makes. `cork_dllist_add` puts the rule at the end.
  unfoldable pub add_line : List ℕ → Listing → Listing
  unfolding add_address line_rule parse_addr_cidr
  add_line line l =
      let (host, cidr) = parse_addr_cidr line in
      elim (ip_init host) [
        | some (version, a) ↦ add_address version a cidr l
        | none ↦ record l { rules = l.rules ++ (line_rule line ∷ []) }
      ]

  -- The loop of `init_acl` over the lines, with the section that it is in. A line is what `fgets`
  -- returns, without its newline.
  unfoldable pub acl_line : List ℕ → Section × Acl → Section × Acl
  acl_line raw (section, acl) =
      let line = trimwhitespace raw in
      if is_skipped line then (section, acl) else elim (section_header line) [
        | some next ↦ (next, acl)
        | none ↦ elim (mode_header line) [
          | some mode ↦ (section, record acl { mode = mode })
          | none ↦ (section, with_listing section (add_line line (listing_of section acl)) acl)
        ]
      ]

  unfoldable pub acl_lines : List (List ℕ) → Section × Acl → Section × Acl
  acl_lines [] s = s
  acl_lines (raw ∷ lines) s = acl_lines lines (acl_line raw s)

  -- `init_acl`; `none` is a path that cannot be opened (-1). The sets and lists are made empty in
  -- either case, and the mode stays what it was.
  unfoldable pub init_acl : Option (List (List ℕ)) → Acl → Bool × Acl
  unfolding acl_lines
  init_acl file acl =
      let cleared : Acl = record {
        black_list = empty_listing;
        white_list = empty_listing;
        outbound_list = empty_listing;
        mode = acl.mode;
      } in
      elim file [
        | none ↦ (false, cleared)
        | some lines ↦ (true, (acl_lines lines (black, cleared)).1)
      ]

  -- Whether one list has the host, an address or a name.
  unfoldable pub listed : Listing → List ℕ → Bool
  listed l host = elim (ip_init host) [
    | none ↦ elim (lookup_rule pcre l.rules host) [ some _ ↦ true | none ↦ false ]
    | some (version, a) ↦
        if version == 4
        then contains_ip a l.ipv4
        else if version == 6
        then contains_ip a l.ipv6
        else false
  ]

  unfoldable pub acl_match_host : Acl → List ℕ → Verdict
  acl_match_host acl host =
      if listed acl.black_list host
      then in_black
      else if listed acl.white_list host
      then in_white
      else no_match

  unfoldable pub outbound_block_match_host : Acl → List ℕ → Bool
  outbound_block_match_host acl host = listed acl.outbound_list host

  -- `acl_add_ip` and `acl_remove_ip`: false is -1.
  unfoldable pub acl_add_ip : List ℕ → Acl → Bool × Acl
  acl_add_ip ip acl = elim (ip_init ip) [
    | none ↦ (false, acl)
    | some (version, a) ↦
        (true, record acl { black_list = add_address version a none acl.black_list })
  ]

  abbrev pub remove_address : ℕ → Address → Listing → Listing
  remove_address version a l =
      if version == 4
      then record l { ipv4 = remove_ip a l.ipv4 }
      else if version == 6
      then record l { ipv6 = remove_ip a l.ipv6 }
      else l

  unfoldable pub acl_remove_ip : List ℕ → Acl → Bool × Acl
  acl_remove_ip ip acl = elim (ip_init ip) [
    | none ↦ (false, acl)
    | some (version, a) ↦
        (true, record acl { black_list = remove_address version a acl.black_list })
  ]

  -- The lists that `free_acl` frees: it leaves the outbound ones.
  unfoldable pub free_acl : Acl → Acl
  free_acl acl = record acl { black_list = empty_listing; white_list = empty_listing }
