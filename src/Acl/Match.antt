-- ===== src/Acl/Match.antt =====
-- What the access lists decide: the peers that `accept_cb` keeps, and the addresses that are added
-- to and removed from the black list.
use openwrt_helloworld.Prelude.{
  ℕ, ◌≤◌, ◌≡◌, refl, true, false, List, none, some, Option-cases, inl, inr, arith, if◌then◌else◌,
}
use openwrt_helloworld.Prelude.{◌↔◌, ◌⊎◌}
use openwrt_helloworld.Cache.Hashing.{Uthash, Clock}
use openwrt_helloworld.Rule.{Pcre}
use openwrt_helloworld.Acl.Lines.{black_mode}
use openwrt_helloworld.Acl.{
  Net, Acl, Listing, no_match, in_black, in_white, acl_match_host, listed, acl_add_ip,
  acl_remove_ip, add_address,
}
use openwrt_helloworld.Acl.BlockList.{BlockList, accept_peer, acl_decision}
use openwrt_helloworld.Acl.BlockList.Counting.{Counts, check_block_list-count}

module _ (clock : Clock) (uthash : Uthash ℕ clock) (net : Net) (pcre : Pcre) where
  open clock use {Time}

  module _ (t1 t2 : Time) (acl : Acl net pcre) (host : List ℕ) (b : BlockList clock uthash) (p : ℕ)
      (n : Counts clock uthash b host p) where
    -- With access lists, a peer that has a counter is kept just when the white list has it and the
    -- black list does not, or when no list has it, the mode is that of the black list and its
    -- counter is at most 64.
    pub accept_peer_iff :
        ((accept_peer clock uthash net pcre t1 t2 true acl (some host) b).0 ≡ true) ↔ (
          (acl_match_host net pcre acl host ≡ in_white)
          ⊎ (acl_match_host net pcre acl host ≡ no_match)
            × (acl.mode ≡ black_mode)
            × (b.counts p ≤ 64))
    unfolding accept_peer acl_decision
    accept_peer_iff =
        let (b', checks, same, still) = check_block_list-count clock uthash b host p n t1 t2 in
        let m = acl.mode in ground (arith, checks)

-- What ipset documents of a set: an address that was added is there, adding keeps what is there,
-- and an address that was removed is not there.
pub record IpSetLaws (net : Net) : Type 0 where
  pub contains_ip-add_ip :
      (a : net.Address) (s : net.IpSet) → net.contains_ip a (net.add_ip a s) ≡ true
  pub add_ip-keeps :
      (a c : net.Address) (s : net.IpSet)
      → net.contains_ip c s ≡ true
      → net.contains_ip c (net.add_ip a s) ≡ true
  pub contains_ip-remove_ip :
      (a : net.Address) (s : net.IpSet) → net.contains_ip a (net.remove_ip a s) ≡ false

module _ (net : Net) (pcre : Pcre) where
  in_black-listed :
      (acl : Acl net pcre) (host : List ℕ)
      → (acl_match_host net pcre acl host ≡ in_black) ↔ (listed net pcre acl.black_list host ≡ true)
  unfolding acl_match_host
  in_black-listed acl host = ground arith

  listed-add_address :
      (laws : IpSetLaws net) (version : ℕ) (a : net.Address) (l : Listing net pcre) (host : List ℕ)
      → listed net pcre l host ≡ true
      → listed net pcre (add_address net pcre version a none l) host ≡ true
  unfolding listed add_address
  listed-add_address laws version a l host h = elim (Option-cases (net.ip_init host)) [
    | inl fails ↦ ground (arith, fails)
    | inr ((w, c), parses) ↦
        ground (arith, parses, laws.add_ip-keeps a c l.ipv4, laws.add_ip-keeps a c l.ipv6)
  ]

  listed-added :
      (laws : IpSetLaws net) (version : ℕ) (a : net.Address) (l : Listing net pcre) (ip : List ℕ)
      → net.ip_init ip ≡ some (version, a)
      → (version ≡ 4) ⊎ (version ≡ 6)
      → listed net pcre (add_address net pcre version a none l) ip ≡ true
  unfolding listed add_address
  listed-added laws version a l ip e (inl four) =
      rw (listed, e, four) (laws.contains_ip-add_ip a l.ipv4)
  listed-added laws version a l ip e (inr six) =
      rw (listed, e, six) (laws.contains_ip-add_ip a l.ipv6)

  module _ (laws : IpSetLaws net) (acl : Acl net pcre) (ip : List ℕ) (version : ℕ) (a : net.Address)
      (parses : net.ip_init ip ≡ some (version, a)) where
    -- An address that is added to the access lists is in the black list afterwards, and so is every
    -- host that was in it; the white list answers as before.
    pub acl_match_host-acl_add_ip :
        (version ≡ 4) ⊎ (version ≡ 6)
        → (acl_match_host net pcre (acl_add_ip net pcre ip acl).1 ip ≡ in_black)
          × ((host : List ℕ)
              → acl_match_host net pcre acl host ≡ in_black
              → acl_match_host net pcre (acl_add_ip net pcre ip acl).1 host ≡ in_black)
          × ((host : List ℕ)
              → listed net pcre (acl_add_ip net pcre ip acl).1.white_list host
                ≡ listed net pcre acl.white_list host)
    unfolding acl_add_ip
    acl_match_host-acl_add_ip family =
        rw (acl_add_ip, parses)
          (
            (in_black-listed _ ip).1 (listed-added laws version a acl.black_list ip parses family),
            λ host h. (in_black-listed _ host).1 (
                listed-add_address laws version a acl.black_list host
                  ((in_black-listed acl host).0 h)),
            λ host. refl,
          )

    -- An address that is removed from the access lists is not in the black list afterwards: the
    -- white list alone says what it is.
    pub acl_match_host-acl_remove_ip :
        acl_match_host net pcre (acl_remove_ip net pcre ip acl).1 ip
        ≡ (if listed net pcre acl.white_list ip then in_white else no_match)
    unfolding acl_match_host acl_remove_ip listed
    acl_match_host-acl_remove_ip = ground (
      arith,
      parses,
      laws.contains_ip-remove_ip a acl.black_list.ipv4,
      laws.contains_ip-remove_ip a acl.black_list.ipv6,
    )
