-- ===== src/Acl/Tests.antt =====
-- The access lists over sets that are Boolean functions, and patterns that match only themselves.
use openwrt_helloworld.Prelude.{
  ℕ, ◌-◌, ◌≤◌, ◌≡◌, ◌↔◌, ◌⊎◌, refl, arith, List, [], ◌∷◌, Bool, true, false, Option, some, none,
  ltb, ◌==◌, ==_refl, if◌then◌else◌, inl,
}
use openwrt_helloworld.Prelude.Text.{codes, same_key}
use openwrt_helloworld.Cache.Hashing.{Clock, Entry, Uthash, list_table, find_key}
use openwrt_helloworld.Cache.{Cache, Event}
use openwrt_helloworld.Cache.Bound.{IsValid}
use openwrt_helloworld.Rule.{Pcre}
use openwrt_helloworld.Acl.Lines.{black_mode, white_mode, black, white}
use openwrt_helloworld.Acl.{
  Net, Acl, acl_match_host, in_black, in_white, no_match, listed, acl_add_ip, empty_listing,
}
use openwrt_helloworld.Acl.Written.{
  blank, comment, heading, mode_line, entry_line, Line, line, entries,
}
use openwrt_helloworld.Acl.Match.{IpSetLaws, accept_peer_iff, acl_match_host-acl_add_ip}
use openwrt_helloworld.Acl.BlockList.{BlockList, accept_peer, check_block_list, update_block_list}
use openwrt_helloworld.Acl.BlockList.Counting.{
  Counts, update_block_list-count, update_block_list-fresh,
}
use openwrt_helloworld.Acl.BlockList.Blocking.{Failure, reported, check_block_list-reported}

-- "4" and a byte, or "6" and a byte, are the addresses.
abbrev read_ip : List ℕ → Option (ℕ × ℕ)
read_ip (v ∷ a ∷ []) = if v == 52 then some (4, a) else if v == 54 then some (6, a) else none
read_ip _ = none

abbrev net : Net
net = record {
  Address = ℕ;
  ip_init = read_ip;
  IpSet = ℕ → Bool;
  empty_set = λ c. false;
  add_ip = λ a s c. if c == a then true else s c;
  add_network = λ a cidr s c. if c == a then true else s c;
  remove_ip = λ a s c. if c == a then false else s c;
  contains_ip = λ a s. s a;
}

net-IpSetLaws : IpSetLaws net
net-IpSetLaws = record {
  contains_ip-add_ip = λ a s. rw (==_refl a) refl;
  add_ip-keeps = λ a c s h. ground arith;
  contains_ip-remove_ip = λ a s. rw (==_refl a) refl;
}

abbrev pcre : Pcre
pcre = record {
  Regex = List ℕ;
  compile = some;
  match_block = λ re. true;
  finds = λ re subject. same_key re subject;
}

abbrev lists : Acl net pcre
lists = record {
  black_list = empty_listing net pcre;
  white_list = empty_listing net pcre;
  outbound_list = empty_listing net pcre;
  mode = black_mode;
}

abbrev file : List Line
file =
    line [] (comment (codes " peers")) []
    ∷ line [] (entry_line (codes "41")) []
    ∷ line [] (heading white false) (32 ∷ [])
    ∷ line (32 ∷ []) (entry_line (codes "42")) (32 ∷ [])
    ∷ line [] blank (9 ∷ [])
    ∷ line [] (mode_line white_mode true) []
    ∷ line [] (entry_line (codes "home.lan")) []
    ∷ line [] (heading black true) []
    ∷ line [] (entry_line (codes "63/16")) []
    ∷ []

acl_match_host-acl_add_ip_example :
    (acl_match_host net pcre (acl_add_ip net pcre (codes "41") lists).1 (codes "41") ≡ in_black)
    × ((host : List ℕ)
        → acl_match_host net pcre lists host ≡ in_black
        → acl_match_host net pcre (acl_add_ip net pcre (codes "41") lists).1 host ≡ in_black)
    × ((host : List ℕ)
        → listed net pcre (acl_add_ip net pcre (codes "41") lists).1.white_list host
          ≡ listed net pcre lists.white_list host)
acl_match_host-acl_add_ip_example =
    acl_match_host-acl_add_ip net pcre net-IpSetLaws lists (codes "41") 4 49 refl (inl refl)

abbrev ticks : Clock
ticks = record { Time = ℕ; exceeds = λ now ts age. ltb age (now - ts) }

abbrev table : Uthash ℕ ticks
table = list_table ℕ ticks

abbrev peer : Entry ℕ ticks
peer = record { address = 100; key = codes "41"; content = some 7; ts = 3 }

abbrev cache : Cache ℕ ticks table
cache = record { max_entries = 256; entries = peer ∷ []; has_cb = true }

-- The peer has failed 64 times.
abbrev blocks : BlockList ticks table
blocks = record { block_list = some cache; counts = λ p. 64; firewall = true }

cache-IsValid : IsValid ℕ ticks table cache
cache-IsValid = record { keys = (tt, tt); addresses = (tt, tt) }

blocks-Counts : Counts ticks table blocks (codes "41") 7
unfolding find_key same_key
blocks-Counts = record {
  cache = cache;
  is_cache = refl;
  valid = cache-IsValid;
  entry = peer;
  entry_found = refl;
  entry_content = refl;
}

accept_peer_iff_example :
    ((accept_peer ticks table net pcre 10 10 true lists (some (codes "41")) blocks).0 ≡ true) ↔ (
      (acl_match_host net pcre lists (codes "41") ≡ in_white)
      ⊎ (acl_match_host net pcre lists (codes "41") ≡ no_match)
        × (black_mode ≡ black_mode)
        × (64 ≤ 64))
accept_peer_iff_example =
    accept_peer_iff ticks table net pcre 10 10 lists (codes "41") blocks 7 blocks-Counts

update_block_list-count_example :
    (b' : BlockList ticks table) × (update_block_list ticks table 10 10 300 9 (codes "41") 2 blocks
      ≡ record { blocked = false; after = b'; added = none; given_back = [] })
    × ((q : ℕ) → b'.counts q ≡ (if q == 7 then 66 else 64))
    × Counts ticks table b' (codes "41") 7
update_block_list-count_example =
    update_block_list-count ticks table blocks (codes "41") 7 blocks-Counts 10 10 300 9 2

update_block_list-fresh_example :
    (b' : BlockList ticks table) × (events : List (Event ℕ)) × (update_block_list ticks table 10 10
        300 9
        (codes "42")
        8
        blocks
      ≡ record { blocked = false; after = b'; added = some (codes "42"); given_back = events })
    × Counts ticks table b' (codes "42") 9
    × (b'.counts 9 ≡ 1)
unfolding same_key
update_block_list-fresh_example =
    update_block_list-fresh ticks table blocks cache refl cache-IsValid (codes "42") (refl, tt) 10
      10 300 9 8 (omega arith, tt) (omega arith) (omega arith)

abbrev failure : Failure ticks table (codes "41")
failure = record { first_use = 11; second_use = 11; address = 300; pointer = 9; err_level = 1 }

check_block_list-reported_example :
    (check_block_list ticks table 20 20
      (codes "41")
      (reported ticks table (codes "41") (failure ∷ []) blocks)).0
    ≡ true
check_block_list-reported_example =
    check_block_list-reported ticks table (codes "41") (failure ∷ []) blocks 7 blocks-Counts
      (omega arith, tt) (omega arith) 20 20
