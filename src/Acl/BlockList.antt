-- ===== src/Acl/BlockList.antt =====
-- acl.c: the list of addresses that failed the handshake, kept in a cache of counters; and the
-- decision of `accept_cb` in server.c.
pub mod Counting
pub mod Blocking
use openwrt_helloworld.Prelude.{
  ℕ, ◌+◌, ◌≤◌, ◌<◌, Bool, true, false, not, ◌&&◌, ◌||◌, List, [], ◌∷◌, Option, none, some, ltb,
  ◌==◌, if◌then◌else◌,
}
use openwrt_helloworld.Cache.Hashing.{Uthash, Clock}
use openwrt_helloworld.Cache.{
  Cache, Code, Event, cache_create, cache_clear, cache_remove, cache_lookup, cache_key_exist,
  cache_insert,
}
use openwrt_helloworld.Rule.{Pcre}
use openwrt_helloworld.Acl.Lines.{Mode, black_mode, white_mode}
use openwrt_helloworld.Acl.{Net, Acl, Verdict, no_match, in_black, in_white, acl_match_host}

abbrev pub max_tries : ℕ
max_tries = 64

-- The store of the `int` counters that the payload pointers of the cache point to.
unfoldable pub store : (ℕ → ℕ) → ℕ → ℕ → ℕ → ℕ
store counts p n q = if q == p then n else counts q

module _ (clock : Clock) (uthash : Uthash ℕ clock) where
  open clock use {Time}

  -- `block_list`, the counters, and whether `mode` is not `NO_FIREWALL_MODE`.
  pub record BlockList : Type 0 where
    pub block_list : Option (Cache ℕ clock uthash)
    pub counts : ℕ → ℕ
    pub firewall : Bool

  -- `init_block_list`, when `cache_create` has its memory; `firewall` is what is detected.
  unfoldable pub init_block_list : Bool → (ℕ → ℕ) → BlockList
  init_block_list firewall counts =
      let (code, created) = cache_create ℕ clock uthash true true 256 true in
      record { block_list = created; counts = counts; firewall = firewall }

  unfoldable pub free_block_list : Time → Time → BlockList → BlockList × List (Event ℕ)
  free_block_list now zero_age b =
      let (code, left, events) = cache_clear ℕ clock uthash now b.block_list zero_age in
      (record b { block_list = left }, events)

  unfoldable pub remove_from_block_list : List ℕ → BlockList → Code × BlockList × List (Event ℕ)
  remove_from_block_list addr b =
      let (code, left, events) = cache_remove ℕ clock uthash b.block_list (some addr) in
      (code, record b { block_list = left }, events)

  -- `hour` is the age 3600.
  unfoldable pub clear_block_list : Time → Time → BlockList → BlockList × List (Event ℕ)
  clear_block_list now hour b =
      let (code, left, events) = cache_clear ℕ clock uthash now b.block_list hour in
      (record b { block_list = left }, events)

  -- `t1` and `t2` are the times of the two uses of the cache.
  unfoldable pub check_block_list : Time → Time → List ℕ → BlockList → Bool × BlockList
  check_block_list t1 t2 addr b =
      let (there, c1) = cache_key_exist ℕ clock uthash t1 b.block_list (some addr) in
      if there
      then (let (code, c2, count) = cache_lookup ℕ clock uthash t2 c1 (some addr) true in
          (
            elim count [ none ↦ false | some p ↦ ltb max_tries (b.counts p) ],
            record b { block_list = c2 },
          ))
      else (false, record b { block_list = c1 })

  -- What a report does to a counter that is there.
  unfoldable pub raise_count : ℕ → Option ℕ → BlockList → Bool × BlockList
  raise_count err_level none b = (false, b)
  raise_count err_level (some p) b =
      if ltb max_tries (b.counts p)
      then (true, b)
      else (false, record b { counts = store b.counts p (b.counts p + err_level) })

  -- What a report returns and does: whether the address is blocked, the address for which a
  -- firewall rule is added, and what the cache gives back (to `free_firewall_rule`).
  pub record Report : Type 0 where
    pub blocked : Bool
    pub after : BlockList
    pub added : Option (List ℕ)
    pub given_back : List (Event ℕ)

  -- `address` and `pointer` are what `malloc` returns for the entry and for the counter.
  unfoldable pub update_block_list : Time → Time → ℕ → ℕ → List ℕ → ℕ → BlockList → Report
  unfolding raise_count
  update_block_list t1 t2 address pointer addr err_level b =
      let (there, c1) = cache_key_exist ℕ clock uthash t1 b.block_list (some addr) in
      if there
      then (let (code, c2, count) = cache_lookup ℕ clock uthash t2 c1 (some addr) true in
          let (blocked, b') = raise_count err_level count (record b { block_list = c2 }) in
          record { blocked = blocked; after = b'; added = none; given_back = [] })
      else if ltb 0 err_level
      then (let (code, c2, events) =
            cache_insert ℕ clock uthash t2 (some address) c1 addr (some pointer) in
          record {
            blocked = false;
            after = record b { block_list = c2; counts = store b.counts pointer 1 };
            added = if b.firewall then some addr else none;
            given_back = events;
          })
      else record {
        blocked = false;
        after = record b { block_list = c1 };
        added = none;
        given_back = [];
      }

  module _ (net : Net) (pcre : Pcre) where
    -- What the access lists say of a peer: refused, or whether it is in the white list.
    unfoldable pub acl_decision : Acl net pcre → List ℕ → Option Bool
    acl_decision acl host = elim acl.mode [
      | black_mode ↦ elim (acl_match_host net pcre acl host) [
        | in_black ↦ none
        | in_white ↦ some true
        | no_match ↦ some false
      ]
      | white_mode ↦ elim (acl_match_host net pcre acl host) [
        | in_black ↦ none
        | in_white ↦ some true
        | no_match ↦ none
      ]
    ]

    -- `accept_cb` up to the socket options: true if the connection is kept. `acl_on` says whether
    -- there is an access list; `host` is the peer's name, `none` where it has none.
    unfoldable pub accept_peer :
        Time → Time → Bool → Acl net pcre → Option (List ℕ) → BlockList → Bool × BlockList
    unfolding acl_decision
    accept_peer t1 t2 acl_on acl none b = (true, b)
    accept_peer t1 t2 acl_on acl (some host) b =
        elim (if acl_on then acl_decision acl host else some false) [
          | none ↦ (false, b)
          | some in_white_list ↦
              if in_white_list
              then (true, b)
              else (let (blocked, b') = check_block_list t1 t2 host b in (not blocked, b'))
        ]
