-- ===== src/Acl/BlockList/Counting.antt =====
-- The count of an address, and what a check and a report do to it.
use openwrt_helloworld.Prelude.{
  ℕ, ◌+◌, ◌≤◌, ◌<◌, ◌≡◌, refl, ◌∙◌, ap, true, false, List, [], ◌∷◌, none, some, ltb, Bool-cases,
  inl, inr, ◌==◌, ==_refl, if◌then◌else◌, All,
}
use openwrt_helloworld.Prelude.{◌≢◌, lt→ltb}
use openwrt_helloworld.Prelude.Text.{same_key}
use openwrt_helloworld.Cache.Hashing.{Uthash, Clock, Entry, find_key}
use openwrt_helloworld.Cache.{Cache, Event, ok, cache_lookup, cache_key_exist, new_entry}
use openwrt_helloworld.Cache.Bound.{order, IsValid, cache_lookup-found, cache_lookup-missing, moved}
use openwrt_helloworld.Cache.Order.{find_key-key, without_found}
use openwrt_helloworld.Cache.Recency.{find_key-last, cache_insert-there}
use openwrt_helloworld.Acl.BlockList.{
  BlockList, store, check_block_list, update_block_list, raise_count,
}

-- The entry of an address, used again, is found with the same payload.
find_key-moved :
    {D : Type 0} (clock : Clock) (uthash : Uthash D clock) (c : Cache D clock uthash)
    → IsValid D clock uthash c
    → (k : List ℕ) (e : Entry D clock) (now : clock.Time)
    → find_key k (order D clock uthash c) ≡ some e
    → find_key k (moved D clock uthash now e (order D clock uthash c))
      ≡ some (record e { ts = now })
find_key-moved clock uthash c v k e now h =
    find_key-last k _ (record e { ts = now }) (without_found k (order _ clock uthash c) h v.keys)
      (find_key-key k (order _ clock uthash c) h)

find_key-none :
    {clock : Clock} (k : List ℕ) (l : List (Entry ℕ clock))
    → All (λ e. same_key e.key k ≡ false) l
    → find_key k l ≡ none
unfolding find_key
find_key-none k [] h = refl
find_key-none k (e ∷ l) h = rw h.0 (find_key-none k l h.1)

module _ (clock : Clock) (uthash : Uthash ℕ clock) where
  open clock use {Time}

  -- The counter of an address in a cache.
  pub record Counts (b : BlockList clock uthash) (addr : List ℕ) (p : ℕ) : Type 0 where
    pub cache : Cache ℕ clock uthash
    pub is_cache : b.block_list ≡ some cache
    pub valid : IsValid ℕ clock uthash cache
    pub entry : Entry ℕ clock
    pub entry_found : find_key addr (order ℕ clock uthash cache) ≡ some entry
    pub entry_content : entry.content ≡ some p

  -- A use of the key and a second one: the entry stays, with its payload.
  module _ (c : Cache ℕ clock uthash) (v : IsValid ℕ clock uthash c) (addr : List ℕ)
      (e : Entry ℕ clock) (h : find_key addr (order ℕ clock uthash c) ≡ some e) (t1 t2 : Time) where
    used_twice :
        (c1 c2 : Cache ℕ clock uthash) × (cache_key_exist ℕ clock uthash t1 (some c) (some addr)
          ≡ (true, some c1))
        × (cache_lookup ℕ clock uthash t2 (some c1) (some addr) true ≡ (ok, some c2, e.content))
        × IsValid ℕ clock uthash c2
        × (find_key addr (order ℕ clock uthash c2) ≡ some (record e { ts = t2 }))
    used_twice =
        let (c1, looked, exists, moves, bound, v1) =
          cache_lookup-found ℕ clock uthash c v t1 addr e h in
        let h1 : find_key addr (order ℕ clock uthash c1) ≡ some (record e { ts = t1 }) =
          ap (find_key addr) moves ∙ find_key-moved clock uthash c v addr e t1 h in
        let (c2, looked2, exists2, moves2, bound2, v2) =
          cache_lookup-found ℕ clock uthash c1 v1 t2 addr (record e { ts = t1 }) h1 in
        (
          c1,
          c2,
          exists,
          looked2,
          v2,
          ap (find_key addr) moves2
              ∙ find_key-moved clock uthash c1 v1 addr (record e { ts = t1 }) t2 h1,
        )

  module _ (b : BlockList clock uthash) (addr : List ℕ) (p : ℕ) (n : Counts b addr p)
      (t1 t2 : Time) where
    -- The check of an address that has a counter says whether the counter is above 64; the address
    -- keeps the counter and its value, and no other counter changes.
    pub check_block_list-count :
        (b' : BlockList clock uthash) × (check_block_list clock uthash t1 t2 addr b
          ≡ (ltb 64 (b.counts p), b'))
        × (b'.counts ≡ b.counts)
        × Counts b' addr p
    unfolding check_block_list
    check_block_list-count =
        let (c1, c2, exists, looked, v2, h2) =
          used_twice n.cache n.valid addr n.entry n.entry_found t1 t2 in
        (
          record b { block_list = some c2 },
          rw (n.is_cache, exists, looked, n.entry_content),
          refl,
          record {
            cache = c2;
            is_cache = refl;
            valid = v2;
            entry = record n.entry { ts = t2 };
            entry_found = h2;
            entry_content = n.entry_content;
          },
        )

    -- A report on an address that has a counter: above 64 it returns 1 and the counters stay;
    -- otherwise it returns 0 and exactly this counter grows, by the error level. No firewall rule
    -- is added, nothing is given back, and the address keeps its counter.
    pub update_block_list-count :
        (address pointer err_level : ℕ)
        → (b' : BlockList clock uthash) × (update_block_list clock uthash t1 t2 address pointer addr
              err_level b
            ≡ record { blocked = ltb 64 (b.counts p); after = b'; added = none; given_back = [] })
          × ((q : ℕ)
              → b'.counts q ≡ (
                  if ltb 64 (b.counts p)
                  then b.counts q
                  else if q == p
                  then b.counts p + err_level
                  else b.counts q))
          × Counts b' addr p
    unfolding update_block_list raise_count store
    update_block_list-count address pointer err_level =
        let (c1, c2, exists, looked, v2, h2) =
          used_twice n.cache n.valid addr n.entry n.entry_found t1 t2 in
        let counter : (f : ℕ → ℕ) → Counts (record b { block_list = some c2; counts = f }) addr p =
          λ f. record {
            cache = c2;
            is_cache = refl;
            valid = v2;
            entry = record n.entry { ts = t2 };
            entry_found = h2;
            entry_content = n.entry_content;
          } in
        elim (Bool-cases (ltb 64 (b.counts p))) [
          | inl over ↦ (
            record b { block_list = some c2 },
            rw (n.is_cache, exists, looked, n.entry_content, over),
            λ q. rw over refl,
            counter b.counts,
          )
          | inr under ↦ (
            record b { block_list = some c2; counts = store b.counts p (b.counts p + err_level) },
            rw (n.is_cache, exists, looked, n.entry_content, under),
            λ q. rw under refl,
            counter (store b.counts p (b.counts p + err_level)),
          )
        ]

  module _ (b : BlockList clock uthash) (c : Cache ℕ clock uthash)
      (is_cache : b.block_list ≡ some c) (v : IsValid ℕ clock uthash c) (addr : List ℕ)
      (fresh : All (λ e. same_key e.key addr ≡ false) (order ℕ clock uthash c)) (t1 t2 : Time) where
    -- The first report of an address, with an error level above 0, makes a counter of 1 for it and
    -- returns 0; where a firewall is in use a rule is added for the address. `address` and
    -- `pointer` are new, and the list has room for two.
    pub update_block_list-fresh :
        (address pointer err_level : ℕ)
        → All (λ e. e.address ≢ address) (order ℕ clock uthash c)
        → 2 ≤ c.max_entries
        → 0 < err_level
        → (b' : BlockList clock uthash) × (events : List (Event ℕ)) × (update_block_list clock
              uthash t1 t2 address pointer addr err_level b
            ≡ record {
              blocked = false;
              after = b';
              added = if b.firewall then some addr else none;
              given_back = events;
            })
          × Counts b' addr pointer
          × (b'.counts pointer ≡ 1)
    unfolding update_block_list store
    update_block_list-fresh address pointer err_level fresh_address two positive =
        let missing =
          cache_lookup-missing ℕ clock uthash c v t1 addr
            (find_key-none addr (order ℕ clock uthash c) fresh) in
        let (c', events, returns, valid, there) =
          cache_insert-there ℕ clock uthash c v t2 addr address (some pointer) fresh fresh_address
            two in
        (
          record b { block_list = some c'; counts = store b.counts pointer 1 },
          events,
          rw (is_cache, missing.1, lt→ltb 0 err_level positive, returns),
          record {
            cache = c';
            is_cache = refl;
            valid = valid;
            entry = new_entry ℕ clock uthash address addr (some pointer) t2;
            entry_found = there;
            entry_content = refl;
          },
          rw (==_refl pointer) refl,
        )
