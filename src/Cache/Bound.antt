-- ===== src/Cache/Bound.antt =====
-- What each operation of the cache does to the order of the entries, and the bound on their number.
use openwrt_helloworld.Prelude.{
  ℕ, ◌+◌, ◌≡◌, ◌≢◌, refl, sym, subst, ◌∙◌, ap, true, false, List, [], ◌∷◌, ◌++◌, Option, none, some,
  leb, if◌then◌else◌, length, All, length-append, Bool-cases, inl, inr,
}
use openwrt_helloworld.Prelude.Text.{same_key}
use openwrt_helloworld.Cache.Hashing.{
  Uthash, Clock, Entry, without, find_key, DistinctKeys, DistinctAddresses,
}
use openwrt_helloworld.Cache.{
  Cache, ok, release, touch, cache_lookup, cache_key_exist, cache_insert, cache_remove, evict_first,
  new_entry,
}
use openwrt_helloworld.Cache.Order.{
  DistinctKeys-snoc, DistinctAddresses-snoc, without_found, without-middle, DistinctKeys-without,
  DistinctAddresses-without, moved-Distinct,
}

module _ (D : Type 0) (clock : Clock) (uthash : Uthash D clock) where
  open clock use {Time, exceeds}
  open uthash use {Table, nothing, items, add, delete, find, items-add, items-delete, find_unique}

  -- The entries in uthash's order, the least recently used first.
  abbrev pub order : Cache D clock uthash → List (Entry D clock)
  order c = items c.entries

  -- No two entries share a key or an address.
  pub record IsValid (c : Cache D clock uthash) : Type 0 where
    pub keys : DistinctKeys (order c)
    pub addresses : DistinctAddresses (order c)

  -- The order after an entry with key `k` was used at `now`: it moves to the end.
  abbrev pub moved : Time → Entry D clock → List (Entry D clock) → List (Entry D clock)
  moved now e l = without e.address l ++ (record e { ts = now } ∷ [])

  module _ (c : Cache D clock uthash) (v : IsValid c) (now : Time) (k : List ℕ) where
    -- In a valid cache, a use of a key that is there returns its payload, stamps the entry and moves
    -- it to the end of the order.
    pub cache_lookup-found :
        (e : Entry D clock)
        → find_key k (order c) ≡ some e
        → (c' : Cache D clock uthash) × (cache_lookup D clock uthash now (some c) (some k) true
            ≡ (ok, some c', e.content))
          × (cache_key_exist D clock uthash now (some c) (some k) ≡ (true, some c'))
          × (order c' ≡ moved now e (order c))
          × (c'.max_entries ≡ c.max_entries)
          × IsValid c'
    unfolding cache_lookup cache_key_exist touch
    cache_lookup-found e h =
        let found : find k c.entries ≡ some e = find_unique k c.entries v.keys ∙ h in
        let c' : Cache D clock uthash = record c {
          entries = touch D clock uthash now e c.entries;
        } in
        let moves : order c' ≡ moved now e (order c) =
          items-add (record e { ts = now }) (delete e c.entries)
          ∙ ap (λ l. l ++ (record e { ts = now } ∷ [])) (items-delete e c.entries) in
        let (keys, addresses) = moved-Distinct k (order c) e now h v.keys v.addresses in
        (
          c',
          rw (found, cache_lookup),
          rw (found, cache_key_exist),
          moves,
          refl,
          record {
            keys = subst DistinctKeys (sym moves) keys;
            addresses = subst DistinctAddresses (sym moves) addresses;
          },
        )

    -- A key that is not there changes nothing.
    pub cache_lookup-missing :
        find_key k (order c) ≡ none
        → (cache_lookup D clock uthash now (some c) (some k) true ≡ (ok, some c, none))
          × (cache_key_exist D clock uthash now (some c) (some k) ≡ (false, some c))
          × (cache_remove D clock uthash (some c) (some k) ≡ (ok, some c, []))
    unfolding cache_lookup cache_key_exist cache_remove
    cache_lookup-missing h =
        let found : find k c.entries ≡ none = find_unique k c.entries v.keys ∙ h in
        (rw (found, cache_lookup), rw (found, cache_key_exist), rw (found, cache_remove))

    -- In a valid cache, removing a key that is there gives its entry back, and then no entry has the key.
    pub cache_remove-found :
        (e : Entry D clock)
        → find_key k (order c) ≡ some e
        → (c' : Cache D clock uthash) × (cache_remove D clock uthash (some c) (some k)
            ≡ (ok, some c', release D clock uthash c.has_cb e))
          × (order c' ≡ without e.address (order c))
          × All (λ x. same_key x.key k ≡ false) (order c')
          × IsValid c'
    unfolding cache_remove
    cache_remove-found e h =
        let found : find k c.entries ≡ some e = find_unique k c.entries v.keys ∙ h in
        let c' : Cache D clock uthash = record c { entries = delete e c.entries } in
        let left : order c' ≡ without e.address (order c) = items-delete e c.entries in
        (
          c',
          rw (found, cache_remove),
          left,
          rw left (without_found k (order c) h v.keys),
          record {
            keys = rw left (DistinctKeys-without e.address (order c) v.keys);
            addresses = rw left (DistinctAddresses-without e.address (order c) v.addresses);
          },
        )

    -- Insertion into a valid cache, of a key and at an address that no entry has. If that makes `max_entries` entries or more, the
    -- first of them, the least recently used, is given back at once.
    pub cache_insert-order :
        (address : ℕ) (content : Option D) (first : Entry D clock) (rest : List (Entry D clock))
        → All (λ x. same_key x.key k ≡ false) (order c)
        → All (λ x. x.address ≢ address) (order c)
        → order c ++ (new_entry D clock uthash address k content now ∷ []) ≡ first ∷ rest
        → (c' : Cache D clock uthash) × (cache_insert D clock uthash now
              (some address)
              (some c)
              k
              content
            ≡ (
              ok,
              some c',
              if leb c.max_entries (length (order c) + 1)
                  then release D clock uthash c.has_cb first
                  else [],
            ))
          × (order c' ≡ (if leb c.max_entries (length (order c) + 1) then rest else first ∷ rest))
          × (c'.max_entries ≡ c.max_entries)
          × IsValid c'
    unfolding cache_insert evict_first
    cache_insert-order address content first rest fresh_key fresh_address e =
        rw (sym count) (elim (Bool-cases (leb c.max_entries (length (first ∷ rest)))) [
          | inl full ↦ (
            record c { entries = delete first t },
            rw (whole, full),
            rw full drops,
            refl,
            record { keys = rw drops all_valid.0.1; addresses = rw drops all_valid.1.1 },
          )
          | inr room ↦ (
            record c { entries = t },
            rw (whole, room),
            rw room whole,
            refl,
            record { keys = rw whole all_valid.0; addresses = rw whole all_valid.1 },
          )
        ])
      where
        t : Table
        t = add (new_entry D clock uthash address k content now) c.entries

        whole : items t ≡ first ∷ rest
        whole = items-add (new_entry D clock uthash address k content now) c.entries ∙ e

        count : length (first ∷ rest) ≡ length (order c) + 1
        count =
            ap length (sym e)
            ∙ length-append (order c) (new_entry D clock uthash address k content now ∷ [])

        all_valid : DistinctKeys (first ∷ rest) × DistinctAddresses (first ∷ rest)
        all_valid = (
          subst DistinctKeys e (
              DistinctKeys-snoc (order c) (new_entry D clock uthash address k content now) v.keys
                fresh_key),
          subst DistinctAddresses e (
              DistinctAddresses-snoc (order c) (new_entry D clock uthash address k content now)
                v.addresses fresh_address),
        )

        drops : items (delete first t) ≡ rest
        drops =
            items-delete first t
            ∙ ap (without first.address) whole
            ∙ (without-middle [] first rest all_valid.1).0
