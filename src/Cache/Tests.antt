-- ===== src/Cache/Tests.antt =====
-- The cache over a list of entries, with natural numbers as times.
use openwrt_helloworld.Prelude.{
  ℕ, ◌-◌, ◌<◌, ◌≡◌, refl, arith, List, [], ◌∷◌, length, true, false, ltb, some, none, All,
}
use openwrt_helloworld.Prelude.Text.{same_key}
use openwrt_helloworld.Cache.Hashing.{Clock, Entry, Uthash, list_table, find_key, without}
use openwrt_helloworld.Cache.{
  Cache, ok, Event, release, cache_insert, cache_lookup, cache_key_exist, cache_remove, cache_clear,
  cache_delete, new_entry,
}
use openwrt_helloworld.Cache.Bound.{
  order, IsValid, moved, cache_lookup-found, cache_remove-found, cache_insert-order,
}
use openwrt_helloworld.Cache.Recency.{cache_insert-lt, cache_lookup-cache_insert}
use openwrt_helloworld.Cache.Expiry.{
  survivors, expired, released, cache_clear-survivors, cache_delete-released,
}

abbrev ticks : Clock
ticks = record { Time = ℕ; exceeds = λ now ts age. ltb age (now - ts) }

abbrev table : Uthash ℕ ticks
table = list_table ℕ ticks

abbrev old : Entry ℕ ticks
old = record { address = 100; key = 1 ∷ []; content = some 7; ts = 3 }

abbrev young : Entry ℕ ticks
young = record { address = 200; key = 2 ∷ []; content = none; ts = 8 }

abbrev cache : Cache ℕ ticks table
cache = record { max_entries = 3; entries = old ∷ young ∷ []; has_cb = true }

cache-IsValid : IsValid ℕ ticks table cache
unfolding same_key
cache-IsValid = record { keys = ((refl, tt), (tt, tt)); addresses = ((omega arith, tt), (tt, tt)) }

fresh : All (λ x. same_key x.key (3 ∷ []) ≡ false) (order ℕ ticks table cache)
unfolding same_key
fresh = (refl, (refl, tt))

found_old : find_key (1 ∷ []) (order ℕ ticks table cache) ≡ some old
unfolding find_key same_key
found_old = refl

cache_lookup-found_example :
    (c' : Cache ℕ ticks table) × (cache_lookup ℕ ticks table 9 (some cache) (some (1 ∷ [])) true
      ≡ (ok, some c', some 7))
    × (cache_key_exist ℕ ticks table 9 (some cache) (some (1 ∷ [])) ≡ (true, some c'))
    × (order ℕ ticks table c' ≡ moved ℕ ticks table 9 old (old ∷ young ∷ []))
    × (c'.max_entries ≡ 3)
    × IsValid ℕ ticks table c'
cache_lookup-found_example =
    cache_lookup-found ℕ ticks table cache cache-IsValid 9 (1 ∷ []) old found_old

cache_remove-found_example :
    (c' : Cache ℕ ticks table) × (cache_remove ℕ ticks table (some cache) (some (1 ∷ []))
      ≡ (ok, some c', release ℕ ticks table true old))
    × (order ℕ ticks table c' ≡ without 100 (old ∷ young ∷ []))
    × All (λ x. same_key x.key (1 ∷ []) ≡ false) (order ℕ ticks table c')
    × IsValid ℕ ticks table c'
cache_remove-found_example =
    cache_remove-found ℕ ticks table cache cache-IsValid 9 (1 ∷ []) old found_old

cache_insert-order_example :
    (c' : Cache ℕ ticks table) × (cache_insert ℕ ticks table 9
        (some 300)
        (some cache)
        (3 ∷ [])
        (some 5)
      ≡ (ok, some c', release ℕ ticks table true old))
    × (order ℕ ticks table c' ≡ young ∷ new_entry ℕ ticks table 300 (3 ∷ []) (some 5) 9 ∷ [])
    × (c'.max_entries ≡ 3)
    × IsValid ℕ ticks table c'
cache_insert-order_example =
    cache_insert-order ℕ ticks table cache cache-IsValid 9 (3 ∷ []) 300 (some 5) old
      (young ∷ new_entry ℕ ticks table 300 (3 ∷ []) (some 5) 9 ∷ []) fresh (omega arith) refl

cache_insert-lt_example :
    (c' : Cache ℕ ticks table) × (events : List (Event ℕ)) × (cache_insert ℕ ticks table 9
        (some 300)
        (some cache)
        (3 ∷ [])
        (some 5)
      ≡ (ok, some c', events))
    × (length (order ℕ ticks table c') < c'.max_entries)
    × IsValid ℕ ticks table c'
cache_insert-lt_example =
    cache_insert-lt ℕ ticks table cache cache-IsValid 9 (3 ∷ []) 300 (some 5) fresh (omega arith)
      (omega arith)

cache_lookup-cache_insert_example :
    (c' c'' : Cache ℕ ticks table) × (events : List (Event ℕ)) × (cache_insert ℕ ticks table 9
        (some 300)
        (some cache)
        (3 ∷ [])
        (some 5)
      ≡ (ok, some c', events))
    × (cache_lookup ℕ ticks table 10 (some c') (some (3 ∷ [])) true ≡ (ok, some c'', some 5))
cache_lookup-cache_insert_example =
    cache_lookup-cache_insert ℕ ticks table cache cache-IsValid 9 (3 ∷ []) 300 (some 5) fresh
      (omega arith) 10 (omega arith)

cache_clear-survivors_example :
    (c' : Cache ℕ ticks table) × (cache_clear ℕ ticks table 10 (some cache) 5
      ≡ (ok, some c', expired ℕ ticks table true 10 5 (old ∷ young ∷ [])))
    × (order ℕ ticks table c' ≡ survivors ℕ ticks table 10 5 (old ∷ young ∷ []))
cache_clear-survivors_example = cache_clear-survivors ℕ ticks table cache 10 5 cache-IsValid

cache_delete-released_example :
    (t : List (Entry ℕ ticks)) × (cache_delete ℕ ticks table (some cache) false
      ≡ (ok, some t, released ℕ ticks table true (old ∷ young ∷ [])))
    × (t ≡ [])
cache_delete-released_example = cache_delete-released ℕ ticks table cache cache-IsValid

-- What goes and stays at time 10 with age 5.
survivors_run :
    (survivors ℕ ticks table 10 5 (old ∷ young ∷ []) ≡ young ∷ [])
    × (expired ℕ ticks table true 10 5 (old ∷ young ∷ []) ≡ release ℕ ticks table true old)
unfolding survivors expired release
survivors_run = (refl, refl)
