-- ===== src/Cache/Recency.antt =====
-- The cache keeps fewer than `max_entries` entries, and a new entry is there to be looked up.
use openwrt_helloworld.Prelude.{
  ℕ, suc, ◌+◌, ◌≤◌, ◌<◌, ◌≡◌, ◌≢◌, refl, sym, ◌∙◌, ap, arith, true, false, List, [], ◌∷◌, ◌++◌,
  Option, some, leb, if◌then◌else◌, length, All, length-append, Bool-cases, lt→leb_false, inl, inr,
}
use openwrt_helloworld.Prelude.Text.{same_key, same_key_iff}
use openwrt_helloworld.Cache.Hashing.{Uthash, Clock, Entry, find_key}
use openwrt_helloworld.Cache.{Cache, ok, Event, cache_insert, cache_lookup, new_entry}
use openwrt_helloworld.Cache.Bound.{order, IsValid, cache_insert-order, cache_lookup-found}

snoc-cons {ℓ} : {A : Type ℓ} (l : List A) (x : A) → (y : A) × (r : List A) × (l ++ (x ∷ []) ≡ y ∷ r)
snoc-cons [] x = (x, [], refl)
snoc-cons (y ∷ l) x = (y, l ++ (x ∷ []), refl)

module _ {D : Type 0} {clock : Clock} where
  pub find_key-last :
      (k : List ℕ) (l : List (Entry D clock)) (e : Entry D clock)
      → All (λ x. same_key x.key k ≡ false) l
      → e.key ≡ k
      → find_key k (l ++ (e ∷ [])) ≡ some e
  unfolding find_key
  find_key-last k [] e h q = rw ((same_key_iff e.key k).1 q)
  find_key-last k (x ∷ l) e h q = rw h.0 (find_key-last k l e h.1 q)

  -- The order after an insertion still holds the new entry, unless that was alone in the table.
  find_key-after :
      (k : List ℕ) (l : List (Entry D clock)) (e : Entry D clock) (m : ℕ)
      → All (λ x. same_key x.key k ≡ false) l
      → e.key ≡ k
      → 2 ≤ m
      → let (first, rest, _) = snoc-cons l e in
        find_key k (if leb m (length l + 1) then rest else first ∷ rest) ≡ some e
  unfolding snoc-cons
  find_key-after k [] e m h q two = rw (lt→leb_false m 1 two) (find_key-last k [] e tt q)
  find_key-after k (x ∷ l) e m h q two = elim (Bool-cases (leb m (suc (length l) + 1))) [
    | inl full ↦ rw full (find_key-last k l e h.1 q)
    | inr room ↦ rw room (find_key-last k (x ∷ l) e h q)
  ]

after-lt :
    {A : Type 0} (m n : ℕ) (first : A) (rest : List A)
    → length (first ∷ rest) ≡ n + 1
    → n < m
    → length (if leb m (n + 1) then rest else first ∷ rest) < m
after-lt m n first rest e h = ground arith

module _ (D : Type 0) (clock : Clock) (uthash : Uthash D clock) where
  open clock use {Time}

  module _ (c : Cache D clock uthash) (v : IsValid D clock uthash c) (now : Time) (k : List ℕ)
      (address : ℕ) (content : Option D)
      (fresh_key : All (λ x. same_key x.key k ≡ false) (order D clock uthash c))
      (fresh_address : All (λ x. x.address ≢ address) (order D clock uthash c)) where
    -- An insertion into a valid cache, of a key and at an address that no entry has, keeps the number
    -- of entries below `max_entries`, and the cache valid.
    pub cache_insert-lt :
        length (order D clock uthash c) < c.max_entries
        → (c' : Cache D clock uthash) × (events : List (Event D)) × (cache_insert D clock uthash now
              (some address)
              (some c)
              k
              content
            ≡ (ok, some c', events))
          × (length (order D clock uthash c') < c'.max_entries)
          × IsValid D clock uthash c'
    cache_insert-lt below =
        let e = new_entry D clock uthash address k content now in
        let (first, rest, split) = snoc-cons (order D clock uthash c) e in
        let (c', returns, after, same, valid) =
          cache_insert-order D clock uthash c v now k address content first rest fresh_key
            fresh_address split in
        let count : length (first ∷ rest) ≡ length (order D clock uthash c) + 1 =
          ap length (sym split) ∙ length-append (order D clock uthash c) (e ∷ []) in
        (
          c',
          _,
          returns,
          rw (after, same)
              (after-lt c.max_entries (length (order D clock uthash c)) first rest count below),
          valid,
        )

    -- With `max_entries` at least 2, a new key and a new address, the inserted entry is there.
    pub cache_insert-there :
        2 ≤ c.max_entries
        → (c' : Cache D clock uthash) × (events : List (Event D)) × (cache_insert D clock uthash now
              (some address)
              (some c)
              k
              content
            ≡ (ok, some c', events))
          × IsValid D clock uthash c'
          × (find_key k (order D clock uthash c')
              ≡ some (new_entry D clock uthash address k content now))
    cache_insert-there two =
        let e = new_entry D clock uthash address k content now in
        let (first, rest, split) = snoc-cons (order D clock uthash c) e in
        let (c', returns, after, same, valid) =
          cache_insert-order D clock uthash c v now k address content first rest fresh_key
            fresh_address split in
        (
          c',
          _,
          returns,
          valid,
          rw after (find_key-after k (order D clock uthash c) e c.max_entries fresh_key refl two),
        )

    -- In a valid cache with `max_entries` at least 2, after an insertion of a key and at an address
    -- that no entry has, a lookup of the key finds the payload.
    pub cache_lookup-cache_insert :
        (later : Time)
        → 2 ≤ c.max_entries
        → (c' c'' : Cache D clock uthash) × (events : List (Event D)) × (cache_insert D clock uthash
              now
              (some address)
              (some c)
              k
              content
            ≡ (ok, some c', events))
          × (cache_lookup D clock uthash later (some c') (some k) true ≡ (ok, some c'', content))
    cache_lookup-cache_insert later two =
        let e = new_entry D clock uthash address k content now in
        let (c', events, returns, valid, there) = cache_insert-there two in
        let found = cache_lookup-found D clock uthash c' valid later k e there in
        (c', found.0, events, returns, found.1)
