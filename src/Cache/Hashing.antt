-- ===== src/Cache/Hashing.antt =====
-- What cache.c relies on of uthash and of `ev_tstamp`, and an entry of the cache.
use openwrt_helloworld.Prelude.{
  ℕ, ◌≡◌, ◌≢◌, refl, Bool, false, List, [], ◌∷◌, ◌++◌, Option, none, some, ◌==◌, if◌then◌else◌, All,
}
use openwrt_helloworld.Prelude.Text.{same_key}

-- Times are C doubles. `exceeds now ts age` is the test `now - ts > age`.
pub record Clock : Type 1 where
  pub Time : Type 0
  pub exceeds : Time → Time → Time → Bool

-- `struct cache_entry`, at its address. `content` is the payload pointer, `none` for NULL.
pub record Entry (D : Type 0) (clock : Clock) : Type 0 where
  pub address : ℕ
  pub key : List ℕ
  pub content : Option D
  pub ts : clock.Time

module _ {D : Type 0} {clock : Clock} where
  -- The list without the entry at an address.
  unfoldable pub without : ℕ → List (Entry D clock) → List (Entry D clock)
  without a [] = []
  without a (e ∷ l) = if e.address == a then without a l else e ∷ without a l

  -- The first entry with a key.
  unfoldable pub find_key : List ℕ → List (Entry D clock) → Option (Entry D clock)
  find_key k [] = none
  find_key k (e ∷ l) = if same_key e.key k then some e else find_key k l

  -- No two entries have one key; no two stand at one address.
  abbrev pub DistinctKeys : List (Entry D clock) → Type 0
  DistinctKeys [] = Unit
  DistinctKeys (e ∷ l) = All (λ x. same_key x.key e.key ≡ false) l × DistinctKeys l

  abbrev pub DistinctAddresses : List (Entry D clock) → Type 0
  DistinctAddresses [] = Unit
  DistinctAddresses (e ∷ l) = All (λ x. x.address ≢ e.address) l × DistinctAddresses l

-- uthash as its user guide describes it: `HASH_ITER` goes in the order of insertion, `HASH_ADD`
-- appends, `HASH_DEL` takes the item at a pointer out, `HASH_FIND` returns the item with a key if
-- keys are unique, and `HASH_COUNT` is the number of items.
pub record Uthash (D : Type 0) (clock : Clock) : Type 1 where
  pub Table : Type 0
  pub nothing : Table
  pub items : Table → List (Entry D clock)
  pub add : Entry D clock → Table → Table
  pub delete : Entry D clock → Table → Table
  pub find : List ℕ → Table → Option (Entry D clock)
  pub items-nothing : items nothing ≡ []
  pub items-add : (e : Entry D clock) (t : Table) → items (add e t) ≡ items t ++ (e ∷ [])
  pub items-delete :
      (e : Entry D clock) (t : Table) → items (delete e t) ≡ without e.address (items t)
  pub find_unique :
      (k : List ℕ) (t : Table) → DistinctKeys (items t) → find k t ≡ find_key k (items t)

-- A table that is the list of its items has these laws.
abbrev pub list_table : (D : Type 0) (clock : Clock) → Uthash D clock
list_table D clock = record {
  Table = List (Entry D clock);
  nothing = [];
  items = λ t. t;
  add = λ e t. t ++ (e ∷ []);
  delete = λ e t. without e.address t;
  find = find_key;
  items-nothing = refl;
  items-add = λ e t. refl;
  items-delete = λ e t. refl;
  find_unique = λ k t h. refl;
}
