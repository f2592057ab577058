-- ===== src/Cache.antt =====
-- cache.c: the cache of connections and addresses. Its table is uthash's, used through the macros;
-- `Uthash` states what uthash documents of them.
pub mod Hashing
pub mod Order
pub mod Recency
pub mod Bound
pub mod Expiry
mod Tests
use openwrt_helloworld.Prelude.{
  ℕ, zero, suc, ◌+◌, Bool, true, false, List, [], ◌∷◌, ◌++◌, Option, none, some, leb, if◌then◌else◌,
  length,
}
use Hashing.{Uthash, Clock, Entry}

-- The codes that the functions return.
pub data Code : Type 0 where
  ok einval enomem : Code

-- What is given back: the callback with the key and the payload, or the payload itself; the copied
-- key and the entry, by the entry's address.
pub data Event (D : Type 0) : Type 0 where
  free_cb : List ℕ → D → Event D
  free_data : D → Event D
  free_key free_entry : ℕ → Event D

module _ (D : Type 0) (clock : Clock) (uthash : Uthash D clock) where
  open clock use {Time, exceeds}
  open uthash use {Table, nothing, items, add, delete, find}

  -- `struct cache`; `has_cb` says whether `free_cb` is there.
  pub record Cache : Type 0 where
    pub max_entries : ℕ
    pub entries : Table
    pub has_cb : Bool

  -- What the functions do to an entry that they have taken out.
  unfoldable pub release : Bool → Entry D clock → List (Event D)
  release cb entry = elim entry.content [
    | none ↦ free_key entry.address ∷ free_entry entry.address ∷ []
    | some d ↦
        (if cb then free_cb entry.key d else free_data d)
        ∷ free_key entry.address
        ∷ free_entry entry.address
        ∷ []
  ]

  -- `has_dst` is false for a NULL `dst`, `malloc_ok` false when `malloc` returns NULL.
  unfoldable pub cache_create : Bool → Bool → ℕ → Bool → Code × Option Cache
  cache_create has_dst malloc_ok capacity cb =
      if has_dst
      then if malloc_ok
        then (ok, some (record { max_entries = capacity; entries = nothing; has_cb = cb }))
        else (enomem, none)
      else (einval, none)

  -- The loop of `cache_delete` over the entries.
  unfoldable pub release_all : Bool → List (Entry D clock) → Table → Table × List (Event D)
  release_all cb [] t = (t, [])
  release_all cb (entry ∷ rest) t =
      let (t', events) = release_all cb rest (delete entry t) in (t', release cb entry ++ events)

  -- What is left of the table, and what was given back.
  unfoldable pub cache_delete : Option Cache → Bool → Code × Option Table × List (Event D)
  cache_delete none keep_data = (einval, none, [])
  cache_delete (some c) keep_data =
      if keep_data
      then (ok, some nothing, [])
      else (let (t, events) = release_all c.has_cb (items c.entries) c.entries in
          (ok, some t, events))

  -- The loop of `cache_clear` over the entries.
  unfoldable pub clear_loop :
      Bool → Time → Time → List (Entry D clock) → Table → Table × List (Event D)
  clear_loop cb now age [] t = (t, [])
  clear_loop cb now age (entry ∷ rest) t = elim (exceeds now entry.ts age) [
    | true ↦
        let (t', events) = clear_loop cb now age rest (delete entry t) in
        (t', release cb entry ++ events)
    | false ↦ clear_loop cb now age rest t
  ]

  unfoldable pub cache_clear : Time → Option Cache → Time → Code × Option Cache × List (Event D)
  cache_clear now none age = (einval, none, [])
  cache_clear now (some c) age =
      let (t, events) = clear_loop c.has_cb now age (items c.entries) c.entries in
      (ok, some (record c { entries = t }), events)

  unfoldable pub cache_remove :
      Option Cache → Option (List ℕ) → Code × Option Cache × List (Event D)
  cache_remove none key = (einval, none, [])
  cache_remove (some c) none = (einval, some c, [])
  cache_remove (some c) (some key) = elim (find key c.entries) [
    | none ↦ (ok, some c, [])
    | some tmp ↦ (ok, some (record c { entries = delete tmp c.entries }), release c.has_cb tmp)
  ]

  -- The entry is taken out, stamped and put in again, at the end of the order.
  unfoldable pub touch : Time → Entry D clock → Table → Table
  touch now tmp t = add (record tmp { ts = now }) (delete tmp t)

  -- The last component is what is stored at `result` (`none` is NULL); `has_result` is false for a
  -- NULL `result`, and with `einval` nothing is stored: the component means nothing then.
  unfoldable pub cache_lookup :
      Time → Option Cache → Option (List ℕ) → Bool → Code × Option Cache × Option D
  cache_lookup now none key has_result = (einval, none, none)
  cache_lookup now (some c) none has_result = (einval, some c, none)
  cache_lookup now (some c) (some key) false = (einval, some c, none)
  cache_lookup now (some c) (some key) true = elim (find key c.entries) [
    | none ↦ (ok, some c, none)
    | some tmp ↦ (ok, some (record c { entries = touch now tmp c.entries }), tmp.content)
  ]

  unfoldable pub cache_key_exist : Time → Option Cache → Option (List ℕ) → Bool × Option Cache
  cache_key_exist now none key = (false, none)
  cache_key_exist now (some c) none = (false, some c)
  cache_key_exist now (some c) (some key) = elim (find key c.entries) [
    | none ↦ (false, some c)
    | some tmp ↦ (true, some (record c { entries = touch now tmp c.entries }))
  ]

  -- The loop of `cache_insert` over the entries, which breaks in its first round.
  unfoldable pub evict_first : Bool → List (Entry D clock) → Table → Table × List (Event D)
  evict_first cb [] t = (t, [])
  evict_first cb (entry ∷ rest) t = (delete entry t, release cb entry)

  abbrev pub new_entry : ℕ → List ℕ → Option D → Time → Entry D clock
  new_entry address key content now = record {
    address = address;
    key = key;
    content = content;
    ts = now;
  }

  -- `address` is what `malloc` returns for the entry, `none` for NULL.
  unfoldable pub cache_insert :
      Time → Option ℕ → Option Cache → List ℕ → Option D → Code × Option Cache × List (Event D)
  cache_insert now address none key content = (einval, none, [])
  cache_insert now none (some c) key content = (enomem, some c, [])
  cache_insert now (some address) (some c) key content =
      let t = add (new_entry address key content now) c.entries in
      if leb c.max_entries (length (items t))
      then (let (t', events) = evict_first c.has_cb (items t) t in
          (ok, some (record c { entries = t' }), events))
      else (ok, some (record c { entries = t }), [])
