-- ===== src/Cache/Expiry.antt =====
-- `cache_clear` and `cache_delete`: what stays, and that each entry that goes is given back once.
use openwrt_helloworld.Prelude.{
  ◌≡◌, refl, sym, subst, ◌∙◌, ap, Bool, false, List, [], ◌∷◌, ◌++◌, append_assoc, some,
  if◌then◌else◌, All, Bool-cases, inl, inr,
}
use openwrt_helloworld.Cache.Hashing.{Uthash, Clock, Entry, DistinctAddresses, without}
use openwrt_helloworld.Cache.{
  Cache, ok, Event, cache_clear, clear_loop, cache_delete, release_all, release,
}
use openwrt_helloworld.Cache.Order.{without-middle}
use openwrt_helloworld.Cache.Bound.{order, IsValid}

module _ (D : Type 0) (clock : Clock) (uthash : Uthash D clock) where
  open clock use {Time, exceeds}
  open uthash use {Table, items, delete, items-delete}

  -- The entries that are younger than the age, and what the others give back, in order.
  unfoldable pub survivors : Time → Time → List (Entry D clock) → List (Entry D clock)
  survivors now age [] = []
  survivors now age (e ∷ l) =
      let rest = survivors now age l in if exceeds now e.ts age then rest else e ∷ rest

  unfoldable pub expired : Bool → Time → Time → List (Entry D clock) → List (Event D)
  expired cb now age [] = []
  expired cb now age (e ∷ l) =
      let rest = expired cb now age l in
      if exceeds now e.ts age then release D clock uthash cb e ++ rest else rest

  abbrev pub released : Bool → List (Entry D clock) → List (Event D)
  released cb [] = []
  released cb (e ∷ l) = release D clock uthash cb e ++ released cb l

  clear_loop-lem :
      (cb : Bool) (now age : Time) (kept rest : List (Entry D clock)) (t : Table)
      → items t ≡ kept ++ rest
      → DistinctAddresses (kept ++ rest)
      → (items (clear_loop D clock uthash cb now age rest t).0 ≡ kept ++ survivors now age rest)
        × ((clear_loop D clock uthash cb now age rest t).1 ≡ expired cb now age rest)
  unfolding clear_loop survivors expired
  clear_loop-lem cb now age kept [] t e d = (e, refl)
  clear_loop-lem cb now age kept (x ∷ rest) t e d = elim (Bool-cases (exceeds now x.ts age)) [
    | inl old ↦
        let (gone, d') = without-middle kept x rest d in
        let ih =
          clear_loop-lem cb now age kept rest (delete x t)
            (items-delete x t ∙ ap (without x.address) e ∙ gone) d' in
        rw (old, clear_loop) (ih.0, ap (λ l. release D clock uthash cb x ++ l) ih.1)
    | inr young ↦
        let q = append_assoc kept (x ∷ []) rest in
        let ih =
          clear_loop-lem cb now age (kept ++ (x ∷ [])) rest t (e ∙ sym q)
            (subst DistinctAddresses (sym q) d) in
        rw (young, clear_loop) (ih.0 ∙ append_assoc kept (x ∷ []) (survivors now age rest), ih.1)
  ]

  -- `cache_clear` leaves exactly the entries whose age is not exceeded, in their order, and gives
  -- each of the others back once.
  pub cache_clear-survivors :
      (c : Cache D clock uthash) (now age : Time)
      → IsValid D clock uthash c
      → (c' : Cache D clock uthash) × (cache_clear D clock uthash now (some c) age
          ≡ (ok, some c', expired c.has_cb now age (order D clock uthash c)))
        × (order D clock uthash c' ≡ survivors now age (order D clock uthash c))
  unfolding cache_clear
  cache_clear-survivors c now age v =
      let (left, gone) =
        clear_loop-lem c.has_cb now age [] (order D clock uthash c) c.entries refl v.addresses in
      (
        _,
        ap
            (λ l. (
              ok,
              some (record c {
                entries =
                    (clear_loop D clock uthash c.has_cb now age (order D clock uthash c)
                      c.entries).0;
              }),
              l,
            ))
            gone,
        left,
      )

  release_all-lem :
      (cb : Bool) (rest : List (Entry D clock)) (t : Table)
      → items t ≡ rest
      → DistinctAddresses rest
      → (items (release_all D clock uthash cb rest t).0 ≡ [])
        × ((release_all D clock uthash cb rest t).1 ≡ released cb rest)
  unfolding release_all
  release_all-lem cb [] t e d = (e, refl)
  release_all-lem cb (x ∷ rest) t e d =
      let ih =
        release_all-lem cb rest (delete x t)
          (items-delete x t ∙ ap (without x.address) e ∙ (without-middle [] x rest d).0) d.1 in
      (ih.0, ap (λ l. release D clock uthash cb x ++ l) ih.1)

  -- `cache_delete` without `keep_data` empties the table and gives every entry back once, in order.
  pub cache_delete-released :
      (c : Cache D clock uthash)
      → IsValid D clock uthash c
      → (t : Table) × (cache_delete D clock uthash (some c) false
          ≡ (ok, some t, released c.has_cb (order D clock uthash c)))
        × (items t ≡ [])
  unfolding cache_delete
  cache_delete-released c v =
      let (left, gone) =
        release_all-lem c.has_cb (order D clock uthash c) c.entries refl v.addresses in
      (
        _,
        ap
            (λ l. (
              ok,
              some (release_all D clock uthash c.has_cb (order D clock uthash c) c.entries).0,
              l,
            ))
            gone,
        left,
      )

  -- With an age that equal times do not exceed, such as 0, the entries of this very moment stay.
  pub survivors-now :
      (now age : Time) (l : List (Entry D clock))
      → All (λ e. exceeds now e.ts age ≡ false) l
      → survivors now age l ≡ l
  unfolding survivors
  survivors-now now age [] h = refl
  survivors-now now age (e ∷ l) h = rw h.0 (ap (λ r. e ∷ r) (survivors-now now age l h.1))
