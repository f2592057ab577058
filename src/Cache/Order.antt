-- ===== src/Cache/Order.antt =====
-- The cache's invariant, and the order of its entries after each operation.
use openwrt_helloworld.Prelude.{
  ℕ, ◌≡◌, ◌≢◌, refl, sym, ap, arith, false, List, [], ◌∷◌, ◌++◌, some, if◌then◌else◌, All,
  All-append, All-split, subst, ==_iff, ◌==◌, Bool-cases, inl, inr,
}
use openwrt_helloworld.Prelude.Text.{same_key, same_key_iff, same_key_sym}
use openwrt_helloworld.Cache.Hashing.{
  Clock, Entry, without, find_key, DistinctKeys, DistinctAddresses,
}

module _ {D : Type 0} {clock : Clock} where
  without-none : (a : ℕ) (l : List (Entry D clock)) → All (λ e. e.address ≢ a) l → without a l ≡ l
  unfolding without
  without-none a [] h = refl
  without-none a (e ∷ l) h = ground (arith, without-none a l h.1)

  pub All-without {ℓ} :
      (P : Entry D clock → Type ℓ) (a : ℕ) (l : List (Entry D clock))
      → All P l
      → All P (without a l)
  unfolding without
  All-without P a [] h = h
  All-without P a (e ∷ l) h = elim (Bool-cases (e.address == a)) [
    | inl same ↦ rw (same, if◌then◌else◌) (All-without P a l h.1)
    | inr other ↦ rw (other, if◌then◌else◌) (h.0, All-without P a l h.1)
  ]

  pub DistinctKeys-without :
      (a : ℕ) (l : List (Entry D clock)) → DistinctKeys l → DistinctKeys (without a l)
  unfolding without
  DistinctKeys-without a [] h = h
  DistinctKeys-without a (e ∷ l) h = elim (Bool-cases (e.address == a)) [
    | inl same ↦ rw (same, if◌then◌else◌) (DistinctKeys-without a l h.1)
    | inr other ↦
        rw (other, if◌then◌else◌)
          (All-without (λ x. same_key x.key e.key ≡ false) a l h.0, DistinctKeys-without a l h.1)
  ]

  pub DistinctAddresses-without :
      (a : ℕ) (l : List (Entry D clock)) → DistinctAddresses l → DistinctAddresses (without a l)
  unfolding without
  DistinctAddresses-without a [] h = h
  DistinctAddresses-without a (e ∷ l) h = elim (Bool-cases (e.address == a)) [
    | inl same ↦ rw (same, if◌then◌else◌) (DistinctAddresses-without a l h.1)
    | inr other ↦
        rw (other, if◌then◌else◌)
          (All-without (λ x. x.address ≢ e.address) a l h.0, DistinctAddresses-without a l h.1)
  ]

  -- An entry in the middle is all that `without` takes out.
  pub without-middle :
      (xs : List (Entry D clock)) (e : Entry D clock) (ys : List (Entry D clock))
      → DistinctAddresses (xs ++ (e ∷ ys))
      → (without e.address (xs ++ (e ∷ ys)) ≡ xs ++ ys) × DistinctAddresses (xs ++ ys)
  unfolding without
  without-middle [] e ys h = (ground (arith, without-none e.address ys h.0), h.1)
  without-middle (x ∷ xs) e ys h =
      let (ih, d) = without-middle xs e ys h.1 in
      let (before, behind) = All-split (λ y. y.address ≢ x.address) xs (e ∷ ys) h.0 in
      let differ : x.address ≢ e.address = λ q. behind.0 (sym q) in
      (
        ground (arith, ih, differ),
        (All-append (λ y. y.address ≢ x.address) xs ys before behind.1, d),
      )

  -- Appending an entry with a new key, at a new address.
  pub DistinctKeys-snoc :
      (l : List (Entry D clock)) (e : Entry D clock)
      → DistinctKeys l
      → All (λ x. same_key x.key e.key ≡ false) l
      → DistinctKeys (l ++ (e ∷ []))
  DistinctKeys-snoc [] e h k = (tt, tt)
  DistinctKeys-snoc (x ∷ l) e h k = (
    All-append (λ y. same_key y.key x.key ≡ false) l (e ∷ []) h.0
        (same_key_sym e.key x.key k.0, tt),
    DistinctKeys-snoc l e h.1 k.1,
  )

  pub DistinctAddresses-snoc :
      (l : List (Entry D clock)) (e : Entry D clock)
      → DistinctAddresses l
      → All (λ x. x.address ≢ e.address) l
      → DistinctAddresses (l ++ (e ∷ []))
  DistinctAddresses-snoc [] e h k = (tt, tt)
  DistinctAddresses-snoc (x ∷ l) e h k = (
    All-append (λ y. y.address ≢ x.address) l (e ∷ []) h.0 ((λ q. k.0 (sym q)), tt),
    DistinctAddresses-snoc l e h.1 k.1,
  )

  -- The entry that `find_key` finds has the key; with it out, no entry has.
  pub find_key-key :
      (k : List ℕ) (l : List (Entry D clock)) {e : Entry D clock}
      → find_key k l ≡ some e
      → e.key ≡ k
  unfolding find_key
  find_key-key k [] h = cc
  find_key-key k (x ∷ l) {e} h = ground (arith, same_key_iff x.key k, find_key-key k l {e = e})

  pub without_found :
      (k : List ℕ) (l : List (Entry D clock)) {e : Entry D clock}
      → find_key k l ≡ some e
      → DistinctKeys l
      → All (λ x. same_key x.key k ≡ false) (without e.address l)
  unfolding find_key without
  without_found k [] h d = cc
  without_found k (x ∷ l) {e} h d = elim (Bool-cases (same_key x.key k)) [
    | inl same ↦
        let q : x ≡ e = ground arith in
        let others : All (λ y. same_key y.key k ≡ false) l =
          subst (λ j. All (λ y. same_key y.key j ≡ false) l) ((same_key_iff x.key k).0 same) d.0 in
        rw ((==_iff x.address e.address).1 (ap (λ y. y.address) q), if◌then◌else◌)
          (All-without (λ y. same_key y.key k ≡ false) e.address l others)
    | inr other ↦
        let ih = without_found k l {e = e} (ground arith) d.1 in
        elim (Bool-cases (x.address == e.address)) [
          | inl same ↦ rw (same, if◌then◌else◌) ih
          | inr differ ↦ rw (differ, if◌then◌else◌) (other, ih)
        ]
  ]

  without_absent : (a : ℕ) (l : List (Entry D clock)) → All (λ x. x.address ≢ a) (without a l)
  unfolding without
  without_absent a [] = tt
  without_absent a (e ∷ l) = elim (Bool-cases (e.address == a)) [
    | inl same ↦ rw (same, if◌then◌else◌) (without_absent a l)
    | inr other ↦
        rw (other, if◌then◌else◌) ((λ q. cc (other, (==_iff e.address a).1 q)), without_absent a l)
  ]

  -- An entry that was found, taken out and put in again with another time, keeps both.
  pub moved-Distinct :
      (k : List ℕ) (l : List (Entry D clock)) (e : Entry D clock) (now : clock.Time)
      → find_key k l ≡ some e
      → DistinctKeys l
      → DistinctAddresses l
      → DistinctKeys (without e.address l ++ (record e { ts = now } ∷ []))
        × DistinctAddresses (without e.address l ++ (record e { ts = now } ∷ []))
  moved-Distinct k l e now h keys addresses = (
    DistinctKeys-snoc (without e.address l) (record e { ts = now })
        (DistinctKeys-without e.address l keys)
        (subst (λ j. All (λ x. same_key x.key j ≡ false) (without e.address l))
          (sym (find_key-key k l h)) (without_found k l h keys)),
    DistinctAddresses-snoc (without e.address l) (record e { ts = now })
        (DistinctAddresses-without e.address l addresses) (without_absent e.address l),
  )
