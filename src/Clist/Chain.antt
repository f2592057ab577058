-- ===== src/Clist/Chain.antt =====
-- The invariant of the list, and the additions.
use openwrt_helloworld.Prelude.{
  ℕ, ◌+◌, ◌^◌, ◌<◌, ◌≡◌, ◌≢◌, refl, sym, ap, ◌∙◌, arith, true, List, [], ◌∷◌, ◌++◌, some, ◌==◌,
  ==_refl, ==_iff, if◌then◌else◌, All, All-append, length, length-append, map, Bool-cases, inl, inr,
}
use openwrt_helloworld.Clist.{Node, Clist, link_after, list_add_back, list_add_front}

module _ {A : Type 0} where
  -- No two of the nodes share an address, nor any with the one at `p` before them.
  abbrev pub IsChain : ℕ → List (Node A) → Type 0
  IsChain p [] = Unit
  IsChain p (n ∷ ns) = All (λ m. m.address ≢ p) (n ∷ ns) × IsChain n.address ns

  -- The address of the last node, or of the one before them all.
  abbrev pub last_from : ℕ → List (Node A) → ℕ
  last_from p [] = p
  last_from p (n ∷ ns) = last_from n.address ns

  -- The nodes have different addresses, `tail` is the last of them and `size` their number.
  pub record IsValid (l : Clist A) : Type 0 where
    pub chain : IsChain 0 l.nodes
    pub tail_last : l.tail ≡ last_from 0 l.nodes
    pub size_length : l.size ≡ length l.nodes

  abbrev pub contents : Clist A → List A
  contents l = map (λ n. n.content) l.nodes

  pub last_from-ne :
      (q p : ℕ) (n : Node A) (ns : List (Node A))
      → All (λ m. m.address ≢ p) (n ∷ ns)
      → last_from q (n ∷ ns) ≢ p
  last_from-ne q p n [] h = h.0
  last_from-ne q p n (m ∷ ns) h = last_from-ne n.address p m ns h.1

  link_after-last :
      (p : ℕ) (new : Node A) (ns : List (Node A))
      → IsChain p ns
      → link_after p (last_from p ns) new ns ≡ ns ++ (new ∷ [])
  unfolding link_after
  link_after-last p new [] h = rw (==_refl p) refl
  link_after-last p new (n ∷ ns) h = elim (Bool-cases (p == last_from n.address ns)) [
    | inl e ↦ absurd (last_from-ne p p n ns h.0 (sym ((==_iff p (last_from n.address ns)).0 e)))
    | inr e ↦ rw (e, link_after-last n.address new ns h.1) refl
  ]

  last_from-snoc :
      (p : ℕ) (ns : List (Node A)) (new : Node A) → last_from p (ns ++ (new ∷ [])) ≡ new.address
  last_from-snoc p [] new = refl
  last_from-snoc p (n ∷ ns) new = last_from-snoc n.address ns new

  IsChain-snoc :
      (p : ℕ) (ns : List (Node A)) (new : Node A)
      → IsChain p ns
      → new.address ≢ p
      → All (λ m. m.address ≢ new.address) ns
      → IsChain p (ns ++ (new ∷ []))
  IsChain-snoc p [] new h e fresh = ((e, tt), tt)
  IsChain-snoc p (n ∷ ns) new h e fresh = (
    All-append (λ m. m.address ≢ p) (n ∷ ns) (new ∷ []) h.0 (e, tt),
    IsChain-snoc n.address ns new h.1 (λ same. fresh.0 (sym same)) fresh.1,
  )

  map-snoc :
      (ns : List (Node A)) (new : Node A)
      → map (λ n. n.content) (ns ++ (new ∷ [])) ≡ map (λ n. n.content) ns ++ (new.content ∷ [])
  map-snoc [] new = refl
  map-snoc (n ∷ ns) new = ap (λ xs. n.content ∷ xs) (map-snoc ns new)

  pub IsChain-from :
      (p q : ℕ) (ns : List (Node A)) → IsChain p ns → All (λ m. m.address ≢ q) ns → IsChain q ns
  IsChain-from p q [] h fresh = tt
  IsChain-from p q (n ∷ ns) h fresh = (fresh, h.1)

  IsChain-All : (p : ℕ) (ns : List (Node A)) → IsChain p ns → All (λ m. m.address ≢ p) ns
  IsChain-All p [] h = tt
  IsChain-All p (n ∷ ns) h = h.0

  front_tail :
      (a size tail : ℕ) (ns : List (Node A))
      → size ≡ length ns
      → tail ≡ last_from 0 ns
      → (if size == 0 then a else tail) ≡ last_from a ns
  front_tail a size tail [] e h = rw e refl
  front_tail a size tail (n ∷ ns) e h = ground (arith, e, h)

  -- Adding at the front, at a new address, puts the data first and keeps the invariant.
  pub list_add_front-contents :
      (a : ℕ) (x : A) (l : Clist A)
      → IsValid l
      → a ≢ 0
      → All (λ m. m.address ≢ a) l.nodes
      → length l.nodes + 1 < 2 ^ 32
      → let (added, l') = list_add_front (some a) x l in
        (added ≡ true) × (contents l' ≡ x ∷ contents l) × IsValid l'
  unfolding list_add_front
  list_add_front-contents a x l v nonzero fresh room = (
    refl,
    refl,
    record {
      chain = ((nonzero, IsChain-All 0 l.nodes v.chain), IsChain-from 0 a l.nodes v.chain fresh);
      tail_last = front_tail a l.size l.tail l.nodes v.size_length v.tail_last;
      size_length = omega (arith, v.size_length);
    },
  )

  -- Adding at the back, at a new address, appends the data and keeps the invariant.
  pub list_add_back-contents :
      (a : ℕ) (x : A) (l : Clist A)
      → IsValid l
      → a ≢ 0
      → All (λ m. m.address ≢ a) l.nodes
      → length l.nodes + 1 < 2 ^ 32
      → let (added, l') = list_add_back (some a) x l in
        (added ≡ true) × (contents l' ≡ contents l ++ (x ∷ [])) × IsValid l'
  unfolding list_add_back
  list_add_back-contents a x l v nonzero fresh room =
      let new : Node A = record { address = a; content = x } in
      let linked : link_after 0 l.tail new l.nodes ≡ l.nodes ++ (new ∷ []) =
        rw v.tail_last (link_after-last 0 new l.nodes v.chain) in
      (
        refl,
        ap (map (λ n. n.content)) linked ∙ map-snoc l.nodes new,
        record {
          chain = rw linked (IsChain-snoc 0 l.nodes new v.chain nonzero fresh);
          tail_last = rw linked (sym (last_from-snoc 0 l.nodes new));
          size_length = rw linked (omega (arith, v.size_length, length-append l.nodes (new ∷ [])));
        },
      )
