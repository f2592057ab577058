-- ===== src/Clist/Deletion.antt =====
-- The deletions and the change of an element.
use openwrt_helloworld.Prelude.{
  ℕ, zero, suc, ◌+◌, ◌-◌, ◌%◌, ◌^◌, ◌<◌, ◌≡◌, ◌≢◌, refl, sym, subst, ap, ◌∙◌, arith, Bool, true,
  false, List, [], ◌∷◌, none, some, ◌==◌, ==_refl, ==_iff, lt→ltb, if◌then◌else◌, All, length, map,
  Bool-cases, inl, inr, ◌⊎◌,
}
use openwrt_helloworld.Clist.{
  Node, Clist, delete_loop, list_delete_node, delete_index, list_delete_at,
}
use openwrt_helloworld.Clist.Chain.{
  IsChain, last_from, IsValid, contents, last_from-ne, IsChain-from,
}

same_index : (i k : ℕ) → i < k → (suc i == suc k - 1) ≡ (i == k - 1)
same_index i k h = ground arith

module _ {A : Type 0} where
  -- The list without its first element that passes the test.
  abbrev pub erase_first : (A → Bool) → List A → List A
  erase_first pfunc [] = []
  erase_first pfunc (x ∷ xs) = if pfunc x then xs else x ∷ erase_first pfunc xs

  -- What is known of the nodes and the tail that are left, in the place of nodes that follow `p`.
  record IsLeft (pfunc : A → Bool) (p : ℕ) (ns ns' : List (Node A)) (t' : ℕ) : Type 0 where
    erased : map (λ n. n.content) ns' ≡ erase_first pfunc (map (λ n. n.content) ns)
    chain : IsChain p ns'
    tail_last : t' ≡ last_from p ns'
    one_less : length ns ≡ length ns' + 1
    keeps : (q : ℕ) → All (λ m. m.address ≢ q) ns → All (λ m. m.address ≢ q) ns'

  new_tail :
      (p t : ℕ) (n : Node A) (ns : List (Node A))
      → IsChain n.address ns
      → t ≡ last_from n.address ns
      → (if n.address == t then p else t) ≡ last_from p ns
  new_tail p t n [] h e = rw (e, ==_refl n.address) refl
  new_tail p t n (m ∷ ns) h e = elim (Bool-cases (n.address == t)) [
    | inl same ↦
        absurd (last_from-ne n.address n.address m ns h.0 (sym ((==_iff n.address t).0 same ∙ e)))
    | inr other ↦ rw other e
  ]

  delete_loop-cases :
      (pfunc : A → Bool) (p t : ℕ) (ns : List (Node A))
      → IsChain p ns
      → t ≡ last_from p ns
      → (delete_loop pfunc p t ns ≡ none) × All (λ n. pfunc n.content ≡ false) ns
        ⊎ ((ns' : List (Node A)) × (t' : ℕ) × (delete_loop pfunc p t ns ≡ some (ns', t'))
            × IsLeft pfunc p ns ns' t')
  unfolding delete_loop
  delete_loop-cases pfunc p t [] h e = inl (refl, tt)
  delete_loop-cases pfunc p t (n ∷ ns) h e = elim (Bool-cases (pfunc n.content)) [
    | inl found ↦ inr (
      ns,
      (if n.address == t then p else t),
      rw found refl,
      record {
        erased = rw found refl;
        chain = IsChain-from n.address p ns h.1 h.0.1;
        tail_last = new_tail p t n ns h.1 e;
        one_less = omega arith;
        keeps = λ q k. k.1;
      },
    )
    | inr other ↦ elim (delete_loop-cases pfunc n.address t ns h.1 e) [
      | inl (nothing, none_match) ↦ inl (rw (other, nothing) refl, (other, none_match))
      | inr (ns', t', deletes, left) ↦ inr (
        n ∷ ns',
        t',
        rw (other, deletes) refl,
        record {
          erased = rw other (ap (λ xs. n.content ∷ xs) left.erased);
          chain = ((h.0.0, left.keeps p h.0.1), left.chain);
          tail_last = left.tail_last;
          one_less = omega (arith, left.one_less);
          keeps = λ q k. (k.0, left.keeps q k.1);
        },
      )
    ]
  ]

  -- Deleting by a test either finds no element that passes, returns 0 and changes nothing, or returns
  -- 1, deletes the first element that passes and keeps the invariant, `tail` included.
  pub list_delete_node-contents :
      (pfunc : A → Bool) (l : Clist A)
      → IsValid l
      → l.size < 2 ^ 32
      → (list_delete_node pfunc l ≡ (false, l)) × All (λ n. pfunc n.content ≡ false) l.nodes
        ⊎ ((l' : Clist A) × (list_delete_node pfunc l ≡ (true, l'))
            × (contents l' ≡ erase_first pfunc (contents l))
            × IsValid l')
  unfolding list_delete_node
  list_delete_node-contents pfunc l v small =
      elim (delete_loop-cases pfunc 0 l.tail l.nodes v.chain v.tail_last) [
        | inl (nothing, none_match) ↦ inl (rw (list_delete_node, nothing) refl, none_match)
        | inr (ns', t', deletes, left) ↦ inr (
          record { nodes = ns'; tail = t'; size = (l.size + (2 ^ 32 - 1)) % 2 ^ 32 },
          rw (list_delete_node, deletes) refl,
          left.erased,
          record {
            chain = left.chain;
            tail_last = left.tail_last;
            size_length = omega (arith, left.one_less, v.size_length);
          },
        )
      ]

  abbrev pub erase_at : ℕ → List A → List A
  erase_at i [] = []
  erase_at zero (x ∷ xs) = xs
  erase_at (suc i) (x ∷ xs) = x ∷ erase_at i xs

  -- What is left without the node at an index, and where the tail is then.
  record IsLeftAt (i p : ℕ) (ns ns' : List (Node A)) (prev : ℕ) : Type 0 where
    erased : map (λ n. n.content) ns' ≡ erase_at i (map (λ n. n.content) ns)
    chain : IsChain p ns'
    one_less : length ns ≡ length ns' + 1
    keeps : (q : ℕ) → All (λ m. m.address ≢ q) ns → All (λ m. m.address ≢ q) ns'
    tail_last :
        (t : ℕ) → t ≡ last_from p ns → (if i == length ns - 1 then prev else t) ≡ last_from p ns'

  first_tail :
      (p t : ℕ) (n : Node A) (ns : List (Node A))
      → t ≡ last_from n.address ns
      → (if 0 == length (n ∷ ns) - 1 then p else t) ≡ last_from p ns
  first_tail p t n [] e = refl
  first_tail p t n (m ∷ ns) e = ground (arith, e)

  delete_index-left :
      (i p : ℕ) (ns : List (Node A))
      → IsChain p ns
      → i < length ns
      → (ns' : List (Node A)) × (prev : ℕ) × (delete_index p i ns ≡ some (ns', prev))
        × IsLeftAt i p ns ns' prev
  unfolding delete_index
  delete_index-left i p [] h below = absurd (omega arith)
  delete_index-left zero p (n ∷ ns) h below = (
    ns,
    p,
    refl,
    record {
      erased = refl;
      chain = IsChain-from n.address p ns h.1 h.0.1;
      one_less = omega arith;
      keeps = λ q k. k.1;
      tail_last = λ t e. first_tail p t n ns e;
    },
  )
  delete_index-left (suc i) p (n ∷ ns) h below =
      let (ns', prev, deletes, left) = delete_index-left i n.address ns h.1 (omega arith) in
      (
        n ∷ ns',
        prev,
        rw deletes refl,
        record {
          erased = ap (λ xs. n.content ∷ xs) left.erased;
          chain = ((h.0.0, left.keeps p h.0.1), left.chain);
          one_less = omega (arith, left.one_less);
          keeps = λ q k. (k.0, left.keeps q k.1);
          tail_last = λ t e. rw (same_index i (length ns) (omega arith)) (left.tail_last t e);
        },
      )

  -- Deleting at an index below the size returns 1, deletes the element there and keeps the
  -- invariant; the loop does not run past the end.
  pub list_delete_at-contents :
      (i : ℕ) (l : Clist A)
      → IsValid l
      → i < l.size
      → (l' : Clist A) × (list_delete_at i l ≡ some (true, l'))
        × (contents l' ≡ erase_at i (contents l))
        × IsValid l'
  unfolding list_delete_at
  list_delete_at-contents i l v below =
      let (ns', prev, deletes, left) =
        delete_index-left i 0 l.nodes v.chain (subst (λ n. i < n) v.size_length below) in
      (
        record { nodes = ns'; tail = if i == l.size - 1 then prev else l.tail; size = l.size - 1 },
        rw (list_delete_at, lt→ltb i l.size below, deletes) refl,
        left.erased,
        record {
          chain = left.chain;
          tail_last = rw v.size_length (left.tail_last l.tail v.tail_last);
          size_length = omega (arith, left.one_less, v.size_length);
        },
      )
