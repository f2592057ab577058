-- ===== src/Clist/Tests.antt =====
-- Three elements, at the addresses 10, 20 and 30.
use openwrt_helloworld.Prelude.{ℕ, ◌≡◌, ◌⊎◌, refl, arith, [], ◌∷◌, true, false, ◌==◌, All}
use openwrt_helloworld.Clist.{Clist, list_delete_node}
use openwrt_helloworld.Clist.Chain.{IsValid, contents}
use openwrt_helloworld.Clist.Deletion.{list_delete_node-contents}

abbrev three : Clist ℕ
three = record {
  nodes =
      record { address = 10; content = 1 }
      ∷ record { address = 20; content = 2 }
      ∷ record { address = 30; content = 3 }
      ∷ [];
  tail = 30;
  size = 3;
}

three-IsValid : IsValid three
three-IsValid = record {
  chain = (
    (omega arith, (omega arith, (omega arith, tt))),
    ((omega arith, (omega arith, tt)), ((omega arith, tt), tt)),
  );
  tail_last = refl;
  size_length = refl;
}

list_delete_node-contents_example :
    (list_delete_node (λ x. x == 3) three ≡ (false, three))
      × All (λ n. (n.content == 3) ≡ false) three.nodes
    ⊎ ((l' : Clist ℕ) × (list_delete_node (λ x. x == 3) three ≡ (true, l'))
        × (contents l' ≡ 1 ∷ 2 ∷ [])
        × IsValid l')
list_delete_node-contents_example =
    list_delete_node-contents (λ x. x == 3) three three-IsValid (omega arith)
