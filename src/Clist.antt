-- ===== src/Clist.antt =====
-- list.c: the singly linked list with a pointer to its last node. The nodes are those that `next` leads
-- to from the head, in order, each with its address; the head's address is 0.
pub mod Chain
pub mod Deletion
mod Tests
use openwrt_helloworld.Prelude.{
  ℕ, zero, suc, ◌+◌, ◌-◌, ◌%◌, ◌^◌, Bool, true, false, List, [], ◌∷◌, Option, none, some, ◌==◌, ltb,
  if◌then◌else◌,
}

-- A node with a copy of the data.
pub record Node (A : Type 0) : Type 0 where
  pub address : ℕ
  pub content : A

pub record Clist (A : Type 0) : Type 0 where
  pub nodes : List (Node A)
  pub tail : ℕ
  pub size : ℕ

module _ {A : Type 0} where
  -- `list_init`, when `malloc` has the memory.
  unfoldable pub list_init : Clist A
  list_init = record { nodes = []; tail = 0; size = 0 }

  -- Writing `next` of the node at `t`, of the nodes from the one at `p` on: the new node is the last.
  unfoldable pub link_after : ℕ → ℕ → Node A → List (Node A) → List (Node A)
  link_after p t new [] = if p == t then new ∷ [] else []
  link_after p t new (n ∷ ns) =
      let rest = link_after n.address t new ns in if p == t then new ∷ [] else n ∷ rest

  -- `address` is what `malloc` returns for the node, `none` for NULL. True is 1.
  unfoldable pub list_add_back : Option ℕ → A → Clist A → Bool × Clist A
  list_add_back none x l = (false, l)
  list_add_back (some a) x l = (
    true,
    record {
      nodes = link_after 0 l.tail (record { address = a; content = x }) l.nodes;
      tail = a;
      size = (l.size + 1) % 2 ^ 32;
    },
  )

  unfoldable pub list_add_front : Option ℕ → A → Clist A → Bool × Clist A
  list_add_front none x l = (false, l)
  list_add_front (some a) x l = (
    true,
    record {
      nodes = record { address = a; content = x } ∷ l.nodes;
      tail = if l.size == 0 then a else l.tail;
      size = (l.size + 1) % 2 ^ 32;
    },
  )

  -- The loop of `list_delete_node`, with the address of `prev`: the nodes from `curr` on and the
  -- tail, when a node matched.
  unfoldable pub delete_loop : (A → Bool) → ℕ → ℕ → List (Node A) → Option (List (Node A) × ℕ)
  delete_loop pfunc prev tail [] = none
  delete_loop pfunc prev tail (curr ∷ ns) =
      let rest = delete_loop pfunc curr.address tail ns in
      if pfunc curr.content
      then some (ns, if curr.address == tail then prev else tail)
      else elim rest [ none ↦ none | some (ns', tail') ↦ some (curr ∷ ns', tail') ]

  -- `pfunc` is the comparison with the data.
  unfoldable pub list_delete_node : (A → Bool) → Clist A → Bool × Clist A
  list_delete_node pfunc l = elim (delete_loop pfunc 0 l.tail l.nodes) [
    | none ↦ (false, l)
    | some (ns, tail) ↦
        (true, record { nodes = ns; tail = tail; size = (l.size + (2 ^ 32 - 1)) % 2 ^ 32 })
  ]

  -- The loop of `list_delete_at` and the removal: the nodes without the one at `index`, and `prev`.
  -- The end of the nodes in the loop would be a read through NULL.
  unfoldable pub delete_index : ℕ → ℕ → List (Node A) → Option (List (Node A) × ℕ)
  delete_index prev index [] = none
  delete_index prev zero (curr ∷ ns) = some (ns, prev)
  delete_index prev (suc index) (curr ∷ ns) = elim (delete_index curr.address index ns) [
    | none ↦ none
    | some (ns', p) ↦ some (curr ∷ ns', p)
  ]

  -- The last case is the read through NULL: `none`.
  unfoldable pub list_delete_at : ℕ → Clist A → Option (Bool × Clist A)
  list_delete_at index l =
      if ltb index l.size
      then elim (delete_index 0 index l.nodes) [
        | none ↦ none
        | some (ns, prev) ↦ some (
          true,
          record {
            nodes = ns;
            tail = if index == l.size - 1 then prev else l.tail;
            size = l.size - 1;
          },
        )
      ]
      else some (false, l)

  unfoldable pub modify_index : ℕ → A → List (Node A) → Option (List (Node A))
  modify_index index x [] = none
  modify_index zero x (curr ∷ ns) = some (record curr { content = x } ∷ ns)
  modify_index (suc index) x (curr ∷ ns) = elim (modify_index index x ns) [
    | none ↦ none
    | some ns' ↦ some (curr ∷ ns')
  ]

  unfoldable pub list_modify_at : ℕ → A → Clist A → Option (Bool × Clist A)
  list_modify_at index x l =
      if ltb index l.size
      then elim (modify_index index x l.nodes) [
        | none ↦ none
        | some ns ↦ some (true, record l { nodes = ns })
      ]
      else some (false, l)

  -- `differs` is `memcmp(...) != 0` with the data.
  unfoldable pub any_node : (A → Bool) → List (Node A) → Bool
  any_node test [] = false
  any_node test (n ∷ ns) = if test n.content then true else any_node test ns

  unfoldable pub list_have_same : (A → Bool) → Clist A → Bool
  unfolding any_node
  list_have_same pfunc l = any_node pfunc l.nodes

  unfoldable pub list_have_same_cmp : (A → Bool) → Clist A → Bool
  unfolding any_node
  list_have_same_cmp differs l = any_node differs l.nodes

  unfoldable pub list_clear : Clist A → Clist A
  list_clear l = record { nodes = []; tail = 0; size = 0 }
