-- ===== src/Vector/Trie.antt =====
-- The trie under a deep vector (pkg/lang/core/vector.go): reading, updating, pushing and popping a
-- leaf. A recursion of the source goes down one level, of five bits, at a time; here it has fuel.
use ww.Prelude.{
  ℕ, zero, suc, ◌+◌, ◌-◌, ◌*◌, ◌/◌, ◌%◌, ◌^◌, ltb, ◌==◌, if◌then◌else◌, Result, ok, fail, ◌>>=◌,
  memory, panic, out_of_fuel,
}
use ww.Memory.Cells.{Cells, write, copy}
use ww.Memory.Node.{
  Node, null, branches, values, empty_branches, node_not_null, branch_at, set_branch, set_value,
}

abbrev pub bits : ℕ
bits = 5

abbrev pub width : ℕ
width = 32

-- (i >> level) & mask
abbrev pub sub_index : ℕ → ℕ → ℕ
sub_index i level = i / 2 ^ level % width

-- `level -= bits` on a uint8
abbrev pub level_down : ℕ → ℕ
level_down level = (level + 256 - bits) % 256

-- number of items in the actual trie (i.e. not in the tail)
unfoldable pub vector_tailoff : ℕ → ℕ
vector_tailoff cnt = if ltb cnt width then 0 else (cnt - 1) / 2 ^ bits * 2 ^ bits

-- The zeroed struct `Any`, which is the value nil.
pub record Zeroed (A : Type 0) : Type 0 where
  pub nil : A

module _ {A : Type 0} where
  -- One round of the loop of apiVectorArrayFor.
  unfoldable pub descend : Node A → ℕ → Result (Node A)
  unfolding branch_at
  descend (values vs) i = fail memory
  descend null i = branch_at null i
  descend (branches bs) i = branch_at (branches bs) i

  -- What follows that loop.
  unfoldable pub leaf_values : Node A → Result (Cells A)
  leaf_values (values vs) = ok vs
  leaf_values null = fail memory
  leaf_values (branches bs) = fail memory

  -- The loop of apiVectorArrayFor.
  unfoldable pub trie_values : ℕ → ℕ → Node A → ℕ → Result (Cells A)
  trie_values zero level n i = fail out_of_fuel
  trie_values (suc fuel) level n i =
      let deeper = (do
        child ← descend n (sub_index i level)
        trie_values fuel (level_down level) child i) in
      if ltb 0 level then deeper else leaf_values n

  -- cloneBranchNode; `bs.Len()` is 0 for the node with no list
  unfoldable pub clone_branch_node : Node A → ℕ → Result (Node A)
  clone_branch_node null lim = if ltb lim 1 then ok (branches empty_branches) else fail panic
  clone_branch_node (branches bs) lim =
      ok (branches (copy (if ltb lim 1 then width else lim) bs empty_branches))
  clone_branch_node (values vs) lim = fail panic

  -- newPath
  unfoldable pub new_path : ℕ → ℕ → Node A → Result (Node A)
  new_path zero level node = fail out_of_fuel
  new_path (suc fuel) level node =
      let deeper = (do
        path ← new_path fuel (level - bits) node
        ok (branches (write empty_branches 0 path))) in
      if level == 0 then ok node else deeper

  -- pushTail writes into `parent`, and so into the vector that owns it, and returns it.
  unfoldable pub push_tail : ℕ → ℕ → ℕ → Node A → Node A → Result (Node A)
  push_tail zero level cnt parent tailnode = fail out_of_fuel
  push_tail (suc fuel) level cnt parent tailnode =
      let subidx = sub_index (cnt - 1) level in
      let deeper = (do
        child ← branch_at parent subidx
        let rest = push_tail fuel (level - bits) cnt child tailnode
        if node_not_null child then rest else new_path fuel (level - bits) tailnode) in
      do
        node_to_insert ← if level == bits then ok tailnode else deeper
        set_branch parent subidx node_to_insert

module _ {A : Type 0} ⦃z : Zeroed A⦄ where
  -- A fresh list of values.
  abbrev pub empty_values : Cells A
  empty_values _ = z.nil

  -- cloneLeafNode
  unfoldable pub clone_leaf_node : Node A → ℕ → Result (Node A)
  clone_leaf_node null lim = fail panic
  clone_leaf_node (branches bs) lim = fail panic
  clone_leaf_node (values vs) lim = ok (values (copy lim vs empty_values))

  -- cloneNode, by the tag of the node
  unfoldable pub clone_node : Node A → ℕ → Result (Node A)
  unfolding clone_branch_node clone_leaf_node
  clone_node (values vs) lim = clone_leaf_node (values vs) lim
  clone_node null lim = clone_branch_node null lim
  clone_node (branches bs) lim = clone_branch_node (branches bs) lim

  -- apiVectorAssoc
  unfoldable pub vector_assoc : ℕ → ℕ → Node A → ℕ → A → Result (Node A)
  vector_assoc zero level n i val = fail out_of_fuel
  vector_assoc (suc fuel) level n i val =
      let deeper = λ (ret : Node A). (do
        child ← branch_at n (sub_index i level)
        node ← vector_assoc fuel (level - bits) child i val
        set_branch ret (sub_index i level) node) in
      do ret ← clone_node n width; if level == 0 then set_value ret (i % width) val else deeper ret

  -- popTail
  unfoldable pub pop_tail : ℕ → ℕ → ℕ → Node A → Result (Node A)
  pop_tail zero level cnt n = fail out_of_fuel
  pop_tail (suc fuel) level cnt n =
      let subidx = sub_index (cnt - 2) level in
      let deeper = (do
        child ← branch_at n subidx
        newchild ← pop_tail fuel (level - bits) cnt child
        ret ← clone_branch_node n subidx
        set_branch ret subidx newchild) in
      if ltb bits level then deeper else if subidx == 0 then ok null else clone_node n subidx
