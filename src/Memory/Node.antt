-- ===== src/Memory/Node.antt =====
-- struct Vector.Node: a union of a list of nodes and a list of values.
use ww.Prelude.{ℕ, Bool, true, false, not, Result, ok, fail, panic}
use ww.Memory.Cells.{Cells, write}

-- `null` is the zeroed struct: its tag says `branches`, and it has no list.
pub data Node {ℓ} (A : Type ℓ) : Type ℓ where
  null : Node A
  branches : (ℕ → Node A) → Node A
  values : Cells A → Node A

module _ {ℓ} {A : Type ℓ} where
  -- NewBranches(width)
  abbrev pub empty_branches : Cells (Node A)
  empty_branches _ = null

  abbrev pub null_node : Node A → Bool
  null_node null = true
  null_node (branches _) = false
  null_node (values _) = false

  abbrev pub node_not_null : Node A → Bool
  node_not_null n = not (null_node n)

  -- n.Branches(), and then bs.At(i). The accessor panics on a leaf, and `At` on a list with no cell.
  unfoldable pub branch_at : Node A → ℕ → Result (Node A)
  branch_at null i = fail panic
  branch_at (branches bs) i = ok (bs i)
  branch_at (values vs) i = fail panic

  -- n.Branches(), and then bs.Set(i, child)
  unfoldable pub set_branch : Node A → ℕ → Node A → Result (Node A)
  set_branch null i child = fail panic
  set_branch (branches bs) i child = ok (branches (write bs i child))
  set_branch (values vs) i child = fail panic

  -- n.Values(), and then vs.Set(i, x)
  unfoldable pub set_value : Node A → ℕ → A → Result (Node A)
  set_value null i x = fail panic
  set_value (branches bs) i x = fail panic
  set_value (values vs) i x = ok (values (write vs i x))
