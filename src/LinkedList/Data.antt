-- ===== src/LinkedList/Data.antt =====
-- struct LinkedList of api/mem.capnp with its accessors, and the interface List of
-- pkg/lang/core/list.go.
use ww.Prelude.{ℕ, Result, ok, fail, panic}

-- The union of the wire format. The tail of a cons cell is again a list, since `cons` is all that
-- builds one; `offset` is a uint32.
pub data LinkedList (A : Type 0) : Type 0 where
  empty : LinkedList A
  head : A → LinkedList A
  packed_cons_cell : (head tail : A) → LinkedList A
  cons_cell : (offset : ℕ) → (head : A) → (tail : LinkedList A) → LinkedList A

-- The implementations of the interface List, each over the stored list that it wraps.
pub data AnyList (A : Type 0) : Type 0 where
  empty_list : AnyList A
  head_list : LinkedList A → AnyList A
  packed_list : LinkedList A → AnyList A
  deep_list : LinkedList A → AnyList A

module _ {A : Type 0} where
  -- asList
  unfoldable pub as_list : LinkedList A → AnyList A
  as_list empty = empty_list
  as_list (head x) = head_list (head x)
  as_list (packed_cons_cell x y) = packed_list (packed_cons_cell x y)
  as_list (cons_cell off x tail) = deep_list (cons_cell off x tail)

  -- list.Head(), which panics under another tag
  unfoldable pub get_head : LinkedList A → Result A
  get_head (head x) = ok x
  get_head empty = fail panic
  get_head (packed_cons_cell _ _) = fail panic
  get_head (cons_cell _ _ _) = fail panic

  -- list.PackedConsCell(), its head and tail
  unfoldable pub packed_cell : LinkedList A → Result (A × A)
  packed_cell (packed_cons_cell x y) = ok (x, y)
  packed_cell empty = fail panic
  packed_cell (head _) = fail panic
  packed_cell (cons_cell _ _ _) = fail panic

  -- list.ConsCell(), its offset, head and tail
  unfoldable pub get_cell : LinkedList A → Result (ℕ × A × LinkedList A)
  get_cell (cons_cell off x tail) = ok (off, x, tail)
  get_cell empty = fail panic
  get_cell (head _) = fail panic
  get_cell (packed_cons_cell _ _) = fail panic
