-- ===== src/LinkedList/Methods.antt =====
-- The methods of the interface List in pkg/lang/core/list.go, by the form of the list. `none` is
-- Go's nil.
use ww.Prelude.{ℕ, ◌+◌, ◌%◌, ◌^◌, List, [], ◌∷◌, Option, none, some, Result, ok, ◌>>=◌}
use ww.LinkedList.Data.{
  LinkedList, head, packed_cons_cell, cons_cell, AnyList, empty_list, head_list, packed_list,
  deep_list, as_list, get_head, packed_cell, get_cell,
}

module _ {A : Type 0} where
  -- newPersistentHeadList
  abbrev pub new_head_list : A → LinkedList A
  new_head_list item = head item

  -- (PersistentHeadList).cons
  unfoldable pub head_cons : LinkedList A → A → Result (LinkedList A)
  head_cons list item = do tail ← get_head list; ok (packed_cons_cell item tail)

  -- (PackedPersistentList).cons: the offset of a new cell is zero
  abbrev pub packed_cons : LinkedList A → A → LinkedList A
  packed_cons l item = cons_cell 0 item l

  -- (DeepPersistentList).offset
  unfoldable pub offset : LinkedList A → Result ℕ
  offset list = do (off, _, _) ← get_cell list; ok off

  -- (DeepPersistentList).cons
  unfoldable pub deep_cons : LinkedList A → A → Result (LinkedList A)
  deep_cons l item = do off ← offset l; ok (cons_cell ((off + 1) % 2 ^ 32) item l)

  -- (DeepPersistentList).conj
  unfoldable pub deep_conj : LinkedList A → List A → Result (LinkedList A)
  deep_conj l [] = ok l
  deep_conj l (x ∷ []) = deep_cons l x
  deep_conj l (x ∷ y ∷ items) = do ret ← deep_cons l x; deep_conj ret (y ∷ items)

  -- (PackedPersistentList).conj
  unfoldable pub packed_conj : LinkedList A → List A → Result (AnyList A)
  packed_conj l [] = ok (packed_list l)
  packed_conj l (x ∷ []) = ok (deep_list (packed_cons l x))
  packed_conj l (x ∷ y ∷ items) = do
    ret ← deep_conj (packed_cons l x) (y ∷ items)
    ok (deep_list ret)

  -- (PersistentHeadList).conj
  unfoldable pub head_conj : LinkedList A → List A → Result (AnyList A)
  head_conj l [] = ok (head_list l)
  head_conj l (x ∷ []) = do ret ← head_cons l x; ok (packed_list ret)
  head_conj l (x ∷ y ∷ items) = do ret ← head_cons l x; packed_conj ret (y ∷ items)

  -- (EmptyPersistentList).conj
  unfoldable pub empty_conj : List A → Result (AnyList A)
  empty_conj [] = ok empty_list
  empty_conj (x ∷ []) = ok (head_list (new_head_list x))
  empty_conj (x ∷ y ∷ items) = head_conj (new_head_list x) (y ∷ items)

  -- (DeepPersistentList).Count
  unfoldable pub deep_count : LinkedList A → Result ℕ
  deep_count l = do off ← offset l; ok ((off + 3) % 2 ^ 32)

  -- Count
  unfoldable pub count : AnyList A → Result ℕ
  count empty_list = ok 0
  count (head_list l) = ok 1
  count (packed_list l) = ok 2
  count (deep_list l) = deep_count l

  -- Cons
  unfoldable pub cons : AnyList A → A → Result (AnyList A)
  cons empty_list item = ok (head_list (new_head_list item))
  cons (head_list l) item = do ret ← head_cons l item; ok (packed_list ret)
  cons (packed_list l) item = ok (deep_list (packed_cons l item))
  cons (deep_list l) item = do ret ← deep_cons l item; ok (deep_list ret)

  -- Conj
  unfoldable pub conj : AnyList A → List A → Result (AnyList A)
  conj empty_list items = empty_conj items
  conj (head_list l) items = head_conj l items
  conj (packed_list l) items = packed_conj l items
  conj (deep_list l) items = do ret ← deep_conj l items; ok (deep_list ret)

  -- (PersistentHeadList).First
  unfoldable pub head_first : LinkedList A → Result (Option A)
  head_first l = do x ← get_head l; ok (some x)

  -- (PackedPersistentList).First
  unfoldable pub packed_first : LinkedList A → Result (Option A)
  packed_first l = do (x, _) ← packed_cell l; ok (some x)

  -- (DeepPersistentList).First
  unfoldable pub deep_first : LinkedList A → Result (Option A)
  deep_first l = do (_, x, _) ← get_cell l; ok (some x)

  -- (PackedPersistentList).Next
  unfoldable pub packed_next : LinkedList A → Result (Option (AnyList A))
  packed_next l = do (_, tail) ← packed_cell l; ok (some (head_list (new_head_list tail)))

  -- (DeepPersistentList).Next
  unfoldable pub deep_next : LinkedList A → Result (Option (AnyList A))
  deep_next l = do (_, _, tail) ← get_cell l; ok (some (as_list tail))

  -- First
  unfoldable pub first : AnyList A → Result (Option A)
  first empty_list = ok none
  first (head_list l) = head_first l
  first (packed_list l) = packed_first l
  first (deep_list l) = deep_first l

  -- Next
  unfoldable pub next : AnyList A → Result (Option (AnyList A))
  next empty_list = ok none
  next (head_list l) = ok none
  next (packed_list l) = packed_next l
  next (deep_list l) = deep_next l

  -- NewList: from the last item to the first
  unfoldable pub new_list : List A → Result (AnyList A)
  new_list [] = ok empty_list
  new_list (x ∷ items) = do l ← new_list items; cons l x
