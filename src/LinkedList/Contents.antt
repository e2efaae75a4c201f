-- ===== src/LinkedList/Contents.antt =====
-- The abstract view of a list of pkg/lang/core/list.go: the sequence of its values.
use ww.Prelude.{◌+◌, ◌%◌, ◌^◌, ◌≡◌, List, [], ◌∷◌}
use ww.LinkedList.Data.{
  LinkedList, empty, head, packed_cons_cell, cons_cell, AnyList, empty_list, head_list, packed_list,
  deep_list,
}

module _ {A : Type 0} where
  -- The stored list has the values, and an offset is the number of values less three, modulo 2^32.
  abbrev pub Stores : LinkedList A → List A → Type 0
  Stores (cons_cell off x (packed_cons_cell y z)) xs = (off ≡ 0) × (xs ≡ x ∷ y ∷ z ∷ [])
  Stores (cons_cell off x (cons_cell below y tail)) xs =
      (off ≡ (below + 1) % 2 ^ 32)
      × ((ys : List A) × Stores (cons_cell below y tail) ys × (xs ≡ x ∷ ys))
  Stores (cons_cell off x empty) xs = ⊥
  Stores (cons_cell off x (head y)) xs = ⊥
  Stores empty xs = ⊥
  Stores (head x) xs = ⊥
  Stores (packed_cons_cell x y) xs = ⊥

  -- The list is well formed and has the values, in order.
  abbrev pub Holds : AnyList A → List A → Type 0
  Holds empty_list xs = xs ≡ []
  Holds (head_list l) xs = (x : A) × (l ≡ head x) × (xs ≡ x ∷ [])
  Holds (packed_list l) xs = (x : A) × (y : A) × (l ≡ packed_cons_cell x y) × (xs ≡ x ∷ y ∷ [])
  Holds (deep_list l) xs = Stores l xs

  -- The items, each put in front in its turn.
  abbrev pub prepend : List A → List A → List A
  prepend [] xs = xs
  prepend (x ∷ items) xs = prepend items (x ∷ xs)
