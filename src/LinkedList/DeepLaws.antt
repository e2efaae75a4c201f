-- ===== src/LinkedList/DeepLaws.antt =====
-- The deep form of a list of pkg/lang/core/list.go: cons, conj and the offset of its first cell.
use ww.Prelude.{
  ◌+◌, ◌%◌, ◌^◌, ◌≤◌, ◌≡◌, refl, ap, arith, List, [], ◌∷◌, length, ok_injective, Ensures,
  Ensures-bind,
}
use ww.LinkedList.Data.{LinkedList, empty, head, packed_cons_cell, cons_cell, get_cell, as_list}
use ww.LinkedList.Methods.{offset, deep_cons, deep_conj}
use ww.LinkedList.Contents.{Stores, Holds, prepend}

module _ {A : Type 0} where
  pub deep_cons-Stores :
      (l : LinkedList A) (xs : List A) (x : A)
      → Stores l xs
      → Ensures (deep_cons l x) (λ r. Stores r (x ∷ xs))
  unfolding deep_cons offset get_cell
  deep_cons-Stores (cons_cell off y tail) xs x h =
      (cons_cell ((off + 1) % 2 ^ 32) x (cons_cell off y tail), refl, (refl, (xs, h, refl)))
  deep_cons-Stores empty xs x h = absurd h
  deep_cons-Stores (head y) xs x h = absurd h
  deep_cons-Stores (packed_cons_cell y z) xs x h = absurd h

  pub deep_conj-Stores :
      (l : LinkedList A) (xs items : List A)
      → Stores l xs
      → Ensures (deep_conj l items) (λ r. Stores r (prepend items xs))
  unfolding deep_conj
  deep_conj-Stores l xs [] h = (l, refl, h)
  deep_conj-Stores l xs (x ∷ []) h = deep_cons-Stores l xs x h
  deep_conj-Stores l xs (x ∷ y ∷ items) h =
      Ensures-bind (deep_cons l x) (λ ret. deep_conj ret (y ∷ items)) (deep_cons-Stores l xs x h)
        (λ ret p. deep_conj-Stores ret (x ∷ xs) (y ∷ items) p)

  -- The offset counts the values less three.
  pub offset-Stores :
      (l : LinkedList A) (xs : List A)
      → Stores l xs
      → Ensures (offset l) (λ off. ((off + 3) % 2 ^ 32 ≡ length xs % 2 ^ 32) × (3 ≤ length xs))
  unfolding offset get_cell
  offset-Stores (cons_cell off x (packed_cons_cell y z)) xs h =
      (off, refl, rw (h.0, h.1) (refl, omega arith))
  offset-Stores (cons_cell off x (cons_cell below y tail)) xs (e, (ys, h, split)) =
      let (off', e', p) = offset-Stores (cons_cell below y tail) ys h in
      let same = ok_injective e' in
      let size = ap length split in
      (off, refl, (omega (arith, e, same, size, p.0), omega (arith, size, p.1)))
  offset-Stores (cons_cell off x empty) xs h = absurd h
  offset-Stores (cons_cell off x (head y)) xs h = absurd h
  offset-Stores empty xs h = absurd h
  offset-Stores (head x) xs h = absurd h
  offset-Stores (packed_cons_cell x y) xs h = absurd h

  -- The tail of a deep list is a list of its other values.
  pub tail-Stores :
      (l : LinkedList A) (xs : List A)
      → Stores l xs
      → Ensures
          (get_cell l)
          (λ c. (ys : List A) × (xs ≡ c.1 ∷ ys) × (1 ≤ length ys) × Holds (as_list c.2) ys)
  unfolding get_cell as_list
  tail-Stores (cons_cell off x (packed_cons_cell y z)) xs h =
      ((off, x, packed_cons_cell y z), refl, (y ∷ z ∷ [], h.1, omega arith, (y, z, refl, refl)))
  tail-Stores (cons_cell off x (cons_cell below y tail)) xs (e, (ys, h, split)) = (
    (off, x, cons_cell below y tail),
    refl,
    (ys, split, omega (arith, (offset-Stores (cons_cell below y tail) ys h).2.1), h),
  )
  tail-Stores (cons_cell off x empty) xs h = absurd h
  tail-Stores (cons_cell off x (head y)) xs h = absurd h
  tail-Stores empty xs h = absurd h
  tail-Stores (head x) xs h = absurd h
  tail-Stores (packed_cons_cell x y) xs h = absurd h
