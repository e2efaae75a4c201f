-- ===== src/LinkedList/Laws.antt =====
-- The methods of a list, whichever of its four forms it has, as operations on a sequence.
use ww.Prelude.{
  suc, ◌%◌, ◌^◌, ◌≤◌, ◌≡◌, ◌⊎◌, inl, inr, refl, sym, ap, arith, List, [], ◌∷◌, length, none, some,
  ok, Ensures, Ensures-bind, subst,
}
use ww.LinkedList.Data.{
  head, packed_cons_cell, cons_cell, AnyList, empty_list, head_list, packed_list, deep_list,
  get_head, packed_cell, as_list,
}
use ww.LinkedList.Methods.{
  deep_count, head_first, packed_first, deep_first, packed_next, deep_next, head_cons, packed_cons,
  deep_cons, deep_conj, packed_conj, head_conj, empty_conj, count, cons, conj, first, next,
  new_list,
}
use ww.LinkedList.Contents.{Holds, prepend}
use ww.LinkedList.DeepLaws.{deep_cons-Stores, deep_conj-Stores, offset-Stores, tail-Stores}

module _ {A : Type 0} where
  -- cons on a list that holds some values, whichever its form, succeeds and gives a list that holds
  -- the item in front of them.
  pub list-cons-Holds :
      (l : AnyList A) (xs : List A) (x : A)
      → Holds l xs
      → Ensures (cons l x) (λ r. Holds r (x ∷ xs))
  unfolding cons head_cons get_head
  list-cons-Holds empty_list xs x h = (head_list (head x), refl, (x, refl, ap (λ l. x ∷ l) h))
  list-cons-Holds (head_list l) xs x (y, e, split) =
      rw e (packed_list (packed_cons_cell x y), refl, (x, y, refl, ap (λ l. x ∷ l) split))
  list-cons-Holds (packed_list l) xs x (y, z, e, split) =
      rw e (deep_list (cons_cell 0 x (packed_cons_cell y z)), refl, (refl, ap (λ l. x ∷ l) split))
  list-cons-Holds (deep_list l) xs x h =
      Ensures-bind (deep_cons l x) (λ ret. ok (deep_list ret)) (deep_cons-Stores l xs x h)
        (λ ret p. (deep_list ret, refl, p))

  packed-conj-Holds :
      (x y : A) (items : List A)
      → Ensures
          (packed_conj (packed_cons_cell x y) items)
          (λ r. Holds r (prepend items (x ∷ y ∷ [])))
  unfolding packed_conj
  packed-conj-Holds x y [] = (packed_list (packed_cons_cell x y), refl, (x, y, refl, refl))
  packed-conj-Holds x y (z ∷ []) =
      (deep_list (packed_cons (packed_cons_cell x y) z), refl, (refl, refl))
  packed-conj-Holds x y (z ∷ w ∷ items) =
      let cell = packed_cons (packed_cons_cell x y) z in
      Ensures-bind (deep_conj cell (w ∷ items)) (λ ret. ok (deep_list ret))
        (deep_conj-Stores cell (z ∷ x ∷ y ∷ []) (w ∷ items) (refl, refl))
        (λ ret p. (deep_list ret, refl, p))

  head-conj-Holds :
      (x : A) (items : List A)
      → Ensures (head_conj (head x) items) (λ r. Holds r (prepend items (x ∷ [])))
  unfolding head_conj head_cons get_head
  head-conj-Holds x [] = (head_list (head x), refl, (x, refl, refl))
  head-conj-Holds x (y ∷ []) = (packed_list (packed_cons_cell y x), refl, (y, x, refl, refl))
  head-conj-Holds x (y ∷ z ∷ items) = packed-conj-Holds y x (z ∷ items)

  empty-conj-Holds : (items : List A) → Ensures (empty_conj items) (λ r. Holds r (prepend items []))
  unfolding empty_conj
  empty-conj-Holds [] = (empty_list, refl, refl)
  empty-conj-Holds (x ∷ []) = (head_list (head x), refl, (x, refl, refl))
  empty-conj-Holds (x ∷ y ∷ items) = head-conj-Holds x (y ∷ items)

  -- conj of any items on a list that holds some values, whichever its form, succeeds and gives a
  -- list that holds the items, each put in front in its turn, before the values.
  pub list-conj-Holds :
      (l : AnyList A) (xs items : List A)
      → Holds l xs
      → Ensures (conj l items) (λ r. Holds r (prepend items xs))
  unfolding conj
  list-conj-Holds empty_list xs items h = rw h (empty-conj-Holds items)
  list-conj-Holds (head_list l) xs items (x, e, split) = rw (e, split) (head-conj-Holds x items)
  list-conj-Holds (packed_list l) xs items (x, y, e, split) =
      rw (e, split) (packed-conj-Holds x y items)
  list-conj-Holds (deep_list l) xs items h =
      Ensures-bind (deep_conj l items) (λ ret. ok (deep_list ret)) (deep_conj-Stores l xs items h)
        (λ ret p. (deep_list ret, refl, p))

  -- NewList succeeds and gives a list that holds the items it is given, in order.
  pub new_list-Holds : (items : List A) → Ensures (new_list items) (λ l. Holds l items)
  unfolding new_list
  new_list-Holds [] = (empty_list, refl, refl)
  new_list-Holds (x ∷ items) =
      Ensures-bind (new_list items) (λ l. cons l x) (new_list-Holds items)
        (λ l p. list-cons-Holds l items x p)

  -- The count of a list that holds some values, whichever its form, is their number modulo 2^32.
  pub count-Holds : (l : AnyList A) (xs : List A) → Holds l xs → count l ≡ ok (length xs % 2 ^ 32)
  unfolding count deep_count
  count-Holds empty_list xs h = rw h refl
  count-Holds (head_list l) xs (x, e, split) = rw split refl
  count-Holds (packed_list l) xs (x, y, e, split) = rw split refl
  count-Holds (deep_list l) xs h = let (off, e, p) = offset-Stores l xs h in rw e (ap ok p.0)

  -- first and next of a list that holds no value are both nil.
  pub first-next_empty : (l : AnyList A) → Holds l [] → (first l ≡ ok none) × (next l ≡ ok none)
  unfolding first next head_first packed_first deep_first packed_next deep_next get_head packed_cell
  first-next_empty empty_list h = (refl, refl)
  first-next_empty (head_list l) (x, e, split) = ground arith
  first-next_empty (packed_list l) (x, y, e, split) = ground arith
  first-next_empty (deep_list l) h =
      let (c, e, (ys, split, more, p)) = tail-Stores l [] h in ground arith

  -- On a list that holds a value and more, first is the value, and next is nil when there are no
  -- more and otherwise a list that holds the others.
  pub first-next-Holds :
      (l : AnyList A) (xs : List A) (x : A)
      → Holds l (x ∷ xs)
      → (first l ≡ ok (some x))
        × ((xs ≡ []) × (next l ≡ ok none)
            ⊎ (1 ≤ length xs) × ((r : AnyList A) × (next l ≡ ok (some r)) × Holds r xs))
  unfolding first next head_first packed_first deep_first packed_next deep_next get_head packed_cell
  first-next-Holds empty_list xs x h = ground arith
  first-next-Holds (head_list l) xs x (y, e, split) = (rw e cc, inl (cc, refl))
  first-next-Holds (packed_list l) xs x (y, z, e, split) =
      let size : suc 1 ≡ suc (length xs) = sym (ap length split) in
      (rw e cc, inr (omega (arith, size), (head_list (head z), rw e refl, (z, refl, cc))))
  first-next-Holds (deep_list l) xs x h =
      let (c, e, (ys, split, more, p)) = tail-Stores l (x ∷ xs) h in
      let rest : ys ≡ xs = cc in
      (
        rw e cc,
        inr (
          omega (arith, more, ap length rest),
          (as_list c.2, rw e refl, subst (Holds (as_list c.2)) rest p),
        ),
      )
