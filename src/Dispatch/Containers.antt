-- ===== src/Dispatch/Containers.antt =====
-- IsTruthy, Pop and Conj of pkg/lang/core/core.go on nil, lists and vectors, as operations on the list
-- of the items.
use ww.Prelude.{
  suc, ◌+◌, ◌%◌, ◌^◌, ◌<◌, ◌≡◌, ◌≤◌, ◌&&◌, Bool, true, Result, inl, inr, refl, sym, arith, List, [],
  ◌∷◌, ◌++◌, length, none, some, false, ok, ◌>>=◌, Ensures, Ensures-bind, ◌==◌, ne→eq,
}
use ww.LinkedList.Contents as Lists
use ww.LinkedList.Data.{AnyList, empty_list, head_list, packed_list, deep_list}
use ww.LinkedList.DeepLaws.{offset-Stores}
use ww.LinkedList.Contents.{prepend}
use ww.LinkedList.Methods as LinkedList
use ww.LinkedList.Laws.{list-conj-Holds, new_list-Holds, count-Holds, first-next-Holds}
use ww.Vector.Contents as Vectors
use ww.Vector.Trie.{Zeroed}
use ww.Vector.Methods as Vec
use ww.Vector.Laws.{conj-Holds, pop_last-Holds}
use ww.Dispatch.Values.{Value, nil_value, boolean, number, string, atom, list, vector}
use ww.Dispatch.Operations.{is_truthy, Popped, list_left, vector_left, pop, conj_by, conj}

module _ {A : Type 0} where
  -- The value is nil and there are no items, or it is a container that holds the items.
  abbrev pub Has : Value A → List A → Type 0
  Has nil_value xs = xs ≡ []
  Has (list l) xs = Lists.Holds l xs
  Has (vector v) xs = Vectors.Holds v xs
  Has (boolean b) xs = ⊥
  Has (number n) xs = ⊥
  Has (string s) xs = ⊥
  Has (atom tag s) xs = ⊥

  -- What Pop leaves has the items.
  abbrev pub Leaves : Popped A → List A → Type 0
  Leaves (list_left none) xs = xs ≡ []
  Leaves (list_left (some l)) xs = Lists.Holds l xs
  Leaves (vector_left v) xs = Vectors.Holds v xs

  -- The items after Conj: of a list that is not empty each is put in front in its turn.
  abbrev pub joined : Value A → List A → List A → List A
  joined nil_value items xs = items
  joined (list empty_list) items xs = items
  joined (list l) items xs = prepend items xs
  joined (vector v) items xs = xs ++ items
  joined (boolean b) items xs = xs
  joined (number n) items xs = xs
  joined (string s) items xs = xs
  joined (atom tag s) items xs = xs

  abbrev pub is_vector : Value A → Bool
  is_vector (vector v) = true
  is_vector nil_value = false
  is_vector (list l) = false
  is_vector (boolean b) = false
  is_vector (number n) = false
  is_vector (string s) = false
  is_vector (atom tag s) = false

  -- A count of items that are not none
  counted :
      (l : AnyList A) (xs : List A)
      → Lists.Holds l xs
      → 1 ≤ length xs
      → length xs < 2 ^ 32
      → ◌≡◌ {A = Result Bool} (do i ← LinkedList.count l; ok (i == 0)) (ok false)
  counted l xs h some_item bound =
      let small : length xs % 2 ^ 32 ≡ length xs = omega (arith, bound) in
      rw (count-Holds l xs h, small, ne→eq (length xs) 0 (omega (arith, some_item))) refl

  -- Nil and a list of fewer than 2^32 items are never truthy, the empty list included; a vector of
  -- fewer than 2^32 items is truthy exactly when it has none.
  pub is_truthy-Has :
      (v : Value A) (xs : List A)
      → Has v xs
      → length xs < 2 ^ 32
      → is_truthy v ≡ ok (is_vector v && (length xs == 0))
  unfolding is_truthy
  is_truthy-Has nil_value xs h bound = refl
  is_truthy-Has (list empty_list) xs h bound = refl
  is_truthy-Has (list (head_list l)) xs h bound =
      let (x, e, split) = h in counted (head_list l) xs h (rw split (omega arith)) bound
  is_truthy-Has (list (packed_list l)) xs h bound =
      let (x, y, e, split) = h in counted (packed_list l) xs h (rw split (omega arith)) bound
  is_truthy-Has (list (deep_list l)) xs h bound =
      let (off, e, p) = offset-Stores l xs h in
      counted (deep_list l) xs h (omega (arith, p.1)) bound
  is_truthy-Has (vector v) xs h bound = rw (sym h.size) refl
  is_truthy-Has (boolean b) xs h bound = absurd h
  is_truthy-Has (number n) xs h bound = absurd h
  is_truthy-Has (string s) xs h bound = absurd h
  is_truthy-Has (atom tag s) xs h bound = absurd h

module _ {A : Type 0} ⦃z : Zeroed A⦄ where
  made_list :
      (items : List A) → Ensures (do l ← LinkedList.new_list items; ok (list l)) (λ w. Has w items)
  made_list items =
      Ensures-bind (LinkedList.new_list items) (λ l. ok (list l)) (new_list-Holds items)
        (λ l p. (list l, refl, p))

  grown_list :
      (l : AnyList A) (xs items : List A)
      → Lists.Holds l xs
      → Ensures (conj_by (list l) items) (λ w. Has w (prepend items xs))
  grown_list l xs items h =
      Ensures-bind (LinkedList.conj l items) (λ r. ok (list r)) (list-conj-Holds l xs items h)
        (λ r p. (list r, refl, p))

  -- Conj of any items on nil, a list or a vector succeeds while the new count fits in 32 bits. On
  -- nil and on the empty list it gives a list of the items in their order, on another list the
  -- items are put in front one after the other, and on a vector they are appended.
  pub conj-Has :
      (v : Value A) (xs items : List A)
      → Has v xs
      → length xs + length items < 2 ^ 32
      → Ensures (conj v items) (λ w. Has w (joined v items xs))
  unfolding conj
  conj-Has nil_value xs items h bound = made_list items
  conj-Has (list empty_list) xs items h bound = made_list items
  conj-Has (list (head_list l)) xs items h bound = grown_list (head_list l) xs items h
  conj-Has (list (packed_list l)) xs items h bound = grown_list (packed_list l) xs items h
  conj-Has (list (deep_list l)) xs items h bound = grown_list (deep_list l) xs items h
  conj-Has (vector v) xs items h bound =
      Ensures-bind (Vec.conj v items) (λ r. ok (vector r.0)) (conj-Holds v xs items h bound)
        (λ r p. (vector r.0, refl, p.0))
  conj-Has (boolean b) xs items h bound = absurd h
  conj-Has (number n) xs items h bound = absurd h
  conj-Has (string s) xs items h bound = absurd h
  conj-Has (atom tag s) xs items h bound = absurd h

  pop_first :
      (l : AnyList A) (xs : List A) (x : A)
      → Lists.Holds l (x ∷ xs)
      → suc (length xs) < 2 ^ 32
      → Ensures (pop (list l)) (λ r. Leaves r xs)
  unfolding pop
  pop_first l xs x h bound =
      let size : suc (length xs) % 2 ^ 32 ≡ suc (length xs) = omega (arith, bound) in
      rw (count-Holds l (x ∷ xs) h, size, ne→eq (suc (length xs)) 0 (omega arith))
        (elim (first-next-Holds l xs x h).1 [
          | inl (none_left, e) ↦ rw e (list_left none, refl, none_left)
          | inr (large, (r, e, p)) ↦ rw e (list_left (some r), refl, p)
        ])

  -- Pop after conj_by of one value on a list
  grown_popped :
      (l : AnyList A) (xs : List A) (x : A)
      → Lists.Holds l xs
      → suc (length xs) < 2 ^ 32
      → Ensures (do w ← conj_by (list l) (x ∷ []); pop w) (λ r. Leaves r xs)
  unfolding pop
  grown_popped l xs x h bound =
      let (r, e, p) = list-conj-Holds l xs (x ∷ []) h in rw e (pop_first r xs x p bound)

  -- Pop after Conj of one value on nil, a list or a vector, while the new count fits in 32 bits,
  -- leaves the items that there were.
  pub pop-conj :
      (v : Value A) (xs : List A) (x : A)
      → Has v xs
      → suc (length xs) < 2 ^ 32
      → Ensures (do w ← conj v (x ∷ []); pop w) (λ r. Leaves r xs)
  unfolding conj pop
  pop-conj nil_value xs x h bound =
      let (l, e, p) = new_list-Holds (x ∷ []) in rw (h, e) (pop_first l [] x p (omega arith))
  pop-conj (list empty_list) xs x h bound =
      let (l, e, p) = new_list-Holds (x ∷ []) in rw (h, e) (pop_first l [] x p (omega arith))
  pop-conj (list (head_list l)) xs x h bound = grown_popped (head_list l) xs x h bound
  pop-conj (list (packed_list l)) xs x h bound = grown_popped (packed_list l) xs x h bound
  pop-conj (list (deep_list l)) xs x h bound = grown_popped (deep_list l) xs x h bound
  pop-conj (vector v) xs x h bound =
      let (r, e, p) = conj-Holds v xs (x ∷ []) h (omega arith) in
      let (w, e', q) = pop_last-Holds r.0 xs x p.0 in rw (e, e') (vector_left w, refl, q)
  pop-conj (boolean b) xs x h bound = absurd h
  pop-conj (number n) xs x h bound = absurd h
  pop-conj (string s) xs x h bound = absurd h
  pop-conj (atom tag s) xs x h bound = absurd h
