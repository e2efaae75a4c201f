-- ===== src/Vector/Laws.antt =====
-- The methods of a vector, whichever of its three forms it has, as operations on a list: what each
-- returns, and that its receiver still holds what it held.
use native.Mathlib.Decide.{dec_le}
use ww.Prelude.{
  ℕ, zero, suc, ◌+◌, ◌^◌, ◌≤◌, ◌<◌, ◌≡◌, refl, sym, ◌∙◌, ap, arith, lt→leb, le→leb, eq_self, ne→eq,
  pos, negsuc, fail, index_out_of_bounds, illegal_state, Ensures, subst, le→ltb, List, [], ◌∷◌,
  ◌++◌, length, length-append, take, drop, set, length-set, get_elem?-lt, some, list_ext,
  length-take, length-drop, take-drop,
}
use ww.Memory.Cells.{write_all, write_all_at}
use ww.Vector.Trie.{Zeroed, empty_values}
use ww.Vector.Data.{Raw, Vector, empty_vector, shallow, deep, tail_slice}
use ww.Vector.Deep
use ww.Vector.Deep.{new_deep}
use ww.Vector.Shallow
use ww.Vector.Methods.{count, new_vector, conj, cons, assoc, pop}
use ww.Vector.Contents.{Holds}
use ww.Vector.Slices.{new_shallow-Holds, length-tail_slice, get_elem?-tail_slice}
use ww.Vector.ShallowLaws.{new_deep-Holds}
use ww.Vector.ShallowOps.{
  shallow-cons-Holds, shallow-conj-Holds, shallow-assoc-Holds, shallow-assoc_out, shallow-pop-Holds,
}
use ww.Vector.DeepConj.{DeepHolds, cons-DeepHolds, conj-DeepHolds}
use ww.Vector.DeepAssoc.{assoc-DeepHolds, assoc_end, deep-assoc_out}
use ww.Vector.PopLaws.{DeepHolds-Holds, Holds-DeepHolds, pop-Holds}

module _ {A : Type 0} where
  pub empty-Holds : Holds {A = A} empty_vector []
  unfolding count
  empty-Holds = record { valid = tt; size = refl; at = λ i x e. ground arith }

  -- Only the empty vector holds the empty list.
  empty_unique : (v : Vector A) → Holds v [] → v ≡ empty_vector
  unfolding count
  empty_unique empty_vector h = refl
  empty_unique (shallow v) h = absurd (omega (arith, h.size, h.valid))
  empty_unique (deep v) h = absurd (omega (arith, h.size, h.valid.1))

  empty_list : (xs : List A) → Holds empty_vector xs → xs ≡ []
  unfolding count
  empty_list [] h = refl
  empty_list (x ∷ xs) h = absurd (omega (arith, h.size))

  deep_size : (v : Raw A) (xs : List A) → Holds (deep v) xs → v.count ≡ length xs
  unfolding count
  deep_size v xs h = h.size

  -- A result and its receiver, both deep.
  both-Holds :
      (r : Raw A × Raw A) (xs ys : List A)
      → DeepHolds r.0 ys × DeepHolds r.1 xs
      → 33 ≤ length xs
      → 33 ≤ length ys
      → Holds (deep r.0) ys × Holds (deep r.1) xs
  both-Holds r xs ys p large larger = (
    DeepHolds-Holds r.0 ys p.0 (omega (arith, p.0.size)),
    DeepHolds-Holds r.1 xs p.1 (omega (arith, p.1.size)),
  )

module _ {A : Type 0} ⦃z : Zeroed A⦄ where
  -- 32 values written to a tail are what is sliced from it.
  slice-write_all :
      (ys : List A) → length ys ≡ 32 → tail_slice 32 (write_all 0 ys empty_values) ≡ ys
  slice-write_all ys size = sym (
      list_ext ys (tail_slice 32 (write_all 0 ys empty_values))
        (size ∙ sym (length-tail_slice 32 (write_all 0 ys empty_values)))
        (λ i x e.
          let start : 0 + i ≡ i = omega arith in
          get_elem?-tail_slice 32 (write_all 0 ys empty_values) i
            (omega (arith, size, get_elem?-lt ys i x e))
          ∙ ap some (
              ap (write_all 0 ys empty_values) (sym start) ∙ write_all_at 0 ys empty_values i x e)))

  -- A new vector of fewer than 2^32 items is built without an error and holds the items in order.
  pub new_vector-Holds :
      (items : List A) → length items < 2 ^ 32 → Ensures (new_vector items) (λ v. Holds v items)
  unfolding new_vector
  new_vector-Holds [] bound = (empty_vector, refl, empty-Holds)
  new_vector-Holds (x ∷ items) bound = elim (dec_le (length (x ∷ items)) 32) [
    | yes small ↦
        let (s, e, p) = new_shallow-Holds (x ∷ items) (omega arith) small in
        rw (ne→eq (length (x ∷ items)) 0 (omega arith), le→leb (length (x ∷ items)) 32 small, e)
          (shallow s, refl, p)
    | no large ↦
        let back = length-drop 32 (x ∷ items) in
        let (d, e, p) =
          new_deep-Holds (write_all 0 (take 32 (x ∷ items)) empty_values) (drop 32 (x ∷ items))
            (omega (arith, back)) (omega (arith, back)) in
        rw
          (
            ne→eq (length (x ∷ items)) 0 (omega arith),
            lt→leb (length (x ∷ items)) 32 (omega arith),
            e,
          )
          (
            deep d,
            refl,
            subst (Holds (deep d))
                (ap (λ l. l ++ drop 32 (x ∷ items))
                    (slice-write_all (take 32 (x ∷ items))
                      (length-take 32 (x ∷ items) (omega arith)))
                  ∙ take-drop 32 (x ∷ items))
                p,
          )
  ]

  -- conj of any items on any vector that holds a list succeeds while the count fits in 32 bits, and
  -- gives a vector that holds the list with the items appended; the receiver, whose trie may have
  -- been written to, still holds its list.
  pub conj-Holds :
      (v : Vector A) (xs items : List A)
      → Holds v xs
      → length xs + length items < 2 ^ 32
      → Ensures (conj v items) (λ r. Holds r.0 (xs ++ items) × Holds r.1 xs)
  unfolding conj
  conj-Holds empty_vector xs items h bound = rw (empty_list xs h) (
      let (v, e, p) = new_vector-Holds items (omega arith) in
      rw e ((v, empty_vector), refl, (p, empty-Holds)))
  conj-Holds (shallow v) xs items h bound =
      let (w, e, p) = shallow-conj-Holds v xs h items bound in rw e ((w, shallow v), refl, (p, h))
  conj-Holds (deep v) xs items h bound =
      let (r, e, p) = conj-DeepHolds v xs items (Holds-DeepHolds v xs h) bound in
      let size = deep_size v xs h in
      rw e (
        (deep r.0, deep r.1),
        refl,
        both-Holds r xs (xs ++ items) p (omega (arith, size, h.valid.1))
            (omega (arith, length-append xs items, size, h.valid.1)),
      )

  -- cons on any vector that holds a list succeeds while the new count fits in 32 bits, and gives a
  -- vector that holds the list with the value appended; the receiver still holds its list.
  pub cons-Holds :
      (v : Vector A) (xs : List A) (x : A)
      → Holds v xs
      → suc (length xs) < 2 ^ 32
      → Ensures (cons v x) (λ r. Holds r.0 (xs ++ x ∷ []) × Holds r.1 xs)
  unfolding cons
  cons-Holds empty_vector xs x h bound = rw (empty_list xs h) (
      let (s, e, p) = new_shallow-Holds (x ∷ []) (omega arith) (omega arith) in
      rw e ((shallow s, empty_vector), refl, (p, empty-Holds)))
  cons-Holds (shallow v) xs x h bound =
      let (w, e, p) = shallow-cons-Holds v xs h x in rw e ((w, shallow v), refl, (p, h))
  cons-Holds (deep v) xs x h bound =
      let (r, e, p) = cons-DeepHolds v x xs (Holds-DeepHolds v xs h) bound in
      let size = deep_size v xs h in
      rw e (
        (deep r.0, deep r.1),
        refl,
        both-Holds r xs (xs ++ x ∷ []) p (omega (arith, size, h.valid.1))
            (omega (arith, length-append xs (x ∷ []), size, h.valid.1)),
      )

  -- assoc at an index in range, on any vector that holds a list, succeeds and gives a vector that
  -- holds the list with that one value replaced; the receiver still holds its list.
  pub assoc-Holds :
      (v : Vector A) (xs : List A) (i : ℕ) (x : A)
      → Holds v xs
      → i < length xs
      → Ensures (assoc v (pos i) x) (λ r. Holds r.0 (set xs i x) × Holds r.1 xs)
  unfolding assoc
  assoc-Holds empty_vector xs i x h lt = absurd (omega (arith, ap length (empty_list xs h)))
  assoc-Holds (shallow v) xs i x h lt =
      let (w, e, p) = shallow-assoc-Holds v xs h i x lt in rw e ((w, shallow v), refl, (p, h))
  assoc-Holds (deep v) xs i x h lt =
      let (r, e, p) = assoc-DeepHolds v xs i x (Holds-DeepHolds v xs h) lt in
      let size = deep_size v xs h in
      rw e (
        (deep r.0, deep r.1),
        refl,
        both-Holds r xs (set xs i x) p (omega (arith, size, h.valid.1))
            (omega (arith, length-set xs i x, size, h.valid.1)),
      )

  assoc_count : (v : Vector A) (x : A) → assoc v (pos (count v)) x ≡ cons v x
  unfolding assoc cons count Shallow.assoc
  assoc_count empty_vector x = refl
  assoc_count (shallow v) x = rw (le→ltb v.count v.count (omega arith), eq_self v.count)
  assoc_count (deep v) x = rw (assoc_end v x)

  -- assoc at the index one past the end succeeds while the new count fits in 32 bits, and appends
  -- the value; the receiver still holds its list.
  pub assoc_end-Holds :
      (v : Vector A) (xs : List A) (x : A)
      → Holds v xs
      → suc (length xs) < 2 ^ 32
      → Ensures (assoc v (pos (length xs)) x) (λ r. Holds r.0 (xs ++ x ∷ []) × Holds r.1 xs)
  assoc_end-Holds v xs x h bound =
      subst (λ n. Ensures (assoc v (pos n) x) (λ r. Holds r.0 (xs ++ x ∷ []) × Holds r.1 xs)) h.size
        (rw (assoc_count v x) (cons-Holds v xs x h bound))

  -- assoc at an index beyond the end is ErrIndexOutOfBounds on every form of vector.
  pub assoc_out :
      (v : Vector A) (xs : List A) (i : ℕ) (x : A)
      → Holds v xs
      → length xs < i
      → assoc v (pos i) x ≡ fail index_out_of_bounds
  unfolding assoc
  assoc_out empty_vector xs zero x h lt = absurd (omega arith)
  assoc_out empty_vector xs (suc i) x h lt = refl
  assoc_out (shallow v) xs i x h lt = rw (shallow-assoc_out v xs h i x lt)
  assoc_out (deep v) xs i x h lt = rw (deep-assoc_out v i x (omega (arith, deep_size v xs h)))

  pub assoc_negative :
      (v : Vector A) (i : ℕ) (x : A) → assoc v (negsuc i) x ≡ fail index_out_of_bounds
  unfolding assoc Deep.assoc Shallow.assoc
  assoc_negative empty_vector i x = refl
  assoc_negative (shallow v) i x = refl
  assoc_negative (deep v) i x = refl

  -- pop of a vector that holds a list with a last value gives a vector that holds the list without
  -- it, in whichever form and at whichever depth.
  pub pop_last-Holds :
      (v : Vector A) (xs : List A) (x : A)
      → Holds v (xs ++ x ∷ [])
      → Ensures (pop v) (λ w. Holds w xs)
  unfolding pop
  pop_last-Holds empty_vector xs x h =
      absurd (omega (arith, length-append xs (x ∷ []), ap length (empty_list (xs ++ x ∷ []) h)))
  pop_last-Holds (shallow v) xs x h = (Shallow.pop v, refl, shallow-pop-Holds v xs x h)
  pop_last-Holds (deep v) xs x h = pop-Holds v xs x (Holds-DeepHolds v (xs ++ x ∷ []) h) h.valid.1

  -- pop of a vector that holds no value is ErrIllegalState.
  pub pop_empty : (v : Vector A) → Holds v [] → pop v ≡ fail illegal_state
  unfolding pop
  pop_empty v h = rw (empty_unique v h)
