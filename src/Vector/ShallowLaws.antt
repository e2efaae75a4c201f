-- ===== src/Vector/ShallowLaws.antt =====
-- The operations on a shallow vector, and the step from shallow to deep, on the list that it holds.
use mathlib.Core.List.{append_assoc}
use ww.Prelude.{
  ℕ, ◌+◌, ◌-◌, ◌%◌, ◌^◌, ◌≤◌, ◌<◌, ◌≡◌, refl, sym, ◌∙◌, ap, arith, ltb, ok, ok_injective, Ensures,
  subst, Bool-cases, inl, inr, ltb→lt, ltb→le, le→ltb, List, ◌++◌, length, length-append, take,
  drop, length-take, length-drop, take-drop, get_elem?, get_elem?-lt, get_elem?-append, list_ext,
  some_injective, some,
}
use ww.Memory.Cells.{Cells, write_all, write_all_at, write_all_below, copy, copy_below}
use ww.Memory.Node.{branches, empty_branches}
use ww.Vector.Trie.{Zeroed, empty_values}
use ww.Vector.Data.{Raw, shallow, deep, tail_slice}
use ww.Vector.Deep.{new_deep}
use ww.Vector.Shallow
use ww.Vector.Methods
use ww.Vector.Invariant.{IsDeep, entry_at-tail}
use ww.Vector.DeepConj.{DeepHolds, conj-DeepHolds}
use ww.Vector.Contents.{Holds}
use ww.Vector.Slices.{length-tail_slice, get_elem?-tail_slice}
use ww.Vector.PopLaws.{DeepHolds-Holds}

module _ {A : Type 0} where
  -- What a shallow vector holds is in its tail.
  pub tail_value :
      (v : Raw A) (xs : List A)
      → Holds (shallow v) xs
      → (i : ℕ) (x : A) → get_elem? xs i ≡ some x
      → v.tail i ≡ x
  unfolding Methods.entry_at Shallow.entry_at Methods.count
  tail_value v xs h i x e =
      ok_injective
        (rw (le→ltb 31 i (omega (arith, h.size, h.valid.1, get_elem?-lt xs i x e))) at (h.at i x e))

  pub shallow_size : (v : Raw A) (xs : List A) → Holds (shallow v) xs → v.count ≡ length xs
  unfolding Methods.count
  shallow_size v xs h = h.size

  pub tail_slice-Holds :
      (v : Raw A) (xs : List A) → Holds (shallow v) xs → tail_slice v.count v.tail ≡ xs
  tail_slice-Holds v xs h = sym (
      list_ext xs (tail_slice v.count v.tail)
        (sym (shallow_size v xs h) ∙ sym (length-tail_slice v.count v.tail))
        (λ i x e.
          get_elem?-tail_slice v.count v.tail i
            (omega (arith, shallow_size v xs h, get_elem?-lt xs i x e))
          ∙ ap some (tail_value v xs h i x e)))

module _ {A : Type 0} ⦃z : Zeroed A⦄ where
  -- A full tail made of a vector's values and of the values that follow them.
  unfoldable pub joined_tail : Raw A → List A → Cells A
  joined_tail v ys = write_all v.count ys (copy v.count v.tail empty_values)

  joined_value :
      (v : Raw A) (xs ys : List A)
      → Holds (shallow v) xs
      → (i : ℕ) (x : A) → get_elem? (xs ++ ys) i ≡ some x
      → joined_tail v ys i ≡ x
  unfolding joined_tail
  joined_value v xs ys h i x e = elim (Bool-cases (ltb i (length xs))) [
    | inl old ↦
        let lt : i < v.count = omega (arith, shallow_size v xs h, ltb→lt i (length xs) old) in
        write_all_below v.count ys (copy v.count v.tail empty_values) i lt
        ∙ copy_below v.count v.tail empty_values i lt
        ∙ tail_value v xs h i x (rw (get_elem?-append xs ys i, old) at e)
    | inr new ↦
        let place : v.count + (i - length xs) ≡ i =
          omega (arith, shallow_size v xs h, ltb→le i (length xs) new) in
        ap (write_all v.count ys (copy v.count v.tail empty_values)) (sym place)
        ∙ write_all_at v.count ys (copy v.count v.tail empty_values) (i - length xs) x
            (rw (get_elem?-append xs ys i, new) at e)
  ]

  pub slice-joined :
      (v : Raw A) (xs ys : List A)
      → Holds (shallow v) xs
      → v.count + length ys ≡ 32
      → tail_slice 32 (joined_tail v ys) ≡ xs ++ ys
  slice-joined v xs ys h total =
      let size : length (xs ++ ys) ≡ 32 = omega (arith, length-append xs ys, shallow_size v xs h) in
      sym (
        list_ext (xs ++ ys) (tail_slice 32 (joined_tail v ys))
          (size ∙ sym (length-tail_slice 32 (joined_tail v ys)))
          (λ i x e.
            get_elem?-tail_slice 32 (joined_tail v ys) i
              (omega (arith, size, get_elem?-lt (xs ++ ys) i x e))
            ∙ ap some (joined_value v xs ys h i x e)))

  -- A deep vector with a full tail and an empty trie, which has no name in the source.
  first_deep : Cells A → Raw A
  first_deep tail = record { count = 32; shift = 5; root = branches empty_branches; tail = tail }

  first_deep-DeepHolds : (tail : Cells A) → DeepHolds (first_deep tail) (tail_slice 32 tail)
  unfolding first_deep
  first_deep-DeepHolds tail =
      let valid : IsDeep (first_deep tail) = record {
        depth = 0;
        shift_eq = refl;
        depth_bound = omega arith;
        fits = λ j. tt;
        not_null = tt;
        filled = λ q lt. absurd (omega arith);
        capacity = omega arith;
        full = omega arith;
        count_bound = omega arith;
      } in
      record {
        valid = valid;
        size = sym (length-tail_slice 32 tail);
        at = λ i x e.
            let lt : i < 32 =
              omega (arith, length-tail_slice 32 tail, get_elem?-lt (tail_slice 32 tail) i x e) in
            let cell : i % 32 ≡ i = omega arith in
            entry_at-tail (first_deep tail) valid i (omega arith) lt
            ∙ ap (λ k. ok (tail k)) cell
            ∙ ap ok (some_injective (sym (get_elem?-tail_slice 32 tail i lt) ∙ e));
      }

  pub new_deep-Holds :
      (tail : Cells A) (items : List A)
      → 1 ≤ length items
      → 32 + length items < 2 ^ 32
      → Ensures (new_deep tail items) (λ d. Holds (deep d) (tail_slice 32 tail ++ items))
  unfolding new_deep first_deep
  new_deep-Holds tail items some_item bound =
      let (r, e, p) =
        conj-DeepHolds (first_deep tail) (tail_slice 32 tail) items (first_deep-DeepHolds tail)
          (omega (arith, length-tail_slice 32 tail)) in
      rw e (
        r.0,
        refl,
        DeepHolds-Holds r.0 (tail_slice 32 tail ++ items) p.0 (
            omega (
              arith,
              p.0.size,
              length-append (tail_slice 32 tail) items,
              length-tail_slice 32 tail,
            )),
      )

  -- The vector has no room for the items: its tail is filled, and the rest goes to a deep vector.
  pub grown-Holds :
      (v : Raw A) (xs items : List A)
      → Holds (shallow v) xs
      → 33 ≤ v.count + length items
      → length xs + length items < 2 ^ 32
      → Ensures
          (new_deep (joined_tail v (take (32 - v.count) items)) (drop (32 - v.count) items))
          (λ d. Holds (deep d) (xs ++ items))
  grown-Holds v xs items h over bound =
      let n : ℕ = 32 - v.count in
      let size = shallow_size v xs h in
      let front = length-take (32 - v.count) items (omega (arith, h.valid.1)) in
      let back = length-drop (32 - v.count) items in
      let (d, e, p) =
        new_deep-Holds (joined_tail v (take (32 - v.count) items)) (drop (32 - v.count) items)
          (omega (arith, back)) (omega (arith, back, size, h.valid.1)) in
      (
        d,
        e,
        subst (Holds (deep d))
            (ap (λ l. l ++ drop (32 - v.count) items)
                (slice-joined v xs (take (32 - v.count) items) h (omega (arith, front, h.valid.1)))
              ∙ append_assoc xs (take (32 - v.count) items) (drop (32 - v.count) items)
              ∙ ap (λ l. xs ++ l) (take-drop (32 - v.count) items))
            p,
      )
