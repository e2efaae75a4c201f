-- ===== src/Vector/ShallowOps.antt =====
-- `cons`, `conj`, `Assoc` and `Pop` on a shallow vector.
use mathlib.Core.List.{append-nil}
use native.Mathlib.Decide.{dec_lt, dec_le}
use ww.Prelude.{
  ℕ, suc, ◌+◌, ◌-◌, ◌%◌, ◌^◌, ◌≤◌, ◌<◌, ◌≡◌, refl, sym, ◌∙◌, ap, arith, lt→leb, le→leb, ◌==◌,
  eq_self, ne→eq, if◌then◌else◌, pos, ok, fail, index_out_of_bounds, Ensures, subst, inl, inr,
  lt→ltb, le→ltb, List, [], ◌∷◌, ◌++◌, length, length-append, take, drop, set, length-set,
  get_elem?-lt, get_elem?-append_left, get_elem?-snoc, get_elem?-set,
}
use ww.Memory.Cells.{Cells, write, write_all, copy, copy_below, write_self, write_ne}
use ww.Vector.Trie.{Zeroed, empty_values}
use ww.Vector.Data.{Raw, shallow, deep, tail_slice, new_shallow}
use ww.Vector.Deep.{new_deep}
use ww.Vector.Shallow.{cons, conj, assoc, update, pop, shallow_cons}
use ww.Vector.Methods
use ww.Vector.Contents.{Holds}
use ww.Vector.Slices.{new_shallow-Holds, tail-Holds}
use ww.Vector.ShallowLaws.{
  tail_value, shallow_size, tail_slice-Holds, joined_tail, new_deep-Holds, grown-Holds,
}

module _ {A : Type 0} ⦃z : Zeroed A⦄ (v : Raw A) (xs : List A) (h : Holds (shallow v) xs) where
  shallow_cons-Holds : (x : A) → v.count < 32 → Holds (shallow (shallow_cons v x)) (xs ++ x ∷ [])
  unfolding shallow_cons
  shallow_cons-Holds x room =
      let size = shallow_size v xs h in
      let c : Cells A = copy v.count v.tail empty_values in
      tail-Holds (shallow_cons v x) (xs ++ x ∷ []) (omega arith) (omega arith)
        (omega (arith, size, length-append xs (x ∷ [])))
        (λ i y e. elim (get_elem?-snoc xs x i y e) [
          | inl (lt, old) ↦
              write_ne c v.count i x (omega (arith, size))
              ∙ copy_below v.count v.tail empty_values i (omega (arith, size))
              ∙ tail_value v xs h i y old
          | inr (here, same) ↦
              ap (write c v.count x) (here ∙ sym size) ∙ write_self c v.count x ∙ same
        ])

  -- `cons` appends, and a full vector turns deep.
  pub shallow-cons-Holds : (x : A) → Ensures (cons v x) (λ w. Holds w (xs ++ x ∷ []))
  unfolding cons
  shallow-cons-Holds x = elim (dec_lt v.count 32) [
    | yes room ↦
        rw (lt→ltb v.count 32 room) (shallow (shallow_cons v x), refl, shallow_cons-Holds x room)
    | no full ↦
        let c : v.count ≡ 32 = omega (arith, h.valid.1) in
        let (d, e, p) = new_deep-Holds v.tail (x ∷ []) (omega arith) (omega arith) in
        rw (le→ltb v.count 32 (omega arith), e)
          (
            deep d,
            refl,
            subst (λ l. Holds (deep d) (l ++ x ∷ []))
                (ap (λ k. tail_slice k v.tail) (sym c) ∙ tail_slice-Holds v xs h) p,
          )
  ]

  -- The branches of `conj` with some item.
  fitting-conj-Holds :
      (x : A) (items : List A)
      → v.count + length (x ∷ items) ≤ 32
      → Ensures (conj v (x ∷ items)) (λ w. Holds w (xs ++ x ∷ items))
  unfolding conj
  fitting-conj-Holds x items fit =
      let size = shallow_size v xs h in
      let (s, e, p) =
        new_shallow-Holds (xs ++ x ∷ items) (omega (arith, length-append xs (x ∷ items)))
          (omega (arith, size, length-append xs (x ∷ items))) in
      let e' : new_shallow (tail_slice v.count v.tail ++ x ∷ items) ≡ ok s =
        ap (λ l. new_shallow (l ++ x ∷ items)) (tail_slice-Holds v xs h) ∙ e in
      rw (le→leb (v.count + length (x ∷ items)) 32 fit, e') (shallow s, refl, p)

  growing-conj-Holds :
      (x : A) (items : List A)
      → 33 ≤ v.count + length (x ∷ items)
      → length xs + length (x ∷ items) < 2 ^ 32
      → Ensures (conj v (x ∷ items)) (λ w. Holds w (xs ++ x ∷ items))
  unfolding conj joined_tail write_all
  growing-conj-Holds x items over bound =
      let (d, e, p) = grown-Holds v xs (x ∷ items) h over bound in
      let big = lt→leb (v.count + length (x ∷ items)) 32 over in
      elim (dec_lt v.count 32) [
        | yes room ↦ rw (big, lt→ltb v.count 32 room, e) (deep d, refl, p)
        | no full ↦
            let none_free : 32 - v.count ≡ 0 = omega arith in
            let e' : new_deep (copy v.count v.tail empty_values) (x ∷ items) ≡ ok d =
              ap
                (λ (n : ℕ).
                  new_deep
                    (write_all v.count (take n (x ∷ items)) (copy v.count v.tail empty_values))
                    (drop n (x ∷ items)))
                (sym none_free)
              ∙ e in
            rw (big, le→ltb v.count 32 (omega arith), e') (deep d, refl, p)
      ]

  pub shallow-conj-Holds :
      (items : List A)
      → length xs + length items < 2 ^ 32
      → Ensures (conj v items) (λ w. Holds w (xs ++ items))
  unfolding conj
  shallow-conj-Holds [] bound = (shallow v, refl, subst (Holds (shallow v)) (sym (append-nil xs)) h)
  shallow-conj-Holds (x ∷ items) bound = elim (dec_le (v.count + length (x ∷ items)) 32) [
    | yes fit ↦ fitting-conj-Holds x items fit
    | no over ↦ growing-conj-Holds x items (omega arith) bound
  ]

  shallow-update-Holds : (i : ℕ) (x : A) → i < v.count → Holds (shallow (update v i x)) (set xs i x)
  unfolding update
  shallow-update-Holds i x lt =
      let size = shallow_size v xs h in
      tail-Holds (update v i x) (set xs i x) (omega (arith, h.valid)) (omega (arith, h.valid))
        (omega (arith, size, length-set xs i x, h.valid))
        (λ j y e.
          let below : j < v.count =
            omega (arith, size, length-set xs i x, get_elem?-lt (set xs i x) j y e) in
          ground (
            arith,
            copy_below v.count (λ k. if k == i then x else v.tail k) empty_values j below,
            get_elem?-set xs i j x (omega (arith, size)),
            tail_value v xs h j y,
          ))

  -- `Assoc`: an index in range is replaced, the next one appends, and any other is an error.
  pub shallow-assoc-Holds :
      (i : ℕ) (x : A) → i < length xs → Ensures (assoc v (pos i) x) (λ w. Holds w (set xs i x))
  unfolding assoc
  shallow-assoc-Holds i x lt =
      let below : i < v.count = omega (arith, shallow_size v xs h) in
      rw (lt→ltb i v.count below) (shallow (update v i x), refl, shallow-update-Holds i x below)

  pub shallow-assoc_end-Holds :
      (x : A) → Ensures (assoc v (pos (length xs)) x) (λ w. Holds w (xs ++ x ∷ []))
  unfolding assoc
  shallow-assoc_end-Holds x =
      subst (λ n. Ensures (assoc v (pos n) x) (λ w. Holds w (xs ++ x ∷ []))) (shallow_size v xs h)
        (rw (le→ltb v.count v.count (omega arith), eq_self v.count) (shallow-cons-Holds x))

  pub shallow-assoc_out :
      (i : ℕ) (x : A) → length xs < i → assoc v (pos i) x ≡ fail index_out_of_bounds
  unfolding assoc
  shallow-assoc_out i x lt = ground (arith, shallow_size v xs h)

module _ {A : Type 0} ⦃z : Zeroed A⦄ where
  -- `Pop` of a list with a last value.
  pub shallow-pop-Holds :
      (v : Raw A) (ys : List A) (x : A) → Holds (shallow v) (ys ++ x ∷ []) → Holds (pop v) ys
  unfolding pop Methods.count
  shallow-pop-Holds v [] x h =
      let one : v.count ≡ 1 = shallow_size v (x ∷ []) h in
      rw (ap (λ (k : ℕ). k == 1) one)
        (record { valid = tt; size = refl; at = λ i y e. ground arith })
  shallow-pop-Holds v (y ∷ ys) x h =
      let size : v.count ≡ suc (suc (length ys)) =
        omega (arith, shallow_size v (y ∷ ys ++ x ∷ []) h, length-append ys (x ∷ [])) in
      let less : (v.count + 2 ^ 32 - 1) % 2 ^ 32 ≡ v.count - 1 = omega (arith, h.valid) in
      rw (ne→eq v.count 1 (omega arith)) (
        tail-Holds _ (y ∷ ys) (omega (arith, less)) (omega (arith, less, h.valid))
          (omega (arith, less))
          (λ i a e.
            copy_below ((v.count + 2 ^ 32 - 1) % 2 ^ 32) v.tail empty_values i
              (omega (arith, less, get_elem?-lt (y ∷ ys) i a e))
            ∙ tail_value v (y ∷ ys ++ x ∷ []) h i a
                (get_elem?-append_left (y ∷ ys) (x ∷ []) i a e)))
