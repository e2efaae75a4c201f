-- ===== src/Vector/PopLaws.antt =====
-- `pop` on a deep vector, as an operation on the list that it holds.
use native.Mathlib.Decide.{dec_le}
use ww.Prelude.{
  true, false, ℕ, suc, ◌-◌, ◌/◌, ◌%◌, ◌≤◌, ◌<◌, ◌≡◌, refl, sym, ◌∙◌, ap, arith, ltb, lt→leb, le→leb,
  pos, ok, ok_injective, Ensures, subst, Bool-cases, inl, inr, ltb→lt, ltb→le, List, [], ◌∷◌, ◌++◌,
  length, length-append, get_elem?-lt, get_elem?-append_left, list_ext, some,
}
use ww.Memory.Cells.{Cells}
use ww.Vector.Trie.{Zeroed, vector_tailoff}
use ww.Vector.Data.{Raw, shallow, deep, tail_slice, new_shallow}
use ww.Vector.Deep.{entry_at, array_for, pop}
use ww.Vector.Shape.{leaf_at}
use ww.Vector.Methods
use ww.Vector.Invariant.{vector_tailoff-leaves, entry_at-trie, array_for-trie}
use ww.Vector.DeepPop.{IsInit, tail_pop, tail_pop-IsInit, slow_pop, slow_pop-IsInit}
use ww.Vector.DeepConj.{DeepHolds}
use ww.Vector.Contents.{Holds}
use ww.Vector.Slices.{new_shallow-Holds, length-tail_slice, get_elem?-tail_slice}

module _ {A : Type 0} where
  pub DeepHolds-Holds :
      (v : Raw A) (xs : List A) → DeepHolds v xs → 33 ≤ v.count → Holds (deep v) xs
  unfolding Methods.count Methods.entry_at
  DeepHolds-Holds v xs h large = record { valid = (h.valid, large); size = h.size; at = h.at }

  pub Holds-DeepHolds : (v : Raw A) (xs : List A) → Holds (deep v) xs → DeepHolds v xs
  unfolding Methods.count Methods.entry_at
  Holds-DeepHolds v xs h = record { valid = h.valid.0; size = h.size; at = h.at }

  IsInit-Holds :
      (v w : Raw A) (xs : List A) (x : A)
      → DeepHolds v (xs ++ x ∷ [])
      → IsInit v w
      → 34 ≤ v.count
      → Holds (deep w) xs
  IsInit-Holds v w xs x h k large =
      let less : w.count ≡ length xs = omega (arith, k.count, h.size, length-append xs (x ∷ [])) in
      DeepHolds-Holds w xs
        (record {
          valid = k.valid;
          size = less;
          at = λ i y e.
              k.kept i (omega (arith, less, get_elem?-lt xs i y e))
              ∙ h.at i y (get_elem?-append_left xs (x ∷ []) i y e);
        })
        (omega (arith, k.count))

  -- The only leaf of the trie is the list without its last value.
  only_leaf :
      (v : Raw A) (xs : List A) (x : A) (ws : Cells A) (h : DeepHolds v (xs ++ x ∷ []))
      → v.count ≡ 33
      → leaf_at (suc h.valid.depth) v.root 0 ≡ ok ws
      → xs ≡ tail_slice 32 ws
  only_leaf v xs x ws h c found =
      let size : length xs ≡ 32 = omega (arith, h.size, length-append xs (x ∷ [])) in
      list_ext xs (tail_slice 32 ws) (size ∙ sym (length-tail_slice 32 ws)) (λ i y e.
        let lt : i < 32 = omega (arith, get_elem?-lt xs i y e) in
        let here : i / 32 ≡ 0 = omega arith in
        let cell : i % 32 ≡ i = omega arith in
        let read : entry_at v (pos i) ≡ ok (ws (i % 32)) =
          entry_at-trie v h.valid i ws (omega (arith, c))
            (ap (leaf_at (suc h.valid.depth) v.root) here ∙ found) in
        let value : ws i ≡ y =
          ap ws (sym cell)
          ∙ ok_injective (sym read ∙ h.at i y (get_elem?-append_left xs (x ∷ []) i y e)) in
        get_elem?-tail_slice 32 ws i lt ∙ ap some value)

module _ {A : Type 0} ⦃z : Zeroed A⦄ where
  module _ (v : Raw A) (xs : List A) (x : A) (h : DeepHolds v (xs ++ x ∷ []))
      (large : 33 ≤ v.count) where
    -- The branches of `pop`.
    fast_pop-Holds :
        ltb 1 (v.count - vector_tailoff v.count) ≡ true → Ensures (pop v) (λ w. Holds w xs)
    unfolding pop tail_pop
    fast_pop-Holds more =
        let off = vector_tailoff-leaves v.count h.valid.full in
        let taillen = v.count - vector_tailoff v.count in
        rw (lt→leb v.count 32 large, more)
          (
            deep (tail_pop v h.valid large taillen),
            refl,
            IsInit-Holds v (tail_pop v h.valid large taillen) xs x h
                (tail_pop-IsInit v h.valid large taillen (omega (arith, off))
                  (ltb→lt 1 taillen more))
                (omega (arith, off, ltb→lt 1 taillen more)),
          )

    single_pop-Holds :
        ltb 1 (v.count - vector_tailoff v.count) ≡ false
        → v.count ≡ 33
        → Ensures (pop v) (λ w. Holds w xs)
    unfolding pop
    single_pop-Holds one c =
        let (ws, found) = h.valid.filled 0 (omega (arith, c)) in
        let zero_leaf : (v.count - 2) / 32 ≡ 0 = omega (arith, c) in
        let read : array_for v (pos (v.count - 2)) ≡ ok ws =
          array_for-trie v h.valid.depth (v.count - 2) h.valid.shift_eq h.valid.depth_bound
            h.valid.full (omega (arith, c))
          ∙ ap (leaf_at (suc h.valid.depth) v.root) zero_leaf
          ∙ found in
        let len = length-tail_slice 32 ws in
        let (s, e, held) =
          new_shallow-Holds (tail_slice 32 ws) (omega (arith, len)) (omega (arith, len)) in
        let e' : new_shallow (tail_slice (v.count - 1) ws) ≡ ok s =
          subst (λ k. new_shallow (tail_slice (k - 1) ws) ≡ ok s) (sym c) e in
        rw (lt→leb v.count 32 large, one, read, le→leb (v.count - 1) 32 (omega (arith, c)), e')
          (shallow s, refl, subst (Holds (shallow s)) (sym (only_leaf v xs x ws h c found)) held)

    slow_pop-Holds :
        ltb 1 (v.count - vector_tailoff v.count) ≡ false
        → 34 ≤ v.count
        → Ensures (pop v) (λ w. Holds w xs)
    unfolding pop slow_pop
    slow_pop-Holds one larger =
        let off = vector_tailoff-leaves v.count h.valid.full in
        let low = ltb→le 1 (v.count - vector_tailoff v.count) one in
        let last : ℕ = (v.count - 2) / 32 in
        let (ws, found) = h.valid.filled ((v.count - 2) / 32) (omega arith) in
        let read : array_for v (pos (v.count - 2)) ≡ ok ws =
          array_for-trie v h.valid.depth (v.count - 2) h.valid.shift_eq h.valid.depth_bound
            h.valid.full (omega (arith, off, low))
          ∙ found in
        let (w, e, k) =
          slow_pop-IsInit v h.valid large (omega (arith, off, low)) last (omega (arith, off, low))
            ws found (omega (arith, off, low)) in
        rw (lt→leb v.count 32 large, one, read, lt→leb (v.count - 1) 32 (omega arith), e)
          (deep w, refl, IsInit-Holds v w xs x h k larger)

    -- `pop` removes the last value, and turns shallow where 32 are left.
    pub pop-Holds : Ensures (pop v) (λ w. Holds w xs)
    pop-Holds = elim (Bool-cases (ltb 1 (v.count - vector_tailoff v.count))) [
      | inl more ↦ fast_pop-Holds more
      | inr one ↦ elim (dec_le 34 v.count) [
        | yes larger ↦ slow_pop-Holds one larger
        | no small ↦ single_pop-Holds one (omega arith)
      ]
    ]
