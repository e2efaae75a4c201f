-- ===== src/Vector/DeepPop.antt =====
-- What `pop` on a deep vector promises: the vector without its last value, shallow if 32 are left.
use native.Mathlib.Decide.{dec_lt}
use ww.Prelude.{
  ℕ, suc, ◌+◌, ◌-◌, ◌*◌, ◌/◌, ◌%◌, ◌^◌, ◌≤◌, ◌<◌, ◌≡◌, refl, sym, ◌∙◌, ap, arith, pos, Result, ok,
  ◌>>=◌, subst,
}
use ww.Memory.Cells.{Cells, copy, copy_below}
use ww.Memory.Node.{Node}
use ww.Vector.Trie.{Zeroed, empty_values, pop_tail}
use ww.Vector.Digits.{prefix-root}
use ww.Vector.Data.{Raw, Vector, deep, new_vector}
use ww.Vector.Deep.{entry_at, lower_root}
use ww.Vector.Shape.{leaf_at, leaf_at-NotNull}
use ww.Vector.Shrink.{IsPopped, pop_tail-IsPopped}
use ww.Vector.Lower.{IsLowered, lower_root-IsLowered}
use ww.Vector.Invariant.{leaves, IsDeep, entry_at-tail, entry_at-trie}

module _ {A : Type 0} where
  -- `w` is the deep vector `v` without its last value.
  pub record IsInit (v w : Raw A) : Type 0 where
    pub valid : IsDeep w
    pub count : suc w.count ≡ v.count
    pub kept : (i : ℕ) → i < w.count → entry_at w (pos i) ≡ entry_at v (pos i)

module _ {A : Type 0} ⦃z : Zeroed A⦄ (v : Raw A) (h : IsDeep v) (large : 33 ≤ v.count) where
  -- More than one value is in the tail.
  unfoldable pub tail_pop : ℕ → Raw A
  tail_pop taillen =
      new_vector (v.count - 1) v.shift v.root (copy (taillen - 1) v.tail empty_values)

  tail_pop-IsDeep :
      (taillen : ℕ)
      → v.count ≡ 32 * leaves v.count + taillen
      → 1 < taillen
      → IsDeep (tail_pop taillen)
  unfolding tail_pop new_vector
  tail_pop-IsDeep taillen e more =
      let same : leaves ((v.count - 1) % 2 ^ 32) ≡ leaves v.count = omega (arith, h.count_bound) in
      record {
        depth = h.depth;
        shift_eq = omega (arith, h.shift_eq, h.depth_bound);
        depth_bound = h.depth_bound;
        fits = h.fits;
        not_null = h.not_null;
        filled = λ q below. h.filled q (omega (arith, same));
        capacity = omega (arith, same, h.capacity);
        full = omega (arith, h.count_bound);
        count_bound = omega arith;
      }

  pub tail_pop-IsInit :
      (taillen : ℕ)
      → v.count ≡ 32 * leaves v.count + taillen
      → 1 < taillen
      → IsInit v (tail_pop taillen)
  unfolding tail_pop new_vector tail_pop-IsDeep
  tail_pop-IsInit taillen e more =
      let k = tail_pop-IsDeep taillen e more in
      let less : (v.count - 1) % 2 ^ 32 ≡ v.count - 1 = omega (arith, h.count_bound) in
      record {
        valid = k;
        count = omega (arith, less);
        kept = λ i lt. elim (dec_lt i (32 * leaves v.count)) [
          | yes in_trie ↦
              let (ws, found) = h.filled (i / 32) (omega arith) in
              entry_at-trie (tail_pop taillen) k i ws (omega (arith, less)) found
              ∙ sym (entry_at-trie v h i ws in_trie found)
          | no in_tail ↦
              entry_at-tail (tail_pop taillen) k i (omega (arith, less)) lt
              ∙ ap ok (copy_below (taillen - 1) v.tail empty_values (i % 32) (omega (arith, less)))
              ∙ sym (entry_at-tail v h i (omega arith) (omega (arith, less)))
        ];
      }

  -- The tail has one value, and the last leaf of the trie becomes the tail.
  module _ (single : v.count ≡ 32 * leaves v.count + 1) (last : ℕ)
      (last_eq : suc last ≡ leaves v.count) (ws : Cells A)
      (found : leaf_at (suc h.depth) v.root last ≡ ok ws) where
    popped_leaf :
        (n : Node A)
        → IsPopped last (suc h.depth) v.root n
        → (q : ℕ) (us : Cells A) → q < last
        → leaf_at (suc h.depth) v.root q ≡ ok us
        → leaf_at (suc h.depth) n q ≡ ok us
    popped_leaf n p q us lt =
        p.kept q us
          (prefix-root (suc h.depth) q last (omega (arith, h.capacity)) (omega (arith, h.capacity)))
          lt

    trie_pop : Node A → ℕ → Raw A
    trie_pop root shift = new_vector (v.count - 1) shift root ws

    trie_pop-IsDeep :
        (n : Node A) (out : Node A × ℕ)
        → 0 < last
        → IsPopped last (suc h.depth) v.root n
        → IsLowered h.depth n last out
        → IsDeep (trie_pop out.0 out.1)
    unfolding trie_pop new_vector
    trie_pop-IsDeep n out some_left p l =
        let less : leaves ((v.count - 1) % 2 ^ 32) ≡ last = omega (arith, h.count_bound) in
        record {
          depth = l.depth;
          shift_eq = omega (arith, l.shift_eq, l.depth_le, h.depth_bound);
          depth_bound = omega (arith, l.depth_le, h.depth_bound);
          fits = l.fits;
          not_null = l.not_null;
          filled = λ q below.
              let (us, e) = h.filled q (omega (arith, less)) in
              (us, l.kept q (omega (arith, less)) ∙ popped_leaf n p q us (omega (arith, less)) e);
          capacity = omega (arith, less, l.capacity);
          full = omega (arith, h.count_bound);
          count_bound = omega arith;
        }

    trie_pop-IsInit :
        (n : Node A) (out : Node A × ℕ)
        → 0 < last
        → IsPopped last (suc h.depth) v.root n
        → IsLowered h.depth n last out
        → IsInit v (trie_pop out.0 out.1)
    unfolding trie_pop new_vector trie_pop-IsDeep
    trie_pop-IsInit n out some_left p l =
        let k = trie_pop-IsDeep n out some_left p l in
        let less : (v.count - 1) % 2 ^ 32 ≡ v.count - 1 = omega (arith, h.count_bound) in
        record {
          valid = k;
          count = omega (arith, less);
          kept = λ i lt. elim (dec_lt i (32 * last)) [
            | yes in_trie ↦
                let (us, e) = h.filled (i / 32) (omega arith) in
                entry_at-trie (trie_pop out.0 out.1) k i us (omega (arith, less))
                  (l.kept (i / 32) (omega arith) ∙ popped_leaf n p (i / 32) us (omega arith) e)
                ∙ sym (entry_at-trie v h i us (omega arith) e)
            | no in_tail ↦
                let here : last ≡ i / 32 = omega (arith, less) in
                entry_at-tail (trie_pop out.0 out.1) k i (omega (arith, less)) lt
                ∙ sym (
                    entry_at-trie v h i ws (omega (arith, less))
                      (subst (λ q. leaf_at (suc h.depth) v.root q ≡ ok ws) here found))
          ];
        }

    -- What the slow path of `pop` does once it has the new tail, with some leaf left.
    unfoldable pub slow_pop : Result (Vector A)
    slow_pop = do
      newroot ← pop_tail (v.shift + 1) v.shift v.count v.root
      (root, shift) ← lower_root newroot v.shift
      ok (deep (new_vector (v.count - 1) shift root ws))

    pub slow_pop-IsInit : 0 < last → (w : Raw A) × (slow_pop ≡ ok (deep w)) × IsInit v w
    unfolding slow_pop trie_pop
    slow_pop-IsInit some_left =
        let (n, e, p) =
          pop_tail-IsPopped last h.depth (5 * suc h.depth + 1) v.count v.root ws (omega arith)
            (omega arith) h.fits found in
        let e' : pop_tail (v.shift + 1) v.shift v.count v.root ≡ ok n =
          subst (λ s. pop_tail (s + 1) s v.count v.root ≡ ok n) (sym h.shift_eq) e in
        let (us, e0) = h.filled 0 (omega arith) in
        let (out, e'', l) =
          lower_root-IsLowered last some_left h.depth v.shift n h.shift_eq p.fits
            (leaf_at-NotNull (suc h.depth) 0 n us (popped_leaf n p 0 us some_left e0))
            (omega (arith, h.capacity))
            (λ q lt. let (ts, eq) = h.filled q (omega arith) in (ts, popped_leaf n p q ts lt eq)) in
        rw (e', e'') (trie_pop out.0 out.1, refl, trie_pop-IsInit n out some_left p l)
