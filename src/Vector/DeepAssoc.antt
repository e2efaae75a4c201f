-- ===== src/Vector/DeepAssoc.antt =====
-- What `update` and `Assoc` on a deep vector promise: the value at one index is replaced, and the
-- index one past the end appends.
use native.Mathlib.Decide.{dec_lt, ℕ_discrete}
use ww.Prelude.{
  lt→ltb, le→ltb, eq_self, fail, index_out_of_bounds, some_injective, ℕ, suc, ◌+◌, ◌-◌, ◌*◌, ◌/◌,
  ◌%◌, ◌^◌, ◌≤◌, ◌<◌, ◌≡◌, ◌≢◌, refl, sym, ◌∙◌, ap, arith, le→leb, lt→leb, pos, ok, Ensures, subst,
  List, length, length-set, get_elem?-lt, get_elem?-set, set,
}
use ww.Memory.Cells.{Cells, write, copy, copy_below, write_self, write_ne}
use ww.Memory.Node.{Node}
use ww.Vector.Trie.{Zeroed, empty_values, vector_assoc}
use ww.Vector.Digits.{prefix-root}
use ww.Vector.Data.{Raw, new_vector}
use ww.Vector.Deep.{entry_at, update, assoc, cons}
use ww.Vector.Shape.{leaf_at, leaf_at-NotNull}
use ww.Vector.Update.{IsUpdated, updated, vector_assoc-IsUpdated}
use ww.Vector.Invariant.{leaves, IsDeep, vector_tailoff-leaves, entry_at-tail, entry_at-trie}
use ww.Vector.DeepConj.{DeepHolds}

module _ {A : Type 0} ⦃z : Zeroed A⦄ where
  pub record IsUpdate (v : Raw A) (i : ℕ) (x : A) (w : Raw A) : Type 0 where
    pub valid : IsDeep w
    pub count : w.count ≡ v.count
    pub at : entry_at w (pos i) ≡ ok x
    pub others : (j : ℕ) → j < v.count → j ≢ i → entry_at w (pos j) ≡ entry_at v (pos j)

  module _ (v : Raw A) (h : IsDeep v) (i : ℕ) (x : A) (lt : i < v.count) where
    -- The index is in the tail.
    tail_update : ℕ → Raw A
    tail_update taillen =
        new_vector v.count v.shift v.root (write (copy taillen v.tail empty_values) (i % 32) x)

    tail_update-IsDeep : (taillen : ℕ) → IsDeep (tail_update taillen)
    unfolding tail_update new_vector
    tail_update-IsDeep taillen =
        let same : v.count % 2 ^ 32 ≡ v.count = omega (arith, h.count_bound) in
        record {
          depth = h.depth;
          shift_eq = omega (arith, h.shift_eq, h.depth_bound);
          depth_bound = h.depth_bound;
          fits = h.fits;
          not_null = h.not_null;
          filled = λ q below. h.filled q (omega (arith, same));
          capacity = omega (arith, same, h.capacity);
          full = omega (arith, h.full, same);
          count_bound = omega arith;
        }

    tail_update-IsUpdate :
        (taillen : ℕ)
        → v.count ≡ 32 * leaves v.count + taillen
        → 32 * leaves v.count ≤ i
        → IsUpdate v i x (tail_update taillen)
    unfolding tail_update new_vector tail_update-IsDeep
    tail_update-IsUpdate taillen e in_tail =
        let k = tail_update-IsDeep taillen in
        let same : v.count % 2 ^ 32 ≡ v.count = omega (arith, h.count_bound) in
        let c : Cells A = copy taillen v.tail empty_values in
        record {
          valid = k;
          count = same;
          at =
              entry_at-tail (tail_update taillen) k i (omega (arith, same)) (omega (arith, same))
              ∙ ap ok (write_self c (i % 32) x);
          others = λ j below ne. elim (dec_lt j (32 * leaves v.count)) [
            | yes in_trie ↦
                let (ws, found) = h.filled (j / 32) (omega arith) in
                entry_at-trie (tail_update taillen) k j ws (omega (arith, same)) found
                ∙ sym (entry_at-trie v h j ws in_trie found)
            | no above ↦
                entry_at-tail (tail_update taillen) k j (omega (arith, same)) (omega (arith, same))
                ∙ ap ok (
                    write_ne c (i % 32) (j % 32) x (omega arith)
                    ∙ copy_below taillen v.tail empty_values (j % 32) (omega arith))
                ∙ sym (entry_at-tail v h j (omega arith) below)
          ];
        }

    -- The index is in the trie.
    module _ (in_trie : i < 32 * leaves v.count) (root : Node A) (ws : Cells A) where
      trie_update : Raw A
      trie_update = new_vector v.count v.shift root v.tail

      kept_leaf :
          IsUpdated i x (suc h.depth) v.root root
          → (q : ℕ) → q < leaves v.count
          → q ≢ i / 32
          → leaf_at (suc h.depth) root q ≡ leaf_at (suc h.depth) v.root q
      kept_leaf u q below ne =
          u.others q
            (prefix-root (suc h.depth) q (i / 32) (omega (arith, h.capacity))
              (omega (arith, h.capacity)))
            ne

      trie_update-IsDeep :
          leaf_at (suc h.depth) v.root (i / 32) ≡ ok ws
          → IsUpdated i x (suc h.depth) v.root root
          → IsDeep trie_update
      unfolding trie_update new_vector
      trie_update-IsDeep found u =
          let same : v.count % 2 ^ 32 ≡ v.count = omega (arith, h.count_bound) in
          record {
            depth = h.depth;
            shift_eq = omega (arith, h.shift_eq, h.depth_bound);
            depth_bound = h.depth_bound;
            fits = u.fits;
            not_null = leaf_at-NotNull (suc h.depth) (i / 32) root (updated i x ws) (u.at ws found);
            filled = λ q below. elim (ℕ_discrete q (i / 32)) [
              | yes e ↦ (updated i x ws, ap (leaf_at (suc h.depth) root) e ∙ u.at ws found)
              | no ne ↦
                  let (us, e) = h.filled q (omega (arith, same)) in
                  (us, kept_leaf u q (omega (arith, same)) ne ∙ e)
            ];
            capacity = omega (arith, same, h.capacity);
            full = omega (arith, h.full, same);
            count_bound = omega arith;
          }

      trie_update-IsUpdate :
          leaf_at (suc h.depth) v.root (i / 32) ≡ ok ws
          → IsUpdated i x (suc h.depth) v.root root
          → IsUpdate v i x trie_update
      unfolding trie_update new_vector trie_update-IsDeep
      trie_update-IsUpdate found u =
          let k = trie_update-IsDeep found u in
          let same : v.count % 2 ^ 32 ≡ v.count = omega (arith, h.count_bound) in
          let c : Cells A = copy 32 ws empty_values in
          record {
            valid = k;
            count = same;
            at =
                entry_at-trie trie_update k i (updated i x ws) (omega (arith, same)) (u.at ws found)
                ∙ ap ok (write_self c (i % 32) x);
            others = λ j below ne. elim (dec_lt j (32 * leaves v.count)) [
              | yes low ↦ elim (ℕ_discrete (j / 32) (i / 32)) [
                | yes e ↦
                    let e' : leaf_at (suc h.depth) v.root (j / 32) ≡ ok ws =
                      ap (leaf_at (suc h.depth) v.root) e ∙ found in
                    entry_at-trie trie_update k j (updated i x ws) (omega (arith, same))
                      (ap (leaf_at (suc h.depth) root) e ∙ u.at ws found)
                    ∙ ap ok (
                        write_ne c (i % 32) (j % 32) x (omega arith)
                        ∙ copy_below 32 ws empty_values (j % 32) (omega arith))
                    ∙ sym (entry_at-trie v h j ws low e')
                | no apart ↦
                    let (us, e) = h.filled (j / 32) (omega arith) in
                    entry_at-trie trie_update k j us (omega (arith, same))
                      (kept_leaf u (j / 32) (omega arith) apart ∙ e)
                    ∙ sym (entry_at-trie v h j us low e)
              ]
              | no high ↦
                  entry_at-tail trie_update k j (omega (arith, same)) (omega (arith, same))
                  ∙ sym (entry_at-tail v h j (omega arith) below)
            ];
          }

    -- `update`, at any index below the count.
    update-IsUpdate : Ensures (update v i x) (IsUpdate v i x)
    unfolding update tail_update trie_update
    update-IsUpdate =
        let off = vector_tailoff-leaves v.count h.full in
        elim (dec_lt i (32 * leaves v.count)) [
          | yes in_trie ↦
              let (ws, found) = h.filled (i / 32) (omega arith) in
              let (root, e, u) =
                vector_assoc-IsUpdated i x (suc h.depth) (5 * suc h.depth + 1) v.root ws
                  (omega arith) h.fits found in
              let e' : vector_assoc (v.shift + 1) v.shift v.root i x ≡ ok root =
                subst (λ s. vector_assoc (s + 1) s v.root i x ≡ ok root) (sym h.shift_eq) e in
              rw (off, lt→leb (32 * leaves v.count) i in_trie, e')
                (trie_update in_trie root ws, refl, trie_update-IsUpdate in_trie root ws found u)
          | no in_tail ↦
              rw (off, le→leb (32 * leaves v.count) i (omega arith))
                (
                  tail_update (v.count - 32 * leaves v.count),
                  refl,
                  tail_update-IsUpdate (v.count - 32 * leaves v.count) (omega arith) (omega arith),
                )
        ]

  IsUpdate-DeepHolds :
      (v w : Raw A) (xs : List A) (i : ℕ) (x : A)
      → DeepHolds v xs
      → i < length xs
      → IsUpdate v i x w
      → DeepHolds w (set xs i x)
  IsUpdate-DeepHolds v w xs i x h lt u = record {
    valid = u.valid;
    size = u.count ∙ h.size ∙ sym (length-set xs i x);
    at = λ j y e.
        let below : j < v.count =
          omega (arith, h.size, length-set xs i x, get_elem?-lt (set xs i x) j y e) in
        elim (ℕ_discrete j i) [
          | yes same ↦
              ap (λ k. entry_at w (pos k)) same
              ∙ u.at
              ∙ ap ok (some_injective (ground (arith, get_elem?-set xs i j x lt)))
          | no apart ↦ u.others j below apart ∙ h.at j y (ground (arith, get_elem?-set xs i j x lt))
        ];
  }

  -- `Assoc` in range, at the end, and beyond it.
  pub assoc-DeepHolds :
      (v : Raw A) (xs : List A) (i : ℕ) (x : A)
      → DeepHolds v xs
      → i < length xs
      → Ensures (assoc v (pos i) x) (λ r. DeepHolds r.0 (set xs i x) × DeepHolds r.1 xs)
  unfolding assoc
  assoc-DeepHolds v xs i x h lt =
      let below : i < v.count = omega (arith, h.size) in
      let (w, e, u) = update-IsUpdate v h.valid i x below in
      rw (lt→ltb i v.count below, e) ((w, v), refl, (IsUpdate-DeepHolds v w xs i x h lt u, h))

  pub assoc_end : (v : Raw A) (x : A) → assoc v (pos v.count) x ≡ cons v x
  unfolding assoc
  assoc_end v x = rw (le→ltb v.count v.count (omega arith), eq_self v.count)

  pub deep-assoc_out :
      (v : Raw A) (i : ℕ) (x : A) → v.count < i → assoc v (pos i) x ≡ fail index_out_of_bounds
  unfolding assoc
  deep-assoc_out v i x lt = ground arith
