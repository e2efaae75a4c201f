-- ===== src/Seq/VectorSeq.antt =====
-- The sequence of a vector (chunkedSeq of pkg/lang/core/vector.go) yields what the vector holds.
use native.Mathlib.Decide.{dec_le}
use ww.Prelude.{
  ℕ, suc, ◌+◌, ◌-◌, ◌*◌, ◌/◌, ◌%◌, ◌^◌, ◌<◌, ◌≡◌, ◌∙◌, refl, sym, ap, arith, pos, List, [], ◌∷◌,
  length, get_elem?, get_elem?-lt, some, ok, ok_injective, subst, fail, index_out_of_bounds,
  if◌then◌else◌, le→ltb, le→leb, lt→leb, ne→eq,
}
use ww.Memory.Cells.{Cells}
use ww.Vector.Trie.{Zeroed}
use ww.Vector.Data.{Raw, Vector, empty_vector, shallow, deep, api_vector_array_for}
use ww.Vector.Deep.{array_for}
use ww.Vector.Shallow
use ww.Vector.Methods
use ww.Vector.Shape.{leaf_at}
use ww.Vector.Invariant.{leaves, array_for-tail, array_for-trie, entry_at-array_for}
use ww.Vector.Contents.{Holds}
use ww.Seq.Data.{chunked_seq, new_chunked_seq, chunk_count, seq, count, first, next}
use ww.Seq.Iterate.{to_slice}
use ww.Seq.Yields.{Yields, to_slice-Yields}
use ww.Seq.Chunks.{
  Reads, chunk_next-more, chunk_next-last, chunk_count_lem, chunk_first_lem, vector_tailoff_lem,
}

module _ {A : Type 0} where
  shallow-Reads : (v : Raw A) (xs : List A) → Holds (shallow v) xs → v.count < 2 ^ 32 → Reads v xs
  unfolding api_vector_array_for Methods.count Methods.entry_at Shallow.entry_at
  shallow-Reads v xs h bound = record {
    size = h.size;
    bound = bound;
    at = λ q j x small e.
        let near = get_elem?-lt xs (32 * q + j) x e in
        let off = vector_tailoff_lem v.count (omega (arith, h.valid.0)) in
        let first_array : 32 * q + j ≡ j = omega (arith, near, h.size, h.valid.1) in
        (
          v.tail,
          rw (off, le→leb (32 * ((v.count - 1) / 32)) (32 * q) (omega (arith, h.valid.1))) refl,
          ok_injective (
              subst (λ b. (if b then fail index_out_of_bounds else ok (v.tail j)) ≡ ok x)
                (le→ltb 31 j (omega arith))
                (h.at j x (subst (λ i. get_elem? xs i ≡ some x) first_array e))),
        );
  }

  -- The array that a value in range is read from.
  array_at :
      (v : Raw A) (i : ℕ) (vs : Cells A)
      → i < v.count
      → array_for v (pos i) ≡ ok vs
      → api_vector_array_for v v.count i ≡ ok vs
  unfolding array_for
  array_at v i vs lt e =
      subst
        (λ b. (if b then fail index_out_of_bounds else api_vector_array_for v v.count i) ≡ ok vs)
        (lt→leb v.count i lt) e

  deep-Reads : (v : Raw A) (xs : List A) → Holds (deep v) xs → Reads v xs
  unfolding Methods.count Methods.entry_at
  deep-Reads v xs h = record {
    size = h.size;
    bound = h.valid.0.count_bound;
    at = λ q j x small e.
        let d = h.valid.0 in
        let near = get_elem?-lt xs (32 * q + j) x e in
        let lt : 32 * q + j < v.count = omega (arith, near, h.size) in
        let place : (32 * q + j) % 32 ≡ j = omega arith in
        let leaf : (32 * q + j) / 32 ≡ 32 * q / 32 = omega arith in
        elim (dec_le (32 * leaves v.count) (32 * q)) [
          | yes tail ↦ (
            v.tail,
            array_at v (32 * q) v.tail (omega arith)
                (array_for-tail v (32 * q) d.full tail (omega arith)),
            ap v.tail (sym place)
                ∙ ok_injective (
                    sym (
                      entry_at-array_for v (32 * q + j) v.tail
                        (array_for-tail v (32 * q + j) d.full (omega arith) lt))
                    ∙ h.at (32 * q + j) x e),
          )
          | no trie ↦
              let (vs, l) = d.filled (32 * q / 32) (omega arith) in
              (
                vs,
                array_at v (32 * q) vs (omega arith) (
                    array_for-trie v d.depth (32 * q) d.shift_eq d.depth_bound d.full (omega arith)
                    ∙ l),
                ap vs (sym place)
                    ∙ ok_injective (
                        sym (
                          entry_at-array_for v (32 * q + j) vs (
                            array_for-trie v d.depth (32 * q + j) d.shift_eq d.depth_bound d.full
                              (omega arith)
                            ∙ ap (leaf_at (suc d.depth) v.root) leaf
                            ∙ l))
                        ∙ h.at (32 * q + j) x e),
              )
        ];
  }

  -- From any place on, the sequence yields the values that are left.
  chunk-Yields :
      (v : Raw A) (xs : List A) (q j : ℕ) (x : A) (rest : List A)
      → Reads v xs
      → j < 32
      → suc (length rest) + (32 * q + j) ≡ length xs
      → ((k : ℕ) (y : A) → get_elem? (x ∷ rest) k ≡ some y → get_elem? xs (32 * q + j + k) ≡ some y)
      → Yields (chunked_seq (new_chunked_seq v (32 * q) j)) (x ∷ rest)
  unfolding count first next
  chunk-Yields v xs q j x [] h small left at =
      let whole : 32 * q + j + 0 ≡ 32 * q + j = omega arith in
      let here = subst (λ i. get_elem? xs i ≡ some x) whole (at 0 x refl) in
      (
        ap ok (chunk_count_lem v (32 * q) j 1 h.bound (omega (arith, h.size))),
        rw (chunk_first_lem v xs q j x h small here) refl,
        rw (chunk_next-last v q j h.bound small (omega (arith, h.size))) refl,
      )
  chunk-Yields v xs q j x (y ∷ rest) h small left at =
      let whole : 32 * q + j + 0 ≡ 32 * q + j = omega arith in
      let here = subst (λ i. get_elem? xs i ≡ some x) whole (at 0 x refl) in
      let (p, k, n, near, place) = chunk_next-more v q j h.bound small (omega (arith, h.size)) in
      (
        ap ok
            (chunk_count_lem v (32 * q) j (length (x ∷ y ∷ rest)) h.bound (omega (arith, h.size))),
        rw (chunk_first_lem v xs q j x h small here) refl,
        (
          chunked_seq (new_chunked_seq v (32 * p) k),
          rw n refl,
          chunk-Yields v xs p k y rest h near (omega arith) (λ i w e.
              let same : 32 * q + j + suc i ≡ 32 * p + k + i = omega arith in
              subst (λ m. get_elem? xs m ≡ some w) same (at (suc i) w e)),
        ),
      )

  -- The sequence of a vector of 1 to 2^32 - 1 values, in either form, yields its values in order.
  seq_of_raw :
      (v : Raw A) (x : A) (xs : List A)
      → Reads v (x ∷ xs)
      → Yields (chunked_seq (new_chunked_seq v 0 0)) (x ∷ xs)
  seq_of_raw v x xs h = chunk-Yields v (x ∷ xs) 0 0 x xs h (omega arith) (omega arith) (λ k y e.
      let same : k ≡ 32 * 0 + 0 + k = omega arith in
      subst (λ i. get_elem? (x ∷ xs) i ≡ some y) same e)

module _ {A : Type 0} ⦃z : Zeroed A⦄ where
  -- The sequence of a vector that holds a value and more, whichever its form, yields those values
  -- in order: the count, the first value and the rest are right at every step, and it ends with
  -- them.
  pub seq-Yields : (v : Vector A) (x : A) (xs : List A) → Holds v (x ∷ xs) → Yields (seq v) (x ∷ xs)
  unfolding seq Methods.count
  seq-Yields empty_vector x xs h = absurd (omega (arith, h.size))
  seq-Yields (shallow v) x xs h =
      seq_of_raw v x xs (shallow-Reads v (x ∷ xs) h (omega (arith, h.valid.1)))
  seq-Yields (deep v) x xs h =
      rw (ne→eq v.count 0 (omega (arith, h.valid.1))) (seq_of_raw v x xs (deep-Reads v (x ∷ xs) h))

  -- ToSlice of the sequence of a vector that holds fewer than 2^32 values, the empty vector among
  -- them, returns the values in order, whenever the fuel is more than their number.
  pub to_slice-seq :
      (fuel : ℕ) (v : Vector A) (xs : List A)
      → Holds v xs
      → length xs < 2 ^ 32
      → length xs < fuel
      → to_slice fuel (seq v) ≡ ok xs
  unfolding to_slice count chunk_count seq Methods.count
  to_slice-seq fuel empty_vector [] h bound enough = refl
  to_slice-seq fuel (shallow v) [] h bound enough = absurd (omega (arith, h.size, h.valid.0))
  to_slice-seq fuel (deep v) [] h bound enough = absurd (omega (arith, h.size, h.valid.1))
  to_slice-seq fuel v (x ∷ xs) h bound enough =
      to_slice-Yields fuel (seq v) x xs (seq-Yields v x xs h) bound enough
