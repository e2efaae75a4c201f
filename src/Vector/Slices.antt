-- ===== src/Vector/Slices.antt =====
-- The vectors that are made of a slice of values: tailSlice and newShallowPersistentVector.
use ww.Prelude.{
  ℕ, zero, suc, ◌+◌, ◌%◌, ◌^◌, ◌≤◌, ◌<◌, ◌≡◌, refl, arith, Ensures, some, List, length, get_elem?,
  get_elem?-lt,
}
use ww.Memory.Cells.{Cells, write_all, write_all_at}
use ww.Memory.Node.{null}
use ww.Vector.Trie.{Zeroed, empty_values}
use ww.Vector.Data.{Raw, shallow, slice_from, tail_slice, new_shallow}
use ww.Vector.Shallow
use ww.Vector.Methods.{count, entry_at}
use ww.Vector.Contents.{Holds}

module _ {A : Type 0} where
  length-slice_from : (start n : ℕ) (tail : Cells A) → length (slice_from start n tail) ≡ n
  unfolding slice_from
  length-slice_from start zero tail = refl
  length-slice_from start (suc n) tail = omega (arith, length-slice_from (suc start) n tail)

  get_elem?-slice_from :
      (start n : ℕ) (tail : Cells A) (i : ℕ)
      → i < n
      → get_elem? (slice_from start n tail) i ≡ some (tail (start + i))
  unfolding slice_from
  get_elem?-slice_from start zero tail i h = absurd (omega arith)
  get_elem?-slice_from start (suc n) tail zero h = ground arith
  get_elem?-slice_from start (suc n) tail (suc i) h =
      ground (arith, get_elem?-slice_from (suc start) n tail i (omega arith))

  pub length-tail_slice : (n : ℕ) (tail : Cells A) → length (tail_slice n tail) ≡ n
  unfolding tail_slice
  length-tail_slice n tail = length-slice_from 0 n tail

  pub get_elem?-tail_slice :
      (n : ℕ) (tail : Cells A) (i : ℕ) → i < n → get_elem? (tail_slice n tail) i ≡ some (tail i)
  unfolding tail_slice
  get_elem?-tail_slice n tail i h = ground (arith, get_elem?-slice_from 0 n tail i h)

  -- A shallow vector holds what its tail holds.
  pub tail-Holds :
      (v : Raw A) (xs : List A)
      → 1 ≤ v.count
      → v.count ≤ 32
      → v.count ≡ length xs
      → ((i : ℕ) (x : A) → get_elem? xs i ≡ some x → v.tail i ≡ x)
      → Holds (shallow v) xs
  unfolding count entry_at Shallow.entry_at
  tail-Holds v xs low high size at = record {
    valid = (low, high);
    size = size;
    at = λ i x e. ground (arith, at i x e, get_elem?-lt xs i x e);
  }

module _ {A : Type 0} ⦃z : Zeroed A⦄ where
  pub new_shallow-Holds :
      (items : List A)
      → 1 ≤ length items
      → length items ≤ 32
      → Ensures (new_shallow items) (λ s. Holds (shallow s) items)
  unfolding new_shallow
  new_shallow-Holds items low high = (
    record {
      count = length items % 2 ^ 32;
      shift = 0;
      root = null;
      tail = write_all 0 items empty_values;
    },
    ground arith,
    tail-Holds _ items (omega arith) (omega arith) (omega arith)
        (λ i x e. ground (arith, write_all_at 0 items empty_values i x e)),
  )
