-- ===== src/Vector/Reading.antt =====
-- EntryAt and invokeVector past the end of a vector, and what a shallow vector does there.
use ww.Prelude.{
  ℕ, ◌-◌, ◌^◌, ◌≤◌, ◌<◌, ◌≡◌, refl, ap, arith, pos, ok, fail, index_out_of_bounds, Ensures, List,
  [], ◌∷◌, length, ne→eq, le→leb, le→ltb, get_elem?, get_elem?-lt, some,
}
use ww.Memory.Cells.{write_all_above}
use ww.Vector.Trie.{Zeroed, empty_values}
use ww.Vector.Data.{Vector, empty_vector, shallow, deep, new_shallow, shallow_of}
use ww.Vector.Shallow
use ww.Vector.Deep
use ww.Vector.Methods.{i64, big_int, count, entry_at, invoke_vector, new_vector}
use ww.Vector.Contents.{Holds}

module _ {A : Type 0} where
  -- A read at an index that is at least 32 and at least the length is ErrIndexOutOfBounds.
  pub entry_at_out :
      (v : Vector A) (xs : List A) (i : ℕ)
      → Holds v xs
      → length xs ≤ i
      → 32 ≤ i
      → entry_at v (pos i) ≡ fail index_out_of_bounds
  unfolding entry_at count Shallow.entry_at Deep.entry_at
  entry_at_out empty_vector xs i h past far = refl
  entry_at_out (shallow v) xs i h past far = ground arith
  entry_at_out (deep v) xs i h past far = ground (arith, h.size)

  -- Invoking a vector of fewer than 2^32 values with an index in range, as an int64 or as a big
  -- integer, returns the value at that index.
  pub invoke_vector-Holds :
      (v : Vector A) (xs : List A) (i : ℕ) (x : A)
      → Holds v xs
      → length xs < 2 ^ 32
      → get_elem? xs i ≡ some x
      → (invoke_vector v (i64 (pos i) ∷ []) ≡ ok x)
        × (invoke_vector v (big_int (pos i) ∷ []) ≡ ok x)
  unfolding invoke_vector
  invoke_vector-Holds v xs i x h bound e =
      (h.at i x e, rw (le→leb i (2 ^ 32 - 1) (omega (arith, get_elem?-lt xs i x e))) (h.at i x e))

module _ {A : Type 0} ⦃z : Zeroed A⦄ where
  -- In a new vector of 1 to 31 items, a read past the last item and below 32 returns nil and no
  -- error.
  pub new_vector_gap :
      (items : List A) (i : ℕ)
      → 1 ≤ length items
      → length items ≤ i
      → i ≤ 31
      → Ensures (new_vector items) (λ v. entry_at v (pos i) ≡ ok z.nil)
  unfolding new_vector new_shallow entry_at Shallow.entry_at
  new_vector_gap items i some_item past near =
      rw
        (
          ne→eq (length items) 0 (omega arith),
          le→leb (length items) 32 (omega arith),
          le→ltb 32 (length items) (omega arith),
        )
        (
          shallow (shallow_of items),
          refl,
          rw (le→ltb 31 i near) (ap ok (write_all_above 0 items empty_values i (omega arith))),
        )
