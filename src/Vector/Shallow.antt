-- ===== src/Vector/Shallow.antt =====
-- ShallowPersistentVector of pkg/lang/core/vector.go, with up to 32 values, all in its tail.
use ww.Prelude.{
  ℕ, ◌+◌, ◌-◌, ◌%◌, ◌^◌, ℤ, pos, negsuc, leb, ltb, ◌==◌, if◌then◌else◌, List, [], ◌∷◌, ◌++◌, length,
  take, drop, Result, ok, fail, ◌>>=◌, index_out_of_bounds,
}
use ww.Memory.Cells.{Cells, write, write_all, copy}
use ww.Memory.Node.{null}
use ww.Vector.Trie.{width, Zeroed, empty_values}
use ww.Vector.Data.{Raw, Vector, empty_vector, shallow, deep, tail_slice, new_shallow}
use ww.Vector.Deep.{new_deep}

module _ {A : Type 0} where
  -- EntryAt: the index is held against the capacity of the tail, not against the count.
  unfoldable pub entry_at : Raw A → ℤ → Result A
  entry_at v (negsuc i) = fail index_out_of_bounds
  entry_at v (pos i) = if ltb 31 i then fail index_out_of_bounds else ok (v.tail i)

module _ {A : Type 0} ⦃z : Zeroed A⦄ where
  -- A new vector with the given count and tail; its root and its shift stay zeroed.
  abbrev tail_vector : ℕ → Cells A → Raw A
  tail_vector count tail = record { count = count % 2 ^ 32; shift = 0; root = null; tail = tail }

  -- shallowCons
  unfoldable pub shallow_cons : Raw A → A → Raw A
  shallow_cons v item =
      tail_vector (v.count + 1) (write (copy v.count v.tail empty_values) v.count item)

  -- cons: deepCons where the tail is full
  unfoldable pub cons : Raw A → A → Result (Vector A)
  unfolding shallow_cons
  cons v item =
      if ltb v.count width
      then ok (shallow (shallow_cons v item))
      else do d ← new_deep v.tail (item ∷ []); ok (deep d)

  -- update: each round of the loop copies a value, or sets the new one at its index
  unfoldable pub update : Raw A → ℕ → A → Raw A
  update v idx item =
      tail_vector v.count (copy v.count (λ i. if i == idx then item else v.tail i) empty_values)

  -- Assoc
  unfoldable pub assoc : Raw A → ℤ → A → Result (Vector A)
  unfolding update
  assoc v (negsuc i) item = fail index_out_of_bounds
  assoc v (pos i) item =
      if ltb i v.count
      then ok (shallow (update v i item))
      else if i == v.count
      then cons v item
      else fail index_out_of_bounds

  -- conj
  unfoldable pub conj : Raw A → List A → Result (Vector A)
  conj v [] = ok (shallow v)
  conj v (any ∷ rest) =
      let items = any ∷ rest in
      let offset = width - v.count in
      let newtail = copy v.count v.tail empty_values in
      if leb (v.count + length items) width
      then (do s ← new_shallow (tail_slice v.count v.tail ++ items); ok (shallow s))
      else if ltb v.count width
      then (do
        d ← new_deep (write_all v.count (take offset items) newtail) (drop offset items)
        ok (deep d))
      else do d ← new_deep newtail items; ok (deep d)

  -- Pop
  unfoldable pub pop : Raw A → Vector A
  pop v =
      if v.count == 1
      then empty_vector
      else shallow (
          tail_vector (v.count + 2 ^ 32 - 1)
            (copy ((v.count + 2 ^ 32 - 1) % 2 ^ 32) v.tail empty_values))
