-- ===== src/Vector/Methods.antt =====
-- The interface Vector of pkg/lang/core/vector.go: each method by the implementation that a value
-- has, EmptyPersistentVector among them. Behind a result that may have written into the memory of
-- its receiver stands the receiver's new state.
use ww.Prelude.{
  ℕ, zero, suc, ◌^◌, ◌-◌, leb, ltb, ◌==◌, if◌then◌else◌, ℤ, pos, negsuc, List, [], ◌∷◌, length,
  take, drop, Result, ok, fail, ◌>>=◌, index_out_of_bounds, illegal_state, arity, not_integer,
}
use ww.Memory.Cells.{write_all}
use ww.Vector.Trie.{width, Zeroed, empty_values}
use ww.Vector.Data.{Vector, empty_vector, shallow, deep, new_shallow}
use ww.Vector.Shallow
use ww.Vector.Deep
use ww.Vector.Deep.{new_deep}

-- What invokeVector tells apart: an int64, a big integer, and anything else.
pub data Index : Type 0 where
  i64 : ℤ → Index
  big_int : ℤ → Index
  other : Index

module _ {A : Type 0} where
  -- Count
  unfoldable pub count : Vector A → ℕ
  count empty_vector = 0
  count (shallow v) = v.count
  count (deep v) = v.count

  -- EntryAt
  unfoldable pub entry_at : Vector A → ℤ → Result A
  entry_at empty_vector i = fail index_out_of_bounds
  entry_at (shallow v) i = Shallow.entry_at v i
  entry_at (deep v) i = Deep.entry_at v i

  -- invokeVector; IsInt64 holds of every negative number that it lets through
  unfoldable pub invoke_vector : Vector A → List Index → Result A
  invoke_vector v [] = fail arity
  invoke_vector v (i64 i ∷ []) = entry_at v i
  invoke_vector v (big_int (pos i) ∷ []) =
      if leb i (2 ^ 32 - 1) then entry_at v (pos i) else fail index_out_of_bounds
  invoke_vector v (big_int (negsuc i) ∷ []) =
      if ltb i (2 ^ 63) then entry_at v (negsuc i) else fail index_out_of_bounds
  invoke_vector v (other ∷ []) = fail not_integer
  invoke_vector v (_ ∷ _ ∷ _) = fail arity

module _ {A : Type 0} ⦃z : Zeroed A⦄ where
  -- (EmptyPersistentVector).conj, and so NewVector
  unfoldable pub new_vector : List A → Result (Vector A)
  new_vector items =
      if length items == 0
      then ok empty_vector
      else if leb (length items) width
      then (do s ← new_shallow items; ok (shallow s))
      else do
        d ← new_deep (write_all 0 (take width items) empty_values) (drop width items)
        ok (deep d)

  -- Conj
  unfoldable pub conj : Vector A → List A → Result (Vector A × Vector A)
  conj empty_vector items = do v ← new_vector items; ok (v, empty_vector)
  conj (shallow v) items = do v' ← Shallow.conj v items; ok (v', shallow v)
  conj (deep v) items = do (v', receiver) ← Deep.conj v items; ok (deep v', deep receiver)

  -- Cons
  unfoldable pub cons : Vector A → A → Result (Vector A × Vector A)
  cons empty_vector item = do s ← new_shallow (item ∷ []); ok (shallow s, empty_vector)
  cons (shallow v) item = do v' ← Shallow.cons v item; ok (v', shallow v)
  cons (deep v) item = do (v', receiver) ← Deep.cons v item; ok (deep v', deep receiver)

  -- Assoc
  unfoldable pub assoc : Vector A → ℤ → A → Result (Vector A × Vector A)
  assoc empty_vector (pos zero) item = cons empty_vector item
  assoc empty_vector (pos (suc i)) item = fail index_out_of_bounds
  assoc empty_vector (negsuc i) item = fail index_out_of_bounds
  assoc (shallow v) i item = do v' ← Shallow.assoc v i item; ok (v', shallow v)
  assoc (deep v) i item = do (v', receiver) ← Deep.assoc v i item; ok (deep v', deep receiver)

  -- Pop
  unfoldable pub pop : Vector A → Result (Vector A)
  pop empty_vector = fail illegal_state
  pop (shallow v) = ok (Shallow.pop v)
  pop (deep v) = Deep.pop v
