-- ===== src/Vector/Contents.antt =====
-- The abstract view of a vector: the list of its values.
use ww.Prelude.{ℕ, ◌≤◌, ◌≡◌, ok, some, pos, List, length, get_elem?}
use ww.Vector.Data.{Vector, empty_vector, shallow, deep}
use ww.Vector.Methods.{count, entry_at}
use ww.Vector.Invariant.{IsDeep}

module _ {A : Type 0} where
  -- A shallow vector has 1 to 32 values, a deep one more than 32.
  abbrev pub IsValid : Vector A → Type 0
  IsValid empty_vector = Unit
  IsValid (shallow v) = (1 ≤ v.count) × (v.count ≤ 32)
  IsValid (deep v) = IsDeep v × (33 ≤ v.count)

  -- The vector is well formed, has as many values as the list, and reads the same at each index.
  pub record Holds (v : Vector A) (xs : List A) : Type 0 where
    pub valid : IsValid v
    pub size : count v ≡ length xs
    pub at : (i : ℕ) (x : A) → get_elem? xs i ≡ some x → entry_at v (pos i) ≡ ok x
