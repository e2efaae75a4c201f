-- ===== src/Dispatch/Values.antt =====
-- The values of pkg/lang/core, by the interfaces that pkg/lang/core/core.go asks for.
use ww.Prelude.{ℕ, Bool, true, false, List, Option, none, some}
use ww.LinkedList.Data.{AnyList, empty_list, head_list, packed_list, deep_list}
use ww.Vector.Data.{Vector}
use ww.Dispatch.Numbers.{Number}

-- A String is countable; a keyword, a symbol, a character or a path is an `atom` of its tag. The
-- items of lists and vectors are of any type.
pub data Value (A : Type 0) : Type 0 where
  nil_value : Value A
  boolean : Bool → Value A
  number : Number → Value A
  string : List ℕ → Value A
  atom : (tag : ℕ) → List ℕ → Value A
  list : AnyList A → Value A
  vector : Vector A → Value A

module _ {A : Type 0} where
  -- Whether no field is set in the value of a list: only emptyList, of which Which says that it is nil
  abbrev pub is_unset : AnyList A → Bool
  is_unset empty_list = true
  is_unset (head_list l) = false
  is_unset (packed_list l) = false
  is_unset (deep_list l) = false

  -- IsNil
  abbrev pub is_nil : Value A → Bool
  is_nil nil_value = true
  is_nil (boolean b) = false
  is_nil (number n) = false
  is_nil (string s) = false
  is_nil (atom tag s) = false
  is_nil (list l) = is_unset l
  is_nil (vector v) = false

  -- The values that are Comparable
  abbrev pub as_number : Value A → Option Number
  as_number (number n) = some n
  as_number nil_value = none
  as_number (boolean b) = none
  as_number (string s) = none
  as_number (atom tag s) = none
  as_number (list l) = none
  as_number (vector v) = none
