-- ===== src/Dispatch/Operations.antt =====
-- IsTruthy, Eq, Pop and Conj of pkg/lang/core/core.go. No value is an EqualityProvider.
use ww.Prelude.{
  ℕ, ◌==◌, ◌&&◌, not, Bool, true, false, if◌then◌else◌, List, length, same_text, Option, none, some,
  Result, ok, fail, ◌>>=◌, illegal_state, incomparable, not_container,
}
use ww.LinkedList.Data.{AnyList}
use ww.LinkedList.Methods as LinkedList
use ww.Vector.Data.{Vector}
use ww.Vector.Trie.{Zeroed}
use ww.Vector.Methods as Vec
use ww.Dispatch.Numbers.{Number, Sign, less, equal, greater, comp, zero_number}
use ww.Dispatch.Values.{
  Value, nil_value, boolean, number, string, atom, list, vector, is_nil, as_number,
}

abbrev pub is_equal : Sign → Bool
is_equal equal = true
is_equal less = false
is_equal greater = false

-- Comp of a number with what number a value is, if it is one
abbrev pub comp_by : Number → Option Number → Result Sign
comp_by n none = fail incomparable
comp_by n (some m) = ok (comp n m)

-- The container that Pop leaves: the rest of a list, nil at its end, or a vector
pub data Popped (A : Type 0) : Type 0 where
  list_left : Option (AnyList A) → Popped A
  vector_left : Vector A → Popped A

module _ {A : Type 0} where
  -- The switch of IsTruthy
  abbrev pub truthy_by : Value A → Result Bool
  truthy_by (boolean b) = ok b
  truthy_by (number n) = ok (not (zero_number n))
  truthy_by (string s) = ok (length s == 0)
  truthy_by (list l) = do i ← LinkedList.count l; ok (i == 0)
  truthy_by (vector v) = ok (Vec.count v == 0)
  truthy_by nil_value = ok true
  truthy_by (atom tag s) = ok true

  -- IsTruthy
  unfoldable pub is_truthy : Value A → Result Bool
  is_truthy v = if is_nil v then ok false else truthy_by v

  abbrev pub comp_value : Number → Value A → Result Sign
  comp_value n v = comp_by n (as_number v)

module _ {A : Type 0} ⦃z : Zeroed A⦄ where
  -- Pop
  unfoldable pub pop : Value A → Result (Popped A)
  pop (vector v) = do w ← Vec.pop v; ok (vector_left w)
  pop (list l) = do
    cnt ← LinkedList.count l
    if cnt == 0 then fail illegal_state else (do rest ← LinkedList.next l; ok (list_left rest))
  pop nil_value = fail not_container
  pop (boolean b) = fail not_container
  pop (number n) = fail not_container
  pop (string s) = fail not_container
  pop (atom tag s) = fail not_container

  -- The call of the method Conj, if the value has it
  abbrev pub conj_by : Value A → List A → Result (Value A)
  conj_by (list l) xs = do r ← LinkedList.conj l xs; ok (list r)
  conj_by (vector v) xs = do (w, _) ← Vec.conj v xs; ok (vector w)
  conj_by nil_value xs = fail not_container
  conj_by (boolean b) xs = fail not_container
  conj_by (number n) xs = fail not_container
  conj_by (string s) xs = fail not_container
  conj_by (atom tag s) xs = fail not_container

  -- Conj
  unfoldable pub conj : Value A → List A → Result (Value A)
  conj v xs =
      let made = (do l ← LinkedList.new_list xs; ok (list l)) in
      if is_nil v then made else conj_by v xs

-- The tag of the stored value, and its canonical bytes, are of the wire library.
module _ {A : Type 0} (which : Value A → ℕ) (canonical : Value A → Result (List ℕ)) where
  -- The end of Eq
  abbrev pub eq_canonical : Value A → Value A → Result Bool
  eq_canonical a b =
      let bytes = (do ca ← canonical a; cb ← canonical b; ok (same_text ca cb)) in
      if which a == which b then bytes else ok false

  -- The second switch of Eq, with the number that `b` is
  abbrev pub eq_right : Option Number → Value A → Value A → Result Bool
  eq_right (some n) a b = do i ← comp_value n b; ok (is_equal i)
  eq_right none a b = eq_canonical a b

  -- The first switch of Eq, with the number that `a` is
  abbrev pub eq_left : Option Number → Value A → Value A → Result Bool
  eq_left (some n) a b = do i ← comp_value n b; ok (is_equal i)
  eq_left none a b = eq_right (as_number b) a b

  -- Eq
  unfoldable pub eq : Value A → Value A → Result Bool
  eq a b =
      let compared = eq_left (as_number a) a b in if is_nil a && is_nil b then ok true else compared
