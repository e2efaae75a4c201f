-- ===== src/Dispatch/Equality.antt =====
-- Eq of pkg/lang/core/core.go on numbers and with a value that is none, and the numbers themselves.
use ww.Prelude.{
  ◌∙◌, ℕ, ◌≡◌, inl, inr, refl, ap, arith, Bool, true, ok, fail, Result, List, none, incomparable, ℤ,
  pos, negsuc, eq_self, Bool-cases,
}
use ww.LinkedList.Data.{empty_list, head_list, packed_list, deep_list}
use ww.Dispatch.Numbers.{
  Number, Sign, less, equal, greater, eq_int, gt_int, comp_int, comp, integer,
}
use ww.Dispatch.Values.{Value, nil_value, boolean, number, string, atom, list, vector, as_number}
use ww.Dispatch.Operations.{is_equal, eq}

eq_int_self : (i : ℤ) → eq_int i i ≡ true
eq_int_self (pos n) = eq_self n
eq_int_self (negsuc n) = eq_self n

is_equal-comp : (m n : Number) → is_equal (comp m n) ≡ eq_int (integer m) (integer n)
unfolding comp comp_int
is_equal-comp m n = elim (Bool-cases (eq_int (integer m) (integer n))) [
  | inl same ↦ rw same refl
  | inr other ↦ rw other (elim (Bool-cases (gt_int (integer m) (integer n))) [
    | inl above ↦ rw above refl
    | inr below ↦ rw below refl
  ])
]

-- The answer with its sign turned
abbrev pub opposite : Sign → Sign
opposite less = greater
opposite equal = equal
opposite greater = less

comp_int_flip : (a b : ℤ) → comp_int b a ≡ opposite (comp_int a b)
unfolding comp_int
comp_int_flip (pos a) (pos b) = ground arith
comp_int_flip (pos a) (negsuc b) = refl
comp_int_flip (negsuc a) (pos b) = refl
comp_int_flip (negsuc a) (negsuc b) = ground arith

-- Comp the other way round gives the opposite sign, whatever the kinds of the two numbers.
pub comp_flip : (m n : Number) → comp n m ≡ opposite (comp m n)
unfolding comp
comp_flip m n = comp_int_flip (integer m) (integer n)

eq-itself : (n : Number) → ◌≡◌ {A = Result Bool} (ok (is_equal (comp n n))) (ok true)
eq-itself n = ap ok (is_equal-comp n n ∙ eq_int_self (integer n))

module _ {A : Type 0} (which : Value A → ℕ) (canonical : Value A → Result (List ℕ)) where
  -- Two numbers are Eq exactly when their integers are the same.
  pub eq-numbers :
      (m n : Number)
      → eq which canonical (number m) (number n) ≡ ok (eq_int (integer m) (integer n))
  unfolding eq
  eq-numbers m n = ap ok (is_equal-comp m n)

  -- A value that is no number, nil included, is Eq to every integer, while the integer is
  -- incomparable with it, whatever the tags and the canonical bytes.
  pub eq-other :
      (a : Value A) (n : Number)
      → as_number a ≡ none
      → (eq which canonical a (number n) ≡ ok true)
        × (eq which canonical (number n) a ≡ fail incomparable)
  unfolding eq
  eq-other nil_value n h = (eq-itself n, refl)
  eq-other (boolean b) n h = (eq-itself n, refl)
  eq-other (string s) n h = (eq-itself n, refl)
  eq-other (atom tag s) n h = (eq-itself n, refl)
  eq-other (list empty_list) n h = (eq-itself n, refl)
  eq-other (list (head_list l)) n h = (eq-itself n, refl)
  eq-other (list (packed_list l)) n h = (eq-itself n, refl)
  eq-other (list (deep_list l)) n h = (eq-itself n, refl)
  eq-other (vector v) n h = (eq-itself n, refl)
  eq-other (number m) n h = ground arith
