-- ===== src/Dispatch/Numbers.antt =====
-- Int64 and BigInt of pkg/lang/core/numbers.go. A big.Int is an integer, and its Bytes its magnitude.
use ww.Prelude.{ℕ, suc, ◌==◌, Bool, true, false, if◌then◌else◌, ltb, ℤ, pos, negsuc}

pub data Number : Type 0 where
  int64 : ℤ → Number
  big_int : ℤ → Number

-- The answers -1, 0 and 1 of Comp
pub data Sign : Type 0 where
  less equal greater : Sign

-- a == b
abbrev pub eq_int : ℤ → ℤ → Bool
eq_int (pos a) (pos b) = a == b
eq_int (pos a) (negsuc b) = false
eq_int (negsuc a) (pos b) = false
eq_int (negsuc a) (negsuc b) = a == b

-- a > b
abbrev pub gt_int : ℤ → ℤ → Bool
gt_int (pos a) (pos b) = ltb b a
gt_int (pos a) (negsuc b) = true
gt_int (negsuc a) (pos b) = false
gt_int (negsuc a) (negsuc b) = ltb a b

-- compI64, and Cmp of big.Int
unfoldable pub comp_int : ℤ → ℤ → Sign
comp_int a b = if eq_int a b then equal else if gt_int a b then greater else less

abbrev pub integer : Number → ℤ
integer (int64 i) = i
integer (big_int i) = i

-- Comp of the two kinds, with one another
unfoldable pub comp : Number → Number → Sign
comp a b = comp_int (integer a) (integer b)

-- Zero
abbrev pub zero_number : Number → Bool
zero_number n = eq_int (integer n) (pos 0)

-- NewBigInt: what is stored is i.Bytes().
abbrev pub stored_big_int : ℤ → ℕ
stored_big_int (pos n) = n
stored_big_int (negsuc n) = suc n

-- asBigInt, of what is stored
abbrev pub as_big_int : ℕ → Number
as_big_int bytes = big_int (pos bytes)
