-- ===== src/Dispatch/Examples.antt =====
-- Runs of the dispatch on values, and its theorems at concrete inputs.
use ww.Prelude.{
  ℕ, ◌≡◌, refl, arith, pos, negsuc, true, false, ok, fail, ◌>>=◌, incomparable, Ensures, List, [],
  ◌∷◌, Result,
}
use ww.LinkedList.Data.{AnyList, empty_list}
use ww.LinkedList.Laws.{new_list-Holds}
use ww.Vector.Data.{empty_vector}
use ww.Vector.Methods.{count}
use ww.Vector.Samples.{nat_zeroed}
use ww.Dispatch.Numbers.{comp_int, greater, int64, big_int, comp, stored_big_int, as_big_int}
use ww.Dispatch.Values.{Value, nil_value, boolean, number, string, atom, list, vector}
use ww.Dispatch.Operations.{is_truthy, pop, conj, eq}
use ww.Dispatch.Equality.{eq-other}
use ww.Dispatch.Containers.{Has, conj-Has, Leaves, is_truthy-Has, pop-conj}

-- A tag and canonical bytes for the values of the runs.
abbrev tag_of : Value ℕ → ℕ
tag_of nil_value = 0
tag_of (boolean b) = 1
tag_of (number n) = 2
tag_of (string s) = 3
tag_of (atom tag s) = tag
tag_of (list l) = 4
tag_of (vector v) = 5

abbrev bytes_of : Value ℕ → Result (List ℕ)
bytes_of (string s) = ok s
bytes_of (atom tag s) = ok s
bytes_of _ = ok []

run_eq :
    (eq tag_of bytes_of (string (104 ∷ [])) (string (104 ∷ [])) ≡ ok true)
    × (eq tag_of bytes_of (string (104 ∷ [])) (atom 7 (104 ∷ [])) ≡ ok false)
    × (eq tag_of bytes_of (number (int64 (negsuc 4))) (number (big_int (negsuc 4))) ≡ ok true)
    × (eq tag_of bytes_of (number (int64 (negsuc 4))) (number (big_int (pos 4))) ≡ ok false)
    × (eq tag_of bytes_of nil_value (boolean false) ≡ ok false)
unfolding eq comp comp_int
run_eq = (refl, refl, refl, refl, refl)

eq-other_example :
    (eq tag_of bytes_of (string (104 ∷ [])) (number (int64 (pos 3))) ≡ ok true)
    × (eq tag_of bytes_of (number (int64 (pos 3))) (string (104 ∷ [])) ≡ fail incomparable)
eq-other_example = eq-other tag_of bytes_of (string (104 ∷ [])) (int64 (pos 3)) refl

-- A negative BigInt that is loaded again is another one.
stored_sign : comp (as_big_int (stored_big_int (negsuc 4))) (big_int (negsuc 4)) ≡ greater
unfolding comp comp_int
stored_sign = refl

abbrev three : List ℕ
three = 10 ∷ 11 ∷ 12 ∷ []

abbrev sample_list : AnyList ℕ
sample_list = (new_list-Holds three).0

is_truthy-Has_example : is_truthy (list sample_list) ≡ ok false
is_truthy-Has_example =
    is_truthy-Has (list sample_list) three (new_list-Holds three).2 (omega arith)

run_empty :
    (is_truthy {A = ℕ} (list empty_list) ≡ ok false)
    × (is_truthy {A = ℕ} (vector empty_vector) ≡ ok true)
unfolding is_truthy count
run_empty = (refl, refl)

conj-Has_example : Ensures (conj (list empty_list) three) (λ w. Has w three)
conj-Has_example = conj-Has (list empty_list) [] three refl (omega arith)

pop-conj_example : Ensures (do w ← conj (list sample_list) (9 ∷ []); pop w) (λ r. Leaves r three)
pop-conj_example = pop-conj (list sample_list) three 9 (new_list-Holds three).2 (omega arith)
