-- ===== src/LinkedList/Examples.antt =====
-- Runs of a list, and its theorems at concrete inputs.
use ww.Prelude.{ℕ, ◌≡◌, refl, List, [], ◌∷◌, some, none, ok, ◌>>=◌, Ensures, Result, Option}
use ww.LinkedList.Data.{AnyList, empty_list, get_head, packed_cell, get_cell}
use ww.LinkedList.Methods.{
  deep_count, head_first, packed_first, deep_first, new_list, cons, conj, count, first, next,
  head_cons, deep_cons, offset, deep_conj, packed_conj, head_conj, empty_conj,
}
use ww.LinkedList.Contents.{Holds}
use ww.LinkedList.Laws.{list-conj-Holds, new_list-Holds, first-next_empty}

abbrev five : List ℕ
five = 1 ∷ 2 ∷ 3 ∷ 4 ∷ 5 ∷ []

-- The count and the first value after NewList and Conj
run : List ℕ → List ℕ → Result (ℕ × Option ℕ)
unfolding new_list conj count deep_count first head_first packed_first deep_first cons get_head
    packed_cell get_cell head_cons deep_cons offset deep_conj packed_conj head_conj empty_conj
run xs items = do l ← new_list xs; r ← conj l items; c ← count r; x ← first r; ok (c, x)

run_counts :
    (run five (7 ∷ 8 ∷ []) ≡ ok (7, some 8))
    × (run [] (7 ∷ 8 ∷ 9 ∷ []) ≡ ok (3, some 9))
    × (run [] [] ≡ ok (0, none))
unfolding run
run_counts = (refl, refl, refl)

abbrev sample : AnyList ℕ
sample = (new_list-Holds five).0

abbrev sample-Holds : Holds sample five
sample-Holds = (new_list-Holds five).2

list-conj-Holds_example : Ensures (conj sample (7 ∷ 8 ∷ [])) (λ r. Holds r (8 ∷ 7 ∷ five))
list-conj-Holds_example = list-conj-Holds sample five (7 ∷ 8 ∷ []) sample-Holds

abbrev after_one : List ℕ
after_one = 2 ∷ 3 ∷ 4 ∷ 5 ∷ []

first-next_empty_example :
    (first {A = ℕ} empty_list ≡ ok none) × (next {A = ℕ} empty_list ≡ ok none)
first-next_empty_example = first-next_empty empty_list refl
