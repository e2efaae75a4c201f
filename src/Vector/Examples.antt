-- ===== src/Vector/Examples.antt =====
-- Runs of the vector, and its theorems at concrete inputs.
use ww.Prelude.{
  ℕ, ◌≡◌, refl, arith, pos, ok, fail, index_out_of_bounds, ◌>>=◌, Ensures, List, [], ◌∷◌, ◌++◌, set,
  Result,
}
use ww.Memory.Cells.{copy, write_all}
use ww.Memory.Node.{branch_at, set_branch}
use ww.Vector.Trie.{vector_tailoff, descend, leaf_values, trie_values, new_path, push_tail}
use ww.Vector.Data.{Vector, empty_vector, new_shallow, tail_slice, api_vector_array_for}
use ww.Vector.Data
use ww.Vector.Deep.{new_deep, grown_root, lower_root, array_for}
use ww.Vector.Deep
use ww.Vector.Shallow
use ww.Vector.Methods.{entry_at, new_vector, conj, assoc, pop}
use ww.Vector.Contents.{Holds}
use ww.Vector.Samples.{nat_zeroed, items, count_up}
use ww.Vector.Laws.{new_vector-Holds, conj-Holds, assoc-Holds, pop_last-Holds}
use ww.Vector.Reading.{new_vector_gap}

run : List ℕ → ℕ → Result ℕ
unfolding new_vector new_shallow new_deep Deep.conj Deep.cons Deep.entry_at grown_root push_tail
    new_path api_vector_array_for trie_values descend leaf_values copy write_all branch_at
    set_branch vector_tailoff Data.new_vector Shallow.entry_at entry_at
run xs i = do v ← new_vector xs; entry_at v (pos i)

run_reads :
    (run items 0 ≡ ok 100)
    × (run items 40 ≡ ok 140)
    × (run items 69 ≡ ok 169)
    × (run items 70 ≡ fail index_out_of_bounds)
unfolding run
run_reads = (refl, refl, refl, refl)

new_vector-Holds_example : Ensures (new_vector items) (λ v. Holds v items)
new_vector-Holds_example = new_vector-Holds items (omega arith)

-- A vector that holds the items.
abbrev sample : Vector ℕ
sample = new_vector-Holds_example.0

abbrev sample-Holds : Holds sample items
sample-Holds = new_vector-Holds_example.2

conj-Holds_example :
    Ensures (conj sample (7 ∷ 8 ∷ [])) (λ r. Holds r.0 (items ++ 7 ∷ 8 ∷ []) × Holds r.1 items)
conj-Holds_example = conj-Holds sample items (7 ∷ 8 ∷ []) sample-Holds (omega arith)

assoc-Holds_example :
    Ensures (assoc sample (pos 40) 7) (λ r. Holds r.0 (set items 40 7) × Holds r.1 items)
assoc-Holds_example = assoc-Holds sample items 40 7 sample-Holds (omega arith)

pop_last-Holds_example : Ensures (pop sample) (λ w. Holds w (count_up 100 69))
pop_last-Holds_example = pop_last-Holds sample (count_up 100 69) 169 sample-Holds

new_vector_gap_example : Ensures (new_vector {A = ℕ} (5 ∷ 6 ∷ [])) (λ v. entry_at v (pos 2) ≡ ok 0)
new_vector_gap_example = new_vector_gap (5 ∷ 6 ∷ []) 2 (omega arith) (omega arith) (omega arith)
