-- ===== src/Vector/Samples.antt =====
-- Values for the runs and the concrete theorems on vectors.
use ww.Prelude.{ℕ, zero, suc, List, [], ◌∷◌}
use ww.Memory.Cells.{Cells, write}
use ww.Memory.Node.{Node, values, empty_branches}
use ww.Vector.Trie.{Zeroed}

instance abbrev pub nat_zeroed : Zeroed ℕ
nat_zeroed = record { nil = 0 }

-- start, start + 1, …
abbrev pub count_up : ℕ → ℕ → List ℕ
count_up start zero = []
count_up start (suc n) = start ∷ count_up (suc start) n

-- 100, …, 169: two leaves and a tail of six values
abbrev pub items : List ℕ
items = count_up 100 70

abbrev pub ones : Cells ℕ
ones _ = 1

abbrev pub twos : Cells ℕ
twos _ = 2

-- Two leaves under one root.
abbrev pub two_leaves : Cells (Node ℕ)
two_leaves = write (write empty_branches 0 (values ones)) 1 (values twos)
