-- ===== src/Tree/Examples.antt =====
-- Runs of the anchor tree, and its theorems at concrete inputs.
use ww.Prelude.{ℕ, ◌≡◌, refl, arith, [], ◌∷◌, ok}
use ww.Tree.Store.{Name, Heap, ref, add_child, new, walk, node_path, list, path}
use ww.Tree.Paths.{new-IsTree, new_size}
use ww.Tree.Walking.{Walked, walk-Walked}

abbrev foo : Name
foo = 102 ∷ []

abbrev bar : Name
bar = 98 ∷ []

walked : Heap ℕ × ℕ
walked = walk new 0 (foo ∷ bar ∷ [])

runs :
    (walked.1 ≡ 2)
    × (path 5 walked.0 walked.1 ≡ ok (foo ∷ bar ∷ []))
    × ((walk walked.0 0 (foo ∷ [])).1 ≡ 1)
    × ((list walked.0 0).1 ≡ 1 ∷ [])
unfolding walked walk new ref add_child node_path path list
runs = (refl, refl, refl, refl)

walk-Walked_example :
    Walked new
      (walk {A = ℕ} new 0 (foo ∷ bar ∷ [])).0
      0
      (foo ∷ bar ∷ [])
      (walk {A = ℕ} new 0 (foo ∷ bar ∷ [])).1
walk-Walked_example = walk-Walked new 0 (foo ∷ bar ∷ []) new-IsTree (omega (arith, new_size ℕ))
