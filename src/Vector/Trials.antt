-- ===== src/Vector/Trials.antt =====
-- The theorems on the trie at concrete tries.
use ww.Prelude.{ℕ, zero, suc, ◌<◌, ◌≡◌, ◌∙◌, arith, ok, Succeeds}
use ww.Memory.Cells.{write, write-all}
use ww.Memory.Node.{values, branches, empty_branches}
use ww.Vector.Shape.{Fits, leaf_at, leaf_at-branches, leaf_at-values}
use ww.Vector.Samples.{nat_zeroed, ones, twos, two_leaves}

leaf_zero : leaf_at 1 (branches two_leaves) 0 ≡ ok ones
leaf_zero = leaf_at-branches 0 0 two_leaves ∙ leaf_at-values 0 ones

leaf_one : leaf_at 1 (branches two_leaves) 1 ≡ ok twos
leaf_one = leaf_at-branches 0 1 two_leaves ∙ leaf_at-values 1 twos

two_leaves-Fits : (j : ℕ) → Fits 0 (two_leaves j)
two_leaves-Fits =
    write-all (Fits 0) (write empty_branches 0 (values ones)) 1 (values twos) tt
      (write-all (Fits 0) empty_branches 0 (values ones) tt (λ j. tt))

two_leaves_filled : (q : ℕ) → q < 2 → Succeeds (leaf_at 1 (branches two_leaves) q)
two_leaves_filled zero h = (ones, leaf_zero)
two_leaves_filled (suc zero) h = (twos, leaf_one)
two_leaves_filled (suc (suc q)) h = absurd (omega arith)
