-- ===== src/Vector/Shape.antt =====
-- What a well-formed trie is, and how the loop of apiVectorArrayFor reads it: leaf by leaf, with no
-- levels and no fuel.
use ww.Prelude.{
  ℕ, zero, suc, ◌*◌, ◌/◌, ◌≤◌, ◌<◌, ◌≡◌, ◌≢◌, refl, sym, eq_self, arith, lt→ltb, bind-cong, Result,
  ok, ◌>>=◌,
}
use ww.Memory.Cells.{Cells, write, write_ne}
use ww.Memory.Node.{Node, null, branches, values, branch_at}
use ww.Vector.Trie.{descend, leaf_values, trie_values}
use ww.Vector.Digits.{digit, sub_index-level, level_down-suc}

module _ {A : Type 0} where
  abbrev pub IsBranches : Node A → Type 0
  IsBranches null = ⊥
  IsBranches (branches bs) = Unit
  IsBranches (values vs) = ⊥

  abbrev pub NotNull : Node A → Type 0
  NotNull null = ⊥
  NotNull (branches bs) = Unit
  NotNull (values vs) = Unit

  -- Below a node of depth `d` every path has `d` branch nodes and then a leaf, or ends in null.
  abbrev pub Fits : ℕ → Node A → Type 0
  Fits d null = Unit
  Fits zero (branches bs) = ⊥
  Fits zero (values vs) = Unit
  Fits (suc d) (branches bs) = (j : ℕ) → Fits d (bs j)
  Fits (suc d) (values vs) = ⊥

  -- The leaf of a number, by its digits.
  pub leaf_at : ℕ → Node A → ℕ → Result (Cells A)
  leaf_at zero n q = leaf_values n
  leaf_at (suc d) n q = do child ← descend n (digit d q); leaf_at d child q

  -- The loop of the source reads that leaf.
  pub trie_values-leaf_at :
      (d fuel : ℕ) (n : Node A) (i : ℕ)
      → d < fuel
      → d ≤ 50
      → trie_values fuel (5 * d) n i ≡ leaf_at d n (i / 32)
  unfolding trie_values leaf_at
  trie_values-leaf_at zero (suc fuel) n i h k = refl
  trie_values-leaf_at (suc d) (suc fuel) n i h k =
      rw (lt→ltb 0 (5 * suc d) (omega arith), sub_index-level d i, level_down-suc d (omega arith))
        (bind-cong (descend n (digit d (i / 32))) _ _
          (λ child. trie_values-leaf_at d fuel child i (omega arith) (omega arith)))
  trie_values-leaf_at d zero n i h k = absurd (omega arith)

  -- No leaf stands below null.
  pub leaf_at-null : (d q : ℕ) (vs : Cells A) → leaf_at d null q ≡ ok vs → ⊥
  unfolding leaf_at descend leaf_values branch_at
  leaf_at-null zero q vs h = cc
  leaf_at-null (suc d) q vs h = cc

  pub leaf_at-branches :
      (d q : ℕ) (bs : Cells (Node A))
      → leaf_at (suc d) (branches bs) q ≡ leaf_at d (bs (digit d q)) q
  unfolding leaf_at descend branch_at
  leaf_at-branches d q bs = refl

  pub leaf_at-values : (q : ℕ) (vs : Cells A) → leaf_at 0 (values vs) q ≡ ok vs
  unfolding leaf_at leaf_values
  leaf_at-values q vs = refl

  -- Only a branch node fits at a positive depth, and is not null.
  pub fits_cases :
      (P : Node A → Type 0) (d : ℕ) (n : Node A)
      → Fits (suc d) n
      → NotNull n
      → ((bs : Cells (Node A)) → ((j : ℕ) → Fits d (bs j)) → P (branches bs))
      → P n
  fits_cases P d null f h k = absurd h
  fits_cases P d (branches bs) f h k = k bs f
  fits_cases P d (values vs) f h k = absurd f

  -- Reading a branch node after a write: below the child that was set, and beside it.
  pub leaf_at-set_self :
      (d q k : ℕ) (bs : Cells (Node A)) (child : Node A)
      → k ≡ digit d q
      → leaf_at (suc d) (branches (write bs k child)) q ≡ leaf_at d child q
  leaf_at-set_self d q k bs child e = rw (leaf_at-branches, e, eq_self)

  pub leaf_at-set_ne :
      (d q k : ℕ) (bs cs : Cells (Node A)) (child : Node A)
      → k ≢ digit d q
      → cs (digit d q) ≡ bs (digit d q)
      → leaf_at (suc d) (branches (write cs k child)) q ≡ leaf_at (suc d) (branches bs) q
  leaf_at-set_ne d q k bs cs child ne e =
      rw (leaf_at-branches d q (write cs k child), write_ne cs k (digit d q) child ne, e)
        (sym (leaf_at-branches d q bs))

  -- A leaf that is found stands under a node that is not null.
  pub leaf_at-NotNull : (d q : ℕ) (n : Node A) (ws : Cells A) → leaf_at d n q ≡ ok ws → NotNull n
  leaf_at-NotNull d q null ws h = leaf_at-null d q ws h
  leaf_at-NotNull d q (branches bs) ws h = tt
  leaf_at-NotNull d q (values vs) ws h = tt
