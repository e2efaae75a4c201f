-- ===== src/Vector/Update.antt =====
-- apiVectorAssoc: a copy of the path to an index, with one value replaced.
use native.Mathlib.Decide.{ℕ_discrete}
use ww.Prelude.{
  ℕ, zero, suc, ◌*◌, ◌/◌, ◌%◌, ◌<◌, ◌≡◌, ◌≢◌, refl, sym, ap, ◌∙◌, arith, ok, ok_injective, Ensures,
}
use ww.Memory.Cells.{Cells, write, write-all, copy, copy_below, copy-all}
use ww.Memory.Node.{Node, null, branches, values, empty_branches, branch_at, set_branch, set_value}
use ww.Vector.Trie.{Zeroed, empty_values, clone_node, vector_assoc}
use ww.Vector.Digits.{prefix, digit, prefix-same, prefix-zero, sub_index-level}
use ww.Vector.Shape.{
  Fits, leaf_at, leaf_at-null, leaf_at-branches, leaf_at-values, leaf_at-set_self, leaf_at-set_ne,
}
use ww.Vector.Push.{level_not_zero, level-sub}

module _ {A : Type 0} ⦃z : Zeroed A⦄ (i : ℕ) (val : A) where
  -- A leaf with the value of index `i` replaced, as the source builds it.
  abbrev pub updated : Cells A → Cells A
  updated ws = write (copy 32 ws empty_values) (i % 32) val

  pub record IsUpdated (d : ℕ) (n n' : Node A) : Type 0 where
    pub fits : Fits d n'
    pub at : (ws : Cells A) → leaf_at d n (i / 32) ≡ ok ws → leaf_at d n' (i / 32) ≡ ok (updated ws)
    pub others :
        (q : ℕ) → prefix d q ≡ prefix d (i / 32) → q ≢ i / 32 → leaf_at d n' q ≡ leaf_at d n q

  set-IsUpdated :
      (d : ℕ) (bs : Cells (Node A)) (child : Node A)
      → ((j : ℕ) → Fits d (bs j))
      → IsUpdated d (bs (digit d (i / 32))) child
      → IsUpdated
          (suc d)
          (branches bs)
          (branches (write (copy 32 bs empty_branches) (digit d (i / 32)) child))
  set-IsUpdated d bs child f p = record {
    fits =
        write-all (Fits d) (copy 32 bs empty_branches) (digit d (i / 32)) child p.fits
          (copy-all (Fits d) 32 bs empty_branches f (λ j. tt));
    at = λ ws h.
        leaf_at-set_self d (i / 32) (digit d (i / 32)) (copy 32 bs empty_branches) child refl
        ∙ p.at ws (rw leaf_at-branches at h);
    others = λ q e ne. elim (ℕ_discrete (digit d (i / 32)) (digit d q)) [
      | yes same ↦
          leaf_at-set_self d q (digit d (i / 32)) (copy 32 bs empty_branches) child same
          ∙ p.others q (prefix-same d q (i / 32) e (sym same)) ne
          ∙ rw same (sym (leaf_at-branches d q bs))
      | no other ↦
          leaf_at-set_ne d q (digit d (i / 32)) bs (copy 32 bs empty_branches) child other
            (copy_below 32 bs empty_branches (digit d q) (omega arith))
    ];
  }

  -- apiVectorAssoc, at an index whose leaf is there, returns a well-formed trie in which that leaf
  -- has the new value at its place, and every other leaf is unchanged.
  pub vector_assoc-IsUpdated :
      (d fuel : ℕ) (n : Node A) (ws : Cells A)
      → d < fuel
      → Fits d n
      → leaf_at d n (i / 32) ≡ ok ws
      → Ensures (vector_assoc fuel (5 * d) n i val) (IsUpdated d n)
  unfolding vector_assoc clone_node set_value branch_at set_branch
  vector_assoc-IsUpdated zero (suc fuel) (values vs) ws h fits found = (
    values (updated vs),
    refl,
    record {
      fits = tt;
      at = λ us e.
          leaf_at-values (i / 32) (updated vs)
          ∙ ap (λ us'. ok (updated us')) (ok_injective (sym (leaf_at-values (i / 32) vs) ∙ e));
      others = λ q e ne. absurd (ne (sym (prefix-zero q) ∙ e ∙ prefix-zero (i / 32)));
    },
  )
  vector_assoc-IsUpdated (suc d) (suc fuel) (branches bs) ws h fits found =
      let (child, e, p) =
        vector_assoc-IsUpdated d fuel (bs (digit d (i / 32))) ws (omega arith)
          (fits (digit d (i / 32))) (rw leaf_at-branches at found) in
      rw (level_not_zero d, sub_index-level d i, level-sub d, e)
        (
          branches (write (copy 32 bs empty_branches) (digit d (i / 32)) child),
          refl,
          set-IsUpdated d bs child fits p,
        )
  vector_assoc-IsUpdated zero (suc fuel) (branches bs) ws h fits found = absurd fits
  vector_assoc-IsUpdated (suc d) (suc fuel) (values vs) ws h fits found = absurd fits
  vector_assoc-IsUpdated d (suc fuel) null ws h fits found =
      absurd (leaf_at-null d (i / 32) ws found)
  vector_assoc-IsUpdated d zero n ws h fits found = absurd (omega arith)
