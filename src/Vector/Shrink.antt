-- ===== src/Vector/Shrink.antt =====
-- popTail: the trie without its last leaf.
use native.Mathlib.Decide.{ℕ_discrete}
use ww.Prelude.{
  ℕ, zero, suc, ◌-◌, ◌*◌, ◌/◌, ◌≤◌, ◌<◌, ◌≡◌, ◌≢◌, refl, sym, ap, ◌∙◌, arith, ok, Ensures, ltb,
  lt→ltb, ne→eq, if◌then◌else◌,
}
use ww.Memory.Cells.{Cells, write, write-all, copy, copy_below, copy-all}
use ww.Memory.Node.{Node, null, branches, values, empty_branches, branch_at, set_branch}
use ww.Vector.Trie.{Zeroed, sub_index, clone_node, pop_tail}
use ww.Vector.Digits.{prefix, digit, prefix-same, prefix_mono, prefix-digit, sub_index-level}
use ww.Vector.Shape.{
  Fits, leaf_at, leaf_at-null, leaf_at-branches, leaf_at-set_self, leaf_at-set_ne,
}
use ww.Vector.Push.{level-sub}

-- Before the last leaf on its path, a leaf's digit is no larger.
digit_le :
    (d q last : ℕ) → prefix (suc d) q ≡ prefix (suc d) last → q < last → digit d q ≤ digit d last
digit_le d q last e lt =
    omega (arith, prefix_mono d q last (omega arith), prefix-digit d q, prefix-digit d last)

index-last :
    (d cnt last : ℕ) → (cnt - 2) / 32 ≡ last → sub_index (cnt - 2) (5 * suc d) ≡ digit d last
index-last d cnt last el = sub_index-level d (cnt - 2) ∙ ap (digit d) el

module _ {A : Type 0} (last : ℕ) where
  -- The subtree `n'` still has the leaves of `n` that stand before the last one.
  pub record IsPopped (d : ℕ) (n n' : Node A) : Type 0 where
    pub fits : Fits d n'
    pub kept :
        (q : ℕ) (ws : Cells A)
        → prefix d q ≡ prefix d last
        → q < last
        → leaf_at d n q ≡ ok ws
        → leaf_at d n' q ≡ ok ws

  -- cloneBranchNode with a limit of 0 copies every branch.
  abbrev kept_branches : ℕ → Cells (Node A) → Cells (Node A)
  kept_branches lim bs = copy (if ltb lim 1 then 32 else lim) bs empty_branches

  kept_branches_lt :
      (d q : ℕ) (bs : Cells (Node A))
      → digit d q < digit d last
      → kept_branches (digit d last) bs (digit d q) ≡ bs (digit d q)
  kept_branches_lt d q bs lt =
      copy_below (if ltb (digit d last) 1 then 32 else digit d last) bs empty_branches (digit d q)
        (ground arith)

  set-IsPopped :
      (d : ℕ) (bs : Cells (Node A)) (child : Node A)
      → ((j : ℕ) → Fits d (bs j))
      → IsPopped d (bs (digit d last)) child
      → IsPopped
          (suc d)
          (branches bs)
          (branches (write (kept_branches (digit d last) bs) (digit d last) child))
  set-IsPopped d bs child f p = record {
    fits =
        write-all (Fits d) (kept_branches (digit d last) bs) (digit d last) child p.fits
          (copy-all (Fits d) _ bs empty_branches f (λ j. tt));
    kept = λ q ws e lt h. elim (ℕ_discrete (digit d last) (digit d q)) [
      | yes same ↦
          leaf_at-set_self d q (digit d last) (kept_branches (digit d last) bs) child same
          ∙ p.kept q ws (prefix-same d q last e (sym same)) lt (rw (leaf_at-branches, ← same) at h)
      | no other ↦
          leaf_at-set_ne d q (digit d last) bs (kept_branches (digit d last) bs) child other
            (kept_branches_lt d q bs (omega (arith, digit_le d q last e lt)))
          ∙ h
    ];
  }

  -- The lowest branch node, whose children are leaves.
  null-IsPopped : (bs : Cells (Node A)) → digit 0 last ≡ 0 → IsPopped 1 (branches bs) null
  null-IsPopped bs e = record {
    fits = tt;
    kept = λ q ws e' lt h.
        absurd (omega (arith, digit_le 0 q last e' lt, prefix-digit 0 q, prefix-digit 0 last));
  }

  copy-IsPopped :
      (bs : Cells (Node A))
      → ((j : ℕ) → Fits 0 (bs j))
      → digit 0 last ≢ 0
      → IsPopped 1 (branches bs) (branches (kept_branches (digit 0 last) bs))
  copy-IsPopped bs f ne = record {
    fits = copy-all (Fits 0) _ bs empty_branches f (λ j. tt);
    kept = λ q ws e lt h.
        leaf_at-branches 0 q (kept_branches (digit 0 last) bs)
        ∙ ap (λ n. leaf_at 0 n q)
            (kept_branches_lt 0 q bs
              (omega (arith, digit_le 0 q last e lt, prefix-digit 0 q, prefix-digit 0 last)))
        ∙ sym (leaf_at-branches 0 q bs)
        ∙ h;
  }

module _ {A : Type 0} ⦃z : Zeroed A⦄ (last : ℕ) where
  -- popTail, on a trie that has the last leaf, succeeds within its fuel and returns a well-formed
  -- trie with every leaf before the last one where it was.
  pub pop_tail-IsPopped :
      (d fuel cnt : ℕ) (n : Node A) (ws : Cells A)
      → (cnt - 2) / 32 ≡ last
      → d < fuel
      → Fits (suc d) n
      → leaf_at (suc d) n last ≡ ok ws
      → Ensures (pop_tail fuel (5 * suc d) cnt n) (IsPopped last (suc d) n)
  unfolding pop_tail clone_node branch_at set_branch
  pop_tail-IsPopped zero (suc fuel) cnt (branches bs) ws el h fits found =
      rw (index-last 0 cnt last el) (elim (ℕ_discrete (digit 0 last) 0) [
        | yes e ↦ rw e (null, refl, null-IsPopped last bs e)
        | no ne ↦
            rw (ne→eq (digit 0 last) 0 ne)
              (branches (kept_branches last (digit 0 last) bs), refl, copy-IsPopped last bs fits ne)
      ])
  pop_tail-IsPopped (suc d) (suc fuel) cnt (branches bs) ws el h fits found =
      let (child, e, p) =
        pop_tail-IsPopped d fuel cnt (bs (digit (suc d) last)) ws el (omega arith)
          (fits (digit (suc d) last)) (rw leaf_at-branches at found) in
      rw
        (
          lt→ltb 5 (5 * suc (suc d)) (omega arith),
          level-sub (suc d),
          index-last (suc d) cnt last el,
          e,
        )
        (
          branches (write (kept_branches last (digit (suc d) last) bs) (digit (suc d) last) child),
          refl,
          set-IsPopped last (suc d) bs child fits p,
        )
  pop_tail-IsPopped d (suc fuel) cnt (values vs) ws el h fits found = absurd fits
  pop_tail-IsPopped d (suc fuel) cnt null ws el h fits found =
      absurd (leaf_at-null (suc d) last ws found)
  pop_tail-IsPopped d zero cnt n ws el h fits found = absurd (omega arith)
