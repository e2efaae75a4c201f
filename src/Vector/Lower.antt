-- ===== src/Vector/Lower.antt =====
-- The end of the slow path of `pop` on a deep vector: the trie with one leaf less, and with a root
-- less where one child was left.
use native.Mathlib.Decide.{dec_le}
use ww.Prelude.{
  ℕ, zero, suc, ◌-◌, ◌*◌, ◌%◌, ◌^◌, ◌≤◌, ◌<◌, ◌≡◌, refl, sym, ◌∙◌, ap, arith, true, Bool-cases, inl,
  inr, lt→ltb, le→ltb, Ensures, Succeeds, ok,
}
use ww.Memory.Cells.{Cells}
use ww.Memory.Node.{Node, null, branches, values, null_node}
use ww.Vector.Deep.{lower_root}
use ww.Vector.Digits.{digit, prefix-below, prefix-multiple}
use ww.Vector.Shape.{NotNull, Fits, leaf_at, leaf_at-branches, leaf_at-null, leaf_at-NotNull}

module _ {A : Type 0} (d : ℕ) (n : Node A) (count : ℕ) where
  -- A root over the first `count` leaves of `n`, which has depth `suc d`.
  pub record IsLowered (out : Node A × ℕ) : Type 0 where
    pub depth : ℕ
    pub depth_le : depth ≤ d
    pub shift_eq : out.1 ≡ 5 * suc depth
    pub fits : Fits (suc depth) out.0
    pub not_null : NotNull out.0
    pub capacity : count ≤ 32 ^ suc depth
    pub kept : (q : ℕ) → q < count → leaf_at (suc depth) out.0 q ≡ leaf_at (suc d) n q

module _ {A : Type 0} (count : ℕ) (pos_count : 0 < count) where
  -- With a second child that is null there are only leaves below the first.
  first_child :
      (d : ℕ) (bs : Cells (Node A))
      → ((q : ℕ) → q < count → Succeeds (leaf_at (suc d) (branches bs) q))
      → null_node (bs 1) ≡ true
      → count ≤ 32 ^ d
  first_child d bs filled gone = elim (dec_le count (32 ^ d)) [
    | yes le ↦ le
    | no gt ↦
        let (ws, e) = filled (1 * 32 ^ d) (omega arith) in
        let one : digit d (1 * 32 ^ d) ≡ 1 = ap (λ (t : ℕ). t % 32) (prefix-multiple d 1) in
        absurd (
          no_leaf d (bs 1) (1 * 32 ^ d) ws gone (
            ap (λ k. leaf_at d (bs k) (1 * 32 ^ d)) (sym one)
            ∙ sym (leaf_at-branches d (1 * 32 ^ d) bs)
            ∙ e))
  ]
    where
      no_leaf :
          (k : ℕ) (m : Node A) (q : ℕ) (ws : Cells A)
          → null_node m ≡ true
          → leaf_at k m q ≡ ok ws
          → ⊥
      no_leaf k null q ws g e = leaf_at-null k q ws e
      no_leaf k (branches cs) q ws g e = cc
      no_leaf k (values vs) q ws g e = cc

  same_root :
      (d shift : ℕ) (n : Node A)
      → shift ≡ 5 * suc d
      → Fits (suc d) n
      → NotNull n
      → count ≤ 32 ^ suc d
      → IsLowered d n count (n, shift)
  same_root d shift n se fits nn cap = record {
    depth = d;
    depth_le = omega arith;
    shift_eq = se;
    fits = fits;
    not_null = nn;
    capacity = cap;
    kept = λ q lt. refl;
  }

  child_root :
      (d shift : ℕ) (bs : Cells (Node A))
      → shift ≡ 5 * suc (suc d)
      → ((j : ℕ) → Fits (suc d) (bs j))
      → ((q : ℕ) → q < count → Succeeds (leaf_at (suc (suc d)) (branches bs) q))
      → null_node (bs 1) ≡ true
      → IsLowered (suc d) (branches bs) count (bs 0, shift - 5)
  child_root d shift bs se fits filled gone =
      let cap = first_child (suc d) bs filled gone in
      let below = λ (q : ℕ) (lt : q < count).
        leaf_at-branches (suc d) q bs
        ∙ ap (λ k. leaf_at (suc d) (bs k) q)
            (ap (λ (t : ℕ). t % 32) (prefix-below (suc d) q (omega (arith, cap)))) in
      let (ws, e) = filled 0 pos_count in
      record {
        depth = d;
        depth_le = omega arith;
        shift_eq = omega (arith, se);
        fits = fits 0;
        not_null = leaf_at-NotNull (suc d) 0 (bs 0) ws (sym (below 0 pos_count) ∙ e);
        capacity = cap;
        kept = λ q lt. sym (below q lt);
      }

  pub lower_root-IsLowered :
      (d shift : ℕ) (n : Node A)
      → shift ≡ 5 * suc d
      → Fits (suc d) n
      → NotNull n
      → count ≤ 32 ^ suc d
      → ((q : ℕ) → q < count → Succeeds (leaf_at (suc d) n q))
      → Ensures (lower_root n shift) (IsLowered d n count)
  unfolding lower_root
  lower_root-IsLowered zero shift (branches bs) se fits nn cap filled =
      rw (le→ltb 5 shift (omega arith))
        ((branches bs, shift), refl, same_root zero shift (branches bs) se fits nn cap)
  lower_root-IsLowered (suc d) shift (branches bs) se fits nn cap filled =
      elim (Bool-cases (null_node (bs 1))) [
        | inl gone ↦
            rw (lt→ltb 5 shift (omega (arith, se)), gone)
              ((bs 0, shift - 5), refl, child_root d shift bs se fits filled gone)
        | inr there ↦
            rw (lt→ltb 5 shift (omega (arith, se)), there)
              ((branches bs, shift), refl, same_root (suc d) shift (branches bs) se fits nn cap)
      ]
  lower_root-IsLowered d shift null se fits nn cap filled = absurd nn
  lower_root-IsLowered d shift (values vs) se fits nn cap filled = absurd fits
