-- ===== src/Vector/Push.antt =====
-- Pushing the full tail into the trie: newPath and pushTail.
use native.Mathlib.Nat.{div-mul-le_self}
use native.Mathlib.Decide.{ℕ_discrete, dec_lt}
use ww.Prelude.{
  ℕ, zero, suc, ◌-◌, ◌*◌, ◌/◌, ◌^◌, ◌<◌, ◌≡◌, ◌≢◌, refl, sym, ap, subst, ◌∙◌, arith, false, eq_self,
  ◌==◌, if◌then◌else◌, Result, ok, Ensures, Succeeds,
}
use ww.Memory.Cells.{Cells, write, write_self, write_ne, write-all}
use ww.Memory.Node.{
  Node, null, branches, values, empty_branches, node_not_null, branch_at, set_branch,
}
use ww.Vector.Trie.{sub_index, new_path, push_tail}
use ww.Vector.Digits.{
  prefix, digit, prefix-same, prefix-split, prefix-multiple, prefix-zero, digit-multiple,
  pow-suc_shift, sub_index-level,
}
use ww.Vector.Shape.{NotNull, Fits, leaf_at, leaf_at-null, leaf_at-branches, leaf_at-values}

pub level_not_zero : (d : ℕ) → (5 * suc d == 0) ≡ false
level_not_zero d = ground arith

level_not_bits : (d : ℕ) → (5 * suc (suc d) == 5) ≡ false
level_not_bits d = ground arith

pub level-sub : (d : ℕ) → 5 * suc d - 5 ≡ 5 * d
level-sub d = omega arith

module _ {A : Type 0} (vs : Cells A) where
  -- What newPath and pushTail promise of the subtree that they return: leaf number `leaf` is `vs`.
  pub record IsPath (d : ℕ) (n : Node A) : Type 0 where
    pub fits : Fits d n
    pub not_null : NotNull n
    pub leads : (m : ℕ) → leaf_at d n (m * 32 ^ d) ≡ ok vs

  -- A new path of any depth leads to its leaf, under the number whose digits are zero.
  pub new_path-IsPath :
      (d fuel : ℕ) → d < fuel → Ensures (new_path fuel (5 * d) (values vs)) (IsPath d)
  unfolding new_path
  new_path-IsPath zero (suc fuel) h =
      (values vs, refl, record { fits = tt; not_null = tt; leads = λ m. leaf_at-values _ vs })
  new_path-IsPath (suc d) (suc fuel) h =
      let (path, e, p) = new_path-IsPath d fuel (omega arith) in
      rw (level_not_zero d, level-sub d, e)
        (
          branches (write empty_branches 0 path),
          refl,
          record {
            fits = write-all (Fits d) empty_branches 0 path p.fits (λ j. tt);
            not_null = tt;
            leads = λ m.
                rw (leaf_at-branches, digit-multiple d m, pow-suc_shift d m) (p.leads (m * 32));
          },
        )
  new_path-IsPath d zero h = absurd (omega arith)

  module _ (leaf : ℕ) where
    -- The subtree `n'` has the new leaf, and the leaves of `n` beside it.
    pub record IsPushed (d : ℕ) (n n' : Node A) : Type 0 where
      pub fits : Fits d n'
      pub not_null : NotNull n'
      pub at : leaf_at d n' leaf ≡ ok vs
      pub others :
          (q : ℕ) (ws : Cells A)
          → prefix d q ≡ prefix d leaf
          → q ≢ leaf
          → leaf_at d n q ≡ ok ws
          → leaf_at d n' q ≡ ok ws

    -- Setting the child on the path of the leaf.
    set-IsPushed :
        (d : ℕ) (bs : Cells (Node A)) (child : Node A)
        → ((j : ℕ) → Fits d (bs j))
        → IsPushed d (bs (digit d leaf)) child
        → IsPushed (suc d) (branches bs) (branches (write bs (digit d leaf) child))
    set-IsPushed d bs child f p = record {
      fits = write-all (Fits d) bs (digit d leaf) child p.fits f;
      not_null = tt;
      at = rw (leaf_at-branches, write_self) p.at;
      others = λ q ws e ne h. elim (ℕ_discrete (digit d leaf) (digit d q)) [
        | yes same ↦
            rw (leaf_at-branches, ← same, eq_self)
              (p.others q ws (prefix-same d q leaf e (sym same)) ne
                (rw (leaf_at-branches, ← same) at h))
        | no other ↦ rw (leaf_at-branches, write_ne bs _ _ child other) (rw leaf_at-branches at h)
      ];
    }

    -- Below the root of a filled trie: the leaves before `leaf` on its path are there.
    abbrev pub Filled : ℕ → Node A → Type 0
    Filled d n = (q : ℕ) → prefix d q ≡ prefix d leaf → q < leaf → Succeeds (leaf_at d n q)

    Filled-child :
        (d : ℕ) (bs : Cells (Node A)) → Filled (suc d) (branches bs) → Filled d (bs (digit d leaf))
    Filled-child d bs f q e lt =
        let (e', same) = prefix-split d q leaf e in
        let (ws, h) = f q e' lt in (ws, rw (leaf_at-branches, same) at h)

    -- Where the path ends in null, the leaf is the first below it.
    first_below_null : (d : ℕ) → Filled d null → leaf ≡ prefix d leaf * 32 ^ d
    first_below_null d f = elim (dec_lt (prefix d leaf * 32 ^ d) leaf) [
      | yes lt ↦
          let (ws, h) = f (prefix d leaf * 32 ^ d) (prefix-multiple d (prefix d leaf)) lt in
          absurd (leaf_at-null d (prefix d leaf * 32 ^ d) ws h)
      | no ge ↦ omega (arith, div-mul-le_self leaf (32 ^ d))
    ]

    values-IsPushed : (n : Node A) → IsPushed 0 n (values vs)
    values-IsPushed n = record {
      fits = tt;
      not_null = tt;
      at = leaf_at-values leaf vs;
      others = λ q ws e ne h. absurd (ne (sym (prefix-zero q) ∙ e ∙ prefix-zero leaf));
    }

    index-leaf :
        (d cnt : ℕ) → (cnt - 1) / 32 ≡ leaf → sub_index (cnt - 1) (5 * suc d) ≡ digit d leaf
    index-leaf d cnt el = sub_index-level d (cnt - 1) ∙ ap (digit d) el

    -- The loop of pushTail below the child on the path.
    push_below : ℕ → ℕ → ℕ → Node A → Result (Node A)
    push_below fuel level cnt child =
        let rest = push_tail fuel level cnt child (values vs) in
        if node_not_null child then rest else new_path fuel level (values vs)

    new_path-IsPushed :
        (d fuel : ℕ)
        → d < fuel
        → Filled d null
        → Ensures (new_path fuel (5 * d) (values vs)) (IsPushed d null)
    new_path-IsPushed d fuel h f =
        let (path, e, p) = new_path-IsPath d fuel h in
        (
          path,
          e,
          record {
            fits = p.fits;
            not_null = p.not_null;
            at =
                subst (λ r. leaf_at d path r ≡ ok vs) (sym (first_below_null d f))
                  (p.leads (prefix d leaf));
            others = λ q ws _ _ found. absurd (leaf_at-null d q ws found);
          },
        )

    push_below-IsPushed :
        (d fuel cnt : ℕ) (child : Node A)
        → suc d < fuel
        → Fits (suc d) child
        → Filled (suc d) child
        → (NotNull child
            → Ensures (push_tail fuel (5 * suc d) cnt child (values vs)) (IsPushed (suc d) child))
        → Ensures (push_below fuel (5 * suc d) cnt child) (IsPushed (suc d) child)
    unfolding push_below
    push_below-IsPushed d fuel cnt null h fits f ih = new_path-IsPushed (suc d) fuel h f
    push_below-IsPushed d fuel cnt (branches bs) h fits f ih = ih tt
    push_below-IsPushed d fuel cnt (values ws) h fits f ih = absurd fits

    -- pushTail, on a trie of any depth that has every leaf before the new one, succeeds within its
    -- fuel and returns a well-formed trie with the new leaf under its number and every other leaf
    -- where it was.
    pub push_tail-IsPushed :
        (d fuel cnt : ℕ) (n : Node A)
        → (cnt - 1) / 32 ≡ leaf
        → suc d < fuel
        → Fits (suc d) n
        → NotNull n
        → Filled (suc d) n
        → Ensures (push_tail fuel (5 * suc d) cnt n (values vs)) (IsPushed (suc d) n)
    unfolding push_tail push_below branch_at set_branch
    push_tail-IsPushed zero (suc fuel) cnt (branches bs) el h fits nn f = rw (index-leaf 0 cnt el) (
      branches (write bs (digit 0 leaf) (values vs)),
      refl,
      set-IsPushed 0 bs (values vs) fits (values-IsPushed (bs (digit 0 leaf))),
    )
    push_tail-IsPushed (suc d) (suc fuel) cnt (branches bs) el h fits nn f =
        let fc = Filled-child (suc d) bs f in
        let (child, e, p) =
          push_below-IsPushed d fuel cnt (bs (digit (suc d) leaf)) (omega arith)
            (fits (digit (suc d) leaf)) fc
            (λ nn'.
              push_tail-IsPushed d fuel cnt (bs (digit (suc d) leaf)) el (omega arith)
                (fits (digit (suc d) leaf)) nn' fc) in
        rw (level_not_bits d, index-leaf (suc d) cnt el, level-sub (suc d), e)
          (
            branches (write bs (digit (suc d) leaf) child),
            refl,
            set-IsPushed (suc d) bs child fits p,
          )
    push_tail-IsPushed d zero cnt n el h fits nn f = absurd (omega arith)
    push_tail-IsPushed d (suc fuel) cnt null el h fits nn f = absurd nn
    push_tail-IsPushed d (suc fuel) cnt (values ws) el h fits nn f = absurd fits
