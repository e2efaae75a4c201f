-- ===== src/Vector/Grow.antt =====
-- The slow path of `cons` on a deep vector: the trie with the full tail as one more leaf.
use native.Mathlib.Nat.{pow-suc, pow-le-pow_right}
use native.Mathlib.Decide.{dec_le}
use ww.Prelude.{
  ℕ, suc, ◌+◌, ◌*◌, ◌/◌, ◌%◌, ◌^◌, ◌≤◌, ◌<◌, ◌≡◌, refl, sym, ◌∙◌, ap, arith, ltb, ok, Ensures,
  Bool-cases, inl, inr, ltb→lt, ltb→le, subst,
}
use ww.Memory.Cells.{Cells, write, write-all}
use ww.Memory.Node.{Node, values, branches, empty_branches}
use ww.Vector.Data.{Raw}
use ww.Vector.Trie.{new_path, push_tail}
use ww.Vector.Deep.{grown_root}
use ww.Vector.Digits.{digit, pow-pos, two-pow-five, prefix-root, prefix-below, prefix-multiple}
use ww.Vector.Shape.{NotNull, Fits, leaf_at, leaf_at-branches, leaf_at-set_self}
use ww.Vector.Push.{new_path-IsPath, push_tail-IsPushed, IsPushed}
use ww.Vector.Invariant.{leaves, IsDeep}

module _ {A : Type 0} where
  -- A root one leaf larger than that of `v`: the new leaf is the tail, the others stay.
  pub record IsGrown (v : Raw A) (d : ℕ) (depth : ℕ) (root : Node A) : Type 0 where
    pub depth_bound : depth ≤ 6
    pub fits : Fits (suc depth) root
    pub not_null : NotNull root
    pub room : leaves v.count < 32 ^ suc depth
    pub at : leaf_at (suc depth) root (leaves v.count) ≡ ok v.tail
    pub kept :
        (q : ℕ) (ws : Cells A)
        → q < leaves v.count
        → leaf_at (suc d) v.root q ≡ ok ws
        → leaf_at (suc depth) root q ≡ ok ws

  module _ (v : Raw A) (h : IsDeep v) (tail_full : v.count ≡ 32 * leaves v.count + 32) where
    -- The root has room, and the tail is pushed into it.
    push_tail-IsGrown :
        (n : Node A)
        → leaves v.count < 32 ^ suc h.depth
        → IsPushed v.tail (leaves v.count) (suc h.depth) v.root n
        → IsGrown v h.depth h.depth n
    push_tail-IsGrown n room p = record {
      depth_bound = h.depth_bound;
      fits = p.fits;
      not_null = p.not_null;
      room = room;
      at = p.at;
      kept = λ q ws lt e.
          p.others q ws (prefix-root (suc h.depth) q (leaves v.count) (omega arith) room)
            (omega arith) e;
    }

    -- The trie is full.
    trie_full : 32 ^ suc h.depth < v.count / 32 → leaves v.count ≡ 32 ^ suc h.depth
    trie_full lt = omega (arith, h.capacity)

    depth_below : leaves v.count ≡ 32 ^ suc h.depth → suc h.depth ≤ 6
    depth_below e = elim (dec_le (suc h.depth) 6) [
      | yes le ↦ le
      | no gt ↦ absurd (
          omega (
            arith,
            pow-le-pow_right {n = 32} (omega arith) {i = 7} {j = suc h.depth} (omega arith),
            h.count_bound,
          ))
    ]

    root_above : Node A → Node A
    root_above path = branches (write (write empty_branches 0 v.root) 1 path)

    root_above-IsGrown :
        (path : Node A)
        → leaves v.count ≡ 32 ^ suc h.depth
        → Fits (suc h.depth) path
        → ((m : ℕ) → leaf_at (suc h.depth) path (m * 32 ^ suc h.depth) ≡ ok v.tail)
        → IsGrown v h.depth (suc h.depth) (root_above path)
    unfolding root_above
    root_above-IsGrown path full fits leads = record {
      depth_bound = depth_below full;
      fits =
          write-all (Fits (suc h.depth)) (write empty_branches 0 v.root) 1 path fits
            (write-all (Fits (suc h.depth)) empty_branches 0 v.root h.fits (λ j. tt));
      not_null = tt;
      room = rw (full, pow-suc 32 (suc h.depth)) (omega (arith, pow-pos (suc h.depth)));
      at =
          let full' : leaves v.count ≡ 1 * 32 ^ suc h.depth = omega (arith, full) in
          let one : digit (suc h.depth) (leaves v.count) ≡ 1 =
            ap (digit (suc h.depth)) full'
            ∙ ap (λ (t : ℕ). t % 32) (prefix-multiple (suc h.depth) 1) in
          leaf_at-set_self (suc h.depth) (leaves v.count) 1 (write empty_branches 0 v.root) path
            (sym one)
          ∙ subst (λ r. leaf_at (suc h.depth) path r ≡ ok v.tail) (sym full') (leads 1);
      kept = λ q ws lt e.
          let none_above : digit (suc h.depth) q ≡ 0 =
            ap (λ (t : ℕ). t % 32) (prefix-below (suc h.depth) q (omega (arith, full))) in
          leaf_at-branches (suc h.depth) q (write (write empty_branches 0 v.root) 1 path)
          ∙ ap (λ k. leaf_at (suc h.depth) (write (write empty_branches 0 v.root) 1 path k) q)
              none_above
          ∙ e;
    }

    -- The receiver still has its leaves when its own root has been written to.
    receiver-IsDeep : (n : Node A) → IsGrown v h.depth h.depth n → IsDeep (record v { root = n })
    receiver-IsDeep n g = record {
      depth = h.depth;
      shift_eq = h.shift_eq;
      depth_bound = h.depth_bound;
      fits = g.fits;
      not_null = g.not_null;
      filled = λ q lt. let (ws, e) = h.filled q lt in (ws, g.kept q ws lt e);
      capacity = h.capacity;
      full = h.full;
      count_bound = h.count_bound;
    }

    -- What the slow path has built: a grown root, and a receiver that is still well formed and has
    -- the leaves that it had.
    pub record IsGrowth (out : Node A × ℕ × Node A) : Type 0 where
      pub depth : ℕ
      pub shift_eq : out.1 ≡ 5 * suc depth
      pub grown : IsGrown v h.depth depth out.0
      pub receiver : IsDeep (record v { root = out.2 })
      pub receiver_kept :
          (q : ℕ) (ws : Cells A)
          → q < leaves v.count
          → leaf_at (suc h.depth) v.root q ≡ ok ws
          → leaf_at (suc h.depth) out.2 q ≡ ok ws

    pub grown_root-IsGrowth : Ensures (grown_root v (values v.tail)) IsGrowth
    unfolding grown_root root_above
    grown_root-IsGrowth =
        let power : 2 ^ v.shift ≡ 32 ^ suc h.depth =
          ap (λ (s : ℕ). 2 ^ s) h.shift_eq ∙ two-pow-five (suc h.depth) in
        elim (Bool-cases (ltb (2 ^ v.shift) (v.count / 32))) [
          | inl over ↦
              let (path, e, p) =
                new_path-IsPath v.tail (suc h.depth) (5 * suc h.depth + 1) (omega arith) in
              let e' : new_path (v.shift + 1) v.shift (values v.tail) ≡ ok path =
                subst (λ s. new_path (s + 1) s (values v.tail) ≡ ok path) (sym h.shift_eq) e in
              let full : leaves v.count ≡ 32 ^ suc h.depth =
                trie_full (omega (arith, power, ltb→lt (2 ^ v.shift) (v.count / 32) over)) in
              rw (over, e')
                (
                  (root_above path, v.shift + 5, v.root),
                  refl,
                  record {
                    depth = suc h.depth;
                    shift_eq = omega (arith, h.shift_eq);
                    grown = root_above-IsGrown path full p.fits p.leads;
                    receiver = h;
                    receiver_kept = λ q ws lt e. e;
                  },
                )
          | inr room ↦
              let (n, e, p) =
                push_tail-IsPushed v.tail (leaves v.count) h.depth (5 * suc h.depth + 1) v.count
                  v.root refl (omega arith) h.fits h.not_null (λ q _ lt. h.filled q lt) in
              let e' : push_tail (v.shift + 1) v.shift v.count v.root (values v.tail) ≡ ok n =
                subst (λ s. push_tail (s + 1) s v.count v.root (values v.tail) ≡ ok n)
                  (sym h.shift_eq) e in
              let g : IsGrown v h.depth h.depth n =
                push_tail-IsGrown n
                  (omega (arith, power, tail_full, ltb→le (2 ^ v.shift) (v.count / 32) room)) p in
              rw (room, e')
                (
                  (n, v.shift, n),
                  refl,
                  record {
                    depth = h.depth;
                    shift_eq = h.shift_eq;
                    grown = g;
                    receiver = receiver-IsDeep n g;
                    receiver_kept = g.kept;
                  },
                )
        ]
