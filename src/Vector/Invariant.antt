-- ===== src/Vector/Invariant.antt =====
-- The invariant of a deep vector, and what it reads.
use native.Mathlib.Omega.{arith}
use native.Mathlib.Decide.{dec_lt}
use ww.Memory.Cells.{Cells}
use ww.Prelude.{
  refl, sym, ap, ◌∙◌, ◌>>=◌, ◌%◌, ℕ, suc, ◌-◌, ◌*◌, ◌/◌, ◌^◌, ◌≤◌, ◌<◌, ◌≡◌, pos, ok, Succeeds,
  le→ltb, lt→leb, le→leb,
}
use ww.Vector.Trie.{vector_tailoff}
use ww.Vector.Data.{Raw, api_vector_array_for}
use ww.Vector.Deep.{array_for, entry_at}
use ww.Vector.Shape.{NotNull, Fits, leaf_at, trie_values-leaf_at}

-- The number of leaves in the trie of a vector with `cnt` values, at least 32.
abbrev pub leaves : ℕ → ℕ
leaves cnt = (cnt - 1) / 32

pub vector_tailoff-leaves : (cnt : ℕ) → 32 ≤ cnt → vector_tailoff cnt ≡ 32 * leaves cnt
unfolding vector_tailoff
vector_tailoff-leaves cnt h = rw (le→ltb cnt 32 h) (omega arith)

module _ {A : Type 0} where
  -- A deep vector is well formed: its trie has exactly the depth that its shift says, room for its
  -- leaves, and every one of them; and its counters fit their fields.
  pub record IsDeep (v : Raw A) : Type 0 where
    pub depth : ℕ
    pub shift_eq : v.shift ≡ 5 * suc depth
    pub depth_bound : depth ≤ 6
    pub fits : Fits (suc depth) v.root
    pub not_null : NotNull v.root
    pub filled : (q : ℕ) → q < leaves v.count → Succeeds (leaf_at (suc depth) v.root q)
    pub capacity : leaves v.count ≤ 32 ^ suc depth
    pub full : 32 ≤ v.count
    pub count_bound : v.count < 2 ^ 32

  -- A value in the tail.
  pub array_for-tail :
      (v : Raw A) (i : ℕ)
      → 32 ≤ v.count
      → 32 * leaves v.count ≤ i
      → i < v.count
      → array_for v (pos i) ≡ ok v.tail
  unfolding array_for api_vector_array_for
  array_for-tail v i full h lt =
      rw (lt→leb v.count i lt, vector_tailoff-leaves v.count full, le→leb (32 * leaves v.count) i h)

  -- A value in the trie.
  pub array_for-trie :
      (v : Raw A) (d i : ℕ)
      → v.shift ≡ 5 * suc d
      → d ≤ 6
      → 32 ≤ v.count
      → i < 32 * leaves v.count
      → array_for v (pos i) ≡ leaf_at (suc d) v.root (i / 32)
  unfolding array_for api_vector_array_for
  array_for-trie v d i se db full lt =
      rw
        (
          lt→leb v.count i (omega arith),
          vector_tailoff-leaves v.count full,
          lt→leb (32 * leaves v.count) i lt,
          se,
        )
        (trie_values-leaf_at (suc d) 257 v.root i (omega arith) (omega arith))

  pub entry_at-array_for :
      (v : Raw A) (i : ℕ) (vs : Cells A)
      → array_for v (pos i) ≡ ok vs
      → entry_at v (pos i) ≡ ok (vs (i % 32))
  unfolding entry_at
  entry_at-array_for v i vs e = rw (e, ◌>>=◌)

  module _ (v : Raw A) (h : IsDeep v) where
    pub entry_at-tail :
        (i : ℕ) → 32 * leaves v.count ≤ i → i < v.count → entry_at v (pos i) ≡ ok (v.tail (i % 32))
    entry_at-tail i le lt = entry_at-array_for v i v.tail (array_for-tail v i h.full le lt)

    pub entry_at-trie :
        (i : ℕ) (ws : Cells A)
        → i < 32 * leaves v.count
        → leaf_at (suc h.depth) v.root (i / 32) ≡ ok ws
        → entry_at v (pos i) ≡ ok (ws (i % 32))
    entry_at-trie i ws lt e =
        entry_at-array_for v i ws
          (array_for-trie v h.depth i h.shift_eq h.depth_bound h.full lt ∙ e)

  -- The same values at the same indexes.
  pub record SameEntries (v w : Raw A) : Type 0 where
    pub count : w.count ≡ v.count
    pub kept : (i : ℕ) → i < v.count → entry_at w (pos i) ≡ entry_at v (pos i)

  pub SameEntries-refl : (v : Raw A) → SameEntries v v
  SameEntries-refl v = record { count = refl; kept = λ i lt. refl }

  -- Same tail, and every leaf of the trie kept: same values.
  pub leaves-SameEntries :
      (v w : Raw A) (h : IsDeep v) (k : IsDeep w)
      → w.count ≡ v.count
      → w.tail ≡ v.tail
      → ((q : ℕ) (ws : Cells A)
          → q < leaves v.count
          → leaf_at (suc h.depth) v.root q ≡ ok ws
          → leaf_at (suc k.depth) w.root q ≡ ok ws)
      → SameEntries v w
  leaves-SameEntries v w h k c t kept = record {
    count = c;
    kept = λ i lt. elim (dec_lt i (32 * leaves v.count)) [
      | yes below ↦
          let (ws, e) = h.filled (i / 32) (omega arith) in
          entry_at-trie w k i ws (omega (arith, c)) (kept (i / 32) ws (omega arith) e)
          ∙ sym (entry_at-trie v h i ws below e)
      | no above ↦
          entry_at-tail w k i (omega (arith, c)) (omega (arith, c))
          ∙ ap (λ (vs : Cells A). ok (vs (i % 32))) t
          ∙ sym (entry_at-tail v h i (omega arith) lt)
    ];
  }
