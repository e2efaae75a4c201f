-- ===== src/Vector/DeepCons.antt =====
-- What `cons` and `conj` on a deep vector promise: the new vector ends in the new value and holds
-- the old ones, and the receiver, whose trie `cons` may have written to, still holds its own.
use native.Mathlib.Decide.{dec_lt}
use ww.Prelude.{
  ℕ, suc, ◌+◌, ◌-◌, ◌*◌, ◌/◌, ◌%◌, ◌^◌, ◌<◌, ◌≡◌, refl, sym, ◌∙◌, ap, arith, ltb, pos, ok, Ensures,
  Bool-cases, inl, inr, ltb→lt, ltb→le, subst,
}
use ww.Memory.Cells.{Cells, write, copy, copy_below, write_self, write_ne}
use ww.Memory.Node.{Node}
use ww.Vector.Trie.{Zeroed, empty_values, vector_tailoff}
use ww.Vector.Data.{Raw, new_vector}
use ww.Vector.Deep.{entry_at, cons}
use ww.Vector.Shape.{leaf_at}
use ww.Vector.Invariant.{
  leaves, IsDeep, vector_tailoff-leaves, entry_at-tail, entry_at-trie, SameEntries,
  SameEntries-refl, leaves-SameEntries,
}
use ww.Vector.Grow.{IsGrown, grown_root-IsGrowth}

module _ {A : Type 0} ⦃z : Zeroed A⦄ where
  pub record IsCons (v : Raw A) (x : A) (w : Raw A) : Type 0 where
    pub valid : IsDeep w
    pub count : w.count ≡ suc v.count
    pub last : entry_at w (pos v.count) ≡ ok x
    pub kept : (i : ℕ) → i < v.count → entry_at w (pos i) ≡ entry_at v (pos i)

  module _ (v : Raw A) (h : IsDeep v) (x : A) (bound : suc v.count < 2 ^ 32) where
    -- The fast path.
    tail_cons : ℕ → Raw A
    tail_cons taillen =
        new_vector (v.count + 1) v.shift v.root (write (copy taillen v.tail empty_values) taillen x)

    tail_cons-IsDeep :
        (taillen : ℕ)
        → v.count ≡ 32 * leaves v.count + taillen
        → taillen < 32
        → IsDeep (tail_cons taillen)
    unfolding tail_cons new_vector
    tail_cons-IsDeep taillen e lt =
        let same : leaves ((v.count + 1) % 2 ^ 32) ≡ leaves v.count = omega arith in
        record {
          depth = h.depth;
          shift_eq = omega (arith, h.shift_eq, h.depth_bound);
          depth_bound = h.depth_bound;
          fits = h.fits;
          not_null = h.not_null;
          filled = λ q below. h.filled q (omega (arith, same));
          capacity = omega (arith, same, h.capacity);
          full = omega (arith, h.full);
          count_bound = omega arith;
        }

    tail_cons-IsCons :
        (taillen : ℕ)
        → v.count ≡ 32 * leaves v.count + taillen
        → taillen < 32
        → IsCons v x (tail_cons taillen)
    unfolding tail_cons new_vector tail_cons-IsDeep
    tail_cons-IsCons taillen e lt =
        let k = tail_cons-IsDeep taillen e lt in
        let c : Cells A = copy taillen v.tail empty_values in
        let slot : v.count % 32 ≡ taillen = omega arith in
        record {
          valid = k;
          count = omega arith;
          last =
              entry_at-tail (tail_cons taillen) k v.count (omega arith) (omega arith)
              ∙ ap ok (ap (write c taillen x) slot ∙ write_self c taillen x);
          kept = λ i below. elim (dec_lt i (32 * leaves v.count)) [
            | yes in_trie ↦
                let (ws, found) = h.filled (i / 32) (omega arith) in
                entry_at-trie (tail_cons taillen) k i ws (omega arith) found
                ∙ sym (entry_at-trie v h i ws in_trie found)
            | no in_tail ↦
                entry_at-tail (tail_cons taillen) k i (omega arith) (omega arith)
                ∙ ap ok (
                    write_ne c taillen (i % 32) x (omega arith)
                    ∙ copy_below taillen v.tail empty_values (i % 32) (omega arith))
                ∙ sym (entry_at-tail v h i (omega arith) below)
          ];
        }

    -- The slow path.
    module _ (tail_full : v.count ≡ 32 * leaves v.count + 32) (d s : ℕ) (root : Node A) where
      trie_cons : Raw A
      trie_cons = new_vector (v.count + 1) s root (write empty_values 0 x)

      trie_cons-IsDeep : s ≡ 5 * suc d → IsGrown v h.depth d root → IsDeep trie_cons
      unfolding trie_cons new_vector
      trie_cons-IsDeep se g =
          let more : leaves ((v.count + 1) % 2 ^ 32) ≡ suc (leaves v.count) = omega arith in
          record {
            depth = d;
            shift_eq = omega (arith, se, g.depth_bound);
            depth_bound = g.depth_bound;
            fits = g.fits;
            not_null = g.not_null;
            filled = λ q below. elim (dec_lt q (leaves v.count)) [
              | yes old ↦ let (ws, e) = h.filled q old in (ws, g.kept q ws old e)
              | no new ↦
                  let here : leaves v.count ≡ q = omega (arith, more) in
                  (v.tail, subst (λ r. leaf_at (suc d) root r ≡ ok v.tail) here g.at)
            ];
            capacity = omega (arith, more, g.room);
            full = omega arith;
            count_bound = omega arith;
          }

      trie_cons-IsCons : s ≡ 5 * suc d → IsGrown v h.depth d root → IsCons v x trie_cons
      unfolding trie_cons new_vector trie_cons-IsDeep
      trie_cons-IsCons se g =
          let k = trie_cons-IsDeep se g in
          let slot : v.count % 32 ≡ 0 = omega arith in
          record {
            valid = k;
            count = omega arith;
            last =
                entry_at-tail trie_cons k v.count (omega arith) (omega arith)
                ∙ ap ok (ap (write empty_values 0 x) slot);
            kept = λ i below. elim (dec_lt i (32 * leaves v.count)) [
              | yes in_trie ↦
                  let (ws, found) = h.filled (i / 32) (omega arith) in
                  entry_at-trie trie_cons k i ws (omega arith)
                    (g.kept (i / 32) ws (omega arith) found)
                  ∙ sym (entry_at-trie v h i ws in_trie found)
              | no in_tail ↦
                  let here : leaves v.count ≡ i / 32 = omega arith in
                  entry_at-trie trie_cons k i v.tail (omega arith)
                    (subst (λ r. leaf_at (suc d) root r ≡ ok v.tail) here g.at)
                  ∙ sym (entry_at-tail v h i (omega arith) below)
            ];
          }

  -- The result of `cons`, and the receiver as it leaves it.
  abbrev pub IsConsed : Raw A → A → Raw A × Raw A → Type 0
  IsConsed v x (w, receiver) = IsCons v x w × IsDeep receiver × SameEntries v receiver

  pub cons-IsConsed :
      (v : Raw A) (x : A) → IsDeep v → suc v.count < 2 ^ 32 → Ensures (cons v x) (IsConsed v x)
  unfolding cons tail_cons trie_cons
  cons-IsConsed v x h bound =
      let off = vector_tailoff-leaves v.count h.full in
      elim (Bool-cases (ltb (v.count - vector_tailoff v.count) 32)) [
        | inl room ↦ rw room (
          (tail_cons v h x bound (v.count - vector_tailoff v.count), v),
          refl,
          (
            tail_cons-IsCons v h x bound (v.count - vector_tailoff v.count) (omega (arith, off))
                (ltb→lt (v.count - vector_tailoff v.count) 32 room),
            h,
            SameEntries-refl v,
          ),
        )
        | inr no_room ↦
            let tail_full : v.count ≡ 32 * leaves v.count + 32 =
              omega (arith, off, ltb→le (v.count - vector_tailoff v.count) 32 no_room) in
            let (out, e, g) = grown_root-IsGrowth v h tail_full in
            let same : h.depth ≡ g.receiver.depth =
              omega (arith, h.shift_eq, g.receiver.shift_eq) in
            rw (no_room, e)
              (
                (trie_cons v h x bound tail_full g.depth out.1 out.0, record v { root = out.2 }),
                refl,
                (
                  trie_cons-IsCons v h x bound tail_full g.depth out.1 out.0 g.shift_eq g.grown,
                  g.receiver,
                  leaves-SameEntries v (record v { root = out.2 }) h g.receiver refl refl
                      (λ q ws lt found.
                        subst (λ d. leaf_at (suc d) out.2 q ≡ ok ws) same
                          (g.receiver_kept q ws lt found)),
                ),
              )
      ]
