-- ===== src/Vector/DeepConj.antt =====
-- A deep vector as the list that it holds, through `cons` and `conj`.
use mathlib.Core.List.{append-nil, append_assoc}
use ww.Prelude.{
  subst, get_elem?-snoc, ℕ, suc, ◌+◌, ◌^◌, ◌<◌, ◌≡◌, refl, sym, ◌∙◌, ap, arith, pos, ok, Ensures,
  some, List, [], ◌∷◌, ◌++◌, length, length-append, get_elem?, get_elem?-lt, inl, inr,
}
use ww.Vector.Trie.{Zeroed}
use ww.Vector.Data.{Raw}
use ww.Vector.Deep.{entry_at, cons, conj}
use ww.Vector.Invariant.{IsDeep, SameEntries}
use ww.Vector.DeepCons.{IsCons, cons-IsConsed}

module _ {A : Type 0} where
  -- The vector is well formed and holds exactly the values of the list, in order.
  pub record DeepHolds (v : Raw A) (xs : List A) : Type 0 where
    pub valid : IsDeep v
    pub size : v.count ≡ length xs
    pub at : (i : ℕ) (x : A) → get_elem? xs i ≡ some x → entry_at v (pos i) ≡ ok x

  pub SameEntries-DeepHolds :
      (v w : Raw A) (xs : List A) → DeepHolds v xs → IsDeep w → SameEntries v w → DeepHolds w xs
  SameEntries-DeepHolds v w xs h k s = record {
    valid = k;
    size = s.count ∙ h.size;
    at = λ i x e. s.kept i (omega (arith, h.size, get_elem?-lt xs i x e)) ∙ h.at i x e;
  }

module _ {A : Type 0} ⦃z : Zeroed A⦄ where
  IsCons-DeepHolds :
      (v w : Raw A) (x : A) (xs : List A)
      → DeepHolds v xs
      → IsCons v x w
      → DeepHolds w (xs ++ x ∷ [])
  IsCons-DeepHolds v w x xs h c = record {
    valid = c.valid;
    size = omega (arith, c.count, h.size, length-append xs (x ∷ []));
    at = λ i y e. elim (get_elem?-snoc xs x i y e) [
      | inl (lt, old) ↦ c.kept i (omega (arith, h.size)) ∙ h.at i y old
      | inr (here, same) ↦ ap (λ k. entry_at w (pos k)) (here ∙ sym h.size) ∙ c.last ∙ ap ok same
    ];
  }

  -- One `cons` appends one value. The receiver, written to or not, holds what it held.
  pub cons-DeepHolds :
      (v : Raw A) (x : A) (xs : List A)
      → DeepHolds v xs
      → suc (length xs) < 2 ^ 32
      → Ensures (cons v x) (λ r. DeepHolds r.0 (xs ++ x ∷ []) × DeepHolds r.1 xs)
  cons-DeepHolds v x xs h bound =
      let (r, e, p) = cons-IsConsed v x h.valid (omega (arith, h.size)) in
      (r, e, (IsCons-DeepHolds v r.0 x xs h p.0, SameEntries-DeepHolds v r.1 xs h p.1 p.2))

  -- `conj` appends its items, in order.
  pub conj-DeepHolds :
      (v : Raw A) (xs items : List A)
      → DeepHolds v xs
      → length xs + length items < 2 ^ 32
      → Ensures (conj v items) (λ r. DeepHolds r.0 (xs ++ items) × DeepHolds r.1 xs)
  unfolding conj
  conj-DeepHolds v xs [] h bound = ((v, v), refl, (subst (DeepHolds v) (sym (append-nil xs)) h, h))
  conj-DeepHolds v xs (x ∷ items) h bound =
      let (r, e, p) = cons-DeepHolds v x xs h (omega arith) in
      let (r', e', q) =
        conj-DeepHolds r.0 (xs ++ x ∷ []) items p.0 (omega (arith, length-append xs (x ∷ []))) in
      rw (e, e')
        ((r'.0, r.1), refl, (subst (DeepHolds r'.0) (append_assoc xs (x ∷ []) items) q.0, p.1))
