-- ===== src/Tree/Added.antt =====
-- The node that Walk of pkg/internal/tree/tree.go adds: what it is, and what stays as it was.
use ww.Prelude.{
  ℕ, suc, ◌<◌, ◌≡◌, ◌≢◌, ◌⊎◌, ◌∙◌, refl, sym, subst, arith, Bool-cases, inl, inr, ◌==◌,
  if◌then◌else◌, ◌∷◌, none, some, some_injective, same_text, same_text_self, same_text→eq, eq_self,
  ne→eq,
}
use ww.Tree.Store.{Name, Heap, find_child, new_node, with_ctr, with_children, ref, add_child}
use ww.Tree.Paths.{IsTree, Extends}

module _ {A : Type 0} where
  module _ (h : Heap A) (n : ℕ) (name : Name) (lt : n < h.size) where
    pub added_size : (add_child h n name).size ≡ suc h.size
    unfolding add_child ref
    added_size = refl

    added_new : (add_child h n name).node h.size ≡ with_ctr (new_node (some n) name) 1
    unfolding add_child ref
    added_new = rw (eq_self h.size, ne→eq n h.size (omega arith)) refl

    added_at :
        (add_child h n name).node n
        ≡ with_children (h.node n) ((name, h.size) ∷ (h.node n).children)
    unfolding add_child ref
    added_at = rw (ne→eq h.size n (omega arith), eq_self n) refl

    added_other : (j : ℕ) → j ≢ n → j ≢ h.size → (add_child h n name).node j ≡ h.node j
    unfolding add_child ref
    added_other j other old =
        rw (ne→eq h.size j (λ e. old (sym e)), ne→eq n j (λ e. other (sym e))) refl

    -- An old node keeps its name and parent.
    added_old :
        (j : ℕ)
        → j < h.size
        → (((add_child h n name).node j).name ≡ (h.node j).name)
          × (((add_child h n name).node j).parent ≡ (h.node j).parent)
    added_old j old = elim (Bool-cases (j == n)) [
      | inl e ↦ let same : j ≡ n = ground arith in rw (same, added_at) (refl, refl)
      | inr e ↦ rw (added_other j (λ i. ground arith) (λ i. omega (arith, i))) (refl, refl)
    ]

    pub find-added : find_child ((add_child h n name).node n).children name ≡ some h.size
    find-added = rw (added_at, same_text_self name) refl

    -- A child of the new store is one of the old store, or the new one.
    added_children :
        (j c : ℕ) (key : Name)
        → j < suc h.size
        → find_child ((add_child h n name).node j).children key ≡ some c
        → (j < h.size) × (find_child (h.node j).children key ≡ some c)
          ⊎ (j ≡ n) × (key ≡ name) × (c ≡ h.size)
    added_children j c key near e = elim (Bool-cases (j == h.size)) [
      | inl last ↦
          let same : j ≡ h.size = ground arith in
          let found =
            subst (λ x. find_child x.children key ≡ some c) added_new
              (subst (λ i. find_child ((add_child h n name).node i).children key ≡ some c) same
                e) in
          absurd (ground (arith, found))
      | inr old ↦ elim (Bool-cases (j == n)) [
        | inl here ↦
            let same : j ≡ n = ground arith in
            let found =
              subst (λ x. find_child x.children key ≡ some c) added_at
                (subst (λ i. find_child ((add_child h n name).node i).children key ≡ some c) same
                  e) in
            elim (Bool-cases (same_text name key)) [
              | inl t ↦ inr (
                same,
                sym (same_text→eq name key t),
                sym (
                    some_injective (
                      subst
                        (λ b.
                          (if b then some h.size else find_child (h.node n).children key) ≡ some c)
                        t found)),
              )
              | inr t ↦ inl (
                ground arith,
                subst (λ i. find_child (h.node i).children key ≡ some c) (sym same)
                    (subst
                      (λ b.
                        (if b then some h.size else find_child (h.node n).children key) ≡ some c)
                      t found),
              )
            ]
        | inr other ↦ inl (
          ground arith,
          subst (λ x. find_child x.children key ≡ some c)
              (added_other j (λ i. ground arith) (λ i. ground arith)) e,
        )
      ]
    ]

    pub added-Extends : find_child (h.node n).children name ≡ none → Extends h (add_child h n name)
    added-Extends missing = record {
      size = omega (arith, added_size);
      name = λ j old. (added_old j old).0;
      parent = λ j old. (added_old j old).1;
      child = λ j c key old e. elim (Bool-cases (j == n)) [
        | inl here ↦
            let same : j ≡ n = ground arith in
            let found = subst (λ i. find_child (h.node i).children key ≡ some c) same e in
            rw (same, added_at)
              (elim (Bool-cases (same_text name key)) [
                | inl t ↦
                    let lost =
                      subst (λ k. find_child (h.node n).children k ≡ some c)
                        (sym (same_text→eq name key t)) found in
                    absurd (ground (arith, lost, missing))
                | inr t ↦ rw t found
              ])
        | inr other ↦ rw (added_other j (λ i. ground arith) (λ i. omega (arith, i))) e
      ];
    }

    pub added-IsTree : IsTree h → IsTree (add_child h n name)
    added-IsTree t = record {
      child = λ j c key near e. elim (added_children j c key (omega (arith, added_size)) e) [
        | inl (old, found) ↦
            let (same, up, later, placed) = t.child j c key old found in
            let kept = added_old c placed in
            (kept.0 ∙ same, kept.1 ∙ up, later, omega (arith, added_size, placed))
        | inr (here, key_eq, new_eq) ↦
            rw (new_eq, added_new, here, key_eq) (refl, refl, lt, omega (arith, added_size))
      ];
      parent = λ j m near e. elim (Bool-cases (j == h.size)) [
        | inl last ↦
            let same : j ≡ h.size = ground arith in
            let up =
              subst (λ x. x.parent ≡ some m) added_new
                (subst (λ i. ((add_child h n name).node i).parent ≡ some m) same e) in
            omega (arith, some_injective up, same)
        | inr old ↦
            let placed : j < h.size = ground (arith, added_size, near) in
            t.parent j m placed (sym (added_old j placed).1 ∙ e)
      ];
    }
