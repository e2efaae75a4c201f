-- ===== src/Tree/Collecting.antt =====
-- gc, Load and Store of pkg/internal/tree/tree.go.
use ww.Prelude.{
  ℕ, ◌-◌, ◌==◌, ◌≡◌, refl, ap, arith, Bool-cases, inl, inr, true, false, if◌then◌else◌, ◌&&◌, ◌||◌,
  not, Bool, List, [], ◌∷◌, length, Option, none, some, eq_self,
}
use ww.Tree.Store.{
  Name, Node, Heap, find_child, put, with_ctr, orphaned, is_none, collect_child, gc, load, store,
  with_any,
}

childless :
    (l : List (Name × ℕ)) (name : Name) (a b : Bool)
    → ((a && (length l == 0)) && b) ≡ true
    → find_child l name ≡ none
childless [] name a b h = refl
childless (c ∷ l) name true b h = ground arith
childless (c ∷ l) name false b h = ground arith

if_same {ℓ} : {B : Type ℓ} → (b : Bool) (x : B) → (if b then x else x) ≡ x
if_same true x = refl
if_same false x = refl

module _ {A : Type 0} where
  -- An orphan has no child, so none is found.
  orphan_childless :
      (x : Node A) (name : Name) → orphaned x ≡ true → find_child x.children name ≡ none
  orphan_childless x name h = childless x.children name (x.ctr == 0) (is_none x.any) h

  put_ctr-children :
      (h : Heap A) (n c j : ℕ)
      → ((put h n (with_ctr (h.node n) c)).node j).children ≡ (h.node j).children
  put_ctr-children h n c j = elim (Bool-cases (n == j)) [
    | inl e ↦ let same : n ≡ j = ground arith in rw e (ap (λ i. (h.node i).children) same)
    | inr e ↦ rw e refl
  ]

  -- gc leaves the children of every node as they are.
  pub gc-children : (h : Heap A) (n j : ℕ) → ((gc h n).node j).children ≡ (h.node j).children
  unfolding gc collect_child
  gc-children h n j =
      let x = with_ctr (h.node n) ((h.node n).ctr - 1) in
      elim (Bool-cases (orphaned x)) [
        | inl e ↦
            rw (e, orphan_childless x x.name e)
              (rw (if_same (not (is_none (h.node n).parent)) (put h n x))
                (put_ctr-children h n ((h.node n).ctr - 1) j))
        | inr e ↦ rw e (put_ctr-children h n ((h.node n).ctr - 1) j)
      ]

  put_self : (h : Heap A) (n : ℕ) (x : Node A) → (put h n x).node n ≡ x
  put_self h n x = rw (eq_self n) refl

  -- Store of a value succeeds exactly when nothing is stored or the value is nil; then Load returns
  -- the value, and otherwise what it returned before.
  pub load-store :
      (h : Heap A) (n : ℕ) (any : Option A)
      → ((store h n any).1 ≡ is_none any || is_none (load h n))
        × (load (store h n any).0 n ≡ (if is_none any || is_none (load h n) then any else load h n))
  unfolding load store
  load-store h n none = (refl, ap (λ y. y.any) (put_self h n (with_any (h.node n) none)))
  load-store h n (some x) = elim (Bool-cases (is_none (h.node n).any)) [
    | inl e ↦ rw e (refl, ap (λ y. y.any) (put_self h n (with_any (h.node n) (some x))))
    | inr e ↦ rw e (refl, refl)
  ]
