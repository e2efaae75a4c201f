-- ===== src/Tree/Paths.antt =====
-- The invariant of the tree of pkg/internal/tree/tree.go, and the path from its root to a node.
use ww.Prelude.{
  ℕ, zero, suc, ◌+◌, ◌≤◌, ◌<◌, ◌≡◌, ◌∙◌, refl, ap, sym, subst, arith, Bool-cases, inl, inr, ◌==◌,
  List, [], ◌∷◌, ◌++◌, none, some, ok,
}
use ww.Tree.Store.{Name, Node, Heap, find_child, with_ctr, ref, root_store, new, node_path}

module _ {A : Type 0} where
  -- A child that is found has the name, the parent and a later place; a parent has an earlier one.
  pub record IsTree (h : Heap A) : Type 0 where
    pub child :
        (n c : ℕ) (name : Name)
        → n < h.size
        → find_child (h.node n).children name ≡ some c
        → ((h.node c).name ≡ name) × ((h.node c).parent ≡ some n) × (n < c) × (c < h.size)
    pub parent : (n m : ℕ) → n < h.size → (h.node n).parent ≡ some m → m < n

  -- Every node keeps its name, its parent and the children that it has.
  pub record Extends (h k : Heap A) : Type 0 where
    pub size : h.size ≤ k.size
    pub name : (j : ℕ) → j < h.size → (k.node j).name ≡ (h.node j).name
    pub parent : (j : ℕ) → j < h.size → (k.node j).parent ≡ (h.node j).parent
    pub child :
        (j c : ℕ) (name : Name)
        → j < h.size
        → find_child (h.node j).children name ≡ some c
        → find_child (k.node j).children name ≡ some c

  pub Extends-self : (h : Heap A) → Extends h h
  Extends-self h = record {
    size = omega arith;
    name = λ j lt. refl;
    parent = λ j lt. refl;
    child = λ j c name lt e. e;
  }

  pub Extends-trans : (h k l : Heap A) → Extends h k → Extends k l → Extends h l
  Extends-trans h k l p q = record {
    size = omega (arith, p.size, q.size);
    name = λ j lt. q.name j (omega (arith, p.size)) ∙ p.name j lt;
    parent = λ j lt. q.parent j (omega (arith, p.size)) ∙ p.parent j lt;
    child = λ j c name lt e. q.child j c name (omega (arith, p.size)) (p.child j c name lt e);
  }

  -- The path from the root, the name of the root first.
  pub data HasPath (h : Heap A) : ℕ → List Name → Type 0 where
    at_root :
        {n : ℕ} {ps : List Name}
        → (h.node n).parent ≡ none
        → ps ≡ (h.node n).name ∷ []
        → HasPath h n ps
    below :
        {n : ℕ} {ps : List Name} (m : ℕ) (above : List Name)
        → (h.node n).parent ≡ some m
        → HasPath h m above
        → ps ≡ above ++ (h.node n).name ∷ []
        → HasPath h n ps

  -- (node).path returns it, and needs no more rounds than there are nodes up to this one.
  pub node_path-HasPath :
      (h : Heap A) (fuel n : ℕ) (ps : List Name)
      → IsTree h
      → n < h.size
      → n < fuel
      → HasPath h n ps
      → node_path fuel h n ≡ ok ps
  unfolding node_path
  node_path-HasPath h (suc fuel) n ps t lt enough (at_root e split) = rw (e, split) refl
  node_path-HasPath h (suc fuel) n ps t lt enough (below m above e p split) =
      let down = t.parent n m lt e in
      rw
        (e, node_path-HasPath h fuel m above t (omega (arith, down)) (omega (arith, down)) p, split)
        refl
  node_path-HasPath h zero n ps t lt enough p = absurd (omega arith)

  pub Extends-HasPath :
      (h k : Heap A) (n : ℕ) (ps : List Name)
      → IsTree h
      → Extends h k
      → n < h.size
      → HasPath h n ps
      → HasPath k n ps
  Extends-HasPath h k n ps t x lt (at_root e split) =
      at_root (x.parent n lt ∙ e) (split ∙ ap (λ p. p ∷ []) (sym (x.name n lt)))
  Extends-HasPath h k n ps t x lt (below m above e p split) =
      below m above (x.parent n lt ∙ e)
        (Extends-HasPath h k m above t x (omega (arith, t.parent n m lt e)) p)
        (split ∙ ap (λ p. above ++ p ∷ []) (sym (x.name n lt)))

  -- A reference changes a counter only.
  ref_keeps {κ} :
      {B : Type κ} (f : Node A → B) (h : Heap A) (n j : ℕ)
      → ((x : Node A) (c : ℕ) → f (with_ctr x c) ≡ f x)
      → f ((ref h n).node j) ≡ f (h.node j)
  unfolding ref
  ref_keeps f h n j keep = elim (Bool-cases (n == j)) [
    | inl e ↦
        let same : n ≡ j = ground arith in
        rw e (keep (h.node n) ((h.node n).ctr + 1) ∙ ap (λ i. f (h.node i)) same)
    | inr e ↦ rw e refl
  ]

  ref-name : (h : Heap A) (n j : ℕ) → ((ref h n).node j).name ≡ (h.node j).name
  ref-name h n j = ref_keeps (λ x. x.name) h n j (λ x c. refl)

  ref-parent : (h : Heap A) (n j : ℕ) → ((ref h n).node j).parent ≡ (h.node j).parent
  ref-parent h n j = ref_keeps (λ x. x.parent) h n j (λ x c. refl)

  ref-children : (h : Heap A) (n j : ℕ) → ((ref h n).node j).children ≡ (h.node j).children
  ref-children h n j = ref_keeps (λ x. x.children) h n j (λ x c. refl)

  ref-size : (h : Heap A) (n : ℕ) → (ref h n).size ≡ h.size
  unfolding ref
  ref-size h n = refl

  pub ref-Extends : (h : Heap A) (n : ℕ) → Extends h (ref h n)
  ref-Extends h n = record {
    size = omega (arith, ref-size h n);
    name = λ j lt. ref-name h n j;
    parent = λ j lt. ref-parent h n j;
    child = λ j c name lt e. ap (λ l. find_child l name) (ref-children h n j) ∙ e;
  }

  pub ref-IsTree : (h : Heap A) (n : ℕ) → IsTree h → IsTree (ref h n)
  ref-IsTree h n t = record {
    child = λ j c name lt e.
        let (same, up, later, near) =
          t.child j c name (omega (arith, ref-size h n))
            (ap (λ l. find_child l name) (sym (ref-children h n j)) ∙ e) in
        (ref-name h n c ∙ same, ref-parent h n c ∙ up, later, omega (arith, ref-size h n, near));
    parent = λ j m lt e. t.parent j m (omega (arith, ref-size h n)) (sym (ref-parent h n j) ∙ e);
  }

  -- A new tree is one.
  pub new-IsTree : IsTree (new {A = A})
  unfolding new
  new-IsTree = record {
    child = λ n c name lt e.
        absurd
          (ground (arith, subst (λ l. find_child l name ≡ some c) (ref-children root_store 0 n) e));
    parent = λ n m lt e. absurd (ground (arith, sym (ref-parent root_store 0 n) ∙ e));
  }

  pub new-HasPath : HasPath (new {A = A}) 0 ([] ∷ [])
  unfolding new
  new-HasPath =
      at_root (ref-parent root_store 0 0) (ap (λ k. k ∷ []) (sym (ref-name root_store 0 0)))

pub new_size : (A : Type 0) → (new {A = A}).size ≡ 1
unfolding new
new_size A = ref-size root_store 0
