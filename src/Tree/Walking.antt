-- ===== src/Tree/Walking.antt =====
-- Walk of pkg/internal/tree/tree.go: where it arrives, and what it leaves as it was.
use ww.Prelude.{
  ℕ, ◌<◌, ◌≡◌, ◌∙◌, refl, ap, sym, subst, arith, List, [], ◌∷◌, ◌++◌, append_nil, append_snoc,
  Option, none, some, ok,
}
use ww.Tree.Store.{Name, Heap, find_child, walk_step, walk, node_path}
use ww.Tree.Paths.{
  IsTree, Extends, Extends-trans, Extends-self, HasPath, below, node_path-HasPath, Extends-HasPath,
  ref-Extends, ref-IsTree,
}
use ww.Tree.Added.{added_size, find-added, added-Extends, added-IsTree}

module _ {A : Type 0} where
  -- The components lead from one node to the other.
  abbrev pub Leads : Heap A → ℕ → List Name → ℕ → Type 0
  Leads h n [] c = n ≡ c
  Leads h n (name ∷ path) c =
      (m : ℕ) × (find_child (h.node n).children name ≡ some m) × Leads h m path c

  -- The walk kept every node, and its components lead to where it arrived.
  pub record Walked (h k : Heap A) (n : ℕ) (path : List Name) (c : ℕ) : Type 0 where
    pub tree : IsTree k
    pub extends : Extends h k
    pub placed : c < k.size
    pub leads : Leads k n path c

  step-Walked :
      (h : Heap A) (n : ℕ) (name : Name) (r : Option ℕ)
      → find_child (h.node n).children name ≡ r
      → IsTree h
      → n < h.size
      → Walked h (walk_step h n name r).0 n (name ∷ []) (walk_step h n name r).1
  step-Walked h n name (some c) e t lt =
      let (_, _, _, placed) = t.child n c name lt e in
      record { tree = t; extends = Extends-self h; placed = placed; leads = (c, e, refl) }
  step-Walked h n name none e t lt = record {
    tree = added-IsTree h n name lt t;
    extends = added-Extends h n name lt e;
    placed = omega (arith, added_size h n name lt);
    leads = (h.size, find-added h n name lt, refl);
  }

  -- Walk keeps the invariant of the tree and every node with its name, its parent and its children,
  -- and the components of the path lead from the node where it starts to the node that it returns.
  pub walk-Walked :
      (h : Heap A) (n : ℕ) (path : List Name)
      → IsTree h
      → n < h.size
      → Walked h (walk h n path).0 n path (walk h n path).1
  unfolding walk
  walk-Walked h n [] t lt = record {
    tree = ref-IsTree h n t;
    extends = ref-Extends h n;
    placed = omega (arith, (ref-Extends h n).size);
    leads = refl;
  }
  walk-Walked h n (name ∷ path) t lt =
      let r = find_child (h.node n).children name in
      let s = step-Walked h n name r refl t lt in
      let (m, found, same) = s.leads in
      let w = walk-Walked (walk_step h n name r).0 (walk_step h n name r).1 path s.tree s.placed in
      record {
        tree = w.tree;
        extends = Extends-trans h (walk_step h n name r).0 _ s.extends w.extends;
        placed = w.placed;
        leads = (
          (walk_step h n name r).1,
          w.extends.child n (walk_step h n name r).1 name (omega (arith, s.extends.size))
              (found ∙ ap some same),
          w.leads,
        );
      }

  Leads-HasPath :
      (h : Heap A) (n c : ℕ) (path ps : List Name)
      → IsTree h
      → n < h.size
      → Leads h n path c
      → HasPath h n ps
      → HasPath h c (ps ++ path)
  Leads-HasPath h n c [] ps t lt same p =
      subst (λ i. HasPath h i (ps ++ [])) same
        (subst (λ qs. HasPath h n qs) (sym (append_nil ps)) p)
  Leads-HasPath h n c (name ∷ path) ps t lt (m, found, leads) p =
      let (same, up, later, placed) = t.child n m name lt found in
      let here : HasPath h m (ps ++ name ∷ []) =
        below n ps up p (ap (λ k. ps ++ k ∷ []) (sym same)) in
      subst (λ qs. HasPath h c qs) (append_snoc ps name path)
        (Leads-HasPath h m c path (ps ++ name ∷ []) t placed leads here)

  -- The path of the node that Walk returns is the path of the node where it starts, followed by the
  -- components of the walk; the fuel that is needed is more than the index of the node.
  pub path-walk :
      (h : Heap A) (n : ℕ) (path ps : List Name) (fuel : ℕ)
      → IsTree h
      → n < h.size
      → HasPath h n ps
      → (walk h n path).1 < fuel
      → node_path fuel (walk h n path).0 (walk h n path).1 ≡ ok (ps ++ path)
  path-walk h n path ps fuel t lt p enough =
      let w = walk-Walked h n path t lt in
      node_path-HasPath (walk h n path).0 fuel (walk h n path).1 (ps ++ path) w.tree w.placed enough
        (Leads-HasPath (walk h n path).0 n (walk h n path).1 path ps w.tree
          (omega (arith, w.extends.size)) w.leads
          (Extends-HasPath h (walk h n path).0 n ps t w.extends lt p))

  pub Leads-walk :
      (h : Heap A) (n c : ℕ) (path : List Name) → Leads h n path c → (walk h n path).1 ≡ c
  unfolding walk
  Leads-walk h n c [] same = same
  Leads-walk h n c (name ∷ path) (m, found, leads) =
      ap (λ r. (walk (walk_step h n name r).0 (walk_step h n name r).1 path).1) found
      ∙ Leads-walk h m c path leads

  -- A second walk along the same components, from the same node, arrives at the same node.
  pub walk-walk :
      (h : Heap A) (n : ℕ) (path : List Name)
      → IsTree h
      → n < h.size
      → (walk (walk h n path).0 n path).1 ≡ (walk h n path).1
  walk-walk h n path t lt =
      Leads-walk (walk h n path).0 n (walk h n path).1 path (walk-Walked h n path t lt).leads
