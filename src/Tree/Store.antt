-- ===== src/Tree/Store.antt =====
-- The operations of pkg/internal/tree/tree.go. The nodes are in a store, where a pointer is an index;
-- every operation runs under its locks, so it is one step on the store. A finalizer is a call of `gc`
-- for a reference that was handed out, once for each, so the counter is not 0 when it goes down.
use ww.Prelude.{
  ℕ, zero, suc, ◌+◌, ◌-◌, ◌==◌, ◌&&◌, not, Bool, true, false, if◌then◌else◌, List, [], ◌∷◌, ◌++◌,
  length, Option, none, some, same_text, Result, ok, fail, ◌>>=◌, out_of_fuel,
}

abbrev pub Name : Type 0
Name = List ℕ

-- node; `any` is `none` where it is nil.
pub record Node (A : Type 0) : Type 0 where
  pub ctr : ℕ
  pub any : Option A
  pub name : Name
  pub parent : Option ℕ
  pub children : List (Name × ℕ)

-- The nodes up to `size` are allocated.
pub record Heap (A : Type 0) : Type 0 where
  pub size : ℕ
  pub node : ℕ → Node A

abbrev pub find_child : List (Name × ℕ) → Name → Option ℕ
find_child [] name = none
find_child ((key, c) ∷ children) name =
    if same_text key name then some c else find_child children name

-- delete(children, name)
abbrev pub delete_child : List (Name × ℕ) → Name → List (Name × ℕ)
delete_child [] name = []
delete_child ((key, c) ∷ children) name =
    if same_text key name then delete_child children name else (key, c) ∷ delete_child children name

-- The loop of (nodeRef).Path: no empty component
abbrev pub nonempty : List Name → List Name
nonempty [] = []
nonempty ([] ∷ path) = nonempty path
nonempty ((c ∷ name) ∷ path) = (c ∷ name) ∷ nonempty path

abbrev pub indexes : List (Name × ℕ) → List ℕ
indexes [] = []
indexes ((_, c) ∷ children) = c ∷ indexes children

abbrev pub is_none {ℓ} : {A : Type ℓ} → Option A → Bool
is_none none = true
is_none (some x) = false

-- (node).path, with what the parent's path is
abbrev pub path_by : Option ℕ → (ℕ → Result (List Name)) → Name → Result (List Name)
path_by none above name = ok (name ∷ [])
path_by (some m) above name = do ps ← above m; ok (ps ++ name ∷ [])

module _ {A : Type 0} where
  abbrev pub put : Heap A → ℕ → Node A → Heap A
  put h n x = record { size = h.size; node = λ j. if n == j then x else h.node j }

  abbrev pub with_ctr : Node A → ℕ → Node A
  with_ctr x ctr = record {
    ctr = ctr;
    any = x.any;
    name = x.name;
    parent = x.parent;
    children = x.children;
  }

  abbrev pub with_any : Node A → Option A → Node A
  with_any x any = record {
    ctr = x.ctr;
    any = any;
    name = x.name;
    parent = x.parent;
    children = x.children;
  }

  abbrev pub with_children : Node A → List (Name × ℕ) → Node A
  with_children x children = record {
    ctr = x.ctr;
    any = x.any;
    name = x.name;
    parent = x.parent;
    children = children;
  }

  -- newNode
  abbrev pub new_node : Option ℕ → Name → Node A
  new_node parent name = record { ctr = 0; any = none; name = name; parent = parent; children = [] }

  -- (node).ref
  unfoldable pub ref : Heap A → ℕ → Heap A
  ref h n = put h n (with_ctr (h.node n) ((h.node n).ctr + 1))

  -- The node of newRootNode
  abbrev pub root_store : Heap A
  root_store = record { size = 1; node = λ _. new_node none [] }

  -- New
  unfoldable pub new : Heap A
  new = ref root_store 0

  -- The new child of Walk, with the reference that is taken on it
  unfoldable pub add_child : Heap A → ℕ → Name → Heap A
  add_child h n name =
      let grown : Heap A = record {
        size = suc h.size;
        node = (put h h.size (new_node (some n) name)).node;
      } in
      let linked =
        put grown n (with_children (grown.node n) ((name, h.size) ∷ (grown.node n).children)) in
      ref linked h.size

  -- One component of Walk: the child of that name, made if there is none
  abbrev pub walk_step : Heap A → ℕ → Name → Option ℕ → Heap A × ℕ
  walk_step h n name (some c) = (h, c)
  walk_step h n name none = (add_child h n name, h.size)

  -- (nodeRef).Walk: the store, and the node that is referred to
  unfoldable pub walk : Heap A → ℕ → List Name → Heap A × ℕ
  walk h n [] = (ref h n, n)
  walk h n (name ∷ path) =
      let next = walk_step h n name (find_child (h.node n).children name) in walk next.0 next.1 path

  -- (node).path, with fuel for the number of parents
  unfoldable pub node_path : ℕ → Heap A → ℕ → Result (List Name)
  node_path zero h n = fail out_of_fuel
  node_path (suc fuel) h n = path_by (h.node n).parent (λ m. node_path fuel h m) (h.node n).name

  -- (nodeRef).Path
  unfoldable pub path : ℕ → Heap A → ℕ → Result (List Name)
  path fuel h n = do raw ← node_path fuel h n; ok (nonempty raw)

  -- (node).orphanedUnsafe
  abbrev pub orphaned : Node A → Bool
  orphaned x = ((x.ctr == 0) && (length x.children == 0)) && is_none x.any

  -- The end of gc, on a node whose counter went down
  unfoldable pub collect_child : Heap A → ℕ → Option ℕ → Heap A
  collect_child h n none = h
  collect_child h n (some child) =
      if orphaned (h.node child)
      then put h n (with_children (h.node n) (delete_child (h.node n).children (h.node n).name))
      else h

  -- gc
  unfoldable pub gc : Heap A → ℕ → Heap A
  gc h n =
      let less = put h n (with_ctr (h.node n) ((h.node n).ctr - 1)) in
      let x = with_ctr (h.node n) ((h.node n).ctr - 1) in
      if orphaned x && not (is_none x.parent)
      then collect_child less n (find_child x.children x.name)
      else less

  -- Load
  unfoldable pub load : Heap A → ℕ → Option A
  load h n = (h.node n).any

  -- Store
  unfoldable pub store : Heap A → ℕ → Option A → Heap A × Bool
  store h n none = (put h n (with_any (h.node n) none), true)
  store h n (some x) =
      if is_none (h.node n).any then (put h n (with_any (h.node n) (some x)), true) else (h, false)

  -- List: a reference to each child
  abbrev pub ref_all : Heap A → List (Name × ℕ) → Heap A
  ref_all h [] = h
  ref_all h ((_, c) ∷ children) = ref_all (ref h c) children

  unfoldable pub list : Heap A → ℕ → Heap A × List ℕ
  list h n = (ref_all h (h.node n).children, indexes (h.node n).children)
