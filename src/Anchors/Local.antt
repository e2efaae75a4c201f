-- ===== src/Anchors/Local.antt =====
-- localAnchor of pkg/host/anchor.go, over the tree of anchors. A value is `some`, and the nil value
-- `none`; AsAny and Value are taken to give back what was stored.
use ww.Prelude.{
  ℕ, if◌then◌else◌, List, [], ◌∷◌, Option, Result, ok, fail, ◌>>=◌, anchor_not_empty,
  not_implemented,
}
use ww.Tree.Store.{Name, Heap, walk, path, load, store, list}
use ww.AnchorPath.Text.{Text, join}

-- The value of a call that returns no value
abbrev pub Done : Type 0
Done = Unit

-- localAnchor, whose node is an index into the host's tree
pub record LocalAnchor : Type 0 where
  pub root : Text
  pub node : ℕ

-- (localAnchor).Ls, on the nodes that List returns
abbrev pub children_of : Text → List ℕ → List LocalAnchor
children_of root [] = []
children_of root (n ∷ ns) = record { root = root; node = n } ∷ children_of root ns

module _ {A : Type 0} where
  -- (localAnchor).Path, with fuel for the depth of the node
  unfoldable pub local_path : ℕ → Heap A → LocalAnchor → Result (List Text)
  local_path fuel h a = do ps ← path fuel h a.node; ok (a.root ∷ ps)

  -- (localAnchor).String
  unfoldable pub local_string : ℕ → Heap A → LocalAnchor → Result Text
  local_string fuel h a = do ps ← local_path fuel h a; ok (join ps)

  -- (localAnchor).Name
  abbrev pub local_name : Heap A → LocalAnchor → Name
  local_name h a = (h.node a.node).name

  -- (localAnchor).Ls
  abbrev pub local_ls : Heap A → LocalAnchor → Heap A × List LocalAnchor
  local_ls h a = let found = list h a.node in (found.0, children_of a.root found.1)

  -- (localAnchor).Walk
  unfoldable pub local_walk : Heap A → LocalAnchor → List Text → Heap A × LocalAnchor
  local_walk h a ps =
      let found = walk h a.node ps in (found.0, record { root = a.root; node = found.1 })

  -- (localAnchor).Load
  abbrev pub local_load : Heap A → LocalAnchor → Result (Option A)
  local_load h a = ok (load h a.node)

  -- (localAnchor).Store
  unfoldable pub local_store : Heap A → LocalAnchor → Option A → Heap A × Result Done
  local_store h a v =
      let stored = store h a.node v in (stored.0, if stored.1 then ok tt else fail anchor_not_empty)

  -- (localAnchor).Go
  abbrev pub local_go : Heap A → LocalAnchor → List (Option A) → Heap A × Result Done
  local_go h a args = (h, fail not_implemented)
