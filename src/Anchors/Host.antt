-- ===== src/Anchors/Host.antt =====
-- rootAnchor, rootAnchorCap and anchorCap of pkg/host/anchor.go. The wire library's allocations are
-- taken to succeed; what an argument of a call holds may fail to be read.
use ww.Prelude.{
  ℕ, ◌&&◌, not, Bool, false, if◌then◌else◌, List, [], ◌∷◌, Option, none, same_text, Result, ok,
  fail, panic, misrouted, not_implemented,
}
use ww.Tree.Store.{Name, Heap, walk, path}
use ww.AnchorPath.Text.{Text, root, parts, join}
use ww.Anchors.Local.{
  Done, LocalAnchor, local_walk, local_load, local_store, local_name, local_ls, local_go,
}

-- What rootAnchor.Walk returns: the root itself, an anchor of the host's tree, or one that is walked
-- to by dialling the host that the first component names.
pub data Anchor : Type 0 where
  root_anchor : Anchor
  local_anchor : LocalAnchor → Anchor
  remote_anchor : (host : Text) (path : List Text) → Anchor

-- rootAnchor; the node of its tree has index 0.
pub record RootAnchor (A : Type 0) : Type 0 where
  pub local_id : Text
  pub tree : Heap A

-- (rootAnchor).isLocal
abbrev pub is_local : Text → List Text → Bool
is_local id [] = false
is_local id (p ∷ ps) = not (root (p ∷ ps)) && same_text p id

-- (rootAnchor).Ls, whose peers are those of the peer set: the hosts
abbrev pub root_ls : List ℕ → List ℕ
root_ls peers = peers

-- (rootAnchorCap).Ls: the path of each host, where `id_text` is what the identifier of a peer reads
abbrev pub cap_root_ls : (ℕ → Text) → List ℕ → List Text
cap_root_ls id_text [] = []
cap_root_ls id_text (p ∷ peers) = join (id_text p ∷ []) ∷ cap_root_ls id_text peers

module _ {A : Type 0} where
  abbrev pub with_tree : RootAnchor A → Heap A → RootAnchor A
  with_tree r h = record r { tree = h }

  -- (rootAnchor).Walk
  unfoldable pub root_walk : RootAnchor A → List Text → RootAnchor A × Anchor
  root_walk r [] = (r, root_anchor)
  root_walk r (p ∷ ps) =
      if root (p ∷ ps)
      then (r, root_anchor)
      else if is_local r.local_id (p ∷ ps)
      then (
        with_tree r (walk r.tree 0 ps).0,
        local_anchor (record { root = p; node = (walk r.tree 0 ps).1 }),
      )
      else (r, remote_anchor p (p ∷ ps))

  -- (rootAnchorCap).Walk, on the components of the path; the message of the error reads the first.
  abbrev pub route : RootAnchor A → List Text → RootAnchor A × Result Anchor
  route r [] = (r, fail panic)
  route r (p ∷ ps) =
      if is_local r.local_id (p ∷ ps)
      then ((root_walk r (p ∷ ps)).0, ok (root_walk r (p ∷ ps)).1)
      else (r, fail misrouted)

  unfoldable pub cap_root_walk : RootAnchor A → Result Text → RootAnchor A × Result Anchor
  cap_root_walk r (ok path) = route r (parts path)
  cap_root_walk r (fail e) = (r, fail e)

  -- (rootAnchor).Load, and (rootAnchorCap).Load
  abbrev pub cap_root_load : RootAnchor A → Result (Option A)
  cap_root_load r = fail not_implemented

  -- (rootAnchor).Store, and (rootAnchorCap).Store
  abbrev pub cap_root_store : RootAnchor A → Option A → RootAnchor A × Result Done
  cap_root_store r v = (r, fail not_implemented)

  -- (anchorCap).Ls of an anchor of the tree: the name of each child, and the child
  abbrev pub named : Heap A → List LocalAnchor → List (Name × LocalAnchor)
  named h [] = []
  named h (a ∷ rest) = (local_name h a, a) ∷ named h rest

  abbrev pub cap_ls : Heap A → LocalAnchor → Heap A × List (Name × LocalAnchor)
  cap_ls h a = let found = local_ls h a in (found.0, named found.0 found.1)

  -- (anchorCap).Walk
  unfoldable pub cap_walk : Heap A → LocalAnchor → Result Text → Heap A × Result LocalAnchor
  cap_walk h a (ok path) = let found = local_walk h a (parts path) in (found.0, ok found.1)
  cap_walk h a (fail e) = (h, fail e)

  -- (anchorCap).Load
  abbrev pub cap_load : Heap A → LocalAnchor → Result (Option A)
  cap_load h a = local_load h a

  -- (anchorCap).Store: an argument that was read ends it, and of one that was not the nil value is
  -- left, which AsAny takes.
  unfoldable pub cap_store : Heap A → LocalAnchor → Result (Option A) → Heap A × Result Done
  cap_store h a (ok v) = (h, ok tt)
  cap_store h a (fail e) = local_store h a none

  -- (anchorCap).Go
  abbrev pub cap_go : Heap A → LocalAnchor → Result (List (Option A)) → Heap A × Result Done
  cap_go h a (ok args) = local_go h a args
  cap_go h a (fail e) = (h, fail e)
