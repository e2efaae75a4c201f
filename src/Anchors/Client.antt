-- ===== src/Anchors/Client.antt =====
-- The anchors of pkg/internal/rpc/anchor: anchor.go, rpc.go and adapter.go. A call reaches the host
-- and is answered before the next; a promise is what the host answered.
use ww.Prelude.{
  ℕ, if◌then◌else◌, List, [], ◌∷◌, ◌++◌, Option, Result, ok, fail, ◌>>=◌, panic, not_implemented,
}
use ww.Tree.Store.{Name, Heap}
use ww.AnchorPath.Text.{Text, root, parts, join}
use ww.Anchors.Local.{Done, LocalAnchor}
use ww.Anchors.Host.{
  Anchor, root_anchor, local_anchor, remote_anchor, RootAnchor, cap_root_walk, cap_walk, cap_load,
  cap_store, cap_ls,
}

-- anchor; its capability is what the host answered, of which a client can use an anchor of the
-- host's tree only.
pub record ClientAnchor : Type 0 where
  pub path : List Text
  pub cap : Result LocalAnchor

abbrev pub as_cap : Anchor → Result LocalAnchor
as_cap (local_anchor a) = ok a
as_cap root_anchor = fail not_implemented
as_cap (remote_anchor host path) = fail not_implemented

-- (path).Name
abbrev pub last_part : List Text → Result Text
last_part [] = fail panic
last_part (p ∷ []) = ok p
last_part (p ∷ q ∷ ps) = last_part (q ∷ ps)

abbrev pub client_name : ClientAnchor → Result Text
client_name a = if root [] then ok [] else last_part a.path

-- adaptHostAnchor.Adapt, where `decode` is peer.Decode
abbrev pub adapt_host : (Text → Result ℕ) → List Text → Result ℕ
adapt_host decode [] = fail panic
adapt_host decode (p ∷ ps) = decode p

-- subanchors, with adaptHostAnchor
unfoldable pub adapt_hosts : (Text → Result ℕ) → List Text → Result (List ℕ)
adapt_hosts decode [] = ok []
adapt_hosts decode (path ∷ paths) = do
  host ← adapt_host decode (parts path)
  hosts ← adapt_hosts decode paths
  ok (host ∷ hosts)

-- subanchors, with adaptSubanchor
abbrev pub adapt_children : List Text → List (Name × LocalAnchor) → List ClientAnchor
adapt_children path [] = []
adapt_children path ((name, c) ∷ cs) =
    record { path = path ++ name ∷ []; cap = ok c } ∷ adapt_children path cs

module _ {A : Type 0} where
  -- walk, of a host whose root is `r`
  unfoldable pub client_root_walk : RootAnchor A → List Text → RootAnchor A × ClientAnchor
  client_root_walk r ps =
      let answered = cap_root_walk r (ok (join ps)) in
      (answered.0, record { path = ps; cap = answered.1 >>= as_cap })

  -- The call of Walk on a promise
  abbrev pub walk_cap : Heap A → Result LocalAnchor → Text → Heap A × Result LocalAnchor
  walk_cap h (ok a) path = cap_walk h a (ok path)
  walk_cap h (fail e) path = (h, fail e)

  -- (anchor).Walk
  unfoldable pub client_walk : Heap A → ClientAnchor → List Text → Heap A × ClientAnchor
  client_walk h a ps =
      let answered = walk_cap h a.cap (join ps) in
      (answered.0, record { path = a.path ++ ps; cap = answered.1 })

  -- (anchor).Load
  unfoldable pub client_load : Heap A → ClientAnchor → Result (Option A)
  client_load h a = do c ← a.cap; cap_load h c

  -- (anchor).Store
  abbrev pub store_cap : Heap A → Result LocalAnchor → Option A → Heap A × Result Done
  store_cap h (ok a) v = cap_store h a (ok v)
  store_cap h (fail e) v = (h, fail e)

  unfoldable pub client_store : Heap A → ClientAnchor → Option A → Heap A × Result Done
  client_store h a v = store_cap h a.cap v

  -- (anchor).Ls
  abbrev pub ls_cap : Heap A → Result LocalAnchor → List Text → Heap A × Result (List ClientAnchor)
  ls_cap h (ok c) path = ((cap_ls h c).0, ok (adapt_children path (cap_ls h c).1))
  ls_cap h (fail e) path = (h, fail e)

  unfoldable pub client_ls : Heap A → ClientAnchor → Heap A × Result (List ClientAnchor)
  client_ls h a = ls_cap h a.cap a.path
