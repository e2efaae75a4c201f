-- ===== src/Anchors/Reaching.antt =====
-- Where a client of pkg/internal/rpc/anchor arrives in the tree of a host (pkg/host/anchor.go).
use ww.Prelude.{
  ℕ, ◌<◌, ◌≡◌, ◌∙◌, refl, sym, ap, subst, arith, false, List, [], ◌∷◌, ◌++◌, ok, Ensures,
  same_text_self,
}
use ww.Tree.Store.{Name, Heap, walk, path, nonempty}
use ww.Tree.Paths.{IsTree, HasPath, Extends, Extends-HasPath}
use ww.Tree.Walking.{Leads, Leads-walk, walk-Walked, path-walk}
use ww.AnchorPath.Text.{Text, root}
use ww.AnchorPath.Parts.{IsPart, AllParts, parts-join}
use ww.Anchors.Local.{local_path, local_walk}
use ww.Anchors.Host.{local_anchor, RootAnchor, with_tree, root_walk, route, cap_root_walk, cap_walk}
use ww.Anchors.Client.{client_root_walk, client_walk}

-- A component is no root path.
pub part-root : (p : Text) (ps : List Text) → IsPart p → root (p ∷ ps) ≡ false
unfolding root
part-root [] ps h = absurd h
part-root (c ∷ p) ps (first, rest) = rw first refl

nonempty-AllParts : (ps : List Text) → AllParts ps → nonempty ps ≡ ps
nonempty-AllParts [] h = refl
nonempty-AllParts ([] ∷ ps) h = absurd h.0
nonempty-AllParts ((c ∷ p) ∷ ps) h = ap (λ l. (c ∷ p) ∷ l) (nonempty-AllParts ps h.1)

AllParts-append : (ps qs : List Text) → AllParts ps → AllParts qs → AllParts (ps ++ qs)
AllParts-append [] qs h k = k
AllParts-append (p ∷ ps) qs (part, h) k = (part, AllParts-append ps qs h k)

module _ {A : Type 0} where
  -- A host: its tree is well formed, with the root of no name at 0, and its identifier is one
  -- component of a path.
  pub record IsHost (r : RootAnchor A) : Type 0 where
    pub tree : IsTree r.tree
    pub root : HasPath r.tree 0 ([] ∷ [])
    pub placed : 0 < r.tree.size
    pub named : IsPart r.local_id

  pub route-local :
      (r : RootAnchor A) (ps : List Text)
      → IsPart r.local_id
      → route r (r.local_id ∷ ps) ≡ (
        with_tree r (walk r.tree 0 ps).0,
        ok (local_anchor (record { root = r.local_id; node = (walk r.tree 0 ps).1 })),
      )
  unfolding root_walk
  route-local r ps part = rw (part-root r.local_id ps part, same_text_self r.local_id) refl

  -- What the client has when it has walked to a host, and below
  pub client_root_walk-local :
      (r : RootAnchor A) (ps : List Text)
      → IsPart r.local_id
      → AllParts ps
      → client_root_walk r (r.local_id ∷ ps) ≡ (
        with_tree r (walk r.tree 0 ps).0,
        record {
          path = r.local_id ∷ ps;
          cap = ok (record { root = r.local_id; node = (walk r.tree 0 ps).1 });
        },
      )
  unfolding client_root_walk cap_root_walk
  client_root_walk-local r ps part all =
      rw (parts-join (r.local_id ∷ ps) (part, all), route-local r ps part) refl

  pub client_root_walk-IsHost :
      (r : RootAnchor A) (ps : List Text)
      → IsHost r
      → AllParts ps
      → IsHost (client_root_walk r (r.local_id ∷ ps)).0
  client_root_walk-IsHost r ps h all =
      let w = walk-Walked r.tree 0 ps h.tree h.placed in
      rw (client_root_walk-local r ps h.named all) (record {
        tree = w.tree;
        root = Extends-HasPath r.tree _ 0 ([] ∷ []) h.tree w.extends h.placed h.root;
        placed = omega (arith, w.extends.size, h.placed);
        named = h.named;
      })

  -- For a host whose tree is well formed, with an identifier that is one component of a path, a
  -- client that walks from its identifier along components, each of them not empty and without a
  -- separator, gets an anchor of the host's tree, whose path on the host is the path that the
  -- client holds; the fuel that is needed is more than the index of the node.
  pub client-reaches :
      (r : RootAnchor A) (ps : List Text) (fuel : ℕ)
      → IsHost r
      → AllParts ps
      → (walk r.tree 0 ps).1 < fuel
      → Ensures (client_root_walk r (r.local_id ∷ ps)).1.cap (λ a.
        local_path fuel (client_root_walk r (r.local_id ∷ ps)).0.tree a
        ≡ ok (client_root_walk r (r.local_id ∷ ps)).1.path)
  unfolding local_path path
  client-reaches r ps fuel h all enough = rw (client_root_walk-local r ps h.named all) (
    _,
    refl,
    rw
        (
          path-walk r.tree 0 ps ([] ∷ []) fuel h.tree h.placed h.root enough,
          nonempty-AllParts ps all,
        )
        refl,
  )

  Leads-append :
      (h : Heap A) (n c d : ℕ) (ps qs : List Name)
      → Leads h n ps c
      → Leads h c qs d
      → Leads h n (ps ++ qs) d
  Leads-append h n c d [] qs same l = subst (λ i. Leads h i qs d) (sym same) l
  Leads-append h n c d (p ∷ ps) qs (m, found, k) l = (m, found, Leads-append h m c d ps qs k l)

  Extends-Leads :
      (h k : Heap A) (n c : ℕ) (ps : List Name)
      → IsTree h
      → Extends h k
      → n < h.size
      → Leads h n ps c
      → Leads k n ps c
  Extends-Leads h k n c [] t x lt l = l
  Extends-Leads h k n c (p ∷ ps) t x lt (m, found, l) =
      let (_, _, _, placed) = t.child n m p lt found in
      (m, x.child n m p lt found, Extends-Leads h k m c ps t x placed l)

  walk-append :
      (h : Heap A) (n : ℕ) (ps qs : List Name)
      → IsTree h
      → n < h.size
      → let first = walk h n ps in
        let second = walk first.0 first.1 qs in (walk second.0 n (ps ++ qs)).1 ≡ second.1
  walk-append h n ps qs t lt =
      let v = walk-Walked h n ps t lt in
      let w = walk-Walked (walk h n ps).0 (walk h n ps).1 qs v.tree v.placed in
      let last = walk (walk h n ps).0 (walk h n ps).1 qs in
      Leads-walk last.0 n last.1 (ps ++ qs) (
        Leads-append last.0 n (walk h n ps).1 last.1 ps qs
          (Extends-Leads (walk h n ps).0 last.0 n (walk h n ps).1 ps v.tree w.extends
            (omega (arith, lt, v.extends.size)) v.leads)
          w.leads)

  -- For a host whose tree is well formed, with an identifier that is one component of a path, a
  -- client that walks on from an anchor that it has walked to, and one that then walks anew from
  -- the root along the path of the result, get the same anchor.
  pub client-anew :
      (r : RootAnchor A) (ps qs : List Text)
      → IsHost r
      → AllParts ps
      → AllParts qs
      → let first = client_root_walk r (r.local_id ∷ ps) in
        let second = client_walk first.0.tree first.1 qs in
        (client_root_walk (with_tree r second.0) second.1.path).1 ≡ second.1
  unfolding client_walk cap_walk local_walk
  client-anew r ps qs h all more =
      let first = walk r.tree 0 ps in
      let second = walk first.0 first.1 qs in
      rw (client_root_walk-local r ps h.named all, parts-join qs more)
        (ap (λ c. c.1)
            (client_root_walk-local (with_tree r second.0) (ps ++ qs) h.named
              (AllParts-append ps qs all more))
          ∙ ap
              (λ n. record {
                path = r.local_id ∷ (ps ++ qs);
                cap = ok (record { root = r.local_id; node = n });
              })
              (walk-append r.tree 0 ps qs h.tree h.placed))
