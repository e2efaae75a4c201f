-- ===== src/Anchors/Serving.antt =====
-- What the capabilities of pkg/host/anchor.go answer.
use ww.Prelude.{
  ℕ, ◌≡◌, ◌∙◌, refl, ap, subst, false, Bool-cases, inl, inr, ◌⊎◌, ◌||◌, if◌then◌else◌, List, [],
  ◌∷◌, Option, none, Error, Result, ok, fail, same_text, same_text→eq, panic, misrouted,
  anchor_not_empty,
}
use ww.Tree.Store.{Heap, walk, load, is_none}
use ww.Tree.Collecting.{load-store}
use ww.AnchorPath.Text.{Text, parts}
use ww.AnchorPath.Parts.{IsPart, AllParts, parts-AllParts, parts-join}
use ww.Anchors.Local.{LocalAnchor, local_load, local_store}
use ww.Anchors.Host.{
  Anchor, local_anchor, RootAnchor, with_tree, route, cap_root_walk, cap_root_ls, cap_load,
  cap_store,
}
use ww.Anchors.Client.{adapt_hosts}
use ww.Anchors.Reaching.{part-root, route-local}

-- If the text of an identifier is one component of a path and decodes to the identifier, then a
-- client that lists the hosts of the root gets the peers, in their order.
pub ls-peers :
    (id_text : ℕ → Text) (decode : Text → Result ℕ) (peers : List ℕ)
    → ((p : ℕ) → IsPart (id_text p))
    → ((p : ℕ) → decode (id_text p) ≡ ok p)
    → adapt_hosts decode (cap_root_ls id_text peers) ≡ ok peers
unfolding adapt_hosts
ls-peers id_text decode [] part back = refl
ls-peers id_text decode (p ∷ peers) part back =
    rw (parts-join (id_text p ∷ []) (part p, tt), back p, ls-peers id_text decode peers part back)
      refl

module _ {A : Type 0} where
  -- The three answers to a walk from the root
  abbrev pub Routed : RootAnchor A → List Text → RootAnchor A × Result Anchor → Type 0
  Routed r ps answer =
      ((ps ≡ []) × (answer ≡ (r, fail panic)))
      ⊎ (((p : Text) × (qs : List Text) × (ps ≡ p ∷ qs)
            × (same_text p r.local_id ≡ false)
            × (answer ≡ (r, fail misrouted)))
          ⊎ ((qs : List Text) × (ps ≡ r.local_id ∷ qs)
              × (answer ≡ (
                with_tree r (walk r.tree 0 qs).0,
                ok (local_anchor (record { root = r.local_id; node = (walk r.tree 0 qs).1 })),
              ))))

  route-Routed : (r : RootAnchor A) (ps : List Text) → AllParts ps → Routed r ps (route r ps)
  route-Routed r [] h = inl (refl, refl)
  route-Routed r (p ∷ qs) h = elim (Bool-cases (same_text p r.local_id)) [
    | inl e ↦
        let same : p ≡ r.local_id = same_text→eq p r.local_id e in
        inr (
          inr (
            qs,
            ap (λ t. t ∷ qs) same,
            ap (λ t. route r (t ∷ qs)) same ∙ route-local r qs (subst IsPart same h.0),
          ))
    | inr e ↦ inr (inl (p, qs, refl, e, rw (part-root p qs h.0, e) refl))
  ]

  -- For every path text, Walk of the root capability panics if the path has no component, answers
  -- an error and changes nothing if the first component is not the identifier of the host, and
  -- answers an anchor of its own tree otherwise: what it serves is never the root or an anchor of
  -- another host.
  pub cap_root_walk-Routed :
      (r : RootAnchor A) (path : Text) → Routed r (parts path) (cap_root_walk r (ok path))
  unfolding cap_root_walk
  cap_root_walk-Routed r path = route-Routed r (parts path) (parts-AllParts path)

  -- A call of Store whose argument cannot be read reports success, and the anchor is empty
  -- afterwards.
  pub cap_store-unread :
      (h : Heap A) (a : LocalAnchor) (e : Error)
      → ((cap_store h a (fail e)).1 ≡ ok tt) × (cap_load (cap_store h a (fail e)).0 a ≡ ok none)
  unfolding cap_store local_store
  cap_store-unread h a e =
      let (stored, now) = load-store h a.node none in (rw stored refl, ap ok now)

  -- Store of a local anchor succeeds if the value is nil or the anchor is empty, and the value is
  -- what is loaded then; otherwise it fails with ErrAnchorNotEmpty, and what was there is loaded.
  pub local_store-load :
      (h : Heap A) (a : LocalAnchor) (v : Option A)
      → ((local_store h a v).1
          ≡ (if is_none v || is_none (load h a.node) then ok tt else fail anchor_not_empty))
        × (local_load (local_store h a v).0 a
            ≡ (if is_none v || is_none (load h a.node) then ok v else local_load h a))
  unfolding local_store
  local_store-load h a v =
      let (stored, now) = load-store h a.node v in
      rw (stored, now)
        (elim (Bool-cases (is_none v || is_none (load h a.node))) [
          | inl e ↦ rw e (refl, refl)
          | inr e ↦ rw e (refl, refl)
        ])
