-- ===== src/Anchors/Examples.antt =====
-- Runs of the anchors, and their theorems at concrete inputs.
use ww.Prelude.{
  ℕ, ◌<◌, ◌+◌, ◌-◌, ◌≡◌, refl, arith, [], ◌∷◌, ◌++◌, Option, some, Result, ok, fail, panic, Ensures,
}
use ww.Tree.Store.{new, ref, add_child, walk}
use ww.Tree.Paths.{new-IsTree, new-HasPath, new_size}
use ww.AnchorPath.Text.{Text, parts}
use ww.Anchors.Local.{LocalAnchor, local_path}
use ww.Anchors.Host.{RootAnchor, with_tree, cap_root_walk}
use ww.Anchors.Client.{ClientAnchor, client_root_walk, client_walk}
use ww.Anchors.Reaching.{IsHost, client-reaches, client-anew}
use ww.Anchors.Serving.{Routed, cap_root_walk-Routed}

-- The host `h`, with an empty tree
abbrev host : RootAnchor ℕ
host = record { local_id = 104 ∷ []; tree = new }

host-IsHost : IsHost host
host-IsHost = record {
  tree = new-IsTree;
  root = new-HasPath;
  placed = omega (arith, new_size ℕ);
  named = (refl, tt);
}

abbrev foo : Text
foo = 102 ∷ 111 ∷ []

abbrev bar : Text
bar = 98 ∷ []

abbrev five : Option ℕ
five = some 5

abbrev at_foo : LocalAnchor
at_foo = record { root = 104 ∷ []; node = 1 }

abbrev seen : ClientAnchor
seen = record { path = (104 ∷ []) ∷ foo ∷ []; cap = ok at_foo }

two : (walk host.tree 0 (foo ∷ bar ∷ [])).1 < 9
unfolding new ref walk add_child
two = omega arith

client-reaches_example :
    Ensures (client_root_walk host (host.local_id ∷ foo ∷ bar ∷ [])).1.cap (λ a.
      local_path 9 (client_root_walk host (host.local_id ∷ foo ∷ bar ∷ [])).0.tree a
      ≡ ok (client_root_walk host (host.local_id ∷ foo ∷ bar ∷ [])).1.path)
client-reaches_example =
    client-reaches host (foo ∷ bar ∷ []) 9 host-IsHost ((refl, (refl, tt)), ((refl, tt), tt)) two

client-anew_example :
    (client_root_walk
      (with_tree host
        (client_walk
          (client_root_walk host (host.local_id ∷ foo ∷ [])).0.tree
          (client_root_walk host (host.local_id ∷ foo ∷ [])).1
          (bar ∷ [])).0)
      ((host.local_id ∷ foo ∷ []) ++ bar ∷ [])).1
    ≡ (client_walk
        (client_root_walk host (host.local_id ∷ foo ∷ [])).0.tree
        (client_root_walk host (host.local_id ∷ foo ∷ [])).1
        (bar ∷ [])).1
unfolding client_root_walk client_walk
client-anew_example =
    client-anew host (foo ∷ []) (bar ∷ []) host-IsHost ((refl, (refl, tt)), tt) ((refl, tt), tt)

cap_root_walk-Routed_example :
    Routed host (parts (47 ∷ 120 ∷ [])) (cap_root_walk host (ok (47 ∷ 120 ∷ [])))
cap_root_walk-Routed_example = cap_root_walk-Routed host (47 ∷ 120 ∷ [])

-- The identifier of peer `p` is the text of one character.
abbrev letter : ℕ → Text
letter p = (p + 97) ∷ []

abbrev letter_of : Text → Result ℕ
letter_of (c ∷ []) = ok (c - 97)
letter_of [] = fail panic
letter_of (c ∷ d ∷ rs) = fail panic
