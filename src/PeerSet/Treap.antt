-- ===== src/PeerSet/Treap.antt =====
-- What pkg/cluster/peerset.go uses of github.com/lthibault/treap: a persistent map from keys to values
-- with weights, whose root has the least weight. A nil root is the empty map.
use ww.Prelude.{ℕ, ◌≤◌, ◌<◌, ◌≡◌, ◌==◌, Bool, true, false, if◌then◌else◌, Option, none, some}

-- A key with its value (the sequence number) and its weight (the time of expiry)
pub record Entry : Type 0 where
  pub id : ℕ
  pub seq : ℕ
  pub expiry : ℕ

-- handle, and the nodes it works on
pub record Treap (T : Type 0) : Type 0 where
  pub get : T → ℕ → Option Entry
  pub root : T → Option Entry
  -- Merge of the children of the root
  pub merge : T → T
  -- UpsertIf: the map, and whether an entry was created
  pub upsert_if : T → Entry → (ℕ → Bool) → T × Bool
  pub size : T → ℕ
  -- Pointers that are equal point to one map.
  pub same : T → T → Bool

-- Its documented behaviour
pub record Laws {T : Type 0} (h : Treap T) : Type 0 where
  pub root_none : (t : T) (k : ℕ) → h.root t ≡ none → h.get t k ≡ none
  pub root_get : (t : T) (e : Entry) → h.root t ≡ some e → h.get t e.id ≡ some e
  pub root_least :
      (t : T) (e f : Entry) (k : ℕ) → h.root t ≡ some e → h.get t k ≡ some f → e.expiry ≤ f.expiry
  pub merge_get :
      (t : T) (e : Entry) (k : ℕ)
      → h.root t ≡ some e
      → h.get (h.merge t) k ≡ (if e.id == k then none else h.get t k)
  pub merge_size : (t : T) (e : Entry) → h.root t ≡ some e → h.size (h.merge t) < h.size t
  pub upsert_created :
      (t : T) (e : Entry) (f : ℕ → Bool)
      → h.get t e.id ≡ none
      → ((h.upsert_if t e f).1 ≡ true)
        × ((k : ℕ) → h.get (h.upsert_if t e f).0 k ≡ (if e.id == k then some e else h.get t k))
  pub upsert_there :
      (t : T) (e old : Entry) (f : ℕ → Bool)
      → h.get t e.id ≡ some old
      → ((h.upsert_if t e f).1 ≡ false)
        × ((k : ℕ)
            → h.get (h.upsert_if t e f).0 k
              ≡ (if e.id == k then (if f old.seq then some e else some old) else h.get t k))
  pub same_eq : (t u : T) → h.same t u ≡ true → t ≡ u
