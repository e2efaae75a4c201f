-- ===== src/PeerSet/Examples.antt =====
-- Runs of the set of peers, and its theorems at concrete inputs.
use ww.Prelude.{ℕ, ◌≤◌, ◌≡◌, refl, arith, true, false, List, [], ◌∷◌, some, ok, Ensures}
use ww.PeerSet.Treap.{Entry}
use ww.PeerSet.Filter.{
  pop_expired, upserted, returns, swapping, Filter, set_goroutine, set_root, returned, Step,
  swapped,
}
use ww.PeerSet.Expiry.{unexpired, pop-Expires}
use ww.PeerSet.Swaps.{Atomic, Step-Atomic, Step-grows}
use ww.PeerSet.Entries.{entries, entries-Laws}

-- Peers 1, 2 and 3, which expire at 10, 5 and 7
abbrev first : Entry
first = record { id = 1; seq = 4; expiry = 10 }

abbrev third : Entry
third = record { id = 3; seq = 2; expiry = 7 }

abbrev peers : List Entry
peers = first ∷ record { id = 2; seq = 9; expiry = 5 } ∷ third ∷ []

pops : pop_expired entries 9 7 peers ≡ ok (first ∷ [])
unfolding pop_expired
pops = refl

old_seq : (upserted entries peers 3 2 20 ≡ peers) × (returns entries peers 3 2 20 true ≡ false)
unfolding upserted returns
old_seq = (refl, refl)

pop-Expires_example :
    Ensures
      (pop_expired entries 9 7 peers)
      (λ m. (k : ℕ) → entries.get m k ≡ unexpired 7 (entries.get peers k))
pop-Expires_example = pop-Expires entries entries-Laws 7 9 peers (omega arith)

-- Goroutine 6 is about to swap in a message of peer 3.
abbrev before : Filter (List Entry)
before = record { time = 6; root = peers; goroutine = λ i. swapping 3 8 20 26 false peers }

abbrev after : Filter (List Entry)
after =
    set_goroutine (set_root before (upserted entries peers 3 8 26)) 6
      (returned (returns entries peers 3 8 26 false))

swaps : Step entries before after
swaps = swapped 6 3 8 20 26 false peers refl refl refl

Step-Atomic_example : Atomic entries entries-Laws before after
Step-Atomic_example = Step-Atomic entries entries-Laws swaps

Step-grows_example : 2 ≤ 8
unfolding upserted
Step-grows_example =
    Step-grows entries entries-Laws 3 third (record { id = 3; seq = 8; expiry = 26 }) swaps refl
      there
  where
    there : entries.get after.root 3 ≡ some (record { id = 3; seq = 8; expiry = 26 })
    there = refl
