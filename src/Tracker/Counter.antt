-- ===== src/Tracker/Counter.antt =====
-- connloop of pkg/runtime/svc/tracker/tracker.go, with its counter of connections. A peer is a
-- number, a map is a function, and a count is a natural number: `Add` stores 1 or more, and `Rm`
-- deletes at 1.
use ww.Prelude.{
  ℕ, ◌+◌, ◌-◌, ◌==◌, Bool, true, false, if◌then◌else◌, List, [], ◌∷◌, Option, none, some, Result,
  ok, fail, ◌>>=◌, panic, ◌++◌,
}
use ww.Neighborhood.Phases.{Event, connected, not_connected}

-- ConnState; any other value of the uint8 is `invalid`.
pub data ConnState : Type 0 where
  opened closed invalid : ConnState

-- EvtConnectionChanged
pub record ConnEvent : Type 0 where
  pub peer : ℕ
  pub state : ConnState
  pub client : Bool

-- connctr
abbrev pub Counts : Type 0
Counts = ℕ → Option ℕ

abbrev pub put : Counts → ℕ → Option ℕ → Counts
put ctr id i p = if id == p then i else ctr p

abbrev pub count_of : Option ℕ → ℕ
count_of none = 0
count_of (some i) = i

abbrev pub is_some {ℓ} : {A : Type ℓ} → Option A → Bool
is_some none = false
is_some (some x) = true

abbrev pub flip : Bool → Bool
flip true = false
flip false = true

-- (connctr).Add, with what is stored under the id
unfoldable pub add : Counts → ℕ → Counts × Bool
add ctr id = (put ctr id (some (count_of (ctr id) + 1)), flip (is_some (ctr id)))

-- (connctr).Rm, with what is stored under the id
abbrev pub rm_by : Option ℕ → Counts → ℕ → Result (Counts × Bool)
rm_by none ctr id = fail panic
rm_by (some i) ctr id =
    if i == 1 then ok (put ctr id none, true) else ok (put ctr id (some (i - 1)), false)

unfoldable pub rm : Counts → ℕ → Result (Counts × Bool)
rm ctr id = rm_by (ctr id) ctr id

-- peerstate, and the event that it goes into
unfoldable pub peer_event : ConnState → ℕ → Result Event
peer_event opened p = ok (connected p)
peer_event closed p = ok (not_connected p)
peer_event invalid p = fail panic

-- The switch of connloop
unfoldable pub change : ConnState → Counts → ℕ → Result (Counts × Bool)
change opened ctr id = ok (add ctr id)
change closed ctr id = rm ctr id
change invalid ctr id = fail panic

-- One round of connloop: the counter, and the events that are emitted
unfoldable pub round : Counts → ConnEvent → Result (Counts × List Event)
round ctr ev =
    let counted = (do
      (ctr', emit) ← change ev.state ctr ev.peer
      e ← peer_event ev.state ev.peer
      ok (ctr', if emit then e ∷ [] else [])) in
    if ev.client then ok (ctr, []) else counted

-- connloop, over the events that it receives
unfoldable pub connloop : Counts → List ConnEvent → Result (Counts × List Event)
connloop ctr [] = ok (ctr, [])
connloop ctr (ev ∷ evs) = do
  (ctr', now) ← round ctr ev
  (last, later) ← connloop ctr' evs
  ok (last, now ++ later)

-- The map that connloop makes
abbrev pub no_counts : Counts
no_counts _ = none
