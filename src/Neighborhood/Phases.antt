-- ===== src/Neighborhood/Phases.antt =====
-- phaseMap and subloop of pkg/runtime/svc/neighborhood/neighborhood.go. The set of peers is a list
-- without repetition, a peer is a number, and the marks are natural numbers.
use ww.Prelude.{
  ℕ, ltb, leb, ◌==◌, ◌&&◌, ◌||◌, Bool, false, if◌then◌else◌, List, [], ◌∷◌, length, Result, ok,
  fail, ◌>>=◌, panic,
}

pub data Phase : Type 0 where
  orphaned partial complete overloaded : Phase

-- EvtNeighborhoodChanged
pub record Changed : Type 0 where
  pub k : ℕ
  pub from : Phase
  pub to : Phase

pub record PhaseMap : Type 0 where
  pub l : ℕ
  pub h : ℕ

-- EvtPeerConnectednessChanged, with what the switch of subloop tells apart
pub data Event : Type 0 where
  connected not_connected other : ℕ → Event

-- (phaseMap).Phase
unfoldable pub phase : PhaseMap → ℕ → Result Phase
phase p k =
    if k == 0
    then ok orphaned
    else if ltb 0 k && ltb k p.l
    then ok partial
    else if leb p.l k && leb k p.h
    then ok complete
    else if ltb p.h k
    then ok overloaded
    else fail panic

abbrev pub member : ℕ → List ℕ → Bool
member p [] = false
member p (q ∷ ps) = (p == q) || member p ps

-- ps[peer] = struct{}{}
abbrev pub insert : ℕ → List ℕ → List ℕ
insert p ps = if member p ps then ps else p ∷ ps

-- delete(ps, peer)
abbrev pub remove : ℕ → List ℕ → List ℕ
remove p [] = []
remove p (q ∷ ps) = if p == q then remove p ps else q ∷ remove p ps

-- The switch of subloop
unfoldable pub apply : Event → List ℕ → Result (List ℕ)
apply (connected p) ps = ok (insert p ps)
apply (not_connected p) ps = ok (remove p ps)
apply (other p) ps = fail panic

-- subloop, as the events that it emits; an error of Emit is logged and no more
unfoldable pub subloop : PhaseMap → Changed → List ℕ → List Event → Result (List Changed)
subloop m state ps [] = ok []
subloop m state ps (e ∷ events) = do
  ps' ← apply e ps
  to ← phase m (length ps')
  let state' : Changed = record { k = length ps'; from = state.to; to = to }
  rest ← subloop m state' ps' events
  ok (state' ∷ rest)

-- The state that subloop and Start begin with
abbrev pub initial : Changed
initial = record { k = 0; from = orphaned; to = orphaned }
