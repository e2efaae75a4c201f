-- ===== src/Tracker/Services.antt =====
-- The services over the tracker of pkg/runtime/svc/tracker/tracker.go: what connloop emits is what the
-- event loop of pkg/runtime/svc/neighborhood/neighborhood.go receives.
use ww.Prelude.{ℕ, subst, Bool, Option, List, [], ◌∷◌, WhenOk, Ensures}
use ww.Neighborhood.Phases.{
  Event, connected, not_connected, other, PhaseMap, orphaned, subloop, initial,
}
use ww.Neighborhood.Emitting.{Known, Emits, subloop-Emits}
use ww.Tracker.Counter.{connloop, no_counts}
use ww.Tracker.Connectedness.{Alternates, Told, connloop-Told}
use ww.Tracker.Balance.{CalmReach, calm-Succeeds}
use ww.Tracker.Channels.{Tracker, new_tracker}

Alternates-Known : (es : List Event) (up : ℕ → Bool) → Alternates up es → Known es
Alternates-Known [] up h = tt
Alternates-Known (connected q ∷ es) up h = Alternates-Known es _ h.1
Alternates-Known (not_connected q ∷ es) up h = Alternates-Known es _ h.1
Alternates-Known (other q ∷ es) up h = h

-- After a run of the tracker in which no handler receives from a channel of a peer while idloop is
-- about to announce that peer, and isClient gives of each peer the same answer whenever it is
-- called, the events that connloop emits make the event loop of the neighborhood, from no peers,
-- emit one state for each of them with the number of the connected peers and the phase that it
-- means, and neither of the two loops panics.
pub calm-Emits :
    (answers : ℕ → Bool) (store : ℕ → Option Bool) (m : PhaseMap) {t : Tracker}
    → CalmReach answers (new_tracker store) t
    → Ensures
        (connloop no_counts t.emitted)
        (λ r. Ensures (subloop m initial [] r.1) (λ states. Emits m orphaned [] r.1 states))
calm-Emits answers store m {t} c =
    let (r, ran, _) = calm-Succeeds answers store c in
    let told : Told no_counts r =
      subst (λ k. WhenOk k (Told no_counts)) ran (connloop-Told no_counts t.emitted) in
    (r, ran, subloop-Emits m initial [] r.1 tt (Alternates-Known r.1 _ told.1))
