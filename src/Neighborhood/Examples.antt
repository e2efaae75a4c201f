-- ===== src/Neighborhood/Examples.antt =====
-- Runs of the neighborhood, and its theorems at concrete inputs.
use ww.Prelude.{◌≡◌, refl, List, [], ◌∷◌, ok, Ensures}
use ww.Neighborhood.Phases.{
  orphaned, partial, complete, PhaseMap, Event, connected, not_connected, phase, apply, subloop,
  initial,
}
use ww.Neighborhood.Emitting.{Emits, subloop-Emits}

abbrev marks : PhaseMap
marks = record { l = 2; h = 3 }

abbrev events : List Event
events = connected 7 ∷ connected 8 ∷ connected 7 ∷ not_connected 8 ∷ not_connected 7 ∷ []

run :
    subloop marks initial [] events
    ≡ ok (
        record { k = 1; from = orphaned; to = partial }
        ∷ record { k = 2; from = partial; to = complete }
        ∷ record { k = 2; from = complete; to = complete }
        ∷ record { k = 1; from = complete; to = partial }
        ∷ record { k = 0; from = partial; to = orphaned }
        ∷ [])
unfolding subloop apply phase
run = refl

subloop-Emits_example :
    Ensures (subloop marks initial [] events) (λ states. Emits marks orphaned [] events states)
subloop-Emits_example = subloop-Emits marks initial [] events tt tt
