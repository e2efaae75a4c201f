-- ===== src/Runtime/Examples.antt =====
-- Runs of the loading of services, and its theorem at a concrete input.
use ww.Prelude.{◌≡◌, ◌↔◌, refl, List, [], ◌∷◌, none, some}
use ww.Runtime.Loader.{
  Factory, service, broken, dependency_error, factory_error, start, load_all, load_service, error,
}
use ww.Runtime.Loading.{AllBuild, IsClosed, services, start-Complete}

-- The ticker produces event 1, which the announcer consumes.
abbrev ticker : Factory
ticker = record { built = service 10; produces = some (1 ∷ []); consumes = none }

abbrev announcer : Factory
announcer = record { built = service 20; produces = none; consumes = some (1 ∷ []) }

abbrev failing : Factory
failing = record { built = broken 3; produces = none; consumes = none }

runs :
    (start (announcer ∷ ticker ∷ []) ≡ (20 ∷ 10 ∷ [], none))
    × (start (announcer ∷ []) ≡ (20 ∷ [], some (dependency_error 1)))
    × (start (announcer ∷ failing ∷ ticker ∷ []) ≡ (20 ∷ [], some (factory_error 3)))
unfolding start load_all load_service error
runs = (refl, refl, refl)

abbrev both : List Factory
both = announcer ∷ ticker ∷ []

start-Complete_example :
    (((start both).1 ≡ none) ↔ (AllBuild both × IsClosed both))
    × (AllBuild both → (start both).0 ≡ services both)
start-Complete_example = start-Complete both
