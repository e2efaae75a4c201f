-- ===== src/Joining/Blocking.antt =====
-- What an error of FindPeers does to graftloop of pkg/runtime/svc/discovery/discovery.go.
use ww.Prelude.{ℕ, ◌≡◌, ◌&&◌, refl, inl, inr, true, Bool-cases, List, [], ◌∷◌, ◌++◌}
use ww.Timing.Scheduler.{Settings}
use ww.Timing.Services.{round}
use ww.Joining.Services.{
  failed, waiting, blocked, timestep, graft_requested, graft_answer, Discoverer, DiscoveryEvent,
  Action, advertise, find, emit, discovery_step,
}

-- The calls that the service makes at its events, from a state
unfoldable pub calls_of : Settings → ℕ → Discoverer → List DiscoveryEvent → List Action
calls_of c self d [] = []
calls_of c self d (e ∷ events) =
    (discovery_step c self d e).1 ++ calls_of c self (discovery_step c self d e).0 events

-- All that is called is Advertise.
abbrev pub OnlyAdvertises : List Action → Type 0
OnlyAdvertises [] = Unit
OnlyAdvertises (advertise ∷ acts) = OnlyAdvertises acts
OnlyAdvertises (find ∷ acts) = ⊥
OnlyAdvertises (emit info ∷ acts) = ⊥

blocked-OnlyAdvertises :
    (c : Settings) (self : ℕ) (d : Discoverer) (events : List DiscoveryEvent)
    → d.search ≡ blocked
    → OnlyAdvertises (calls_of c self d events)
unfolding calls_of discovery_step
blocked-OnlyAdvertises c self d [] h = tt
blocked-OnlyAdvertises c self d (timestep delta ready ∷ events) h =
    let rest =
      blocked-OnlyAdvertises c self (record d { sched = (round c d.sched delta).0 }) events h in
    elim (Bool-cases ((round c d.sched delta).1 && ready)) [
      | inl due ↦ rw due rest
      | inr early ↦ rw early rest
    ]
blocked-OnlyAdvertises c self d (graft_requested ∷ events) h =
    rw h (blocked-OnlyAdvertises c self (record d { search = blocked }) events refl)
blocked-OnlyAdvertises c self d (graft_answer a ∷ events) h =
    rw h (blocked-OnlyAdvertises c self (record d { search = blocked }) events refl)

-- When graftloop waits, a graft request makes it call FindPeers; if that fails and gives a nil
-- channel, nothing is called from then on but Advertise, whatever is requested.
pub failed-blocks :
    (c : Settings) (self : ℕ) (d : Discoverer) (events : List DiscoveryEvent)
    → d.search ≡ waiting
    → (rest : List Action) × (calls_of c self d
          (graft_requested ∷ graft_answer (failed true) ∷ events)
        ≡ find ∷ rest)
      × OnlyAdvertises rest
unfolding calls_of discovery_step
failed-blocks c self d events h = rw h (
  calls_of c self (record d { search = blocked }) events,
  refl,
  blocked-OnlyAdvertises c self (record d { search = blocked }) events refl,
)
