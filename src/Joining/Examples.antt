-- ===== src/Joining/Examples.antt =====
-- Runs of the services that find and join peers, and their theorems at concrete inputs.
use ww.Prelude.{ℕ, ◌≡◌, refl, true, List, [], ◌∷◌}
use ww.Neighborhood.Phases.{initial}
use ww.Timing.Scheduler.{Settings, new_scheduler}
use ww.Joining.Services.{
  AddrInfo, found, failed, waiting, changed, next_request, answer, boot_step, Discoverer, timestep,
  graft_requested, graft_answer, Action, find, discovery_settings, discovery_step, DiscoveryEvent,
}
use ww.Joining.System.{
  Event, at_boot, at_discovery, delivered, joins, system_step, new_system, system_run,
}
use ww.Joining.Safety.{Others, system-Others}
use ww.Joining.Blocking.{calls_of, OnlyAdvertises, failed-blocks}
use ww.Joining.Order.{IsSublist, discovered, system-IsSublist}

abbrev peer_at : ℕ → AddrInfo
peer_at id = record { id = id; addrs = [] }

-- The jitter that always samples 90 minutes
abbrev ninety : ℕ → ℕ → ℕ
ninety k d = 5400000000000

abbrev settings : Settings
settings = discovery_settings ninety

-- The node 7 finds itself, 8 and 9 while the joiner is slow, so that 9 is dropped.
abbrev events : List Event
events =
    at_boot (changed initial)
    ∷ at_boot next_request
    ∷ at_discovery graft_requested
    ∷ at_boot (answer (found (peer_at 7)))
    ∷ at_boot (answer (found (peer_at 8)))
    ∷ at_discovery (graft_answer (found (peer_at 9)))
    ∷ delivered
    ∷ delivered
    ∷ joins
    ∷ joins
    ∷ []

system-run : (system_run settings 7 (new_system settings) events).joiner.connected ≡ peer_at 8 ∷ []
unfolding system_run system_step boot_step discovery_step
system-run = refl

system-Others_example :
    Others 7 (system_run settings 7 (new_system settings) events).joiner.connected
    × Others 7 (system_run settings 7 (new_system settings) events).bus
system-Others_example = system-Others settings 7 events

abbrev fresh : Discoverer
fresh = record { sched = new_scheduler settings; search = waiting }

abbrev later : List DiscoveryEvent
later = graft_requested ∷ timestep 5400000000000 true ∷ graft_requested ∷ []

failed-blocks_example :
    (rest : List Action) × (calls_of settings 7 fresh
        (graft_requested ∷ graft_answer (failed true) ∷ later)
      ≡ find ∷ rest)
    × OnlyAdvertises rest
failed-blocks_example = failed-blocks settings 7 fresh later refl

system-IsSublist_example :
    IsSublist
      (system_run settings 7 (new_system settings) events).joiner.connected
      (discovered settings 7 (new_system settings) events)
system-IsSublist_example = system-IsSublist settings 7 events
