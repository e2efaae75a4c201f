-- ===== src/Joining/System.antt =====
-- The three services that pkg/runtime/svc/boot/boot.go, pkg/runtime/svc/discovery/discovery.go and
-- pkg/runtime/svc/join/join.go start, around the event bus.
use ww.Prelude.{ℕ, false, List, [], ◌∷◌, ◌++◌, none}
use ww.Timing.Scheduler.{Settings, new_scheduler}
use ww.Joining.Services.{
  AddrInfo, waiting, Bootstrapper, BootEvent, boot_step, Discoverer, DiscoveryEvent, Action,
  advertise, find, emit, discovery_step, Joiner, join_received, join_next,
}

-- The services, and the events of discovered peers that the bus has for the joiner
pub record System : Type 0 where
  pub boot : Bootstrapper
  pub discoverer : Discoverer
  pub bus : List AddrInfo
  pub joiner : Joiner

-- An event for one of the services, the bus delivering its first event, and a round of joinloop
pub data Event : Type 0 where
  at_boot : BootEvent → Event
  at_discovery : DiscoveryEvent → Event
  delivered joins : Event

abbrev pub peers_of : List Action → List AddrInfo
peers_of [] = []
peers_of (emit info ∷ acts) = info ∷ peers_of acts
peers_of (advertise ∷ acts) = peers_of acts
peers_of (find ∷ acts) = peers_of acts

abbrev pub deliver : List AddrInfo → System → System
deliver [] s = s
deliver (info ∷ bus) s = record s { bus = bus; joiner = join_received s.joiner info }

unfoldable pub system_step : Settings → ℕ → System → Event → System
system_step c self s (at_boot e) = record s {
  boot = (boot_step self s.boot e).0;
  bus = s.bus ++ (boot_step self s.boot e).1;
}
system_step c self s (at_discovery e) = record s {
  discoverer = (discovery_step c self s.discoverer e).0;
  bus = s.bus ++ peers_of (discovery_step c self s.discoverer e).1;
}
system_step c self s delivered = deliver s.bus s
system_step c self s joins = record s { joiner = join_next s.joiner }

-- NewService of each
abbrev pub new_system : Settings → System
new_system c = record {
  boot = record { discover = false; query = waiting };
  discoverer = record { sched = new_scheduler c; search = waiting };
  bus = [];
  joiner = record { join = none; connected = [] };
}

unfoldable pub system_run : Settings → ℕ → System → List Event → System
system_run c self s [] = s
system_run c self s (e ∷ events) = system_run c self (system_step c self s e) events
