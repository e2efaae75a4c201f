-- ===== src/Joining/Safety.antt =====
-- A node never connects to itself, which joinloop of pkg/runtime/svc/join/join.go leaves to the
-- sources of its events, pkg/runtime/svc/boot/boot.go and pkg/runtime/svc/discovery/discovery.go.
use ww.Prelude.{
  ℕ, ◌≡◌, ◌==◌, refl, arith, inl, inr, ◌&&◌, true, false, Bool-cases, List, [], ◌∷◌, ◌++◌, Option,
  none, some,
}
use ww.Timing.Scheduler.{Settings}
use ww.Timing.Services.{round}
use ww.Joining.Services.{
  AddrInfo, Answer, found, closed, failed, Search, waiting, searching, blocked, emitted,
  query_answer, BootEvent, changed, next_request, answer, Bootstrapper, boot_step, timestep,
  graft_requested, graft_answer, graft_next, graft_reads, emits, Discoverer, DiscoveryEvent,
  discovery_step, join_received, join_next,
}
use ww.Joining.System.{
  System, Event, at_boot, at_discovery, delivered, joins, peers_of, deliver, system_step,
  new_system, system_run,
}

-- None of the peers is the node itself.
abbrev pub Others : ℕ → List AddrInfo → Type 0
Others self [] = Unit
Others self (info ∷ infos) = ¬ (info.id ≡ self) × Others self infos

Others-append :
    (self : ℕ) (xs ys : List AddrInfo) → Others self xs → Others self ys → Others self (xs ++ ys)
Others-append self [] ys h k = k
Others-append self (x ∷ xs) ys h k = (h.0, Others-append self xs ys h.1 k)

-- What the joiner's channel holds
abbrev pub Joinable : ℕ → Option AddrInfo → Type 0
Joinable self none = Unit
Joinable self (some info) = ¬ (info.id ≡ self)

pub record IsSafe (self : ℕ) (s : System) : Type 0 where
  pub bus : Others self s.bus
  pub join : Joinable self s.joiner.join
  pub connected : Others self s.joiner.connected

emitted-Others : (self : ℕ) (info : AddrInfo) → Others self (emitted self info)
emitted-Others self info = elim (Bool-cases (info.id == self)) [
  | inl same ↦ rw same tt
  | inr other ↦ rw other ((λ e. ground arith), tt)
]

query-Others : (self : ℕ) (q : Search) (a : Answer) → Others self (query_answer self q a).1
query-Others self searching (found info) = emitted-Others self info
query-Others self searching closed = tt
query-Others self searching (failed b) = tt
query-Others self waiting a = tt
query-Others self blocked a = tt

boot-Others : (self : ℕ) (b : Bootstrapper) (e : BootEvent) → Others self (boot_step self b e).1
unfolding boot_step
boot-Others self b (changed ev) = tt
boot-Others self b next_request = tt
boot-Others self b (answer a) = query-Others self b.query a

emits-Others :
    (self : ℕ) (infos : List AddrInfo) → Others self infos → Others self (peers_of (emits infos))
emits-Others self [] h = tt
emits-Others self (x ∷ infos) h = (h.0, emits-Others self infos h.1)

reads-Others :
    (self : ℕ) (q : Search) (a : Answer) → Others self (peers_of (graft_reads self q a).1)
reads-Others self searching (found info) =
    emits-Others self (emitted self info) (emitted-Others self info)
reads-Others self searching closed = tt
reads-Others self searching (failed true) = tt
reads-Others self searching (failed false) = tt
reads-Others self waiting a = tt
reads-Others self blocked a = tt

next-Others : (self : ℕ) (q : Search) → Others self (peers_of (graft_next q).1)
next-Others self waiting = tt
next-Others self searching = tt
next-Others self blocked = tt

discovery-Others :
    (c : Settings) (self : ℕ) (d : Discoverer) (e : DiscoveryEvent)
    → Others self (peers_of (discovery_step c self d e).1)
unfolding discovery_step
discovery-Others c self d (timestep delta ready) =
    elim (Bool-cases ((round c d.sched delta).1 && ready)) [
      | inl due ↦ rw due tt
      | inr early ↦ rw early tt
    ]
discovery-Others c self d graft_requested = next-Others self d.search
discovery-Others c self d (graft_answer a) = reads-Others self d.search a

received-Joinable :
    (self : ℕ) (join : Option AddrInfo) (connected : List AddrInfo) (info : AddrInfo)
    → Joinable self join
    → ¬ (info.id ≡ self)
    → Joinable self (join_received (record { join = join; connected = connected }) info).join
      × ((join_received (record { join = join; connected = connected }) info).connected ≡ connected)
received-Joinable self none connected info h k = (k, refl)
received-Joinable self (some busy) connected info h k = (h, refl)

next-Joinable :
    (self : ℕ) (join : Option AddrInfo) (connected : List AddrInfo)
    → Joinable self join
    → Others self connected
    → Joinable self (join_next (record { join = join; connected = connected })).join
      × Others self (join_next (record { join = join; connected = connected })).connected
next-Joinable self none connected h k = (tt, k)
next-Joinable self (some info) connected h k =
    (tt, Others-append self connected (info ∷ []) k (h, tt))

deliver-IsSafe :
    (self : ℕ) (bus : List AddrInfo) (s : System)
    → Others self bus
    → IsSafe self s
    → IsSafe self (deliver bus s)
deliver-IsSafe self [] s h safe = safe
deliver-IsSafe self (info ∷ bus) s h safe =
    let received = received-Joinable self s.joiner.join s.joiner.connected info safe.join h.0 in
    record { bus = h.1; join = received.0; connected = rw received.1 safe.connected }

joins-IsSafe :
    (self : ℕ) (s : System) → IsSafe self s → IsSafe self (record s { joiner = join_next s.joiner })
joins-IsSafe self s safe =
    let next = next-Joinable self s.joiner.join s.joiner.connected safe.join safe.connected in
    record { bus = safe.bus; join = next.0; connected = next.1 }

step-IsSafe :
    (c : Settings) (self : ℕ) (s : System) (e : Event)
    → IsSafe self s
    → IsSafe self (system_step c self s e)
unfolding system_step
step-IsSafe c self s (at_boot e) safe = record {
  bus = Others-append self s.bus (boot_step self s.boot e).1 safe.bus (boot-Others self s.boot e);
  join = safe.join;
  connected = safe.connected;
}
step-IsSafe c self s (at_discovery e) safe = record {
  bus =
      Others-append self s.bus (peers_of (discovery_step c self s.discoverer e).1) safe.bus
        (discovery-Others c self s.discoverer e);
  join = safe.join;
  connected = safe.connected;
}
step-IsSafe c self s delivered safe = deliver-IsSafe self s.bus s safe.bus safe
step-IsSafe c self s joins safe = joins-IsSafe self s safe

run-IsSafe :
    (c : Settings) (self : ℕ) (s : System) (events : List Event)
    → IsSafe self s
    → IsSafe self (system_run c self s events)
unfolding system_run
run-IsSafe c self s [] safe = safe
run-IsSafe c self s (e ∷ events) safe =
    run-IsSafe c self (system_step c self s e) events (step-IsSafe c self s e safe)

-- Whatever the discoveries answer and whenever the services act, the node never connects to itself,
-- nor is it ever on the bus.
pub system-Others :
    (c : Settings) (self : ℕ) (events : List Event)
    → Others self (system_run c self (new_system c) events).joiner.connected
      × Others self (system_run c self (new_system c) events).bus
system-Others c self events =
    let safe =
      run-IsSafe c self (new_system c) events (record { bus = tt; join = tt; connected = tt }) in
    (safe.connected, safe.bus)
