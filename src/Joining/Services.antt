-- ===== src/Joining/Services.antt =====
-- The loops of pkg/runtime/svc/boot/boot.go, pkg/runtime/svc/discovery/discovery.go and
-- pkg/runtime/svc/join/join.go, one step at a time. What an outside discovery answers comes as events.
use ww.Prelude.{
  ℕ, ◌*◌, ◌==◌, ◌&&◌, Bool, true, false, if◌then◌else◌, List, [], ◌∷◌, ◌++◌, Option, none, some,
}
use ww.Neighborhood.Phases.{orphaned, partial, complete, overloaded, Changed}
use ww.Timing.Scheduler.{Settings, Scheduler}
use ww.Timing.Services.{round}

-- peer.AddrInfo
pub record AddrInfo : Type 0 where
  pub id : ℕ
  pub addrs : List ℕ

-- What DiscoverPeers or FindPeers answers: the next peer of the channel, the end of the channel, or an
-- error, with a channel that is nil or not.
pub data Answer : Type 0 where
  found : AddrInfo → Answer
  closed : Answer
  failed : (nil_channel : Bool) → Answer

-- A loop waits for a request, reads the peers that were asked for, or reads from a nil channel.
pub data Search : Type 0 where
  waiting searching blocked : Search

-- The peers of an answer, but for the node itself
abbrev pub emitted : ℕ → AddrInfo → List AddrInfo
emitted self info = if info.id == self then [] else info ∷ []

-- notOrphaned
abbrev pub not_orphaned : Changed → Bool
not_orphaned ev = elim (ev.to) [
  | orphaned ↦ false
  | partial ↦ true
  | complete ↦ true
  | overloaded ↦ true
]

-- bootstrapper: whether its channel `discover` has a request, and the state of queryloop
pub record Bootstrapper : Type 0 where
  pub discover : Bool
  pub query : Search

-- A neighborhood that changed, queryloop at its next request, and an answer for it
pub data BootEvent : Type 0 where
  changed : Changed → BootEvent
  next_request : BootEvent
  answer : Answer → BootEvent

-- The start of a round of queryloop
abbrev pub query_next : Bootstrapper → Bootstrapper
query_next b = elim (b.query) [
  | waiting ↦ if b.discover then record { discover = false; query = searching } else b
  | searching ↦ b
  | blocked ↦ b
]

-- queryloop at an answer
abbrev pub query_answer : ℕ → Search → Answer → Search × List AddrInfo
query_answer self searching (found info) = (searching, emitted self info)
query_answer self searching closed = (waiting, [])
query_answer self searching (failed nil_channel) = (waiting, [])
query_answer self waiting a = (waiting, [])
query_answer self blocked a = (blocked, [])

-- subloop and queryloop, with the peers that are emitted
unfoldable pub boot_step : ℕ → Bootstrapper → BootEvent → Bootstrapper × List AddrInfo
boot_step self b (changed ev) = (if not_orphaned ev then b else record b { discover = true }, [])
boot_step self b next_request = (query_next b, [])
boot_step self b (answer a) =
    let (query, infos) = query_answer self b.query a in (record b { query = query }, infos)

-- discoverer: the scheduler of subloop, and the state of graftloop
pub record Discoverer : Type 0 where
  pub sched : Scheduler
  pub search : Search

-- A timestep, with whether adloop is ready to receive; a graft request; and an answer for graftloop
pub data DiscoveryEvent : Type 0 where
  timestep : (delta : ℕ) → (ready : Bool) → DiscoveryEvent
  graft_requested : DiscoveryEvent
  graft_answer : Answer → DiscoveryEvent

-- The calls of Advertise, FindPeers and Emit
pub data Action : Type 0 where
  advertise find : Action
  emit : AddrInfo → Action

abbrev pub emits : List AddrInfo → List Action
emits [] = []
emits (info ∷ infos) = emit info ∷ emits infos

-- adTTL, with what its jitter samples
abbrev pub discovery_settings : (ℕ → ℕ → ℕ) → Settings
discovery_settings jitter = record { d = 2 * (60 * (60 * (1000 * 1000 * 1000))); jitter = jitter }

-- graftloop at a request, and otherwise no one receives it
abbrev pub graft_next : Search → Search × List Action
graft_next waiting = (searching, find ∷ [])
graft_next searching = (searching, [])
graft_next blocked = (blocked, [])

-- graftloop at an answer: after an error it goes on to read the channel.
abbrev pub graft_reads : ℕ → Search → Answer → Search × List Action
graft_reads self searching (found info) = (searching, emits (emitted self info))
graft_reads self searching closed = (waiting, [])
graft_reads self searching (failed true) = (blocked, [])
graft_reads self searching (failed false) = (searching, [])
graft_reads self waiting a = (waiting, [])
graft_reads self blocked a = (blocked, [])

-- subloop, adloop and graftloop
unfoldable pub discovery_step :
    Settings → ℕ → Discoverer → DiscoveryEvent → Discoverer × List Action
discovery_step c self d (timestep delta ready) = (
  record d { sched = (round c d.sched delta).0 },
  if (round c d.sched delta).1 && ready then advertise ∷ [] else [],
)
discovery_step c self d graft_requested =
    (record d { search = (graft_next d.search).0 }, (graft_next d.search).1)
discovery_step c self d (graft_answer a) =
    (record d { search = (graft_reads self d.search a).0 }, (graft_reads self d.search a).1)

-- joiner: its channel `join`, and the peers that Connect was called with
pub record Joiner : Type 0 where
  pub join : Option AddrInfo
  pub connected : List AddrInfo

-- subloop at an event
abbrev pub join_received : Joiner → AddrInfo → Joiner
join_received j info = elim (j.join) [ none ↦ record j { join = some info } | some busy ↦ j ]

-- The next round of joinloop
abbrev pub join_next : Joiner → Joiner
join_next j = elim (j.join) [
  | none ↦ j
  | some ev ↦ record { join = none; connected = j.connected ++ ev ∷ [] }
]
