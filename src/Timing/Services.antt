-- ===== src/Timing/Services.antt =====
-- The loops of pkg/runtime/svc/announcer/announcer.go and pkg/runtime/svc/graph/graph.go.
use ww.Prelude.{ℕ, ◌/◌, ◌*◌, ◌&&◌, Bool, if◌then◌else◌, List, [], ◌∷◌, ◌++◌}
use ww.Neighborhood.Phases.{Phase, orphaned, partial, complete, overloaded, Changed, initial}
use ww.Timing.Scheduler.{Settings, Scheduler, reset, new_scheduler, advance}

-- A round that advances the scheduler, and resets it when its time has come
abbrev pub reset_if : Settings → Scheduler × Bool → Scheduler × Bool
reset_if c (s, fired) = (if fired then reset c s else s, fired)

unfoldable pub round : Settings → Scheduler → ℕ → Scheduler × Bool
round c s d = reset_if c (advance s d)

-- The rounds of a list of timesteps: whether each of them is one at which the time has come
unfoldable pub fired : Settings → Scheduler → List ℕ → List Bool
fired c s [] = []
fired c s (d ∷ ds) = (round c s d).1 ∷ fired c (round c s d).0 ds

-- The scheduler of the announcer, with what its jitter samples
abbrev pub announcer_settings : ℕ → (ℕ → ℕ → ℕ) → Settings
announcer_settings ttl jitter = record { d = ttl / 2; jitter = jitter }

-- (announcer).subloop, from a scheduler: with each timestep stands whether announceloop is ready to
-- receive, and the result has whether an announcement was sent.
unfoldable pub announcements : Settings → Scheduler → List (ℕ × Bool) → List Bool
announcements c s [] = []
announcements c s ((d, ready) ∷ steps) =
    ((round c s d).1 && ready) ∷ announcements c (round c s d).0 steps

-- (announcer).subloop
abbrev pub announcer_subloop : ℕ → (ℕ → ℕ → ℕ) → List (ℕ × Bool) → List Bool
announcer_subloop ttl jitter steps =
    let c = announcer_settings ttl jitter in announcements c (new_scheduler c) steps

-- What (graph).subloop receives
pub data Input : Type 0 where
  timestep : (delta : ℕ) → Input
  changed : Changed → Input

-- The scheduler of the graph
abbrev pub graph_settings : (ℕ → ℕ → ℕ) → Settings
graph_settings jitter = record { d = 60 * (1000 * 1000 * 1000); jitter = jitter }

-- (graph).subloop: the events that it sends to emitloop, from a scheduler and the last event
abbrev pub sent_if : Bool → Changed → List Changed
sent_if b ev = if b then ev ∷ [] else []

unfoldable pub resend : Settings → Scheduler → Changed → List Input → List Changed
resend c s ev [] = []
resend c s ev (timestep d ∷ inputs) =
    sent_if (round c s d).1 ev ++ resend c (round c s d).0 ev inputs
resend c s ev (changed new ∷ inputs) = new ∷ resend c s new inputs

abbrev pub graph_subloop : (ℕ → ℕ → ℕ) → List Input → List Changed
graph_subloop jitter inputs =
    let c = graph_settings jitter in resend c (new_scheduler c) initial inputs

-- EvtBootRequested, EvtGraftRequested and EvtPruneRequested
pub data Request : Type 0 where
  boot graft prune : Request

abbrev pub requested : Phase → List Request
requested orphaned = boot ∷ []
requested partial = graft ∷ []
requested complete = []
requested overloaded = prune ∷ []

-- (graph).emitloop
unfoldable pub emitloop : List Changed → List Request
emitloop [] = []
emitloop (ev ∷ evs) = requested ev.to ++ emitloop evs
