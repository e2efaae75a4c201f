-- ===== src/Timing/Scheduler.antt =====
-- Scheduler of pkg/runtime/svc/internal/util.go, and the loop of pkg/runtime/svc/ticker/ticker.go. A
-- duration is an int64, as its 64 bits; a time is a natural number of nanoseconds.
use ww.Prelude.{ℕ, suc, ◌+◌, ◌-◌, ◌%◌, ◌^◌, ◌==◌, ◌||◌, Bool, if◌then◌else◌, leb, List, [], ◌∷◌}

-- A subtraction of int64, which wraps around
unfoldable pub sub_int64 : ℕ → ℕ → ℕ
sub_int64 a b = (a + (2 ^ 64 - b)) % 2 ^ 64

-- The test d <= 0
unfoldable pub nonpositive : ℕ → Bool
nonpositive a = (a == 0) || leb (2 ^ 63) a

-- What a scheduler is made with: its duration, and the value of its jitter at each call. The library
-- of the jitter is not in the repository.
pub record Settings : Type 0 where
  pub d : ℕ
  pub jitter : ℕ → ℕ → ℕ

-- Scheduler; `calls` has how often its jitter was called.
pub record Scheduler : Type 0 where
  pub remaining : ℕ
  pub calls : ℕ

-- (Scheduler).Reset
abbrev pub reset : Settings → Scheduler → Scheduler
reset c s = record { remaining = c.jitter s.calls c.d; calls = suc s.calls }

-- NewScheduler
abbrev pub new_scheduler : Settings → Scheduler
new_scheduler c = reset c (record { remaining = 0; calls = 0 })

-- (Scheduler).Advance
unfoldable pub advance : Scheduler → ℕ → Scheduler × Bool
advance s d =
    let left = sub_int64 s.remaining d in (record s { remaining = left }, nonpositive left)

-- EvtTimestep
pub record Timestep : Type 0 where
  pub time : ℕ
  pub delta : ℕ

-- The greatest duration
abbrev pub max_duration : ℕ
max_duration = 2 ^ 63 - 1

-- tick.Sub(t), of a tick that is not before t: it stops at the greatest duration.
abbrev pub since : ℕ → ℕ → ℕ
since tick t = if leb (tick - t) max_duration then tick - t else max_duration

-- The loop of the ticker, from the time of the last step
unfoldable pub ticks : ℕ → List ℕ → List Timestep
ticks t [] = []
ticks t (tick ∷ rest) = record { time = tick; delta = since tick t } ∷ ticks tick rest

-- The time of the zero EvtTimestep, which the loop begins with
abbrev pub zero_time : ℕ
zero_time = 0

abbrev pub deltas : List Timestep → List ℕ
deltas [] = []
deltas (ts ∷ rest) = ts.delta ∷ deltas rest
