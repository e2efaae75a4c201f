-- ===== src/Timing/Clock.antt =====
-- The announcements of pkg/runtime/svc/announcer/announcer.go by the clock of
-- pkg/runtime/svc/ticker/ticker.go.
use ww.Prelude.{
  ℕ, suc, ◌/◌, Bool, ◌∙◌, ◌+◌, ◌-◌, ◌*◌, ◌^◌, ◌≤◌, ◌<◌, ◌≡◌, refl, ap, arith, true, le→leb, lt→leb,
  List, [], ◌∷◌,
}
use native.Mathlib.Decide.{dec_le}
use native.Mathlib.Nat.{mul-le-mul_right}
use ww.Timing.Scheduler.{
  Settings, Scheduler, reset, new_scheduler, max_duration, since, ticks, zero_time, deltas,
}
use ww.Timing.Services.{fired, announcer_settings, announcer_subloop}
use ww.Timing.Bounds.{
  sum, count_true, AllAtMost, Samples, round-fires, fired-bounded, fired-live, steps_of,
  announcements-fired,
}

-- Each tick is not before the last, and at most `m` after it.
abbrev pub Gaps : ℕ → ℕ → List ℕ → Type 0
Gaps m t [] = Unit
Gaps m t (tick ∷ rest) = (t ≤ tick) × (tick ≤ t + m) × Gaps m tick rest

abbrev pub last_tick : ℕ → List ℕ → ℕ
last_tick t [] = t
last_tick t (tick ∷ rest) = last_tick tick rest

since-short : (tick t : ℕ) → tick - t ≤ max_duration → since tick t ≡ tick - t
since-short tick t le = rw (le→leb (tick - t) max_duration le) refl

since-long : (tick t : ℕ) → max_duration ≤ tick - t → since tick t ≡ max_duration
since-long tick t ge = elim (dec_le (tick - t) max_duration) [
  | yes le ↦ rw (le→leb (tick - t) max_duration le) (omega arith)
  | no gt ↦ rw (lt→leb (tick - t) max_duration (omega arith)) refl
]

-- The deltas add up to the time that has passed.
ticks-elapsed :
    (m t : ℕ) (rest : List ℕ)
    → m ≤ max_duration
    → Gaps m t rest
    → t + sum (deltas (ticks t rest)) ≡ last_tick t rest
unfolding ticks
ticks-elapsed m t [] le g = omega arith
ticks-elapsed m t (tick ∷ rest) le (after, near, g) =
    omega (arith, since-short tick t (omega arith), ticks-elapsed m tick rest le g)

ticks-AllAtMost :
    (m t : ℕ) (rest : List ℕ)
    → m ≤ max_duration
    → Gaps m t rest
    → AllAtMost m (deltas (ticks t rest))
unfolding ticks
ticks-AllAtMost m t [] le g = tt
ticks-AllAtMost m t (tick ∷ rest) le (after, near, g) =
    (omega (arith, since-short tick t (omega arith)), ticks-AllAtMost m tick rest le g)

-- The first delta is the greatest duration, at which every scheduler's time has come.
first_tick :
    (c : Settings) (s : Scheduler) (tick : ℕ) (rest : List ℕ)
    → s.remaining < 2 ^ 63
    → max_duration ≤ tick
    → fired c s (deltas (ticks zero_time (tick ∷ rest)))
      ≡ true ∷ fired c (reset c s) (deltas (ticks tick rest))
unfolding fired ticks
first_tick c s tick rest small late =
    rw
      (
        since-long tick zero_time (omega arith),
        round-fires c s max_duration (omega arith) (omega arith),
      )
      refl

AllAtMost-weaken : (m k : ℕ) (xs : List ℕ) → m ≤ k → AllAtMost m xs → AllAtMost k xs
AllAtMost-weaken m k [] le h = tt
AllAtMost-weaken m k (x ∷ xs) le (fits, h) = (omega arith, AllAtMost-weaken m k xs le h)

-- For jitter values between a low mark and the duration of a scheduler, which fits an int64, and
-- for ticks of which the first is at least the greatest duration after the zero time and each next
-- one at most a gap after the last: the time comes at the first tick, whatever the jitter, and n
-- times after it, where n times the low mark is at most the time from the first tick to the last,
-- and this time is at most the duration and n times the duration and the gap.
pub fired-paced :
    (c : Settings) (low m first : ℕ) (rest : List ℕ)
    → Samples c low
    → m ≤ max_duration
    → max_duration ≤ first
    → Gaps m first rest
    → (n : ℕ) × (count_true (fired c (new_scheduler c) (deltas (ticks zero_time (first ∷ rest))))
        ≡ suc n)
      × (first + n * low ≤ last_tick first rest)
      × (last_tick first rest ≤ first + c.d + n * (c.d + m))
fired-paced c low m first rest j le late g =
    let s = new_scheduler c in
    let small : s.remaining < 2 ^ 63 = omega (arith, j.below 0, j.small) in
    let again = reset c s in
    let small_again : again.remaining < 2 ^ 63 = omega (arith, j.below 1, j.small) in
    let ds = deltas (ticks first rest) in
    let elapsed = ticks-elapsed m first rest le g in
    let fits = ticks-AllAtMost m first rest le g in
    let few =
      fired-bounded c low again ds j small_again (AllAtMost-weaken m (2 ^ 63 - 1) ds le fits) in
    let many = fired-live c low m again ds j small_again (omega arith) fits in
    (
      count_true (fired c again ds),
      ap count_true (first_tick c s first rest small late),
      omega (arith, few, elapsed, j.above 1),
      omega (arith, many, elapsed, j.below 1),
    )

-- With a jitter that samples from ttl/4 to ttl/2, for timesteps from ticks of which the first is at
-- least the greatest duration after the zero time and each next one from none to the greatest
-- duration after the last, and whether or not announceloop is ready at each: of the announcements
-- of subloop, the number less one times ttl/4 is at most the time from the first tick to the last.
pub announcer-paced :
    (ttl : ℕ) (jitter : ℕ → ℕ → ℕ) (first : ℕ) (rest : List ℕ) (steps : List (ℕ × Bool))
    → Samples (announcer_settings ttl jitter) (ttl / 4)
    → max_duration ≤ first
    → Gaps max_duration first rest
    → steps_of steps ≡ deltas (ticks zero_time (first ∷ rest))
    → first + count_true (announcer_subloop ttl jitter steps) * (ttl / 4)
      ≤ last_tick first rest + ttl / 4
announcer-paced ttl jitter first rest steps j late g same =
    let c = announcer_settings ttl jitter in
    let few : count_true (announcer_subloop ttl jitter steps)
        ≤ count_true (fired c (new_scheduler c) (steps_of steps)) =
      announcements-fired c (new_scheduler c) steps in
    let (n, count, low, high) =
      fired-paced c (ttl / 4) max_duration first rest j (omega arith) late g in
    let total : count_true (fired c (new_scheduler c) (steps_of steps)) ≡ suc n =
      ap (λ ds. count_true (fired c (new_scheduler c) ds)) same ∙ count in
    let most : count_true (announcer_subloop ttl jitter steps) * (ttl / 4) ≤ suc n * (ttl / 4) =
      mul-le-mul_right (ttl / 4) (omega (arith, few, total)) in
    omega (arith, most, low)
