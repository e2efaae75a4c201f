-- ===== src/Timing/Examples.antt =====
-- Runs of the clock and of the services that count it, and their theorems at concrete inputs.
use ww.Prelude.{
  ℕ, suc, ◌+◌, ◌-◌, ◌*◌, ◌/◌, ◌^◌, ◌≤◌, ◌≡◌, refl, arith, Bool, true, false, List, [], ◌∷◌,
}
use ww.Neighborhood.Phases.{orphaned, partial, Changed, initial}
use ww.Timing.Scheduler.{
  Settings, new_scheduler, advance, sub_int64, nonpositive, ticks, zero_time, deltas,
}
use ww.Timing.Services.{
  round, fired, announcer_settings, announcements, announcer_subloop, timestep, changed, resend,
  boot, graft, requested, emitloop,
}
use ww.Timing.Bounds.{sum, count_true, Samples, steps_of}
use ww.Timing.Clock.{last_tick, fired-paced, announcer-paced}
use ww.Timing.Requests.{quiet, times, requests-live}

-- The jitter that always samples the middle of its range, for a ttl of 16
abbrev middle : ℕ → ℕ → ℕ
middle k d = d - d / 4

abbrev sixteen : Settings
sixteen = announcer_settings 16 middle

sixteen-Samples : Samples sixteen 4
sixteen-Samples = record { above = λ k. omega arith; below = λ k. omega arith; small = omega arith }

abbrev steps : List (ℕ × Bool)
steps = (3, true) ∷ (3, true) ∷ (3, false) ∷ (3, true) ∷ (5, true) ∷ []

run : announcer_subloop 16 middle steps ≡ false ∷ true ∷ false ∷ true ∷ false ∷ []
unfolding announcements round advance sub_int64 nonpositive
run = refl

abbrev era : ℕ
era = 2 ^ 64

paced_run :
    fired sixteen
      (new_scheduler sixteen)
      (deltas (ticks zero_time (era ∷ (era + 4) ∷ (era + 9) ∷ [])))
    ≡ true ∷ false ∷ true ∷ []
unfolding fired ticks round advance sub_int64 nonpositive
paced_run = refl

fired-paced_example :
    (n : ℕ) × (count_true (
        fired sixteen
          (new_scheduler sixteen)
          (deltas (ticks zero_time (era ∷ (era + 4) ∷ (era + 9) ∷ []))))
      ≡ suc n)
    × (era + n * 4 ≤ last_tick era ((era + 4) ∷ (era + 9) ∷ []))
    × (last_tick era ((era + 4) ∷ (era + 9) ∷ []) ≤ era + 8 + n * (8 + 5))
fired-paced_example =
    fired-paced sixteen 4 5 era ((era + 4) ∷ (era + 9) ∷ []) sixteen-Samples (omega arith)
      (omega arith) (omega arith, omega arith, (omega arith, omega arith, tt))

abbrev at_partial : Changed
at_partial = record { k = 1; from = orphaned; to = partial }

asks :
    emitloop (
      resend sixteen
        (new_scheduler sixteen)
        initial
        (timestep 9 ∷ changed at_partial ∷ timestep 2 ∷ timestep 6 ∷ []))
    ≡ boot ∷ graft ∷ graft ∷ []
unfolding emitloop resend round advance sub_int64 nonpositive
asks = refl

requests-live_example :
    (n : ℕ) × (emitloop (resend sixteen (new_scheduler sixteen) at_partial (quiet (3 ∷ 4 ∷ [])))
      ≡ times n (requested partial))
    × (sum (3 ∷ 4 ∷ []) ≤ 6 + n * (8 + 4))
requests-live_example =
    requests-live sixteen 4 4 (new_scheduler sixteen) at_partial (3 ∷ 4 ∷ []) sixteen-Samples
      (omega arith) (omega arith) (omega arith, (omega arith, tt))

-- The ticks of `paced_run`; announceloop is not ready at the second.
abbrev paced_steps : List (ℕ × Bool)
paced_steps = (2 ^ 63 - 1, true) ∷ (4, false) ∷ (5, true) ∷ []

paced_deltas : steps_of paced_steps ≡ deltas (ticks zero_time (era ∷ (era + 4) ∷ (era + 9) ∷ []))
unfolding ticks
paced_deltas = refl

announcer-paced_example :
    era + count_true (announcer_subloop 16 middle paced_steps) * (16 / 4)
    ≤ last_tick era ((era + 4) ∷ (era + 9) ∷ []) + 16 / 4
announcer-paced_example =
    announcer-paced 16 middle era ((era + 4) ∷ (era + 9) ∷ []) paced_steps sixteen-Samples
      (omega arith) (omega arith, omega arith, (omega arith, omega arith, tt)) paced_deltas
