-- ===== src/Timing/Bounds.antt =====
-- How often and how soon a scheduler of pkg/runtime/svc/internal/util.go lets its service act.
use ww.Prelude.{
  ℕ, suc, ◌+◌, ◌-◌, ◌*◌, ◌%◌, ◌^◌, ◌≤◌, ◌<◌, ◌≡◌, refl, arith, ◌&&◌, Bool, true, false, inl, inr,
  ◌⊎◌, le→leb, lt→leb, ne→eq, List, [], ◌∷◌,
}
use native.Mathlib.Decide.{dec_le}
use ww.Timing.Scheduler.{Settings, Scheduler, sub_int64, nonpositive, reset, advance}
use ww.Timing.Services.{round, fired, announcements}

abbrev pub sum : List ℕ → ℕ
sum [] = 0
sum (x ∷ xs) = x + sum xs

-- How many are true
abbrev pub count_true : List Bool → ℕ
count_true [] = 0
count_true (true ∷ bs) = suc (count_true bs)
count_true (false ∷ bs) = count_true bs

abbrev pub AllAtMost : ℕ → List ℕ → Type 0
AllAtMost m [] = Unit
AllAtMost m (x ∷ xs) = (x ≤ m) × AllAtMost m xs

-- What the jitter promises: each value is from `low` to the duration, which fits an int64.
pub record Samples (c : Settings) (low : ℕ) : Type 0 where
  pub above : (k : ℕ) → low ≤ c.jitter k c.d
  pub below : (k : ℕ) → c.jitter k c.d ≤ c.d
  pub small : c.d < 2 ^ 63

sub_int64-lt : (a b : ℕ) → b < a → a < 2 ^ 63 → sub_int64 a b ≡ a - b
unfolding sub_int64
sub_int64-lt a b lt small = omega arith

sub_int64-le : (a b : ℕ) → a ≤ b → b < 2 ^ 63 → nonpositive (sub_int64 a b) ≡ true
unfolding sub_int64 nonpositive
sub_int64-le a b le small =
    let left : ((a + (2 ^ 64 - b)) % 2 ^ 64 ≡ 0) ⊎ (2 ^ 63 ≤ (a + (2 ^ 64 - b)) % 2 ^ 64) =
      elim (dec_le b a) [ yes ge ↦ inl (omega arith) | no lt ↦ inr (omega arith) ] in
    elim left [
      | inl z ↦ rw z refl
      | inr z ↦
          let none_left = ne→eq ((a + (2 ^ 64 - b)) % 2 ^ 64) 0 (omega arith) in
          rw (none_left, le→leb (2 ^ 63) _ z) refl
    ]

nonpositive-lt : (a : ℕ) → 0 < a → a < 2 ^ 63 → nonpositive a ≡ false
unfolding nonpositive
nonpositive-lt a lt small = rw (ne→eq a 0 (omega arith), lt→leb (2 ^ 63) a (omega arith)) refl

advance-fires : (s : Scheduler) (d : ℕ) → d < 2 ^ 63 → s.remaining ≤ d → (advance s d).1 ≡ true
unfolding advance
advance-fires s d fits le = sub_int64-le s.remaining d le fits

advance-waits :
    (s : Scheduler) (d : ℕ)
    → s.remaining < 2 ^ 63
    → d < s.remaining
    → advance s d ≡ (record s { remaining = s.remaining - d }, false)
unfolding advance
advance-waits s d small lt =
    rw
      (
        sub_int64-lt s.remaining d lt small,
        nonpositive-lt (s.remaining - d) (omega arith) (omega arith),
      )
      refl

-- A round at which the time has come, and one at which it has not
pub round-fires :
    (c : Settings) (s : Scheduler) (d : ℕ)
    → d < 2 ^ 63
    → s.remaining ≤ d
    → round c s d ≡ (reset c s, true)
unfolding round advance
round-fires c s d fits le = rw (sub_int64-le s.remaining d le fits) refl

round-waits :
    (c : Settings) (s : Scheduler) (d : ℕ)
    → s.remaining < 2 ^ 63
    → d < s.remaining
    → round c s d ≡ (record s { remaining = s.remaining - d }, false)
unfolding round
round-waits c s d small lt = rw (advance-waits s d small lt) refl

pub fired-bounded :
    (c : Settings) (low : ℕ) (s : Scheduler) (ds : List ℕ)
    → Samples c low
    → s.remaining < 2 ^ 63
    → AllAtMost (2 ^ 63 - 1) ds
    → count_true (fired c s ds) * low ≤ sum ds + (low - s.remaining)
unfolding fired
fired-bounded c low s [] j small h = omega arith
fired-bounded c low s (d ∷ ds) j small (fits, h) = elim (dec_le s.remaining d) [
  | yes le ↦
      let after : count_true (fired c (reset c s) ds) * low
          ≤ sum ds + (low - (reset c s).remaining) =
        fired-bounded c low (reset c s) ds j (omega (arith, j.below s.calls, j.small)) h in
      rw (round-fires c s d (omega arith) le) (omega (arith, after, j.above s.calls))
  | no lt ↦
      let less : Scheduler = record s { remaining = s.remaining - d } in
      let after : count_true (fired c less ds) * low ≤ sum ds + (low - less.remaining) =
        fired-bounded c low less ds j (omega arith) h in
      rw (round-waits c s d small (omega arith)) (omega (arith, after))
]

pub fired-live :
    (c : Settings) (low m : ℕ) (s : Scheduler) (ds : List ℕ)
    → Samples c low
    → s.remaining < 2 ^ 63
    → m < 2 ^ 63
    → AllAtMost m ds
    → sum ds ≤ s.remaining + count_true (fired c s ds) * (c.d + m)
unfolding fired
fired-live c low m s [] j small lt h = omega arith
fired-live c low m s (d ∷ ds) j small lt (fits, h) = elim (dec_le s.remaining d) [
  | yes le ↦
      let after : sum ds ≤ (reset c s).remaining + count_true (fired c (reset c s) ds) * (c.d + m) =
        fired-live c low m (reset c s) ds j (omega (arith, j.below s.calls, j.small)) lt h in
      rw (round-fires c s d (omega arith) le) (omega (arith, after, j.below s.calls))
  | no gt ↦
      let less : Scheduler = record s { remaining = s.remaining - d } in
      let after : sum ds ≤ less.remaining + count_true (fired c less ds) * (c.d + m) =
        fired-live c low m less ds j (omega arith) lt h in
      rw (round-waits c s d small (omega arith)) (omega (arith, after))
]

-- The timesteps alone
abbrev pub steps_of : List (ℕ × Bool) → List ℕ
steps_of [] = []
steps_of ((d, ready) ∷ steps) = d ∷ steps_of steps

-- What is sent is at most what the scheduler lets be sent.
pub announcements-fired :
    (c : Settings) (s : Scheduler) (steps : List (ℕ × Bool))
    → count_true (announcements c s steps) ≤ count_true (fired c s (steps_of steps))
unfolding announcements fired
announcements-fired c s [] = omega arith
announcements-fired c s ((d, ready) ∷ steps) =
    fewer (round c s d).1 ready _ _ (announcements-fired c (round c s d).0 steps)
  where
    fewer :
        (b ready : Bool) (sends fires : List Bool)
        → count_true sends ≤ count_true fires
        → count_true ((b && ready) ∷ sends) ≤ count_true (b ∷ fires)
    fewer true true sends fires h = omega arith
    fewer true false sends fires h = omega arith
    fewer false ready sends fires h = h
