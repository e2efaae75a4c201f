-- ===== src/Timing/Requests.antt =====
-- What pkg/runtime/svc/graph/graph.go asks for, and how often.
use ww.Prelude.{
  ℕ, zero, suc, ◌+◌, ◌-◌, ◌*◌, ◌^◌, ◌≤◌, ◌<◌, ◌≡◌, ◌∙◌, refl, ap, arith, Bool-cases, inl, inr, Bool,
  true, false, List, [], ◌∷◌, ◌++◌, length, length-append,
}
use ww.Neighborhood.Phases.{Changed}
use ww.Timing.Scheduler.{Settings, Scheduler}
use ww.Timing.Services.{
  round, fired, Input, timestep, changed, sent_if, resend, requested, emitloop,
}
use ww.Timing.Bounds.{sum, count_true, AllAtMost, Samples, fired-bounded, fired-live}

-- The timesteps among the inputs, and how many changes of the neighborhood there are
abbrev pub timesteps : List Input → List ℕ
timesteps [] = []
timesteps (timestep d ∷ inputs) = d ∷ timesteps inputs
timesteps (changed ev ∷ inputs) = timesteps inputs

abbrev pub changes : List Input → ℕ
changes [] = 0
changes (timestep d ∷ inputs) = changes inputs
changes (changed ev ∷ inputs) = suc (changes inputs)

abbrev pub quiet : List ℕ → List Input
quiet [] = []
quiet (d ∷ ds) = timestep d ∷ quiet ds

-- `n` times a list
abbrev pub times {ℓ} : {A : Type ℓ} → ℕ → List A → List A
times zero xs = []
times (suc n) xs = xs ++ times n xs

length-sent_if :
    (b : Bool) (ev : Changed) (bs : List Bool) (n : ℕ)
    → length (sent_if b ev) + (n + count_true bs) ≡ n + count_true (b ∷ bs)
length-sent_if true ev bs n = omega arith
length-sent_if false ev bs n = omega arith

-- An event is sent for each change, and for each timestep at which the time has come.
length-resend :
    (c : Settings) (s : Scheduler) (ev : Changed) (inputs : List Input)
    → length (resend c s ev inputs) ≡ changes inputs + count_true (fired c s (timesteps inputs))
unfolding resend fired
length-resend c s ev [] = refl
length-resend c s ev (timestep d ∷ inputs) =
    let now = (round c s d).1 in
    let next = (round c s d).0 in
    length-append (sent_if now ev) (resend c next ev inputs)
    ∙ ap (λ n. length (sent_if now ev) + n) (length-resend c next ev inputs)
    ∙ length-sent_if now ev (fired c next (timesteps inputs)) (changes inputs)
length-resend c s ev (changed new ∷ inputs) =
    let rest = length-resend c s new inputs in omega (arith, rest)

-- Beyond one event for each change of the neighborhood, subloop of the graph sends at most one for
-- each low mark of the jitter in the time that has passed.
pub resend-bounded :
    (c : Settings) (low : ℕ) (s : Scheduler) (ev : Changed) (inputs : List Input)
    → Samples c low
    → low ≤ s.remaining
    → s.remaining < 2 ^ 63
    → AllAtMost (2 ^ 63 - 1) (timesteps inputs)
    → length (resend c s ev inputs) * low ≤ changes inputs * low + sum (timesteps inputs)
resend-bounded c low s ev inputs j full small fits =
    let few = fired-bounded c low s (timesteps inputs) j small fits in
    rw (length-resend c s ev inputs) (omega (arith, few))

-- While the neighborhood does not change, the request of its phase is repeated.
emitloop-quiet :
    (c : Settings) (s : Scheduler) (ev : Changed) (ds : List ℕ)
    → emitloop (resend c s ev (quiet ds)) ≡ times (count_true (fired c s ds)) (requested ev.to)
unfolding resend fired emitloop
emitloop-quiet c s ev [] = refl
emitloop-quiet c s ev (d ∷ ds) =
    let rest = emitloop-quiet c (round c s d).0 ev ds in
    elim (Bool-cases (round c s d).1) [
      | inl e ↦ rw e (ap (λ l. requested ev.to ++ l) rest)
      | inr e ↦ rw e rest
    ]

-- While the neighborhood does not change, the graph emits the request of its phase n times and no
-- other, and the time that passes is at most what the scheduler had left and n times the duration
-- and the longest step.
pub requests-live :
    (c : Settings) (low m : ℕ) (s : Scheduler) (ev : Changed) (ds : List ℕ)
    → Samples c low
    → s.remaining < 2 ^ 63
    → m < 2 ^ 63
    → AllAtMost m ds
    → (n : ℕ) × (emitloop (resend c s ev (quiet ds)) ≡ times n (requested ev.to))
      × (sum ds ≤ s.remaining + n * (c.d + m))
requests-live c low m s ev ds j small lt fits =
    (count_true (fired c s ds), emitloop-quiet c s ev ds, fired-live c low m s ds j small lt fits)
