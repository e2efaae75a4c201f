-- ===== src/Neighborhood/Emitting.antt =====
-- What Phase and subloop of pkg/runtime/svc/neighborhood/neighborhood.go promise.
use ww.Prelude.{
  ℕ, zero, suc, ◌≤◌, ◌<◌, ◌≡◌, ◌∙◌, refl, ap, arith, Bool, true, false, Bool-cases, inl, inr, ◌==◌,
  if◌then◌else◌, List, [], ◌∷◌, length, Ensures, le→ltb, lt→ltb, le→leb, lt→leb, ne→eq,
}
use native.Mathlib.Decide.{dec_lt, dec_le}
use ww.Neighborhood.Phases.{
  Phase, orphaned, partial, complete, overloaded, Changed, PhaseMap, Event, connected,
  not_connected, other, phase, member, insert, remove, apply, subloop,
}

-- The definition of a phase in the comment of the type Phase.
abbrev pub Means : PhaseMap → ℕ → Phase → Type 0
Means m k orphaned = k ≡ 0
Means m k partial = (0 < k) × (k < m.l)
Means m k complete = (m.l ≤ k) × (k ≤ m.h)
Means m k overloaded = m.h < k

-- For every number of peers and all marks, whichever of them is greater, Phase does not panic and
-- returns a phase whose definition the number meets.
pub phase-Means : (m : PhaseMap) (k : ℕ) → Ensures (phase m k) (λ p. Means m k p)
unfolding phase
phase-Means m zero = (orphaned, refl, refl)
phase-Means m (suc k) = elim (dec_lt (suc k) m.l) [
  | yes lt ↦ (
    partial,
    rw (ne→eq (suc k) 0 (omega arith), lt→ltb 0 (suc k) (omega arith), lt→ltb (suc k) m.l lt) refl,
    (omega arith, lt),
  )
  | no ge ↦ elim (dec_le (suc k) m.h) [
    | yes le ↦ (
      complete,
      rw
          (
            ne→eq (suc k) 0 (omega arith),
            lt→ltb 0 (suc k) (omega arith),
            le→ltb (suc k) m.l (omega arith),
            le→leb m.l (suc k) (omega arith),
            le→leb (suc k) m.h le,
          )
          refl,
      (omega arith, le),
    )
    | no gt ↦ (
      overloaded,
      rw
          (
            ne→eq (suc k) 0 (omega arith),
            lt→ltb 0 (suc k) (omega arith),
            le→ltb (suc k) m.l (omega arith),
            le→leb m.l (suc k) (omega arith),
            lt→leb (suc k) m.h (omega arith),
            lt→ltb m.h (suc k) (omega arith),
          )
          refl,
      omega arith,
    )
  ]
]

-- Whether a peer is connected after the event, if `b` says whether it was before.
abbrev pub now_connected : ℕ → Event → Bool → Bool
now_connected p (connected q) b = if p == q then true else b
now_connected p (not_connected q) b = if p == q then false else b
now_connected p (other q) b = b

abbrev pub Distinct : List ℕ → Type 0
Distinct [] = Unit
Distinct (p ∷ ps) = (member p ps ≡ false) × Distinct ps

member-insert :
    (p q : ℕ) (ps : List ℕ) → member p (insert q ps) ≡ (if p == q then true else member p ps)
member-insert p q ps = elim (Bool-cases (member q ps)) [
  | inl e ↦ rw e (elim (Bool-cases (p == q)) [
    | inl s ↦ let same : p ≡ q = ground arith in rw s (ap (λ i. member i ps) same ∙ e)
    | inr s ↦ rw s refl
  ])
  | inr e ↦ rw e (elim (Bool-cases (p == q)) [ inl s ↦ rw s refl | inr s ↦ rw s refl ])
]

member-remove :
    (p q : ℕ) (ps : List ℕ) → member p (remove q ps) ≡ (if p == q then false else member p ps)
member-remove p q [] = elim (Bool-cases (p == q)) [ inl s ↦ rw s refl | inr s ↦ rw s refl ]
member-remove p q (r ∷ ps) = ground (arith, member-remove p q ps)

Distinct-insert : (q : ℕ) (ps : List ℕ) → Distinct ps → Distinct (insert q ps)
Distinct-insert q ps h = elim (Bool-cases (member q ps)) [ inl e ↦ rw e h | inr e ↦ rw e (e, h) ]

Distinct-remove : (q : ℕ) (ps : List ℕ) → Distinct ps → Distinct (remove q ps)
Distinct-remove q [] h = tt
Distinct-remove q (r ∷ ps) (new, h) = elim (Bool-cases (q == r)) [
  | inl e ↦ rw e (Distinct-remove q ps h)
  | inr e ↦ rw e (
    member-remove r q ps ∙ elim (Bool-cases (r == q)) [ inl s ↦ rw s refl | inr s ↦ rw s new ],
    Distinct-remove q ps h,
  )
]

-- No event is of a kind that subloop does not know.
abbrev pub Known : List Event → Type 0
Known [] = Unit
Known (connected p ∷ events) = Known events
Known (not_connected p ∷ events) = Known events
Known (other p ∷ events) = ⊥

-- The set has the peers of the old one, but for what the event says, each of them once.
abbrev pub Follows : Event → List ℕ → List ℕ → Type 0
Follows e ps ps' = ((p : ℕ) → member p ps' ≡ now_connected p e (member p ps)) × Distinct ps'

-- One state is emitted for each event: its number is that of the peers that are connected then, its
-- phases are the last one and the one that this number means.
abbrev pub Emits : PhaseMap → Phase → List ℕ → List Event → List Changed → Type 0
Emits m last ps [] [] = Unit
Emits m last ps (e ∷ events) (s ∷ states) =
    (ps' : List ℕ) × Follows e ps ps'
    × (s.k ≡ length ps')
    × (s.from ≡ last)
    × Means m s.k s.to
    × Emits m s.to ps' events states
Emits m last ps [] (s ∷ states) = ⊥
Emits m last ps (e ∷ events) [] = ⊥

apply-Follows :
    (e : Event) (events : List Event) (ps : List ℕ)
    → Known (e ∷ events)
    → Distinct ps
    → Ensures (apply e ps) (λ ps'. Follows e ps ps') × Known events
unfolding apply
apply-Follows (connected q) events ps known h =
    ((insert q ps, refl, ((λ p. member-insert p q ps), Distinct-insert q ps h)), known)
apply-Follows (not_connected q) events ps known h =
    ((remove q ps, refl, ((λ p. member-remove p q ps), Distinct-remove q ps h)), known)
apply-Follows (other q) events ps known h = absurd known

-- From a set of distinct peers and events of connection and disconnection only, subloop emits one
-- state for each event: its number is that of the peers that are connected then, it starts from the
-- phase that the last one ended in, and it ends in the phase that its number means.
pub subloop-Emits :
    (m : PhaseMap) (state : Changed) (ps : List ℕ) (events : List Event)
    → Distinct ps
    → Known events
    → Ensures (subloop m state ps events) (λ states. Emits m state.to ps events states)
unfolding subloop
subloop-Emits m state ps [] h known = ([], refl, tt)
subloop-Emits m state ps (e ∷ events) h known =
    let ((ps', done, follows), rest_known) = apply-Follows e events ps known h in
    let (to, found, means) = phase-Means m (length ps') in
    let next : Changed = record { k = length ps'; from = state.to; to = to } in
    let (states, run, p) = subloop-Emits m next ps' events follows.1 rest_known in
    (next ∷ states, rw (done, found, run) refl, (ps', follows, refl, refl, means, p))
