-- ===== src/Tracker/Counting.antt =====
-- How the counter of connloop of pkg/runtime/svc/tracker/tracker.go changes at an event that is added
-- to those it has received.
use ww.Prelude.{
  ℕ, ◌+◌, ◌-◌, ◌<◌, ◌≡◌, ◌∙◌, refl, sym, ap, arith, ◌==◌, true, false, Bool-cases, inl, inr, List,
  [], ◌∷◌, ◌++◌, Option, none, some, Result, ok, fail, ◌>>=◌, Ensures, bind-cong, update,
  Ensures-bind, append_nil,
}
use mathlib.Core.List.{append_assoc}
use ww.Neighborhood.Phases.{Event}
use ww.Tracker.Counter.{
  opened, closed, ConnEvent, Counts, put, count_of, add, rm_by, rm, change, peer_event, round,
  connloop,
}

abbrev pub counts : Counts → ℕ → ℕ
counts ctr p = count_of (ctr p)

put-counts :
    (ctr : Counts) (id : ℕ) (i : Option ℕ) (p : ℕ)
    → counts (put ctr id i) p ≡ update (counts ctr) id (count_of i) p
put-counts ctr id i p = elim (Bool-cases (id == p)) [ inl e ↦ rw e refl | inr e ↦ rw e refl ]

abbrev Outcome : Type 0
Outcome = Counts × List Event

-- An outcome after the events `now`
abbrev tell : List Event → Outcome → Result Outcome
tell now r = ok (r.0, now ++ r.1)

-- A round after an outcome
abbrev then_round : (Counts → Result Outcome) → Outcome → Result Outcome
then_round g r = g r.0 >>= tell r.1

tell-tell :
    (now later : List Event) (n : Result Outcome)
    → (n >>= tell later >>= tell now) ≡ (n >>= tell (now ++ later))
tell-tell now later (fail e) = refl
tell-tell now later (ok s) = ap (λ l. ok (s.0, l)) (sym (append_assoc now later s.1))

later-snoc :
    (now : List Event) (m : Result Outcome) (g : Counts → Result Outcome)
    → (m >>= then_round g >>= tell now) ≡ (m >>= tell now >>= then_round g)
later-snoc now (fail e) g = refl
later-snoc now (ok r) g = tell-tell now r.1 (g r.0)

snoc_by :
    (n : Result Outcome) (evs : List ConnEvent) (ev : ConnEvent)
    → ((c : Counts)
        → connloop c (evs ++ ev ∷ []) ≡ (connloop c evs >>= then_round (λ k. round k ev)))
    → (n >>= (λ x. connloop x.0 (evs ++ ev ∷ []) >>= tell x.1))
      ≡ (n >>= (λ x. connloop x.0 evs >>= tell x.1) >>= then_round (λ k. round k ev))
snoc_by (fail e) evs ev h = refl
snoc_by (ok x) evs ev h =
    ap (λ m. m >>= tell x.1) (h x.0) ∙ later-snoc x.1 (connloop x.0 evs) (λ k. round k ev)

-- connloop after one more event
pub connloop-snoc :
    (ctr : Counts) (evs : List ConnEvent) (ev : ConnEvent)
    → connloop ctr (evs ++ ev ∷ []) ≡ (connloop ctr evs >>= then_round (λ k. round k ev))
unfolding connloop
connloop-snoc ctr [] ev =
    bind-cong (round ctr ev) (λ r. ok (r.0, r.1 ++ [])) (λ r. ok r)
      (λ r. ap {B = Result Outcome} (λ l. ok (r.0, l)) (append_nil r.1))
connloop-snoc ctr (e ∷ evs) ev = snoc_by (round ctr e) evs ev (λ c. connloop-snoc c evs ev)

-- An event of a host that opens a connection is counted.
pub round-opened :
    (ctr : Counts) (id : ℕ)
    → Ensures
        (round ctr (record { peer = id; state = opened; client = false }))
        (λ r. (p : ℕ) → counts r.0 p ≡ update (counts ctr) id (counts ctr id + 1) p)
unfolding round change add peer_event
round-opened ctr id = (_, refl, λ p. put-counts ctr id (some (counts ctr id + 1)) p)

rm_by-counts :
    (o : Option ℕ) (ctr : Counts) (id : ℕ)
    → ctr id ≡ o
    → 0 < count_of o
    → Ensures
        (rm_by o ctr id)
        (λ r. (p : ℕ) → counts r.0 p ≡ update (counts ctr) id (counts ctr id - 1) p)
rm_by-counts none ctr id h lt = absurd (omega (arith, lt))
rm_by-counts (some i) ctr id h lt = elim (Bool-cases (i == 1)) [
  | inl e ↦
      let zero_left : counts ctr id - 1 ≡ 0 = rw h (ground arith) in
      rw (e, zero_left) (_, refl, λ p. put-counts ctr id none p)
  | inr e ↦ rw (e, h) (_, refl, λ p. put-counts ctr id (some (i - 1)) p)
]

-- So is one that closes a connection, if there is one.
pub round-closed :
    (ctr : Counts) (id : ℕ)
    → 0 < counts ctr id
    → Ensures
        (round ctr (record { peer = id; state = closed; client = false }))
        (λ r. (p : ℕ) → counts r.0 p ≡ update (counts ctr) id (counts ctr id - 1) p)
unfolding round change rm peer_event
round-closed ctr id lt =
    Ensures-bind (rm ctr id) _ (rm_by-counts (ctr id) ctr id refl lt) (λ c h. (_, refl, h))

-- One of a client is not.
pub round-client : (ctr : Counts) (ev : ConnEvent) → ev.client ≡ true → round ctr ev ≡ ok (ctr, [])
unfolding round
round-client ctr ev h = rw h refl
