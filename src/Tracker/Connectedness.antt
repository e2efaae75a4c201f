-- ===== src/Tracker/Connectedness.antt =====
-- What connloop of pkg/runtime/svc/tracker/tracker.go tells the services that listen: the peers with
-- a connection that is no client's.
use ww.Prelude.{
  ℕ, ◌+◌, ◌-◌, fun_ext, ◌≡◌, ◌∙◌, refl, ap, sym, subst, arith, ◌==◌, Bool, true, false, Bool-cases,
  inl, inr, if◌then◌else◌, List, [], ◌∷◌, ◌++◌, Option, none, some, Result, ok, ◌>>=◌, ◌⊎◌, WhenOk,
  WhenOk-bind,
}
use ww.Neighborhood.Phases.{Event, connected, not_connected, other}
use ww.Neighborhood.Emitting.{now_connected}
use ww.Tracker.Counter.{
  ConnState, opened, closed, invalid, ConnEvent, Counts, put, count_of, is_some, add, rm_by, rm,
  peer_event, change, round, connloop,
}

-- Whether a peer is connected after some events, if `b` says whether it was before.
abbrev pub status : ℕ → List Event → Bool → Bool
status p [] b = b
status p (e ∷ es) b = status p es (now_connected p e b)

-- Each event says something new: it connects a peer that was not, or the other way round.
abbrev pub Alternates : (ℕ → Bool) → List Event → Type 0
Alternates up [] = Unit
Alternates up (connected q ∷ es) =
    (up q ≡ false) × Alternates (λ p. now_connected p (connected q) (up p)) es
Alternates up (not_connected q ∷ es) =
    (up q ≡ true) × Alternates (λ p. now_connected p (not_connected q) (up p)) es
Alternates up (other q ∷ es) = ⊥

abbrev pub has : Counts → ℕ → Bool
has ctr p = is_some (ctr p)

-- What a round did: it said nothing and no peer's status changed, or it said one thing that was new
-- and changed the status so.
abbrev Says : Counts → Counts → List Event → Type 0
Says ctr ctr' es =
    ((es ≡ []) × ((p : ℕ) → has ctr' p ≡ has ctr p))
    ⊎ ((e : Event) × (es ≡ e ∷ [])
        × ((p : ℕ) → has ctr' p ≡ now_connected p e (has ctr p))
        × Alternates (has ctr) (e ∷ []))

eq_comm : (a b : ℕ) → (a == b) ≡ (b == a)
eq_comm a b = ground arith

put-has :
    (ctr : Counts) (id : ℕ) (i : Option ℕ) (p : ℕ)
    → has (put ctr id i) p ≡ (if p == id then is_some i else has ctr p)
put-has ctr id i p =
    rw (eq_comm p id) (elim (Bool-cases (id == p)) [ inl e ↦ rw e refl | inr e ↦ rw e refl ])

-- Storing a count where there is one changes no status.
put-has_same :
    (ctr : Counts) (id i p : ℕ) → has ctr id ≡ true → has (put ctr id (some i)) p ≡ has ctr p
put-has_same ctr id i p h = put-has ctr id (some i) p ∙ elim (Bool-cases (p == id)) [
  | inl e ↦ let same : p ≡ id = ground arith in rw e (sym (ap (λ q. has ctr q) same ∙ h))
  | inr e ↦ rw e refl
]

add-Says :
    (ctr : Counts) (id : ℕ)
    → Says ctr (add ctr id).0 (if (add ctr id).1 then connected id ∷ [] else [])
unfolding add
add-Says ctr id = elim (Bool-cases (has ctr id)) [
  | inl e ↦ rw e (inl (refl, λ p. put-has_same ctr id (count_of (ctr id) + 1) p e))
  | inr e ↦
      rw e
        (inr (connected id, refl, (λ p. put-has ctr id (some (count_of (ctr id) + 1)) p), (e, tt)))
]

rm_by-Says :
    (o : Option ℕ) (ctr : Counts) (id : ℕ)
    → ctr id ≡ o
    → WhenOk (rm_by o ctr id) (λ r. Says ctr r.0 (if r.1 then not_connected id ∷ [] else []))
rm_by-Says none ctr id h = tt
rm_by-Says (some i) ctr id h =
    let there : has ctr id ≡ true = ap is_some h in
    elim (Bool-cases (i == 1)) [
      | inl e ↦ rw e (inr (not_connected id, refl, (λ p. put-has ctr id none p), (there, tt)))
      | inr e ↦ rw e (inl (refl, λ p. put-has_same ctr id (i - 1) p there))
    ]

-- What is emitted, when the counter has changed
abbrev counted : ConnState → ℕ → Counts × Bool → Result (Counts × List Event)
counted s id c = peer_event s id >>= λ e. ok (c.0, if c.1 then e ∷ [] else [])

counted-Says :
    (s : ConnState) (ctr : Counts) (id : ℕ)
    → WhenOk (change s ctr id >>= λ c. counted s id c) (λ r. Says ctr r.0 r.1)
unfolding change peer_event rm
counted-Says opened ctr id = add-Says ctr id
counted-Says closed ctr id =
    WhenOk-bind (λ r. Says ctr r.0 (if r.1 then not_connected id ∷ [] else []))
      (λ r. Says ctr r.0 r.1) (rm_by (ctr id) ctr id) (λ c. counted closed id c)
      (rm_by-Says (ctr id) ctr id refl) (λ c h. h)
counted-Says invalid ctr id = tt

round-Says : (ctr : Counts) (ev : ConnEvent) → WhenOk (round ctr ev) (λ r. Says ctr r.0 r.1)
unfolding round
round-Says ctr ev = elim (Bool-cases ev.client) [
  | inl e ↦ rw e (inl (refl, λ p. refl))
  | inr e ↦ rw e (counted-Says ev.state ctr ev.peer)
]

-- What connloop told from a counter on: the counter that it ends with has the peers that its events
-- leave connected, and each event was new.
abbrev pub Told : Counts → Counts × List Event → Type 0
Told ctr r = ((p : ℕ) → has r.0 p ≡ status p r.1 (has ctr p)) × Alternates (has ctr) r.1

Alternates-cons :
    (up : ℕ → Bool) (e : Event) (es : List Event)
    → Alternates up (e ∷ [])
    → Alternates (λ p. now_connected p e (up p)) es
    → Alternates up (e ∷ es)
Alternates-cons up (connected q) es h k = (h.0, k)
Alternates-cons up (not_connected q) es h k = (h.0, k)
Alternates-cons up (other q) es h k = h

Says-Told :
    (ctr ctr' last : Counts) (now later : List Event)
    → Says ctr ctr' now
    → Told ctr' (last, later)
    → Told ctr (last, now ++ later)
Says-Told ctr ctr' last now later (inl (e, same)) (ends, new) =
    let before : has ctr' ≡ has ctr = fun_ext same in
    rw e (
      (λ p. ends p ∙ ap (λ b. status p later b) (same p)),
      subst (λ u. Alternates u later) before new,
    )
Says-Told ctr ctr' last now later (inr (e, one, went, fresh)) (ends, new) =
    let after : has ctr' ≡ (λ p. now_connected p e (has ctr p)) = fun_ext went in
    rw one (
      (λ p. ends p ∙ ap (λ b. status p later b) (went p)),
      Alternates-cons (has ctr) e later fresh (subst (λ u. Alternates u later) after new),
    )

-- Whatever connections are opened and closed, if connloop does not panic, each event that it emits
-- connects a peer that was not connected or disconnects one that was, and the peers that its
-- counter ends with are those that its events leave connected.
pub connloop-Told : (ctr : Counts) (evs : List ConnEvent) → WhenOk (connloop ctr evs) (Told ctr)
unfolding connloop
connloop-Told ctr [] = ((λ p. refl), tt)
connloop-Told ctr (ev ∷ evs) =
    WhenOk-bind (λ r. Says ctr r.0 r.1) (Told ctr) (round ctr ev) _ (round-Says ctr ev)
      (λ r said.
        WhenOk-bind (Told r.0) (Told ctr) (connloop r.0 evs) _ (connloop-Told r.0 evs)
          (λ l told. Says-Told ctr r.0 l.0 r.1 l.1 said told))
