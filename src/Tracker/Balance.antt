-- ===== src/Tracker/Balance.antt =====
-- What keeps the counter of connloop of pkg/runtime/svc/tracker/tracker.go in step with the channels:
-- runs in which no handler receives from a peer's channel while idloop is about to announce the peer.
use mathlib.Core.Bool.{true≢false}
use ww.Prelude.{
  ℕ, zero, suc, ◌+◌, ◌-◌, ◌<◌, ◌≤◌, ◌≡◌, ◌≢◌, ◌∙◌, subst, refl, sym, ap, arith, ◌==◌, Bool, true,
  false, Bool-cases, inl, inr, if◌then◌else◌, List, [], ◌∷◌, ◌++◌, Option, none, some,
  some_injective, ok, get_elem?, set, update, Ensures,
}
use ww.Neighborhood.Phases.{Event}
use ww.Tracker.Counter.{opened, closed, ConnEvent, Counts, round, connloop, no_counts}
use ww.Tracker.Counting.{counts, connloop-snoc, round-opened, round-closed, round-client}
use ww.Tracker.Channels.{
  Idloop, idle, sending, announcing, Tracker, ensure_by, ensure_chan, conn_event, Step, identified,
  sent, announced, disconnected, received, quit, gone, deleted, stopped, told, new_tracker,
}

-- How many `true` there are in the channels of a peer
abbrev one : Option Bool → ℕ
one none = 0
one (some true) = 1
one (some false) = 0

abbrev pub trues : List (Option Bool) → ℕ
trues [] = 0
trues (c ∷ cs) = one c + trues cs

set-trues :
    (cs : List (Option Bool)) (g : ℕ) (a b : Option Bool)
    → get_elem? cs g ≡ some a
    → trues (set cs g b) + one a ≡ trues cs + one b
set-trues [] g a b h = cc
set-trues (c ∷ cs) zero a b h = rw (some_injective h) (omega arith)
set-trues (c ∷ cs) (suc g) a b h = omega (arith, set-trues cs g a b h)

snoc-trues : (cs : List (Option Bool)) → trues (cs ++ none ∷ []) ≡ trues cs
snoc-trues [] = refl
snoc-trues (c ∷ cs) = omega (arith, snoc-trues cs)

-- Whether idloop has sent for a peer what it has yet to announce
abbrev pub unannounced : Idloop → ℕ → ℕ
unannounced idle p = 0
unannounced (sending q g done) p = 0
unannounced (announcing q) p = if q == p then 1 else 0

unannounced-ne : (i : Idloop) (p : ℕ) → i ≢ announcing p → unannounced i p ≡ 0
unannounced-ne idle p h = refl
unannounced-ne (sending q g done) p h = refl
unannounced-ne (announcing q) p h = elim (Bool-cases (q == p)) [
  | inl e ↦ let same : q ≡ p = ground arith in absurd (h (ap (λ r. announcing r) same))
  | inr e ↦ rw e refl
]

-- The connections that connloop counts for a peer are those that a handler will close.
abbrev Fits : (ℕ → ℕ) → Idloop → (ℕ → ℕ) → (ℕ → List (Option Bool)) → ℕ → Type 0
Fits n i closing chans p =
    (n p + unannounced i p ≡ closing p + trues (chans p)) × (unannounced i p ≤ trues (chans p))

sent-Fits :
    (n : ℕ → ℕ) (closing : ℕ → ℕ) (chans : ℕ → List (Option Bool)) (p g : ℕ) (done : Bool) (q : ℕ)
    → get_elem? (chans p) g ≡ some none
    → Fits n (sending p g done) closing chans q
    → Fits n
        (if done then announcing p else idle)
        closing
        (update chans p (set (chans p) g (some done)))
        q
sent-Fits n closing chans p g true q h f =
    let more = set-trues (chans p) g none (some true) h in
    elim (Bool-cases (p == q)) [
      | inl e ↦
          let same : p ≡ q = ground arith in
          let kept : trues (set (chans q) g (some true)) ≡ trues (chans q) + 1 =
            subst (λ r. trues (set (chans r) g (some true)) ≡ trues (chans r) + 1) same
              (omega (arith, more)) in
          rw (e, same) (omega (arith, kept), omega (arith, kept))
      | inr e ↦ rw e f
    ]
sent-Fits n closing chans p g false q h f =
    let more = set-trues (chans p) g none (some false) h in
    elim (Bool-cases (p == q)) [
      | inl e ↦
          let same : p ≡ q = ground arith in
          let kept : trues (set (chans q) g (some false)) ≡ trues (chans q) =
            subst (λ r. trues (set (chans r) g (some false)) ≡ trues (chans r)) same
              (omega (arith, more)) in
          rw (e, same, kept) f
      | inr e ↦ rw e f
    ]

received-Fits :
    (n : ℕ → ℕ) (i : Idloop) (closing : ℕ → ℕ) (chans : ℕ → List (Option Bool)) (p g : ℕ)
    (done : Bool) (q : ℕ)
    → unannounced i p ≡ 0
    → get_elem? (chans p) g ≡ some (some done)
    → Fits n i closing chans q
    → Fits n i
        (if done then update closing p (closing p + 1) else closing)
        (update chans p (set (chans p) g none))
        q
received-Fits n i closing chans p g true q calm h f =
    let less = set-trues (chans p) g (some true) none h in
    elim (Bool-cases (p == q)) [
      | inl e ↦
          let same : p ≡ q = ground arith in
          let kept : (trues (set (chans q) g none) + 1 ≡ trues (chans q)) × (unannounced i q ≡ 0) =
            subst
              (λ r. (trues (set (chans r) g none) + 1 ≡ trues (chans r)) × (unannounced i r ≡ 0))
              same (omega (arith, less), calm) in
          rw (e, same) (omega (arith, kept), omega (arith, kept))
      | inr e ↦ rw e f
    ]
received-Fits n i closing chans p g false q calm h f =
    let less = set-trues (chans p) g (some false) none h in
    elim (Bool-cases (p == q)) [
      | inl e ↦
          let same : p ≡ q = ground arith in
          let kept : trues (set (chans q) g none) ≡ trues (chans q) =
            subst (λ r. trues (set (chans r) g none) ≡ trues (chans r)) same
              (omega (arith, less)) in
          rw (e, same, kept) f
      | inr e ↦ rw e f
    ]

announced-Fits :
    (n m : ℕ → ℕ) (closing : ℕ → ℕ) (chans : ℕ → List (Option Bool)) (p q : ℕ)
    → m q ≡ update n p (n p + 1) q
    → Fits n (announcing p) closing chans q
    → Fits m idle closing chans q
announced-Fits n m closing chans p q e f = elim (Bool-cases (p == q)) [
  | inl s ↦
      let same : p ≡ q = ground arith in
      let more : m q ≡ n q + 1 = e ∙ rw (s, same) refl in
      let sent_one : unannounced (announcing p) q ≡ 1 = rw s refl in
      (omega (arith, more, sent_one), omega arith)
  | inr s ↦
      let none_more : m q ≡ n q = e ∙ rw s refl in
      let sent_none : unannounced (announcing p) q ≡ 0 = rw s refl in
      (omega (arith, none_more, sent_none), omega arith)
]

gone-Fits :
    (n m : ℕ → ℕ) (i : Idloop) (closing : ℕ → ℕ) (chans : ℕ → List (Option Bool)) (p q : ℕ)
    → 0 < closing p
    → m q ≡ update n p (n p - 1) q
    → Fits n i closing chans q
    → Fits m i (update closing p (closing p - 1)) chans q
gone-Fits n m i closing chans p q lt e f = elim (Bool-cases (p == q)) [
  | inl s ↦
      let same : p ≡ q = ground arith in
      let less : m q ≡ n q - 1 = e ∙ rw (s, same) refl in
      let some_left : 0 < closing q = subst (λ r. 0 < closing r) same lt in
      rw (s, same) (omega (arith, less, some_left), f.1)
  | inr s ↦ let none_less : m q ≡ n q = e ∙ rw s refl in rw (s, none_less) f
]

ensure-trues : (t : Tracker) (p q : ℕ) → trues ((ensure_chan t p).0.chans q) ≡ trues (t.chans q)
ensure-trues t p q = made (t.sync p)
  where
    made : (o : Option ℕ) → trues ((ensure_by o t p).0.chans q) ≡ trues (t.chans q)
    made (some g) = refl
    made none = elim (Bool-cases (p == q)) [
      | inl e ↦ let same : p ≡ q = ground arith in rw (e, same) (snoc-trues (t.chans q))
      | inr e ↦ rw e refl
    ]

-- ensureChan leaves the rest of the state.
pub ensure-rest :
    (t : Tracker) (p : ℕ)
    → ((ensure_chan t p).0.idloop ≡ t.idloop)
      × ((ensure_chan t p).0.closing ≡ t.closing)
      × ((ensure_chan t p).0.emitted ≡ t.emitted)
ensure-rest t p = made (t.sync p)
  where
    made :
        (o : Option ℕ)
        → ((ensure_by o t p).0.idloop ≡ t.idloop)
          × ((ensure_by o t p).0.closing ≡ t.closing)
          × ((ensure_by o t p).0.emitted ≡ t.emitted)
    made (some g) = (refl, refl, refl)
    made none = (refl, refl, refl)

module _ (answers : ℕ → Bool) where
  -- connloop does not panic on what has been emitted, and its counter fits the channels.
  abbrev IsBalanced : Tracker → Type 0
  IsBalanced t =
      Ensures (connloop no_counts t.emitted)
        (λ r. (p : ℕ) → answers p ≡ false → Fits (counts r.0) t.idloop t.closing t.chans p)

  -- No handler receives from the channel of a peer that idloop is about to announce, and isClient
  -- returns the answer of the peer.
  abbrev pub IsCalm : {t u : Tracker} → Step t u → Type 0
  IsCalm {t} (received p g done w h e) = t.idloop ≢ announcing p
  IsCalm (identified p done h e) = Unit
  IsCalm (sent p g done h f e) = Unit
  IsCalm (announced p client h k e) = client ≡ answers p
  IsCalm (disconnected p e) = Unit
  IsCalm (quit p g c w e) = Unit
  IsCalm (gone p client w k e) = client ≡ answers p
  IsCalm (told p o e) = Unit
  IsCalm (deleted p w e) = Unit
  IsCalm (stopped e) = Unit

  pub data CalmReach (s : Tracker) : Tracker → Type 0 where
    start : CalmReach s s
    later : {t u : Tracker} → CalmReach s t → (st : Step t u) → IsCalm st → CalmReach s u

  -- A client is no host.
  client_apart : (p q : ℕ) → answers p ≡ true → answers q ≡ false → (p == q) ≡ false
  client_apart p q h k = elim (Bool-cases (p == q)) [
    | inl e ↦ let same : p ≡ q = ground arith in absurd (true≢false (sym h ∙ ap answers same ∙ k))
    | inr e ↦ e
  ]

  announced_round :
      (ctr : Counts) (p : ℕ) (client : Bool)
      → client ≡ answers p
      → Ensures (round ctr (conn_event p opened client)) (λ s.
        (q : ℕ) → answers q ≡ false → counts s.0 q ≡ update (counts ctr) p (counts ctr p + 1) q)
  announced_round ctr p client same = rw same (elim (Bool-cases (answers p)) [
    | inl e ↦ (_, round-client ctr _ e, λ q h. rw (client_apart p q e h) refl)
    | inr e ↦ let (s, ran, more) = round-opened ctr p in rw e (s, ran, λ q h. more q)
  ])

  gone_round :
      (ctr : Counts) (p : ℕ) (client : Bool)
      → client ≡ answers p
      → (answers p ≡ false → 0 < counts ctr p)
      → Ensures (round ctr (conn_event p closed client)) (λ s.
        (q : ℕ) → answers q ≡ false → counts s.0 q ≡ update (counts ctr) p (counts ctr p - 1) q)
  gone_round ctr p client same lt = rw same (elim (Bool-cases (answers p)) [
    | inl e ↦ (_, round-client ctr _ e, λ q h. rw (client_apart p q e h) refl)
    | inr e ↦ let (s, ran, less) = round-closed ctr p (lt e) in rw e (s, ran, λ q h. less q)
  ])

  connloop_after :
      (evs : List ConnEvent) (ev : ConnEvent) (r : Counts × List Event) (Q : Counts → Type 0)
      → connloop no_counts evs ≡ ok r
      → Ensures (round r.0 ev) (λ s. Q s.0)
      → Ensures (connloop no_counts (evs ++ ev ∷ [])) (λ s. Q s.0)
  connloop_after evs ev r Q ran (s, went, q) =
      rw (connloop-snoc no_counts evs ev, ran, went) (_, refl, q)

  Step-IsBalanced : {t u : Tracker} (st : Step t u) → IsCalm st → IsBalanced t → IsBalanced u
  Step-IsBalanced {t} (identified p done h e) c (r, ran, fits) =
      let (waits, held, said) = ensure-rest t p in
      rw (e, said, held)
        (
          r,
          ran,
          λ q k.
              rw (ensure-trues t p q)
                (subst (λ i. Fits (counts r.0) i t.closing t.chans q) h (fits q k)),
        )
  Step-IsBalanced {t} (sent p g done h f e) c (r, ran, fits) = rw e (
    r,
    ran,
    λ q k.
        sent-Fits (counts r.0) t.closing t.chans p g done q f
          (subst (λ i. Fits (counts r.0) i t.closing t.chans q) h (fits q k)),
  )
  Step-IsBalanced {t} (announced p client h k e) c (r, ran, fits) = rw e (
      connloop_after t.emitted (conn_event p opened client) r
        (λ ctr. (q : ℕ) → answers q ≡ false → Fits (counts ctr) idle t.closing t.chans q) ran
        (let (s, went, more) = announced_round r.0 p client c in
          (
            s,
            went,
            λ q k.
                announced-Fits (counts r.0) (counts s.0) t.closing t.chans p q (more q k)
                  (subst (λ i. Fits (counts r.0) i t.closing t.chans q) h (fits q k)),
          )))
  Step-IsBalanced {t} (disconnected p e) c (r, ran, fits) =
      let (waits, held, said) = ensure-rest t p in
      rw (e, said, held, waits) (r, ran, λ q k. rw (ensure-trues t p q) (fits q k))
  Step-IsBalanced {t} (received p g done w h e) c (r, ran, fits) = rw e (
    r,
    ran,
    λ q k.
        received-Fits (counts r.0) t.idloop t.closing t.chans p g done q
          (unannounced-ne t.idloop p c) h (fits q k),
  )
  Step-IsBalanced {t} (quit p g c w e) k (r, ran, fits) = rw e (r, ran, fits)
  Step-IsBalanced {t} (gone p client w k e) c (r, ran, fits) = rw e (
      connloop_after t.emitted (conn_event p closed client) r
        (λ ctr.
          (q : ℕ)
          → answers q ≡ false
          → Fits (counts ctr) t.idloop (update t.closing p (t.closing p - 1)) t.chans q)
        ran
        (let (s, went, less) = gone_round r.0 p client c (λ k. omega (arith, w, fits p k)) in
          (
            s,
            went,
            λ q k.
                gone-Fits (counts r.0) (counts s.0) t.idloop t.closing t.chans p q w (less q k)
                  (fits q k),
          )))
  Step-IsBalanced {t} (deleted p w e) c (r, ran, fits) = rw e (r, ran, fits)
  Step-IsBalanced {t} (stopped e) c (r, ran, fits) = rw e (r, ran, fits)
  Step-IsBalanced {t} (told p o e) c (r, ran, fits) = rw e (r, ran, fits)

  calm-IsBalanced :
      (store : ℕ → Option Bool) {t : Tracker} → CalmReach (new_tracker store) t → IsBalanced t
  unfolding connloop
  calm-IsBalanced store start = (_, refl, λ p h. (omega arith, omega arith))
  calm-IsBalanced store (later r st c) = Step-IsBalanced st c (calm-IsBalanced store r)

  -- In every run of the tracker in which no handler receives from a channel of a peer while idloop
  -- is about to announce that peer, and isClient gives of each peer the same answer whenever it is
  -- called, connloop does not panic on what has been emitted. For each peer that is no client, the
  -- connections it then counts, and the one that idloop has yet to announce, are as many as the
  -- handlers that have yet to emit a close and the values `true` in the channels of the peer.
  pub calm-Succeeds :
      (store : ℕ → Option Bool) {t : Tracker}
      → CalmReach (new_tracker store) t
      → Ensures (connloop no_counts t.emitted) (λ r.
        (p : ℕ)
        → answers p ≡ false
        → counts r.0 p + unannounced t.idloop p ≡ t.closing p + trues (t.chans p))
  calm-Succeeds store c =
      let (r, ran, fits) = calm-IsBalanced store c in (r, ran, λ p h. (fits p h).0)
