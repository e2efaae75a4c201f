-- ===== src/Tracker/Hazards.antt =====
-- What goes wrong between idloop and onDisconnected of pkg/runtime/svc/tracker/tracker.go.
use ww.Prelude.{
  ℕ, ◌≡◌, ◌∙◌, refl, sym, ap, arith, ◌==◌, Bool, true, false, inl, inr, List, [], ◌∷◌, Option, none,
  some, some_injective, fail, panic, get_elem?, update, eq_self, Bool-cases, ◌+◌, ◌⊎◌,
  get_elem?-append_left, get_elem?-set, get_elem?-lt,
}
use ww.Tracker.Counter.{connloop, no_counts, round, change, rm}
use ww.Tracker.Balance.{ensure-rest, CalmReach}
use ww.Tracker.Channels.{
  sending, Tracker, ensure_by, ensure_chan, identify, send, disconnect, receive, announce, close,
  Step, identified, sent, announced, disconnected, received, quit, gone, deleted, stopped, told,
  Reach, start, later, new_tracker,
}

-- ensureChan, if the map has a channel
disconnect-there :
    (t : Tracker) (p g : ℕ)
    → t.sync p ≡ some g
    → record t { waiting = update t.waiting p (update (t.waiting p) g (t.waiting p g + 1)) }
      ≡ disconnect t p
disconnect-there t p g h = rw h refl

ensure-kept :
    (t : Tracker) (q p g : ℕ) (x : Option Bool)
    → get_elem? (t.chans p) g ≡ some x
    → get_elem? ((ensure_chan t q).0.chans p) g ≡ some x
ensure-kept t q p g x h = made (t.sync q)
  where
    made : (o : Option ℕ) → get_elem? ((ensure_by o t q).0.chans p) g ≡ some x
    made (some k) = h
    made none = elim (Bool-cases (q == p)) [
      | inl e ↦
          let same : q ≡ p = ground arith in
          rw (e, same) (get_elem?-append_left (t.chans p) (none ∷ []) g x h)
      | inr e ↦ rw e h
    ]

-- The channel that idloop sends to is empty when it has sent.
sent_apart :
    (p g q k : ℕ) (done s held : Bool) (chans : ℕ → List (Option Bool))
    → sending p g done ≡ sending q k s
    → get_elem? (chans p) g ≡ some (some held)
    → get_elem? (chans q) k ≡ some none
    → ⊥
sent_apart p g q k done s held chans same full empty =
    let peers : p ≡ q = cc in let places : g ≡ k = cc in cc

-- idloop waits to send to a channel that is full.
abbrev pub IsBlocked : Tracker → ℕ → ℕ → Bool → Bool → Type 0
IsBlocked t p g done held =
    (t.idloop ≡ sending p g done) × (get_elem? (t.chans p) g ≡ some (some held))

module _ (store : ℕ → Option Bool) where
  -- The trackers on the way to a close that overtakes an opening
  abbrev before : ℕ → Tracker
  before p = send (identify (new_tracker store) p true) p 0 true

  abbrev waits : ℕ → Tracker
  waits p = record (before p) { waiting = update (λ _ _. 0) p (update (λ _. 0) 0 1) }

  abbrev overtaken : ℕ → Tracker
  overtaken p = close (receive (waits p) p 0 true) p false

  overtaken-Reach : (p : ℕ) → store p ≡ some false → Reach (new_tracker store) (overtaken p)
  overtaken-Reach p host =
      let identifies : Step (new_tracker store) (identify (new_tracker store) p true) =
        identified p true refl refl in
      let sends : Step (identify (new_tracker store) p true) (before p) =
        sent p 0 true refl (rw (eq_self p) refl) refl in
      let disconnects : Step (before p) (waits p) =
        disconnected p (disconnect-there (before p) p 0 (rw (eq_self p) refl)) in
      let receives : Step (waits p) (receive (waits p) p 0 true) =
        received p 0 true (rw (eq_self p) (omega arith)) (rw (eq_self p) refl) refl in
      let closes : Step (receive (waits p) p 0 true) (overtaken p) =
        gone p false (rw (eq_self p) (omega arith)) host refl in
      later (later (later (later (later start identifies) sends) disconnects) receives) closes

  -- For every peer that the peerstore says is no client, the new tracker has a run, without the
  -- restriction of calm runs, after which connloop panics on what has been emitted.
  pub overtaking-panics :
      (p : ℕ)
      → store p ≡ some false
      → (t : Tracker) × Reach (new_tracker store) t × (connloop no_counts t.emitted ≡ fail panic)
  unfolding connloop round change rm
  overtaking-panics p host = (overtaken p, overtaken-Reach p host, refl)

module _ (store : ℕ → Option Bool) where
  -- A client that is announced, and a host with its data when it is gone
  abbrev as_client : ℕ → Tracker
  as_client p = announce (send (identify (new_tracker store) p true) p 0 true) p true

  abbrev as_host : ℕ → Tracker
  as_host p = record (as_client p) { client = update store p (some false) }

  abbrev left : ℕ → Tracker
  left p = record (as_host p) { waiting = update (λ _ _. 0) p (update (λ _. 0) 0 1) }

  abbrev unknown : ℕ → Tracker
  unknown p = close (receive (left p) p 0 true) p false

  as_client-CalmReach :
      (p : ℕ) → store p ≡ some true → CalmReach (λ _. true) (new_tracker store) (as_client p)
  as_client-CalmReach p client =
      let asked = identify (new_tracker store) p true in
      let sends : Step asked (send asked p 0 true) =
        sent p 0 true refl (rw (eq_self p) refl) refl in
      CalmReach.later
        (CalmReach.later (CalmReach.later CalmReach.start (identified p true refl refl) tt) sends
          tt)
        (announced p true refl client refl) refl

  unknown-CalmReach : (p : ℕ) → CalmReach (λ _. false) (as_host p) (unknown p)
  unknown-CalmReach p =
      let disconnects : Step (as_host p) (left p) =
        disconnected p (disconnect-there (as_host p) p 0 (rw (eq_self p) refl)) in
      let receives : Step (left p) (receive (left p) p 0 true) =
        received p 0 true (rw (eq_self p) (omega arith)) (rw (eq_self p) refl) refl in
      let closes : Step (receive (left p) p 0 true) (unknown p) =
        gone p false (rw (eq_self p) (omega arith)) (rw (eq_self p) refl) refl in
      CalmReach.later
        (CalmReach.later (CalmReach.later CalmReach.start disconnects tt) receives (λ e. cc)) closes
        refl

  -- For every peer that the peerstore says is a client, there is a run of the tracker, with a
  -- change of the peer in the peerstore to no client between two parts, after which connloop panics
  -- on what has been emitted. In neither part does a handler receive from a channel of a peer while
  -- idloop is about to announce that peer; isClient answers true whenever it is called in the first
  -- part, and false in the second.
  pub client_change-panics :
      (p : ℕ)
      → store p ≡ some true
      → (t : Tracker) × (u : Tracker) × CalmReach (λ _. true) (new_tracker store) t
        × CalmReach (λ _. false) (record t { client = update t.client p (some false) }) u
        × (connloop no_counts u.emitted ≡ fail panic)
  unfolding connloop round change rm
  client_change-panics p client =
      (as_client p, unknown p, as_client-CalmReach p client, unknown-CalmReach p, refl)

-- While idloop waits to send to a channel that is full, every step either leaves it waiting there,
-- with the channel full, or is a receive from that channel.
pub full-blocks :
    {t u : Tracker} (p g : ℕ) (done held : Bool)
    → IsBlocked t p g done held
    → Step t u
    → IsBlocked u p g done held ⊎ (u ≡ receive t p g held)
full-blocks p g done held b (identified q s h e) = cc
full-blocks {t} {u} p g done held b (sent q k s h f e) =
    absurd (sent_apart p g q k done s held (t.chans) (sym b.0 ∙ h) b.1 f)
full-blocks p g done held b (announced q client h k e) = cc
full-blocks {t} p g done held b (disconnected q e) =
    let (waits, held, said) = ensure-rest t q in
    inl (rw (e, waits) (b.0, ensure-kept t q p g _ b.1))
full-blocks {t} p g done held b (received q k s w h e) = elim (Bool-cases (q == p)) [
  | inl x ↦
      let peers : q ≡ p = ground arith in
      elim (Bool-cases (k == g)) [
        | inl y ↦
            let places : k ≡ g = ground arith in
            let contents : s ≡ held = some_injective (
              some_injective (
                sym h
                ∙ ap (λ a. get_elem? (t.chans a) k) peers
                ∙ ap (λ a. get_elem? (t.chans p) a) places
                ∙ b.1)) in
            inr (
              e
              ∙ ap (λ a. receive t a k s) peers
              ∙ ap (λ a. receive t p a s) places
              ∙ ap (λ a. receive t p g a) contents)
        | inr y ↦
            let other_place = get_elem?-set (t.chans q) k g none (get_elem?-lt (t.chans q) k _ h) in
            inl (rw e (b.0, rw (x, other_place, y, peers) b.1))
      ]
  | inr x ↦ inl (rw e (b.0, rw x b.1))
]
full-blocks p g done held b (quit q k c w e) = inl (rw e b)
full-blocks p g done held b (gone q client w k e) = inl (rw e b)
full-blocks p g done held b (deleted q w e) = inl (rw e b)
full-blocks p g done held b (stopped e) = inl (rw e b)
full-blocks p g done held b (told q o e) = inl (rw e b)
