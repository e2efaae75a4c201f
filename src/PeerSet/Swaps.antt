-- ===== src/PeerSet/Swaps.antt =====
-- The calls of pkg/cluster/peerset.go as atomic changes of a map from peers to entries.
use ww.Prelude.{
  ℕ, ◌≢◌, ltb, ◌≤◌, ◌≡◌, ◌∙◌, refl, sym, ap, subst, arith, ◌==◌, ◌||◌, ◌⊎◌, Bool, true, false,
  Bool-cases, inl, inr, if◌then◌else◌, leb, ltb→lt, Option, none, some, some_injective, WhenOk,
  update,
}
use ww.PeerSet.Treap.{Entry, Treap, Laws}
use ww.PeerSet.Filter.{
  Goroutine, idle, swapping, advancing, popping, set_goroutine, newer, upserted, returns, returned,
  Filter, Step, upsert, read_root, read_time, swapped, upsert_again, done, advance, empty, read_old,
  popped, pop_again,
}
use ww.PeerSet.Expiry.{unexpired, Leaves, pop-Leaves}

-- Whether a message is to be processed: its peer is not known, or its sequence number is new.
abbrev pub accepts : Option Entry → ℕ → Bool
accepts none seq = true
accepts (some e) seq = ltb e.seq seq

-- The map after a message
abbrev pub noted : (ℕ → Option Entry) → Entry → ℕ → Option Entry
noted m e k = if e.id == k then (if accepts (m e.id) e.seq then some e else m e.id) else m k

or_true : (b : Bool) → (b || true) ≡ true
or_true true = refl
or_true false = refl

or_false : (b : Bool) → (b || false) ≡ b
or_false true = refl
or_false false = refl

-- What a message leaves of a peer that was known: the entry that was there, or a newer one.
noted-grows :
    (m : ℕ → Option Entry) (e a b : Entry) (k : ℕ)
    → m k ≡ some a
    → noted m e k ≡ some b
    → a.seq ≤ b.seq
noted-grows m e a b k before after = elim (Bool-cases (e.id == k)) [
  | inl s ↦
      let same : e.id ≡ k = ground arith in
      let at_id : m e.id ≡ some a = ap m same ∙ before in
      let stored : (if ltb a.seq e.seq then some e else some a) ≡ some b =
        subst (λ o. (if accepts o e.seq then some e else o) ≡ some b) at_id
          (subst
            (λ c. (if c then if accepts (m e.id) e.seq then some e else m e.id else m k) ≡ some b) s
            after) in
      either e a b stored (Bool-cases (ltb a.seq e.seq))
  | inr s ↦
      let kept : m k ≡ some b =
        subst (λ c. (if c then if accepts (m e.id) e.seq then some e else m e.id else m k) ≡ some b)
          s after in
      let same : a ≡ b = some_injective (sym before ∙ kept) in omega (arith, ap (λ x. x.seq) same)
]
  where
    either :
        (e a b : Entry)
        → (if ltb a.seq e.seq then some e else some a) ≡ some b
        → (ltb a.seq e.seq ≡ true) ⊎ (ltb a.seq e.seq ≡ false)
        → a.seq ≤ b.seq
    either e a b stored (inl n) =
        let same : e ≡ b =
          some_injective (subst (λ c. (if c then some e else some a) ≡ some b) n stored) in
        omega (arith, ltb→lt a.seq e.seq n, ap (λ x. x.seq) same)
    either e a b stored (inr n) =
        let same : a ≡ b =
          some_injective (subst (λ c. (if c then some e else some a) ≡ some b) n stored) in
        omega (arith, ap (λ x. x.seq) same)

unexpired-same : (t : ℕ) (a b : Entry) → unexpired t (some a) ≡ some b → a ≡ b
unexpired-same t a b h = elim (Bool-cases (leb a.expiry t)) [
  | inl e ↦ let gone : none ≡ some b = subst (λ c. (if c then none else some a) ≡ some b) e h in cc
  | inr e ↦ some_injective (subst (λ c. (if c then none else some a) ≡ some b) e h)
]

module _ {T : Type 0} (h : Treap T) (laws : Laws h) where
  upserted-noted :
      (old : T) (id seq expiry k : ℕ) (o : Option Entry)
      → h.get old id ≡ o
      → h.get (upserted h old id seq expiry) k
        ≡ noted (h.get old) (record { id = id; seq = seq; expiry = expiry }) k
  unfolding upserted
  upserted-noted old id seq expiry k none g =
      rw
        (
          g,
          (laws.upsert_created old (record { id = id; seq = seq; expiry = expiry }) (newer seq) g).1
              k,
        )
        refl
  upserted-noted old id seq expiry k (some e) g =
      rw
        (
          g,
          (laws.upsert_there old (record { id = id; seq = seq; expiry = expiry }) e (newer seq) g).1
              k,
        )
        refl

  -- Upsert returns whether the message is to be processed, whatever an earlier round has left in `ok`.
  returns-accepts :
      (old : T) (id seq expiry : ℕ) (ok_before : Bool) (o : Option Entry)
      → h.get old id ≡ o
      → returns h old id seq expiry ok_before ≡ accepts o seq
  unfolding returns
  returns-accepts old id seq expiry ok_before none g =
      rw
        (
          g,
          (laws.upsert_created old (record { id = id; seq = seq; expiry = expiry }) (newer seq)
              g).0,
        )
        (or_true ok_before)
  returns-accepts old id seq expiry ok_before (some e) g =
      rw
        (
          g,
          (laws.upsert_there old (record { id = id; seq = seq; expiry = expiry }) e (newer seq)
              g).0,
        )
        (or_false (newer seq e.seq))

  -- No goroutine has come to return from Upsert.
  abbrev pub NoneReturns : Filter T → Filter T → Type 0
  NoneReturns f g = (j : ℕ) (b : Bool) → g.goroutine j ≡ returned b → f.goroutine j ≡ returned b

  -- Goroutine `i`, whose Upsert is about to swap, returns whether its message is to be processed, and
  -- the map takes the message.
  abbrev pub Upserts : Filter T → Filter T → ℕ → Type 0
  Upserts f g i =
      (id : ℕ) × (seq : ℕ) × (ttl : ℕ) × (expiry : ℕ) × (before : Bool) × (old : T) × (f.goroutine i
        ≡ swapping id seq ttl expiry before old)
      × (g.goroutine ≡ update f.goroutine i (returned (accepts (h.get f.root id) seq)))
      × ((k : ℕ)
          → h.get g.root k
            ≡ noted (h.get f.root) (record { id = id; seq = seq; expiry = expiry }) k)

  -- Goroutine `i`, whose Advance to a time is about to swap, is done, and the map has lost what has
  -- expired at that time.
  abbrev pub Expires : Filter T → Filter T → ℕ → Type 0
  Expires f g i =
      (t : ℕ) × (old : T) × (f.goroutine i ≡ popping t old)
      × (g.goroutine ≡ update f.goroutine i idle)
      × ((k : ℕ) → h.get g.root k ≡ unexpired t (h.get f.root k))

  -- A step of the goroutines, on the map from peers to entries
  abbrev pub Atomic : Filter T → Filter T → Type 0
  Atomic f g =
      (((k : ℕ) → h.get g.root k ≡ h.get f.root k) × NoneReturns f g)
      ⊎ (((i : ℕ) × Upserts f g i) ⊎ ((i : ℕ) × Expires f g i))

  quiet :
      (f : Filter T) (i : ℕ) (s : Goroutine T)
      → ((b : Bool) → s ≢ returned b)
      → (j : ℕ) (b : Bool) → update f.goroutine i s j ≡ returned b
      → f.goroutine j ≡ returned b
  quiet f i s other j b = elim (Bool-cases (i == j)) [
    | inl e ↦ rw e (λ r. absurd (other b r))
    | inr e ↦ rw e (λ r. r)
  ]

  -- A step that leaves the root, and goroutine `i` elsewhere than at the return of an Upsert
  kept :
      (f g m : Filter T) (i : ℕ) (s : Goroutine T)
      → m.root ≡ f.root
      → m.goroutine ≡ f.goroutine
      → ((b : Bool) → s ≢ returned b)
      → g ≡ set_goroutine m i s
      → Atomic f g
  kept f g m i s root same other e =
      rw e (inl ((λ k. ap (λ n. h.get n k) root), λ j b. rw same (quiet f i s other j b)))

  -- For every treap that obeys its laws, each step of the goroutines that call Upsert and Advance
  -- changes the map from peers to entries in one of three ways: not at all, and then no Upsert
  -- comes to return; by the message of an Upsert, taken into the map as it stands at that moment,
  -- and then this Upsert returns whether the peer was not known or the sequence number is new; or
  -- by the expiry, at the time of an Advance, of the map as it stands, and then this Advance is
  -- done.
  pub Step-Atomic : {f g : Filter T} → Step h f g → Atomic f g
  Step-Atomic {f} {g} (upsert i id seq ttl at e) = kept f g f i _ refl refl (λ b r. cc) e
  Step-Atomic {f} {g} (read_root i id seq ttl b at e) = kept f g f i _ refl refl (λ b r. cc) e
  Step-Atomic {f} {g} (read_time i id seq ttl b old at e) = kept f g f i _ refl refl (λ b r. cc) e
  Step-Atomic {f} (swapped i id seq ttl expiry b old at same e) =
      let there : old ≡ f.root = laws.same_eq old f.root same in
      let said = returns-accepts old id seq expiry b (h.get old id) refl in
      rw e (
        inr (
          inl (
            i,
            (
              id,
              seq,
              ttl,
              expiry,
              b,
              old,
              at,
              ap (λ r. update f.goroutine i (returned r))
                  (said ∙ ap (λ n. accepts (h.get n id) seq) there),
              λ k.
                  upserted-noted old id seq expiry k (h.get old id) refl
                  ∙ ap (λ n. noted (h.get n) (record { id = id; seq = seq; expiry = expiry }) k)
                      there,
            ),
          )))
  Step-Atomic {f} {g} (upsert_again i id seq ttl expiry b old at same e) =
      kept f g f i _ refl refl (λ b r. cc) e
  Step-Atomic {f} {g} (done i b at e) = kept f g f i idle refl refl (λ b r. cc) e
  Step-Atomic {f} {g} (advance i t at lt e) =
      kept f g (record f { time = t }) i (advancing t) refl refl (λ b r. cc) e
  Step-Atomic {f} {g} (empty i t at top e) = kept f g f i idle refl refl (λ b r. cc) e
  Step-Atomic {f} {g} (read_old i t top at r e) = kept f g f i _ refl refl (λ b r. cc) e
  Step-Atomic {f} (popped i t fuel old new at ran same e) =
      let there : old ≡ f.root = laws.same_eq old f.root same in
      let left : Leaves h laws t old new =
        subst (λ r. WhenOk r (Leaves h laws t old)) ran (pop-Leaves h laws fuel t old) in
      rw e
        (inr (inr (i, (t, old, at, refl, λ k. left k ∙ ap (λ n. unexpired t (h.get n k)) there))))
  Step-Atomic {f} {g} (pop_again i t old at same e) = kept f g f i _ refl refl (λ b r. cc) e

  Atomic-grows :
      (f g : Filter T) (k : ℕ) (a b : Entry)
      → Atomic f g
      → h.get f.root k ≡ some a
      → h.get g.root k ≡ some b
      → a.seq ≤ b.seq
  Atomic-grows f g k a b (inl (same, _)) before after =
      let one : a ≡ b = some_injective (sym before ∙ sym (same k) ∙ after) in
      omega (arith, ap (λ x. x.seq) one)
  Atomic-grows f g k a b (inr (inl (i, (id, seq, ttl, expiry, b', old, at, went, now)))) before
        after =
      noted-grows (h.get f.root) (record { id = id; seq = seq; expiry = expiry }) a b k before
        (sym (now k) ∙ after)
  Atomic-grows f g k a b (inr (inr (i, (t, old, at, went, left)))) before after =
      let kept : unexpired t (some a) ≡ some b =
        ap (λ o. unexpired t o) (sym before) ∙ sym (left k) ∙ after in
      omega (arith, ap (λ x. x.seq) (unexpired-same t a b kept))

  -- For every treap that obeys its laws, no step of the goroutines makes the sequence number of a
  -- peer smaller, if the peer is in the set before and after it.
  pub Step-grows :
      {f g : Filter T} (k : ℕ) (a b : Entry)
      → Step h f g
      → h.get f.root k ≡ some a
      → h.get g.root k ≡ some b
      → a.seq ≤ b.seq
  Step-grows {f} {g} k a b st before after = Atomic-grows f g k a b (Step-Atomic st) before after
