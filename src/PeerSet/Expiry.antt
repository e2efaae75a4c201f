-- ===== src/PeerSet/Expiry.antt =====
-- What Advance of pkg/cluster/peerset.go leaves of the set.
use ww.Prelude.{
  ℕ, zero, suc, ◌<◌, ◌≡◌, ◌∙◌, refl, subst, arith, ◌==◌, true, Bool-cases, inl, inr, if◌then◌else◌,
  leb, le→leb, lt→leb, Option, none, some, Ensures, Succeeds, WhenOk, WhenOk-map,
}
use native.Mathlib.Decide.{dec_le}
use ww.PeerSet.Treap.{Entry, Treap, Laws}
use ww.PeerSet.Filter.{pop_by, pop_expired}

-- The entry, if it has not expired
abbrev pub unexpired : ℕ → Option Entry → Option Entry
unexpired t none = none
unexpired t (some e) = if leb e.expiry t then none else some e

module _ {T : Type 0} (h : Treap T) (laws : Laws h) where
  -- A popped root leaves the same unexpired entries.
  merge-unexpired :
      (t : ℕ) (n : T) (e : Entry) (k : ℕ)
      → h.root n ≡ some e
      → leb e.expiry t ≡ true
      → unexpired t (h.get (h.merge n) k) ≡ unexpired t (h.get n k)
  merge-unexpired t n e k top old = rw (laws.merge_get n e k top) (elim (Bool-cases (e.id == k)) [
    | inl s ↦
        let same : e.id ≡ k = ground arith in
        let there : h.get n k ≡ some e =
          subst (λ j. h.get n j ≡ some e) same (laws.root_get n e top) in
        rw (s, there, old) refl
    | inr s ↦ rw s refl
  ])

  -- If the root has not expired, no entry has.
  root-unexpired :
      (t : ℕ) (n : T) (e : Entry)
      → h.root n ≡ some e
      → t < e.expiry
      → (k : ℕ) (o : Option Entry) → h.get n k ≡ o
      → o ≡ unexpired t o
  root-unexpired t n e top late k none g = refl
  root-unexpired t n e top late k (some f) g =
      let least = laws.root_least n e f k top g in rw (lt→leb f.expiry t (omega arith)) refl

  -- The entries of the map are those of another that have not expired.
  abbrev pub Leaves : ℕ → T → T → Type 0
  Leaves t n m = (k : ℕ) → h.get m k ≡ unexpired t (h.get n k)

  pop_by-Leaves :
      (fuel t : ℕ) (n : T) (o : Option Entry)
      → h.root n ≡ o
      → WhenOk (pop_expired h fuel t (h.merge n)) (Leaves t (h.merge n))
      → WhenOk (pop_by h o (pop_expired h fuel t) t n) (Leaves t n)
  pop_by-Leaves fuel t n none top rest = λ k. rw (laws.root_none n k top) refl
  pop_by-Leaves fuel t n (some e) top rest = elim (dec_le e.expiry t) [
    | yes le ↦
        let old = le→leb e.expiry t le in
        rw old (
          WhenOk-map (pop_expired h fuel t (h.merge n)) (Leaves t (h.merge n)) (Leaves t n) rest
            (λ m left k. left k ∙ merge-unexpired t n e k top old))
    | no gt ↦
        rw (lt→leb e.expiry t (omega arith))
          (λ k. root-unexpired t n e top (omega arith) k (h.get n k) refl)
  ]

  pub pop-Leaves : (fuel t : ℕ) (n : T) → WhenOk (pop_expired h fuel t n) (Leaves t n)
  unfolding pop_expired
  pop-Leaves zero t n = tt
  pop-Leaves (suc fuel) t n = pop_by-Leaves fuel t n (h.root n) refl (pop-Leaves fuel t (h.merge n))

  pop_by-Succeeds :
      (fuel t : ℕ) (n : T) (o : Option Entry)
      → h.root n ≡ o
      → h.size n < suc fuel
      → (h.size (h.merge n) < fuel → Succeeds (pop_expired h fuel t (h.merge n)))
      → Succeeds (pop_by h o (pop_expired h fuel t) t n)
  pop_by-Succeeds fuel t n none top enough rest = (n, refl)
  pop_by-Succeeds fuel t n (some e) top enough rest = elim (Bool-cases (leb e.expiry t)) [
    | inl old ↦ rw old (rest (omega (arith, laws.merge_size n e top)))
    | inr late ↦ rw late (n, refl)
  ]

  pop-Succeeds : (fuel t : ℕ) (n : T) → h.size n < fuel → Succeeds (pop_expired h fuel t n)
  unfolding pop_expired
  pop-Succeeds zero t n enough = absurd (omega (arith, enough))
  pop-Succeeds (suc fuel) t n enough =
      pop_by-Succeeds fuel t n (h.root n) refl enough (pop-Succeeds fuel t (h.merge n))

  -- For every treap that obeys its laws, the loop of Advance ends, with fuel of more than the size
  -- of the map, and leaves of each peer the entry that there was if its time of expiry is later,
  -- and no entry otherwise.
  pub pop-Expires :
      (t fuel : ℕ) (n : T)
      → h.size n < fuel
      → Ensures (pop_expired h fuel t n) (λ m. (k : ℕ) → h.get m k ≡ unexpired t (h.get n k))
  pop-Expires t fuel n enough =
      let (m, ran) = pop-Succeeds fuel t n enough in
      (m, ran, subst (λ r. WhenOk r (Leaves t n)) ran (pop-Leaves fuel t n))
