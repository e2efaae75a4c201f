-- ===== src/PeerSet/Filter.antt =====
-- The type filter of pkg/cluster/peerset.go. Each use of the mutex is a step, so that the calls of
-- several goroutines interleave between them; times, peers and sequence numbers are natural numbers.
use ww.Prelude.{
  ℕ, zero, suc, ◌+◌, ◌<◌, ◌≡◌, ◌||◌, Bool, true, false, if◌then◌else◌, ltb, leb, Option, none, some,
  Result, ok, fail, out_of_fuel, update,
}
use ww.PeerSet.Treap.{Entry, Treap}

-- The comparison of Upsert: the value that is there is less than the sequence number
abbrev pub newer : ℕ → ℕ → Bool
newer seq value = ltb value seq

-- What the closure of Upsert leaves in `ok`: it is called for an entry that is there.
abbrev pub ok_after : Option Entry → ℕ → Bool → Bool
ok_after none seq ok_before = ok_before
ok_after (some e) seq ok_before = newer seq e.seq

-- expired, of a root that is no nil
abbrev pub expired : ℕ → Entry → Bool
expired t e = leb e.expiry t

module _ {T : Type 0} (h : Treap T) where
  -- Contains
  abbrev pub contains : T → ℕ → Bool
  contains n id = elim (h.get n id) [ none ↦ false | some e ↦ true ]

  -- The loop of Advance that pops expired entries, with fuel for the size of the map
  abbrev pub pop_by : Option Entry → (T → Result T) → ℕ → T → Result T
  pop_by none again t n = ok n
  pop_by (some e) again t n = if expired t e then again (h.merge n) else ok n

  unfoldable pub pop_expired : ℕ → ℕ → T → Result T
  pop_expired zero t n = fail out_of_fuel
  pop_expired (suc fuel) t n = pop_by (h.root n) (pop_expired fuel t) t n

  -- The map that Upsert computes from the one it has read, at a time of expiry
  unfoldable pub upserted : T → ℕ → ℕ → ℕ → T
  upserted old id seq expiry =
      (h.upsert_if old (record { id = id; seq = seq; expiry = expiry }) (newer seq)).0

  -- What Upsert returns, when it has swapped
  unfoldable pub returns : T → ℕ → ℕ → ℕ → Bool → Bool
  returns old id seq expiry ok_before =
      ok_after (h.get old id) seq ok_before
      || (h.upsert_if old (record { id = id; seq = seq; expiry = expiry }) (newer seq)).1

-- A goroutine: between its calls; in Upsert, before it reads the root, before it reads the time, and
-- before it swaps; in Advance, before it reads the root and before it swaps.
pub data Goroutine (T : Type 0) : Type 0 where
  idle : Goroutine T
  upserting : (id seq ttl : ℕ) (ok_before : Bool) → Goroutine T
  has_root : (id seq ttl : ℕ) (ok_before : Bool) (old : T) → Goroutine T
  swapping : (id seq ttl expiry : ℕ) (ok_before : Bool) (old : T) → Goroutine T
  returned : (processed : Bool) → Goroutine T
  advancing : (t : ℕ) → Goroutine T
  popping : (t : ℕ) (old : T) → Goroutine T

-- filter, with the goroutines that call it
pub record Filter (T : Type 0) : Type 0 where
  pub time : ℕ
  pub root : T
  pub goroutine : ℕ → Goroutine T

module _ {T : Type 0} where
  abbrev pub set_goroutine : Filter T → ℕ → Goroutine T → Filter T
  set_goroutine f i g = record f { goroutine = update f.goroutine i g }

  abbrev pub set_root : Filter T → T → Filter T
  set_root f n = record f { root = n }

module _ {T : Type 0} (h : Treap T) where
  pub data Step (f g : Filter T) : Type 0 where
    upsert :
        (i id seq ttl : ℕ)
        → f.goroutine i ≡ idle
        → g ≡ set_goroutine f i (upserting id seq ttl false)
        → Step f g
    read_root :
        (i id seq ttl : ℕ) (ok_before : Bool)
        → f.goroutine i ≡ upserting id seq ttl ok_before
        → g ≡ set_goroutine f i (has_root id seq ttl ok_before f.root)
        → Step f g
    read_time :
        (i id seq ttl : ℕ) (ok_before : Bool) (old : T)
        → f.goroutine i ≡ has_root id seq ttl ok_before old
        → g ≡ set_goroutine f i (swapping id seq ttl (f.time + ttl) ok_before old)
        → Step f g
    swapped :
        (i id seq ttl expiry : ℕ) (ok_before : Bool) (old : T)
        → f.goroutine i ≡ swapping id seq ttl expiry ok_before old
        → h.same old f.root ≡ true
        → g
          ≡ set_goroutine
              (set_root f (upserted h old id seq expiry))
              i
              (returned (returns h old id seq expiry ok_before))
        → Step f g
    upsert_again :
        (i id seq ttl expiry : ℕ) (ok_before : Bool) (old : T)
        → f.goroutine i ≡ swapping id seq ttl expiry ok_before old
        → h.same old f.root ≡ false
        → g ≡ set_goroutine f i (upserting id seq ttl (ok_after (h.get old id) seq ok_before))
        → Step f g
    done : (i : ℕ) (b : Bool) → f.goroutine i ≡ returned b → g ≡ set_goroutine f i idle → Step f g
    advance :
        (i t : ℕ)
        → f.goroutine i ≡ idle
        → f.time < t
        → g ≡ set_goroutine (record f { time = t }) i (advancing t)
        → Step f g
    empty :
        (i t : ℕ)
        → f.goroutine i ≡ advancing t
        → h.root f.root ≡ none
        → g ≡ set_goroutine f i idle
        → Step f g
    read_old :
        (i t : ℕ) (e : Entry)
        → f.goroutine i ≡ advancing t
        → h.root f.root ≡ some e
        → g ≡ set_goroutine f i (popping t f.root)
        → Step f g
    popped :
        (i t fuel : ℕ) (old new : T)
        → f.goroutine i ≡ popping t old
        → pop_expired h fuel t old ≡ ok new
        → h.same old f.root ≡ true
        → g ≡ set_goroutine (set_root f new) i idle
        → Step f g
    pop_again :
        (i t : ℕ) (old : T)
        → f.goroutine i ≡ popping t old
        → h.same old f.root ≡ false
        → g ≡ set_goroutine f i (advancing t)
        → Step f g
