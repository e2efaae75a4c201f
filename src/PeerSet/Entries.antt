-- ===== src/PeerSet/Entries.antt =====
-- The treap that pkg/cluster/peerset.go needs, as a list of entries of which the first for a key counts.
use mathlib.Core.Bool.{true≢false}
use ww.Prelude.{
  ℕ, ◌≤◌, ◌<◌, ◌≡◌, ◌∙◌, refl, sym, ap, subst, arith, ◌==◌, Bool, true, false, Bool-cases, inl, inr,
  if◌then◌else◌, leb, le→leb, lt→leb, ◌&&◌, eq_self, List, [], ◌∷◌, length, Option, none, some,
  some_injective,
}
use native.Mathlib.Decide.{dec_le}
use ww.PeerSet.Treap.{Entry, Treap, Laws}

abbrev pub lookup : List Entry → ℕ → Option Entry
lookup [] k = none
lookup (e ∷ es) k = if e.id == k then some e else lookup es k

-- All but the entries of a key
abbrev pub without : ℕ → List Entry → List Entry
without k [] = []
without k (e ∷ es) = if e.id == k then without k es else e ∷ without k es

lookup-without :
    (k j : ℕ) (es : List Entry) → lookup (without k es) j ≡ (if k == j then none else lookup es j)
lookup-without k j [] = elim (Bool-cases (k == j)) [ inl e ↦ rw e refl | inr e ↦ rw e refl ]
lookup-without k j (e ∷ es) = ground (arith, lookup-without k j es)

-- The entries that count
abbrev pub current : List Entry → List Entry
current [] = []
current (e ∷ es) = e ∷ without e.id (current es)

lookup-current : (es : List Entry) (k : ℕ) → lookup (current es) k ≡ lookup es k
lookup-current [] k = refl
lookup-current (e ∷ es) k = elim (Bool-cases (e.id == k)) [
  | inl s ↦ rw s refl
  | inr s ↦ rw s (lookup-without e.id k (current es) ∙ rw s (lookup-current es k))
]

abbrev pub sooner : Entry → Option Entry → Entry
sooner e none = e
sooner e (some f) = if leb e.expiry f.expiry then e else f

-- The entry with the least weight
abbrev pub least : List Entry → Option Entry
least [] = none
least (e ∷ es) = some (sooner e (least es))

-- Each entry is the one that counts for its key.
abbrev AllFound : List Entry → List Entry → Type 0
AllFound es [] = Unit
AllFound es (c ∷ cs) = (lookup es c.id ≡ some c) × AllFound es cs

AllFound-cons :
    (e : Entry) (es cs : List Entry) → AllFound es cs → AllFound (e ∷ es) (without e.id cs)
AllFound-cons e es [] h = tt
AllFound-cons e es (c ∷ cs) (found, h) = elim (Bool-cases (c.id == e.id)) [
  | inl s ↦ rw s (AllFound-cons e es cs h)
  | inr s ↦
      let apart : (e.id == c.id) ≡ false = ground arith in
      rw s (rw apart found, AllFound-cons e es cs h)
]

current-AllFound : (es : List Entry) → AllFound es (current es)
current-AllFound [] = tt
current-AllFound (e ∷ es) =
    (rw (eq_self e.id) refl, AllFound-cons e es (current es) (current-AllFound es))

sooner-found :
    (es : List Entry) (c : Entry) (o : Option Entry)
    → lookup es c.id ≡ some c
    → ((d : Entry) → o ≡ some d → lookup es d.id ≡ some d)
    → lookup es (sooner c o).id ≡ some (sooner c o)
sooner-found es c none found h = found
sooner-found es c (some d) found h = elim (Bool-cases (leb c.expiry d.expiry)) [
  | inl e ↦ rw e found
  | inr e ↦ rw e (h d refl)
]

least-found :
    (es cs : List Entry) (e : Entry) → AllFound es cs → least cs ≡ some e → lookup es e.id ≡ some e
least-found es [] e h top = cc
least-found es (c ∷ cs) e (found, h) top =
    subst (λ x. lookup es x.id ≡ some x) (some_injective top)
      (sooner-found es c (least cs) found (λ d g. least-found es cs d h g))

sooner-below : (c : Entry) (o : Option Entry) → (sooner c o).expiry ≤ c.expiry
sooner-below c none = omega arith
sooner-below c (some d) = elim (dec_le c.expiry d.expiry) [
  | yes le ↦ rw (le→leb c.expiry d.expiry le) (omega arith)
  | no gt ↦ rw (lt→leb c.expiry d.expiry (omega arith)) (omega arith)
]

sooner-other : (c d : Entry) → (sooner c (some d)).expiry ≤ d.expiry
sooner-other c d = elim (dec_le c.expiry d.expiry) [
  | yes le ↦ rw (le→leb c.expiry d.expiry le) (omega arith)
  | no gt ↦ rw (lt→leb c.expiry d.expiry (omega arith)) (omega arith)
]

-- Where there is an entry, there is a least one, and it is no later.
least-below :
    (cs : List Entry) (f : Entry) (k : ℕ)
    → lookup cs k ≡ some f
    → (e : Entry) × (least cs ≡ some e) × (e.expiry ≤ f.expiry)
least-below [] f k g = cc
least-below (c ∷ cs) f k g = elim (Bool-cases (c.id == k)) [
  | inl s ↦
      let first : c ≡ f =
        some_injective (subst (λ b. (if b then some c else lookup cs k) ≡ some f) s g) in
      (
        sooner c (least cs),
        refl,
        omega (arith, sooner-below c (least cs), ap (λ x. x.expiry) first),
      )
  | inr s ↦
      let (d, top, below) =
        least-below cs f k (subst (λ b. (if b then some c else lookup cs k) ≡ some f) s g) in
      (sooner c (some d), ap (λ o. some (sooner c o)) top, omega (arith, sooner-other c d, below))
]

length-without : (k : ℕ) (es : List Entry) → length (without k es) ≤ length es
length-without k [] = omega arith
length-without k (e ∷ es) = elim (Bool-cases (e.id == k)) [
  | inl s ↦ rw s (omega (arith, length-without k es))
  | inr s ↦ rw s (omega (arith, length-without k es))
]

length-without_less :
    (k : ℕ) (e : Entry) (es : List Entry) → lookup es k ≡ some e → length (without k es) < length es
length-without_less k e [] g = cc
length-without_less k e (c ∷ es) g = elim (Bool-cases (c.id == k)) [
  | inl s ↦ rw s (omega (arith, length-without k es))
  | inr s ↦
      let rest =
        length-without_less k e es
          (subst (λ b. (if b then some c else lookup es k) ≡ some e) s g) in
      rw s (omega (arith, rest))
]

abbrev merged : Option Entry → List Entry → List Entry
merged none es = es
merged (some e) es = without e.id es

abbrev upserted : Option Entry → List Entry → Entry → (ℕ → Bool) → List Entry × Bool
upserted none es e f = (e ∷ es, true)
upserted (some old) es e f = (if f old.seq then e ∷ es else es, false)

abbrev same_entry : Entry → Entry → Bool
same_entry e f = (e.id == f.id) && ((e.seq == f.seq) && (e.expiry == f.expiry))

abbrev same_entries : List Entry → List Entry → Bool
same_entries [] [] = true
same_entries (e ∷ es) (f ∷ fs) = same_entry e f && same_entries es fs
same_entries [] (f ∷ fs) = false
same_entries (e ∷ es) [] = false

abbrev pub entries : Treap (List Entry)
entries = record {
  get = lookup;
  root = λ es. least (current es);
  merge = λ es. merged (least (current es)) es;
  upsert_if = λ es e f. upserted (lookup es e.id) es e f;
  size = length;
  same = same_entries;
}

both : (a b : Bool) → (a && b) ≡ true → (a ≡ true) × (b ≡ true)
both true b h = (refl, h)
both false b h = absurd (true≢false (sym h))

entry_ext : (e f : Entry) → same_entry e f ≡ true → e ≡ f
entry_ext e f h =
    let (ids, rest) = both (e.id == f.id) _ h in
    let (seqs, expiries) = both (e.seq == f.seq) _ rest in
    let one : e.id ≡ f.id = ground arith in
    let two : e.seq ≡ f.seq = ground arith in let three : e.expiry ≡ f.expiry = ground arith in cc

same_entries-eq : (es fs : List Entry) → same_entries es fs ≡ true → es ≡ fs
same_entries-eq [] [] h = refl
same_entries-eq (e ∷ es) (f ∷ fs) h =
    let (first, rest) = both (same_entry e f) (same_entries es fs) h in
    let one = entry_ext e f first in let others = same_entries-eq es fs rest in cc
same_entries-eq [] (f ∷ fs) h = absurd (true≢false (sym h))
same_entries-eq (e ∷ es) [] h = absurd (true≢false (sym h))

entries-none : (es : List Entry) (k : ℕ) → least (current es) ≡ none → lookup es k ≡ none
entries-none es k top = by_entry (lookup es k) refl
  where
    by_entry : (o : Option Entry) → lookup es k ≡ o → o ≡ none
    by_entry none g = refl
    by_entry (some f) g =
        let (e, there, _) = least-below (current es) f k (lookup-current es k ∙ g) in
        let absent : some e ≡ none = sym there ∙ top in cc

kept_or_new :
    (es : List Entry) (e old : Entry) (b : Bool) (k : ℕ)
    → lookup es e.id ≡ some old
    → lookup (if b then e ∷ es else es) k
      ≡ (if e.id == k then (if b then some e else some old) else lookup es k)
kept_or_new es e old true k g = refl
kept_or_new es e old false k g = elim (Bool-cases (e.id == k)) [
  | inl s ↦ let same : e.id ≡ k = ground arith in rw s (ap (λ j. lookup es j) (sym same) ∙ g)
  | inr s ↦ rw s refl
]

pub entries-Laws : Laws entries
entries-Laws = record {
  root_none = λ es k top. entries-none es k top;
  root_get = λ es e top. least-found es (current es) e (current-AllFound es) top;
  root_least = λ es e f k top g.
      let (d, there, below) = least-below (current es) f k (lookup-current es k ∙ g) in
      let same : d ≡ e = some_injective (sym there ∙ top) in
      omega (arith, below, ap (λ x. x.expiry) same);
  merge_get = λ es e k top. rw top (lookup-without e.id k es);
  merge_size = λ es e top.
      rw top
        (length-without_less e.id e es (least-found es (current es) e (current-AllFound es) top));
  upsert_created = λ es e f g. rw g (refl, λ k. refl);
  upsert_there = λ es e old f g. rw g (refl, λ k. kept_or_new es e old (f old.seq) k g);
  same_eq = same_entries-eq;
}
