-- ===== src/Runtime/Loading.antt =====
-- When Start of pkg/runtime/runtime.go succeeds.
use ww.Prelude.{
  ℕ, ◌≡◌, ◌∙◌, refl, sym, ap, subst, arith, ◌==◌, ◌↔◌, ◌||◌, Bool, true, false, Bool-cases, inl,
  inr, if◌then◌else◌, List, [], ◌∷◌, ◌++◌, append_nil, eq_self, Option, none, some,
}
use mathlib.Core.Bool.{true≢false}
use mathlib.Core.List.{append_assoc}
use ww.Runtime.Loader.{
  Built, service, broken, Factory, LoadError, factory_error, dependency_error, Loader, no_services,
  add_events, add_dependencies, load_built, load_by, load_service, has_event, first_missing,
  error_by, error, load_all, start,
}

-- The services that the factories build
abbrev pub services_of : Built → List ℕ
services_of (service s) = s ∷ []
services_of (broken e) = []

abbrev pub services : List Factory → List ℕ
services [] = []
services (f ∷ fs) = services_of f.built ++ services fs

abbrev pub events_of : Option (List ℕ) → List ℕ
events_of none = []
events_of (some events) = events

-- Whether one of the factories produces, or consumes, an event
abbrev pub produced : ℕ → List Factory → Bool
produced ev [] = false
produced ev (f ∷ fs) = has_event ev (events_of f.produces) || produced ev fs

abbrev pub consumed : ℕ → List Factory → Bool
consumed ev [] = false
consumed ev (f ∷ fs) = has_event ev (events_of f.consumes) || consumed ev fs

abbrev pub IsService : Built → Type 0
IsService (service s) = Unit
IsService (broken e) = ⊥

abbrev pub AllBuild : List Factory → Type 0
AllBuild [] = Unit
AllBuild (f ∷ fs) = IsService f.built × AllBuild fs

or_false : (a : Bool) → (a || false) ≡ a
or_false true = refl
or_false false = refl

has_event-append :
    (ev : ℕ) (xs ys : List ℕ) → has_event ev (xs ++ ys) ≡ (has_event ev xs || has_event ev ys)
has_event-append ev [] ys = refl
has_event-append ev (x ∷ xs) ys = elim (Bool-cases (ev == x)) [
  | inl e ↦ rw e refl
  | inr e ↦ rw e (has_event-append ev xs ys)
]

-- What a loader with no error has loaded
record Loaded (sl k : Loader) (fs : List Factory) : Type 0 where
  err : k.err ≡ none
  hooks : k.hooks ≡ sl.hooks ++ services fs
  prod : (ev : ℕ) → has_event ev k.prod ≡ (has_event ev sl.prod || produced ev fs)
  cons : (ev : ℕ) → has_event ev k.cons ≡ (has_event ev sl.cons || consumed ev fs)

load-service :
    (sl : Loader) (f : Factory)
    → sl.err ≡ none
    → IsService f.built
    → load_service sl f ≡ add_dependencies (record sl { hooks = sl.hooks ++ services_of f.built }) f
unfolding load_service
load-service sl f e b = ap (λ o. load_by o sl f) e ∙ by_built f.built b
  where
    by_built :
        (o : Built)
        → IsService o
        → load_built sl f o ≡ add_dependencies (record sl { hooks = sl.hooks ++ services_of o }) f
    by_built (service s) b = refl
    by_built (broken e) b = absurd b

has_event-add :
    (ev : ℕ) (set : List ℕ) (o : Option (List ℕ))
    → has_event ev (add_events set o) ≡ (has_event ev (events_of o) || has_event ev set)
has_event-add ev set none = refl
has_event-add ev set (some events) = has_event-append ev events set

or_swap : (a b c : Bool) → ((a || b) || c) ≡ (b || (a || c))
or_swap true true c = refl
or_swap true false c = refl
or_swap false b c = refl

load_all-Loaded :
    (sl : Loader) (fs : List Factory) → sl.err ≡ none → AllBuild fs → Loaded sl (load_all sl fs) fs
unfolding load_all
load_all-Loaded sl [] e h = record {
  err = e;
  hooks = sym (append_nil sl.hooks);
  prod = λ ev. sym (or_false (has_event ev sl.prod));
  cons = λ ev. sym (or_false (has_event ev sl.cons));
}
load_all-Loaded sl (f ∷ fs) e (b, h) =
    let next = add_dependencies (record sl { hooks = sl.hooks ++ services_of f.built }) f in
    let k = load_all-Loaded next fs e h in
    rw (load-service sl f e b) (record {
      err = k.err;
      hooks = k.hooks ∙ append_assoc sl.hooks (services_of f.built) (services fs);
      prod = λ ev.
          k.prod ev
          ∙ ap (λ c. c || produced ev fs) (has_event-add ev sl.prod f.produces)
          ∙ or_swap (has_event ev (events_of f.produces)) (has_event ev sl.prod) (produced ev fs);
      cons = λ ev.
          k.cons ev
          ∙ ap (λ c. c || consumed ev fs) (has_event-add ev sl.cons f.consumes)
          ∙ or_swap (has_event ev (events_of f.consumes)) (has_event ev sl.cons) (consumed ev fs);
    })

-- Nothing is loaded after an error.
load_all_stops :
    (sl : Loader) (fs : List Factory) (e : LoadError) → sl.err ≡ some e → load_all sl fs ≡ sl
unfolding load_all load_service
load_all_stops sl [] e h = refl
load_all_stops sl (f ∷ fs) e h = ap (λ o. load_all (load_by o sl f) fs) h ∙ load_all_stops sl fs e h

load_built-IsService :
    (sl : Loader) (f : Factory) (fs : List Factory) (o : Built)
    → sl.err ≡ none
    → (load_all (load_built sl f o) fs).err ≡ none
    → ((k : Loader) → k.err ≡ none → (load_all k fs).err ≡ none → AllBuild fs)
    → IsService o × AllBuild fs
load_built-IsService sl f fs (service s) e h rest = (tt, rest (load_built sl f (service s)) e h)
load_built-IsService sl f fs (broken x) e h rest =
    let stays = load_all_stops (load_built sl f (broken x)) fs (factory_error x) refl in
    let failed : some (factory_error x) ≡ none = sym (ap (λ k. k.err) stays) ∙ h in cc

load_all-AllBuild :
    (fs : List Factory) (sl : Loader) → sl.err ≡ none → (load_all sl fs).err ≡ none → AllBuild fs
unfolding load_all load_service
load_all-AllBuild [] sl e h = tt
load_all-AllBuild (f ∷ fs) sl e h =
    load_built-IsService sl f fs f.built e
      (ap (λ o. (load_all (load_by o sl f) fs).err) (sym e) ∙ h) (λ k. load_all-AllBuild fs k)

-- Every event that is consumed is produced.
abbrev pub IsClosed : List Factory → Type 0
IsClosed fs = (ev : ℕ) → consumed ev fs ≡ true → produced ev fs ≡ true

first_missing-none :
    (prod cons : List ℕ)
    → first_missing prod cons ≡ none
    → (ev : ℕ) → has_event ev cons ≡ true
    → has_event ev prod ≡ true
first_missing-none prod [] h ev there = absurd (true≢false (sym there))
first_missing-none prod (c ∷ cons) h ev there = elim (Bool-cases (has_event c prod)) [
  | inl e ↦
      let rest : first_missing prod cons ≡ none =
        subst (λ b. (if b then first_missing prod cons else some (dependency_error c)) ≡ none) e
          h in
      elim (Bool-cases (ev == c)) [
        | inl s ↦ let same : ev ≡ c = ground arith in ap (λ x. has_event x prod) same ∙ e
        | inr s ↦
            first_missing-none prod cons rest ev
              (subst (λ b. (if b then true else has_event ev cons) ≡ true) s there)
      ]
  | inr e ↦
      let missing : some (dependency_error c) ≡ none =
        subst (λ b. (if b then first_missing prod cons else some (dependency_error c)) ≡ none) e
          h in
      cc
]

or_there : (ev c : ℕ) (cons : List ℕ) → has_event ev cons ≡ true → has_event ev (c ∷ cons) ≡ true
or_there ev c cons h = elim (Bool-cases (ev == c)) [ inl e ↦ rw e refl | inr e ↦ rw e h ]

none-first_missing :
    (prod cons : List ℕ)
    → ((ev : ℕ) → has_event ev cons ≡ true → has_event ev prod ≡ true)
    → first_missing prod cons ≡ none
none-first_missing prod [] h = refl
none-first_missing prod (c ∷ cons) h =
    let found : has_event c prod ≡ true = h c (rw (eq_self c) refl) in
    let rest = none-first_missing prod cons (λ ev there. h ev (or_there ev c cons there)) in
    rw found rest

error_by-none :
    (o : Option LoadError) (sl : Loader)
    → error_by o sl ≡ none
    → (o ≡ none) × (first_missing sl.prod sl.cons ≡ none)
error_by-none none sl h = (refl, h)
error_by-none (some e) sl h = cc

-- Start returns no error exactly if every factory builds its service and every event type that a
-- factory consumes is produced by one of them, in whatever order the factories stand; if every
-- factory builds, the lifecycle gets the hooks of all services in their order.
pub start-Complete :
    (fs : List Factory)
    → (((start fs).1 ≡ none) ↔ (AllBuild fs × IsClosed fs))
      × (AllBuild fs → (start fs).0 ≡ services fs)
unfolding start error
start-Complete fs = ((complete, closed), hooked)
  where
    closed :
        AllBuild fs × IsClosed fs
        → error_by (load_all no_services fs).err (load_all no_services fs) ≡ none
    closed (b, c) =
        let k = load_all-Loaded no_services fs refl b in
        ap (λ o. error_by o (load_all no_services fs)) k.err
        ∙ none-first_missing _ _ (λ ev there. k.prod ev ∙ c ev (sym (k.cons ev) ∙ there))

    complete :
        error_by (load_all no_services fs).err (load_all no_services fs) ≡ none
        → AllBuild fs × IsClosed fs
    complete h =
        let (fine, none_missing) =
          error_by-none (load_all no_services fs).err (load_all no_services fs) h in
        let b = load_all-AllBuild fs no_services refl fine in
        let k = load_all-Loaded no_services fs refl b in
        (
          b,
          λ ev there. sym (k.prod ev) ∙ first_missing-none _ _ none_missing ev (k.cons ev ∙ there),
        )

    hooked : AllBuild fs → (load_all no_services fs).hooks ≡ services fs
    hooked b = (load_all-Loaded no_services fs refl b).hooks
