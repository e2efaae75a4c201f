-- ===== src/Prelude/Results.antt =====
-- Errors as values, and postconditions of computations that may fail.
use mathlib.Core.Path.{◌≡◌, refl, ap}

-- The errors of pkg/lang/core, by their cause. `panic` is a Go panic, such as a list read out of
-- range; `out_of_fuel` belongs to the model only.
pub data Error : Type 0 where
  index_out_of_bounds illegal_state memory arity not_integer invalid_signature not_symbol : Error
  no_signatures incomparable not_container parse_special invalid_syntax symbol_not_found
        anchor_not_empty not_implemented misrouted panic out_of_fuel :
      Error

pub data Result {ℓ} (A : Type ℓ) : Type ℓ where
  ok : A → Result A
  fail : Error → Result A

infixl 5 ◌>>=◌
abbrev pub ◌>>=◌ {ℓ κ} : {A : Type ℓ} {B : Type κ} → Result A → (A → Result B) → Result B
ok a >>= f = f a
fail e >>= f = fail e

-- The computation succeeds, and its value meets the postcondition.
abbrev pub Ensures {ℓ κ} : {A : Type ℓ} → Result A → (A → Type κ) → Type (ℓ ⊔ κ)
Ensures r P = (a : _) × (r ≡ ok a) × P a

-- The computation succeeds.
abbrev pub Succeeds {ℓ} : {A : Type ℓ} → Result A → Type ℓ
Succeeds r = (a : _) × (r ≡ ok a)

pub Ensures-bind {ℓ κ μ ν} :
    {A : Type ℓ} {B : Type κ} {P : A → Type μ} {Q : B → Type ν} (m : Result A) (f : A → Result B)
    → Ensures m P
    → ((a : A) → P a → Ensures (f a) Q)
    → Ensures (m >>= f) Q
Ensures-bind m f (a, e, p) k = rw e (k a p)

-- Two continuations that agree have the same results.
pub bind-cong {ℓ κ} :
    {A : Type ℓ} {B : Type κ} (m : Result A) (f g : A → Result B)
    → ((a : A) → f a ≡ g a)
    → (m >>= f) ≡ (m >>= g)
bind-cong (ok a) f g h = h a
bind-cong (fail e) f g h = refl

pub bind_assoc {ℓ κ μ} :
    {A : Type ℓ} {B : Type κ} {C : Type μ} (m : Result A) (f : A → Result B) (g : B → Result C)
    → (m >>= f >>= g) ≡ (m >>= λ x. f x >>= g)
bind_assoc (ok a) f g = refl
bind_assoc (fail e) f g = refl

abbrev value_or {ℓ} : {A : Type ℓ} → A → Result A → A
value_or b (ok a) = a
value_or b (fail e) = b

pub ok_injective {ℓ} : {A : Type ℓ} {a b : A} → ok a ≡ ok b → a ≡ b
ok_injective {a} p = ap (value_or a) p

-- The postcondition holds if the computation succeeds.
abbrev pub WhenOk {ℓ κ} : {A : Type ℓ} → Result A → (A → Type κ) → Type κ
WhenOk (ok a) P = P a
WhenOk (fail e) P = Unit

pub WhenOk-bind {ℓ κ μ ν} :
    {A : Type ℓ} {B : Type κ} (P : A → Type μ) (Q : B → Type ν) (m : Result A) (f : A → Result B)
    → WhenOk m P
    → ((a : A) → P a → WhenOk (f a) Q)
    → WhenOk (m >>= f) Q
WhenOk-bind P Q (ok a) f h k = k a h
WhenOk-bind P Q (fail e) f h k = tt

pub WhenOk-map {ℓ κ μ} :
    {A : Type ℓ} (m : Result A) (P : A → Type κ) (Q : A → Type μ)
    → WhenOk m P
    → ((a : A) → P a → Q a)
    → WhenOk m Q
WhenOk-map (ok a) P Q h f = f a h
WhenOk-map (fail e) P Q h f = tt
