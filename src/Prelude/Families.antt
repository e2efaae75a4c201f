-- ===== src/Prelude/Families.antt =====
-- Functions on the natural numbers that differ at one argument.
use Prim.Native.Nat.{ℕ}
use mathlib.Core.Path.{◌≡◌, subst}
use native.Mathlib.Omega.{arith}
use mathlib.Core.Logic.{inl, inr}
use ww.Prelude.Tests.{◌==◌, if◌then◌else◌, Bool-cases}

abbrev pub update {ℓ} : {A : Type ℓ} → (ℕ → A) → ℕ → A → ℕ → A
update f i v j = if i == j then v else f j

-- What holds of the new value, and of the old ones, holds of the family.
pub update-all {ℓ κ} :
    {A : Type ℓ} (P : ℕ → A → Type κ) (f : ℕ → A) (i : ℕ) (v : A)
    → P i v
    → ((j : ℕ) → P j (f j))
    → (j : ℕ) → P j (update f i v j)
update-all P f i v new old j = elim (Bool-cases (i == j)) [
  | inl e ↦ let same : i ≡ j = ground arith in rw e (subst (λ k. P k v) same new)
  | inr e ↦ rw e (old j)
]
