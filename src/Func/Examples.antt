-- ===== src/Func/Examples.antt =====
-- Runs of the builder and of Match, and their theorems at concrete inputs.
use ww.Prelude.{
  ℕ, zero, suc, ◌≡◌, refl, arith, true, false, [], ◌∷◌, ◌++◌, Option, none, some, ok, Ensures,
}
use ww.Vector.Data.{Vector}
use ww.Vector.Contents.{Holds}
use ww.Vector.Methods.{new_vector}
use ww.Vector.Laws.{new_vector-Holds}
use ww.Vector.Samples.{nat_zeroed}
use ww.Func.Data.{Name, Forms, nilary, params, Func, Fn}
use ww.Func.Builder.{FuncBuilder, zeroed_fn, dots, commit}
use ww.Func.Match.{match_fn, fn_name}
use ww.Func.Targets.{match_fn-Accepts}
use ww.Func.Building.{add_targets, started, commit-Stored}

-- Two symbols, x and y..., and a vector of them
made : Ensures (new_vector {A = ℕ} (1 ∷ 2 ∷ [])) (λ v. Holds v (1 ∷ 2 ∷ []))
made = new_vector-Holds (1 ∷ 2 ∷ []) (omega arith)

abbrev args : Vector ℕ
args = made.0

abbrev x_name : Name
x_name = 120 ∷ []

abbrev y_name : Name
y_name = 121 ∷ []

abbrev texts : ℕ → Option Name
texts zero = none
texts (suc zero) = some x_name
texts (suc (suc zero)) = some (y_name ++ dots)
texts (suc (suc (suc _))) = none

abbrev vectors : ℕ → Option (Vector ℕ)
vectors (suc (suc (suc zero))) = some args
vectors _ = none

instance abbrev sample_forms : Forms ℕ
sample_forms = record { symbol = texts; as_vector = vectors }

made_one : Ensures (new_vector {A = ℕ} (1 ∷ [])) (λ v. Holds v (1 ∷ []))
made_one = new_vector-Holds (1 ∷ []) (omega arith)

abbrev fresh : FuncBuilder ℕ
fresh = record { fn = zeroed_fn; sigs = []; stages = [] }

abbrev x_and_ys : Func ℕ
x_and_ys = record { params = params (x_name ∷ y_name ∷ []); variadic = true; body = 7 ∷ [] }

commit-Stored_example :
    Ensures
      (commit (add_targets ((3, 7 ∷ []) ∷ []) (started false x_name fresh)))
      (λ r. r.0 ≡ record { macro = false; name = some x_name; funcs = x_and_ys ∷ [] })
commit-Stored_example =
    commit-Stored fresh false 120 [] ((3, 7 ∷ []) ∷ []) x_and_ys [] (
      (args, 1 ∷ 2 ∷ [], x_name ∷ (y_name ++ dots) ∷ [], refl, made.2, (refl, (refl, tt)), refl),
      tt,
    )

-- A target with one parameter, one with none, and one with a parameter and a rest parameter
abbrev one_param : Func ℕ
one_param = record { params = params (x_name ∷ []); variadic = false; body = 4 ∷ [] }

abbrev no_param : Func ℕ
no_param = record { params = nilary; variadic = false; body = 5 ∷ [] }

abbrev rest_param : Func ℕ
rest_param = record { params = params (x_name ∷ y_name ∷ []); variadic = true; body = 6 ∷ [] }

abbrev sample_fn : Fn ℕ
sample_fn = record {
  macro = false;
  name = some x_name;
  funcs = one_param ∷ no_param ∷ rest_param ∷ [];
}

match_fn-Accepts_example :
    match_fn sample_fn 3
    ≡ ok (record { name = x_name; param = x_name ∷ y_name ∷ []; variadic = true; body = 6 ∷ [] })
unfolding fn_name
match_fn-Accepts_example =
    match_fn-Accepts sample_fn (one_param ∷ no_param ∷ []) rest_param [] (x_name ∷ y_name ∷ []) 3
      refl ((λ e. omega (arith, e)), ((λ e. omega (arith, e)), tt)) (omega arith) refl

abbrev one_only : Fn ℕ
one_only = record { macro = false; name = none; funcs = one_param ∷ [] }
