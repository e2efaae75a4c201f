-- ===== src/Lang/Examples.antt =====
-- Runs of the evaluator, and its theorems at concrete inputs.
use ww.Prelude.{
  ℕ, ◌+◌, ◌≡◌, refl, arith, true, false, [], ◌∷◌, ◌++◌, same_text, if◌then◌else◌, none, some,
  Result, ok, fail, panic, symbol_not_found,
}
use ww.Func.Data.{Name, params, Func, Fn}
use ww.Func.Match.{fn_name}
use ww.Lang.Scope.{value, not_found, Frame, eval_resolve, resolve}
use ww.Lang.Call.{one, many, locals, bind_args, call}
use ww.Lang.Binding.{bound_locals, oks, call-Binds}
use ww.Lang.Special.{Reads, dots, parse_if, unpack_args}
use ww.Lang.Forms.{Parsed, parse_if-Parsed, unpack-dots, unpack-local}

abbrev x : Name
x = 120 ∷ []

abbrev y : Name
y = 121 ∷ []

-- A call has bound x to 7; the root has y.
abbrev inner : Frame ℕ
inner symbol = if same_text symbol x then value 7 else not_found

abbrev root : Frame ℕ
root symbol = if same_text symbol y then value 9 else not_found

lookups :
    (eval_resolve (inner ∷ root ∷ []) x ≡ value 7)
    × (eval_resolve (inner ∷ root ∷ []) y ≡ value 9)
    × (resolve (inner ∷ root ∷ []) x ≡ not_found)
unfolding eval_resolve resolve
lookups = (refl, refl, refl)

-- (fn ([x] ..) ([x & y] ..))
abbrev single : Func ℕ
single = record { params = params (x ∷ []); variadic = false; body = [] }

abbrev several : Func ℕ
several = record { params = params (x ∷ y ∷ []); variadic = true; body = 5 ∷ [] }

abbrev fn : Fn ℕ
fn = record { macro = false; name = none; funcs = single ∷ several ∷ [] }

variables :
    (locals {V = ℕ} (x ∷ y ∷ []) true (ok 1 ∷ ok 2 ∷ ok 3 ∷ [])
      ≡ ok ((x, one 1) ∷ (y, many (2 ∷ 3 ∷ [])) ∷ []))
    × (locals {V = ℕ} (x ∷ y ∷ []) true (ok 1 ∷ []) ≡ ok ((x, one 1) ∷ []))
    × (locals {V = ℕ} [] true (ok 1 ∷ []) ≡ fail panic)
unfolding locals bind_args
variables = (refl, refl, refl)

call-Binds_example :
    call fn (oks (1 ∷ 2 ∷ 3 ∷ []))
    ≡ ok (
      record { name = fn_name fn; param = x ∷ y ∷ []; variadic = true; body = 5 ∷ [] },
      bound_locals true (x ∷ y ∷ []) (1 ∷ 2 ∷ 3 ∷ []),
    )
call-Binds_example =
    call-Binds fn (single ∷ []) several [] x (y ∷ []) (1 ∷ 2 ∷ 3 ∷ []) refl
      ((λ e. omega (arith, e)), tt) (omega arith) refl

-- A form is a text; a number is analyzed by adding one.
abbrev plus_one : ℕ → Result ℕ
plus_one n = ok (n + 1)

parse_if-Parsed_example : Parsed plus_one (1 ∷ 2 ∷ []) (parse_if plus_one (1 ∷ 2 ∷ []))
parse_if-Parsed_example = parse_if-Parsed plus_one (1 ∷ 2 ∷ [])

-- Every value is the symbol of its text, and has its text twice.
abbrev texts : Reads Name
texts = record { symbol = λ v. some v; as_seq = λ v. some (v ∷ v ∷ []) }

abbrev itself : Name → Result Name
itself v = ok v

unpack-dots_example :
    unpack_args texts itself [] ((x ∷ y ∷ []) ++ dots ∷ []) ≡ ok (x ∷ [], y ∷ y ∷ [])
unpack-dots_example = unpack-dots texts itself [] (x ∷ []) y dots y (y ∷ y ∷ []) refl refl refl

abbrev bound : Frame Name
bound symbol = if same_text symbol x then value y else not_found

abbrev empty_frame : Frame Name
empty_frame symbol = not_found

unpack-local_example :
    unpack_args texts itself (bound ∷ empty_frame ∷ []) (y ∷ (x ++ dots) ∷ [])
    ≡ fail symbol_not_found
unpack-local_example =
    unpack-local texts itself (bound ∷ []) empty_frame (y ∷ []) (x ++ dots) 120 [] refl
      (tt, (tt, tt)) refl
