-- ===== src/Func/Match.antt =====
-- Match of pkg/lang/core/func.go: the first call target that takes the number of arguments.
use ww.Prelude.{
  ℕ, ◌-◌, Bool, leb, ◌==◌, if◌then◌else◌, List, [], ◌∷◌, length, take, none, some, Result, ok, fail,
  arity,
}
use ww.Func.Data.{Name, Params, nilary, params, Func, Fn, CallTarget}

-- funcAnalyzer, less the target it looks at; one analyzer serves all rounds of the loop.
pub record FuncAnalyzer : Type 0 where
  pub ps : List Name
  pub nparam : ℕ

-- The answer of matchArity: `nparam - 1` of a target with no name is -1 in the source, and any count
-- is at least that.
abbrev pub takes : Params → Bool → ℕ → Bool
takes nilary variadic nargs = nargs == 0
takes (params ps) variadic nargs =
    if variadic then leb (length ps - 1) nargs else nargs == length ps

-- What matchArity leaves in the analyzer
abbrev pub analyzer_after : Params → FuncAnalyzer → FuncAnalyzer
analyzer_after nilary a = a
analyzer_after (params ps) a = record { ps = ps; nparam = length ps }

module _ {A : Type 0} where
  -- Name: the name of a lambda is λ, in UTF-8
  unfoldable pub fn_name : Fn A → Name
  fn_name fn = elim (fn.name) [ none ↦ 206 ∷ 187 ∷ [] | some name ↦ name ]

  -- matchArity
  abbrev pub match_arity : Func A → ℕ → FuncAnalyzer → Bool × FuncAnalyzer
  match_arity f nargs a = (takes f.params f.variadic nargs, analyzer_after f.params a)

  -- The loop of Match
  unfoldable pub match_funcs : List (Func A) → Name → ℕ → FuncAnalyzer → Result (CallTarget A)
  match_funcs [] name nargs a = fail arity
  match_funcs (f ∷ fs) name nargs a =
      let rest = match_funcs fs name nargs (match_arity f nargs a).1 in
      if (match_arity f nargs a).0
      then ok (record {
        name = name;
        param = take (match_arity f nargs a).1.nparam (match_arity f nargs a).1.ps;
        variadic = f.variadic;
        body = f.body;
      })
      else rest

  -- Match
  unfoldable pub match_fn : Fn A → ℕ → Result (CallTarget A)
  match_fn fn nargs = match_funcs fn.funcs (fn_name fn) nargs (record { ps = []; nparam = 0 })
