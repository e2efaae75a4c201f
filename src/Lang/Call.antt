-- ===== src/Lang/Call.antt =====
-- CallExpr.Eval of pkg/lang/expr.go, up to the evaluation of the body: the map of local variables. It
-- is the list of the writes to it, the last of which counts for a name.
use ww.Prelude.{
  ℕ, suc, ◌+◌, ◌-◌, ◌&&◌, Bool, if◌then◌else◌, leb, List, [], ◌∷◌, ◌++◌, length, get_elem?, Option,
  none, some, Result, ok, fail, ◌>>=◌, panic,
}
use ww.Func.Data.{Name, Fn, CallTarget}
use ww.Func.Match.{match_fn}

-- The value of a local variable: a value, or the list of the values of the variadic parameter
pub data Local (V : Type 0) : Type 0 where
  one : V → Local V
  many : List V → Local V

abbrev pub Locals : Type 0 → Type 0
Locals V = List (Name × Local V)

module _ {V : Type 0} where
  -- scope[ct.Param[i]] = v, with what is at that place
  abbrev pub write : Option Name → Locals V → Local V → Result (Locals V)
  write none scope v = fail panic
  write (some name) scope v = ok (scope ++ (name, v) ∷ [])

  -- The loop over the arguments, with what each evaluates to; i >= len(ct.Param)-1 is a comparison of
  -- ints, in which len(ct.Param) may be 0.
  unfoldable pub bind_args :
      List Name → Bool → ℕ → Locals V → List V → List (Result V) → Result (Locals V × List V)
  bind_args param variadic i scope vargs [] = ok (scope, vargs)
  bind_args param variadic i scope vargs (fail e ∷ args) = fail e
  bind_args param variadic i scope vargs (ok v ∷ args) =
      let spread = bind_args param variadic (suc i) scope (vargs ++ v ∷ []) args in
      let bound = (do
        scope' ← write (get_elem? param i) scope (one v)
        bind_args param variadic (suc i) scope' vargs args) in
      if variadic && leb (length param) (i + 1) then spread else bound

  -- The list of the variadic parameter, unless there is no argument for it
  abbrev pub bind_rest : List Name → Locals V → List V → Result (Locals V)
  bind_rest param scope [] = ok scope
  bind_rest param scope (v ∷ vargs) =
      write (get_elem? param (length param - 1)) scope (many (v ∷ vargs))

  unfoldable pub locals : List Name → Bool → List (Result V) → Result (Locals V)
  locals param variadic args = do
    (scope, vargs) ← bind_args param variadic 0 [] [] args
    bind_rest param scope vargs

  -- CallExpr.Eval: the name, the variables and the body with which the call goes on
  unfoldable pub call : Fn V → List (Result V) → Result (CallTarget V × Locals V)
  call fn args = do
    ct ← match_fn fn (length args)
    scope ← locals ct.param ct.variadic args
    ok (ct, scope)
