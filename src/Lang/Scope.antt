-- ===== src/Lang/Scope.antt =====
-- ResolveExpr.Eval of pkg/lang/expr.go and resolve of pkg/lang/analyzer.go. An environment of the
-- library slurp is the list of its frames, the innermost first, each as what its Resolve answers.
use ww.Prelude.{ℕ, List, [], ◌∷◌}
use ww.Func.Data.{Name}

-- What Resolve of a frame returns: a value, ErrNotFound, or another error; `nothing` is the nil value
-- with no error, which a loop over no frames leaves.
pub data Answer (V : Type 0) : Type 0 where
  value : V → Answer V
  not_found : Answer V
  failed : ℕ → Answer V
  nothing : Answer V

abbrev pub Frame : Type 0 → Type 0
Frame V = Name → Answer V

module _ {V : Type 0} where
  -- A round of the loop of ResolveExpr.Eval, on what the frame answers and what the parents do
  abbrev pub eval_round : Answer V → (Answer V → Answer V) → Answer V
  eval_round not_found parents = parents not_found
  eval_round (value v) parents = value v
  eval_round (failed e) parents = failed e
  eval_round nothing parents = nothing

  abbrev pub eval_from : List (Frame V) → Name → Answer V → Answer V
  eval_from [] symbol last = last
  eval_from (frame ∷ env) symbol last = eval_round (frame symbol) (eval_from env symbol)

  -- ResolveExpr.Eval
  unfoldable pub eval_resolve : List (Frame V) → Name → Answer V
  eval_resolve env symbol = eval_from env symbol nothing

  -- A round of the loop of resolve
  abbrev pub resolve_round : Answer V → (Answer V → Answer V) → Answer V
  resolve_round (failed e) parents = failed e
  resolve_round (value v) parents = parents (value v)
  resolve_round not_found parents = parents not_found
  resolve_round nothing parents = parents nothing

  abbrev pub resolve_from : List (Frame V) → Name → Answer V → Answer V
  resolve_from [] symbol last = last
  resolve_from (frame ∷ env) symbol last = resolve_round (frame symbol) (resolve_from env symbol)

  -- resolve
  unfoldable pub resolve : List (Frame V) → Name → Answer V
  resolve env symbol = resolve_from env symbol nothing
