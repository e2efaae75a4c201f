-- ===== src/Lang/Frames.antt =====
-- Which frame answers for a symbol (pkg/lang/expr.go and pkg/lang/analyzer.go).
use ww.Prelude.{◌≡◌, ◌∙◌, refl, ap, List, [], ◌∷◌, ◌++◌}
use ww.Func.Data.{Name}
use ww.Lang.Scope.{
  Answer, value, not_found, failed, nothing, Frame, eval_round, eval_from, eval_resolve,
  resolve_round, resolve_from, resolve,
}

module _ {V : Type 0} where
  -- No frame has the symbol.
  abbrev pub NoneHas : List (Frame V) → Name → Type 0
  NoneHas [] symbol = Unit
  NoneHas (frame ∷ env) symbol = (frame symbol ≡ not_found) × NoneHas env symbol

  abbrev pub NoFailure : Answer V → Type 0
  NoFailure (failed e) = ⊥
  NoFailure (value v) = Unit
  NoFailure not_found = Unit
  NoFailure nothing = Unit

  -- No frame fails at the symbol.
  abbrev pub NoneFails : List (Frame V) → Name → Type 0
  NoneFails [] symbol = Unit
  NoneFails (frame ∷ env) symbol = NoFailure (frame symbol) × NoneFails env symbol

  eval_from-first :
      (before : List (Frame V)) (frame : Frame V) (parents : List (Frame V)) (symbol : Name) (v : V)
      (last : Answer V)
      → NoneHas before symbol
      → frame symbol ≡ value v
      → eval_from (before ++ frame ∷ parents) symbol last ≡ value v
  eval_from-first [] frame parents symbol v last none_has found =
      ap (λ a. eval_round a (eval_from parents symbol)) found
  eval_from-first (inner ∷ before) frame parents symbol v last (here, none_has) found =
      ap (λ a. eval_round a (eval_from (before ++ frame ∷ parents) symbol)) here
      ∙ eval_from-first before frame parents symbol v not_found none_has found

  -- A symbol evaluates to its value in the first frame that has it, if the frames inside of that
  -- one do not have it.
  pub eval_resolve-innermost :
      (before : List (Frame V)) (frame : Frame V) (parents : List (Frame V)) (symbol : Name) (v : V)
      → NoneHas before symbol
      → frame symbol ≡ value v
      → eval_resolve (before ++ frame ∷ parents) symbol ≡ value v
  unfolding eval_resolve
  eval_resolve-innermost before frame parents symbol v none_has found =
      eval_from-first before frame parents symbol v nothing none_has found

  round-goes :
      (a : Answer V) (parents : Answer V → Answer V)
      → NoFailure a
      → resolve_round a parents ≡ parents a
  round-goes (failed e) parents h = absurd h
  round-goes (value v) parents h = refl
  round-goes not_found parents h = refl
  round-goes nothing parents h = refl

  resolve_from-last :
      (env : List (Frame V)) (root : Frame V) (symbol : Name) (last : Answer V)
      → NoneFails (env ++ root ∷ []) symbol
      → resolve_from (env ++ root ∷ []) symbol last ≡ root symbol
  resolve_from-last [] root symbol last (h, _) = round-goes (root symbol) (λ a. a) h
  resolve_from-last (frame ∷ env) root symbol last (h, none_fails) =
      round-goes (frame symbol) (resolve_from (env ++ root ∷ []) symbol) h
      ∙ resolve_from-last env root symbol (frame symbol) none_fails

  pub resolve-outermost :
      (env : List (Frame V)) (root : Frame V) (symbol : Name)
      → NoneFails (env ++ root ∷ []) symbol
      → resolve (env ++ root ∷ []) symbol ≡ root symbol
  unfolding resolve
  resolve-outermost env root symbol none_fails =
      resolve_from-last env root symbol nothing none_fails
