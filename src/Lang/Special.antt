-- ===== src/Lang/Special.antt =====
-- The parsers of special forms in pkg/lang/special.go, and unpackArgs of pkg/lang/analyzer.go. The
-- arguments of a form are the values of its sequence, of which a nil Seq has none: Next returns nil
-- at the end, so that a sequence that is not nil has a value.
use ww.Prelude.{
  ℕ, zero, suc, ◌-◌, ◌==◌, ◌&&◌, not, Bool, if◌then◌else◌, ltb, List, [], ◌∷◌, length, take, drop,
  same_text, Option, none, some, Result, ok, fail, ◌>>=◌, panic, parse_special, invalid_syntax,
  symbol_not_found,
}
use ww.Func.Data.{Name}
use ww.Lang.Scope.{Answer, value, not_found, failed, nothing, Frame, resolve}

-- What the parsers read of a value: the text of a symbol, and the values of a Seq or a Seqable; `none`
-- is another type.
pub record Reads (V : Type 0) : Type 0 where
  pub symbol : V → Option Name
  pub as_seq : V → Option (List V)

-- IfExpr
pub record IfExpr (E : Type 0) : Type 0 where
  pub test : Option E
  pub then_expr : Option E
  pub else_expr : Option E

-- DefExpr
pub record DefExpr (E : Type 0) : Type 0 where
  pub name : Name
  pub value_expr : E

-- "..."
abbrev pub dots : Name
dots = 46 ∷ 46 ∷ 46 ∷ []

-- strings.HasSuffix(sym, "...")
abbrev pub has_dots : Name → Bool
has_dots sym = not (ltb (length sym) 3) && same_text (drop (length sym - 3) sym) dots

-- exprs[i], of an array of three that are nil at first
abbrev pub expr_at {ℓ} : {E : Type ℓ} → ℕ → List E → Option E
expr_at i [] = none
expr_at zero (e ∷ es) = some e
expr_at (suc i) (e ∷ es) = expr_at i es

module _ {V E : Type 0} (analyze : V → Result E) where
  -- The loop of parseIf
  abbrev pub parse_exprs : ℕ → List V → Result (List E)
  parse_exprs zero args = ok []
  parse_exprs (suc n) [] = fail panic
  parse_exprs (suc n) (a ∷ args) = do e ← analyze a; es ← parse_exprs n args; ok (e ∷ es)

  -- parseIf
  unfoldable pub parse_if : List V → Result (IfExpr E)
  parse_if [] = fail panic
  parse_if (a ∷ args) =
      let count = length (a ∷ args) in
      let parsed = (do
        es ← parse_exprs count (a ∷ args)
        ok (record { test = expr_at 0 es; then_expr = expr_at 1 es; else_expr = expr_at 2 es })) in
      if not (count == 2) && not (count == 3) then fail parse_special else parsed

  -- The end of parseDef, with the symbol that the first argument is
  abbrev pub def_of : Option Name → List V → Result (DefExpr E)
  def_of none rest = fail parse_special
  def_of (some name) [] = fail panic
  def_of (some name) (second ∷ rest) = do
    e ← analyze second
    ok (record { name = name; value_expr = e })

  -- parseDef
  unfoldable pub parse_def : Reads V → List V → Result (DefExpr E)
  parse_def r [] = fail parse_special
  parse_def r (first ∷ rest) =
      if length (first ∷ rest) == 2 then def_of (r.symbol first) rest else fail parse_special

module _ {V : Type 0} where
  -- parseQuote: the form that is quoted
  unfoldable pub parse_quote : List V → Result V
  parse_quote [] = fail panic
  parse_quote (first ∷ rest) = if length (first ∷ rest) == 1 then ok first else fail parse_special

  -- args[len(args)-1], and args[:len(args)-1]
  abbrev pub last_of : List V → Option V
  last_of [] = none
  last_of (a ∷ []) = some a
  last_of (a ∷ b ∷ args) = last_of (b ∷ args)

  abbrev pub but_last : List V → List V
  but_last [] = []
  but_last (a ∷ []) = []
  but_last (a ∷ b ∷ args) = a ∷ but_last (b ∷ args)

  -- The value of the symbol before the dots; a nil value is no ww.Any.
  abbrev pub resolved : Answer V → Result V
  resolved (value v) = ok v
  resolved not_found = fail symbol_not_found
  resolved (failed e) = fail symbol_not_found
  resolved nothing = fail panic

  -- The end of unpackArgs: the arguments, the last of which is popped, and the values of the sequence
  abbrev pub spread : Reads V → (V → Result V) → List V → V → Result (List V × List V)
  spread r eval args varg = do
    v ← eval varg
    elim (r.as_seq v) [ none ↦ fail invalid_syntax | some vs ↦ ok (but_last args, vs) ]

  -- The case "...", whose argument stands before it
  abbrev pub spread_before : Reads V → (V → Result V) → List V → Option V → Result (List V × List V)
  spread_before r eval args none = fail invalid_syntax
  spread_before r eval args (some varg) = spread r eval args varg

  abbrev pub unpack_symbol :
      Reads V → (V → Result V) → List (Frame V) → List V → Option Name → Result (List V × List V)
  unpack_symbol r eval env args none = ok (args, [])
  unpack_symbol r eval env args (some sym) =
      let here = spread_before r eval (but_last args) (last_of (but_last args)) in
      let named = (do
        varg ← resolved (resolve env (take (length sym - 3) sym))
        spread r eval args varg) in
      if has_dots sym then (if same_text sym dots then here else named) else ok (args, [])

  -- unpackArgs, where `eval` is Eval of the analyzer
  abbrev pub unpack_last :
      Reads V → (V → Result V) → List (Frame V) → List V → Option V → Result (List V × List V)
  unpack_last r eval env args none = ok ([], [])
  unpack_last r eval env args (some varg) = unpack_symbol r eval env args (r.symbol varg)

  unfoldable pub unpack_args :
      Reads V → (V → Result V) → List (Frame V) → List V → Result (List V × List V)
  unpack_args r eval env args = unpack_last r eval env args (last_of args)
