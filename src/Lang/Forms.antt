-- ===== src/Lang/Forms.antt =====
-- What the special forms of pkg/lang/special.go take, and which values a call of pkg/lang/analyzer.go
-- spreads.
use ww.Prelude.{
  ℕ, suc, ◌-◌, ◌≤◌, ◌≡◌, ◌∙◌, refl, ap, arith, true, false, Bool-cases, inl, inr, ◌⊎◌, le→ltb, List,
  [], ◌∷◌, ◌++◌, length, length-append, take, drop, same_text, same_text→eq, none, some, Result, ok,
  fail, ◌>>=◌, bind_assoc, bind-cong, ne→eq, panic, parse_special, symbol_not_found,
}
use ww.Func.Data.{Name}
use ww.Lang.Scope.{not_found, Frame}
use ww.Lang.Frames.{NoneFails, resolve-outermost}
use ww.Lang.Special.{
  Reads, IfExpr, dots, has_dots, expr_at, parse_exprs, parse_if, last_of, but_last, unpack_args,
}

module _ {V E : Type 0} (analyze : V → Result E) where
  -- The form with two arguments, and the one with three
  abbrev pub if_two : V → V → Result (IfExpr E)
  if_two a b = do
    test ← analyze a
    then_expr ← analyze b
    ok (record { test = some test; then_expr = some then_expr; else_expr = none })

  abbrev pub if_three : V → V → V → Result (IfExpr E)
  if_three a b c = do
    test ← analyze a
    then_expr ← analyze b
    else_expr ← analyze c
    ok (record { test = some test; then_expr = some then_expr; else_expr = some else_expr })

  abbrev pub Parsed : List V → Result (IfExpr E) → Type 0
  Parsed args parsed =
      ((args ≡ []) × (parsed ≡ fail panic))
      ⊎ ((((length args ≡ 1) ⊎ (4 ≤ length args)) × (parsed ≡ fail parse_special))
          ⊎ (((a b : V) × (args ≡ a ∷ b ∷ []) × (parsed ≡ if_two a b))
              ⊎ ((a b c : V) × (args ≡ a ∷ b ∷ c ∷ []) × (parsed ≡ if_three a b c))))

  -- The array that the loop fills
  abbrev if_of : List E → Result (IfExpr E)
  if_of es = ok (record { test = expr_at 0 es; then_expr = expr_at 1 es; else_expr = expr_at 2 es })

  parse_exprs-cons :
      (n : ℕ) (a : V) (args : List V) (g : List E → Result (IfExpr E))
      → (parse_exprs analyze (suc n) (a ∷ args) >>= g)
        ≡ (analyze a >>= λ e. parse_exprs analyze n args >>= λ es. g (e ∷ es))
  parse_exprs-cons n a args g =
      bind_assoc (analyze a) (λ e. parse_exprs analyze n args >>= λ es. ok (e ∷ es)) g
      ∙ bind-cong (analyze a) _ _
          (λ e. bind_assoc (parse_exprs analyze n args) (λ es. ok (e ∷ es)) g)

  parsed_two : (a b : V) → (parse_exprs analyze 2 (a ∷ b ∷ []) >>= if_of) ≡ if_two a b
  parsed_two a b =
      parse_exprs-cons 1 a (b ∷ []) if_of
      ∙ bind-cong (analyze a) _ _ (λ e. parse_exprs-cons 0 b [] (λ es. if_of (e ∷ es)))

  parsed_three : (a b c : V) → (parse_exprs analyze 3 (a ∷ b ∷ c ∷ []) >>= if_of) ≡ if_three a b c
  parsed_three a b c =
      parse_exprs-cons 2 a (b ∷ c ∷ []) if_of
      ∙ bind-cong (analyze a) _ _ (λ e.
        parse_exprs-cons 1 b (c ∷ []) (λ es. if_of (e ∷ es))
        ∙ bind-cong (analyze b) _ _ (λ f. parse_exprs-cons 0 c [] (λ es. if_of (e ∷ f ∷ es))))

  -- parseIf panics if the form has no argument, is a syntax error with one or more than three, and
  -- otherwise analyzes the arguments in their order, the first error ending it, into the test, the
  -- branch and, of three, the other branch.
  pub parse_if-Parsed : (args : List V) → Parsed args (parse_if analyze args)
  unfolding parse_if
  parse_if-Parsed [] = inl (refl, refl)
  parse_if-Parsed (a ∷ []) = inr (inl (inl refl, refl))
  parse_if-Parsed (a ∷ b ∷ []) = inr (inr (inl (a, b, refl, parsed_two a b)))
  parse_if-Parsed (a ∷ b ∷ c ∷ []) = inr (inr (inr (a, b, c, refl, parsed_three a b c)))
  parse_if-Parsed (a ∷ b ∷ c ∷ d ∷ args) = inr (
      inl (
        inr (omega arith),
        rw
            (
              ne→eq (length (a ∷ b ∷ c ∷ d ∷ args)) 2 (omega arith),
              ne→eq (length (a ∷ b ∷ c ∷ d ∷ args)) 3 (omega arith),
            )
            refl,
      ))

-- A name with dots ends in dots, and is not the dots alone if it has a character.
take-append : (xs ys : Name) → take (length xs) (xs ++ ys) ≡ xs
take-append [] ys = refl
take-append (x ∷ xs) ys = ap (λ l. x ∷ l) (take-append xs ys)

drop-append : (xs ys : Name) → drop (length xs) (xs ++ ys) ≡ ys
drop-append [] ys = refl
drop-append (x ∷ xs) ys = drop-append xs ys

dotted : (name : Name) → length (name ++ dots) - 3 ≡ length name
dotted name = omega (arith, length-append name dots)

dotted_suc : (name : Name) → suc (length (name ++ dots)) - 3 ≡ suc (length name)
dotted_suc name = omega (arith, length-append name dots)

has_dots-append : (name : Name) → has_dots (name ++ dots) ≡ true
has_dots-append name =
    rw
      (
        le→ltb (length (name ++ dots)) 3 (omega (arith, length-append name dots)),
        dotted name,
        drop-append name dots,
      )
      refl

not-dots : (c : ℕ) (name : Name) → same_text ((c ∷ name) ++ dots) dots ≡ false
not-dots c name = elim (Bool-cases (same_text ((c ∷ name) ++ dots) dots)) [
  | inl e ↦
      let same = ap length (same_text→eq ((c ∷ name) ++ dots) dots e) in
      absurd (omega (arith, same, length-append (c ∷ name) dots))
  | inr e ↦ e
]

module _ {V : Type 0} where
  last_of-snoc : (before : List V) (x : V) → last_of (before ++ x ∷ []) ≡ some x
  last_of-snoc [] x = refl
  last_of-snoc (a ∷ []) x = refl
  last_of-snoc (a ∷ b ∷ before) x = last_of-snoc (b ∷ before) x

  but_last-snoc : (before : List V) (x : V) → but_last (before ++ x ∷ []) ≡ before
  but_last-snoc [] x = refl
  but_last-snoc (a ∷ []) x = refl
  but_last-snoc (a ∷ b ∷ before) x = ap (λ l. a ∷ l) (but_last-snoc (b ∷ before) x)

  -- When the last argument is the symbol "...", and the one before it evaluates to a sequence, the
  -- arguments are those before these two, and the values of the sequence are spread behind them.
  pub unpack-dots :
      (r : Reads V) (eval : V → Result V) (env : List (Frame V)) (before : List V) (x mark v : V)
      (vs : List V)
      → r.symbol mark ≡ some dots
      → eval x ≡ ok v
      → r.as_seq v ≡ some vs
      → unpack_args r eval env ((before ++ x ∷ []) ++ mark ∷ []) ≡ ok (before, vs)
  unfolding unpack_args
  unpack-dots r eval env before x mark v vs marked evaluated values =
      rw
        (
          last_of-snoc (before ++ x ∷ []) mark,
          marked,
          but_last-snoc (before ++ x ∷ []) mark,
          last_of-snoc before x,
          evaluated,
          values,
        )
        (ap (λ l. ok (l, vs)) (but_last-snoc before x))

  -- When the last argument is a name with dots behind it, no frame fails and the outermost frame
  -- does not have the name, spreading it fails with ErrNotFound, whatever frames inside of it bind
  -- the name.
  pub unpack-local :
      (r : Reads V) (eval : V → Result V) (env : List (Frame V)) (top : Frame V) (before : List V)
      (mark : V) (c : ℕ) (name : Name)
      → r.symbol mark ≡ some ((c ∷ name) ++ dots)
      → NoneFails (env ++ top ∷ []) (c ∷ name)
      → top (c ∷ name) ≡ not_found
      → unpack_args r eval (env ++ top ∷ []) (before ++ mark ∷ []) ≡ fail symbol_not_found
  unfolding unpack_args
  unpack-local r eval env top before mark c name marked none_fails absent =
      rw (last_of-snoc before mark, marked, has_dots-append (c ∷ name), not-dots c name)
        (rw
          (
            dotted_suc name,
            take-append name dots,
            resolve-outermost env top (c ∷ name) none_fails,
            absent,
          )
          refl)
