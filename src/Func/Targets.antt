-- ===== src/Func/Targets.antt =====
-- Which call target Match of pkg/lang/core/func.go chooses.
use ww.Prelude.{
  ℕ, ◌+◌, ◌-◌, ◌≤◌, ◌≡◌, ◌∙◌, refl, ap, arith, Bool, true, false, List, [], ◌∷◌, ◌++◌, length, take,
  ok, fail, arity, le→leb, lt→leb, eq_self, ne→eq,
}
use ww.Func.Data.{Name, Params, nilary, params, Func, Fn}
use ww.Func.Match.{FuncAnalyzer, fn_name, takes, analyzer_after, match_funcs, match_fn}

-- A target with these parameters takes this many arguments: none where it has no parameters, as many
-- as its parameters, or, when it is variadic, at least as many as those before the last.
abbrev pub Takes : Params → Bool → ℕ → Type 0
Takes nilary variadic n = n ≡ 0
Takes (params ps) true n = length ps ≤ n + 1
Takes (params ps) false n = n ≡ length ps

-- What matchArity leaves of the names in the analyzer
abbrev names_of : Params → List Name → List Name
names_of nilary ps = ps
names_of (params qs) ps = qs

abbrev analyzer_of : List Name → FuncAnalyzer
analyzer_of ps = record { ps = ps; nparam = length ps }

Takes-takes : (p : Params) (v : Bool) (n : ℕ) → Takes p v n → takes p v n ≡ true
Takes-takes nilary v n h = rw h refl
Takes-takes (params ps) true n h = le→leb (length ps - 1) n (omega arith)
Takes-takes (params ps) false n h = rw h (eq_self (length ps))

takes_not : (p : Params) (v : Bool) (n : ℕ) → ¬ (Takes p v n) → takes p v n ≡ false
takes_not nilary v n h = ne→eq n 0 h
takes_not (params ps) true n h = lt→leb (length ps - 1) n (omega arith)
takes_not (params ps) false n h = ne→eq n (length ps) h

-- After a round, the analyzer has the names of the target, or those that it had.
analyzer_after-names :
    (p : Params) (ps : List Name) → analyzer_after p (analyzer_of ps) ≡ analyzer_of (names_of p ps)
analyzer_after-names nilary ps = refl
analyzer_after-names (params qs) ps = refl

take_all {ℓ} : {A : Type ℓ} → (ps : List A) → take (length ps) ps ≡ ps
take_all [] = refl
take_all (p ∷ ps) = ap (λ l. p ∷ l) (take_all ps)

module _ {A : Type 0} where
  abbrev pub Accepts : Func A → ℕ → Type 0
  Accepts f n = Takes f.params f.variadic n

  abbrev pub NoneAccepts : List (Func A) → ℕ → Type 0
  NoneAccepts [] n = Unit
  NoneAccepts (f ∷ fs) n = (¬ (Accepts f n)) × NoneAccepts fs n

  -- The names that the analyzer is left with by targets that did not match.
  abbrev pub names_left : List (Func A) → List Name → List Name
  names_left [] ps = ps
  names_left (f ∷ fs) ps = names_left fs (names_of f.params ps)

  match-first :
      (before : List (Func A)) (f : Func A) (after : List (Func A)) (name : Name) (n : ℕ)
      (ps : List Name)
      → NoneAccepts before n
      → Accepts f n
      → match_funcs (before ++ f ∷ after) name n (analyzer_of ps)
        ≡ ok (record {
          name = name;
          param = names_left (before ++ f ∷ []) ps;
          variadic = f.variadic;
          body = f.body;
        })
  unfolding match_funcs
  match-first [] f after name n ps none_before h =
      rw
        (
          Takes-takes f.params f.variadic n h,
          analyzer_after-names f.params ps,
          take_all (names_of f.params ps),
        )
        refl
  match-first (g ∷ before) f after name n ps (here, none_before) h =
      rw (takes_not g.params g.variadic n here, analyzer_after-names g.params ps)
        (match-first before f after name n (names_of g.params ps) none_before h)

  match-none :
      (fs : List (Func A)) (name : Name) (n : ℕ) (ps : List Name)
      → NoneAccepts fs n
      → match_funcs fs name n (analyzer_of ps) ≡ fail arity
  unfolding match_funcs
  match-none [] name n ps h = refl
  match-none (f ∷ fs) name n ps (here, rest) =
      rw (takes_not f.params f.variadic n here, analyzer_after-names f.params ps)
        (match-none fs name n (names_of f.params ps) rest)

  names_left-params :
      (before : List (Func A)) (f : Func A) (ps qs : List Name)
      → f.params ≡ params qs
      → names_left (before ++ f ∷ []) ps ≡ qs
  names_left-params [] f ps qs e = rw e refl
  names_left-params (g ∷ before) f ps qs e = names_left-params before f (names_of g.params ps) qs e

  names_left-nilary :
      (before : List (Func A)) (f : Func A) (ps : List Name)
      → f.params ≡ nilary
      → names_left (before ++ f ∷ []) ps ≡ names_left before ps
  names_left-nilary [] f ps e = rw e refl
  names_left-nilary (g ∷ before) f ps e = names_left-nilary before f (names_of g.params ps) e

  -- Match chooses the first target that takes the number of arguments: when that target has
  -- parameters and no target before it takes them, the result is its parameters, its flag and its
  -- body, under the name of the function.
  pub match_fn-Accepts :
      (fn : Fn A) (before : List (Func A)) (f : Func A) (after : List (Func A)) (qs : List Name)
      (n : ℕ)
      → fn.funcs ≡ before ++ f ∷ after
      → NoneAccepts before n
      → Accepts f n
      → f.params ≡ params qs
      → match_fn fn n
        ≡ ok (record { name = fn_name fn; param = qs; variadic = f.variadic; body = f.body })
  unfolding match_fn fn_name
  match_fn-Accepts fn before f after qs n split none_before h e = rw split (
      match-first before f after (fn_name fn) n [] none_before h
      ∙ rw (names_left-params before f [] qs e) refl)

  -- When the first target that takes the number of arguments has no parameters, the result has its
  -- flag and its body, and the parameters of the last target before it that has any.
  pub match_fn-nilary :
      (fn : Fn A) (before : List (Func A)) (f : Func A) (after : List (Func A)) (n : ℕ)
      → fn.funcs ≡ before ++ f ∷ after
      → NoneAccepts before n
      → Accepts f n
      → f.params ≡ nilary
      → match_fn fn n
        ≡ ok (record {
          name = fn_name fn;
          param = names_left before [];
          variadic = f.variadic;
          body = f.body;
        })
  unfolding match_fn fn_name
  match_fn-nilary fn before f after n split none_before h e = rw split (
      match-first before f after (fn_name fn) n [] none_before h
      ∙ rw (names_left-nilary before f [] e) refl)

  -- Match is ErrArity when no target of the function takes the number of arguments.
  pub match_fn-out : (fn : Fn A) (n : ℕ) → NoneAccepts fn.funcs n → match_fn fn n ≡ fail arity
  unfolding match_fn
  match_fn-out fn n h = match-none fn.funcs (fn_name fn) n [] h
