-- ===== src/Lang/Binding.antt =====
-- What local variables a call of pkg/lang/expr.go has.
use ww.Prelude.{
  ℕ, suc, ◌+◌, ◌-◌, ◌≤◌, ◌≡◌, ◌∙◌, refl, sym, ap, subst, arith, Bool, true, false, if◌then◌else◌,
  le→leb, lt→leb, List, [], ◌∷◌, ◌++◌, length, get_elem?, append_nil, append_snoc, some, Result, ok,
  ◌>>=◌,
}
use ww.Func.Data.{Name, params, Func, Fn}
use ww.Func.Match.{fn_name}
use ww.Func.Targets.{Takes, Accepts, NoneAccepts, match_fn-Accepts}
use ww.Lang.Call.{one, many, Locals, bind_args, bind_rest, locals, call}

-- From place `i` on, the parameters are `ps`.
record Tail (param : List Name) (i : ℕ) (ps : List Name) : Type 0 where
  long : length param ≡ i + length ps
  at : (k : ℕ) → get_elem? param (i + k) ≡ get_elem? ps k

first-at :
    (param : List Name) (i : ℕ) (p : Name) (ps : List Name)
    → Tail param i (p ∷ ps)
    → get_elem? param i ≡ some p
first-at param i p ps t =
    let here : i + 0 ≡ i = omega arith in ap (λ j. get_elem? param j) (sym here) ∙ t.at 0

later-Tail :
    (param : List Name) (i : ℕ) (p : Name) (ps : List Name)
    → Tail param i (p ∷ ps)
    → Tail param (suc i) ps
later-Tail param i p ps t = record {
  long = omega (arith, t.long);
  at = λ k.
      let same : suc i + k ≡ i + suc k = omega arith in
      ap (λ j. get_elem? param j) same ∙ t.at (suc k);
}

whole-Tail : (ps : List Name) → Tail ps 0 ps
whole-Tail ps = record {
  long = omega arith;
  at = λ k. (let same : 0 + k ≡ k = omega arith in ap (λ j. get_elem? ps j) same);
}

module _ {V : Type 0} where
  -- Parameters and arguments, one for one
  abbrev pub zip_locals : List Name → List V → Locals V
  zip_locals [] vs = []
  zip_locals (p ∷ ps) [] = []
  zip_locals (p ∷ ps) (v ∷ vs) = (p, one v) ∷ zip_locals ps vs

  -- The last parameter has the list of the arguments that are left; it has no value if none is.
  abbrev pub rest_locals : List Name → List V → Locals V
  rest_locals [] vs = []
  rest_locals (p ∷ []) [] = []
  rest_locals (p ∷ []) (v ∷ vs) = (p, many (v ∷ vs)) ∷ []
  rest_locals (p ∷ q ∷ ps) [] = []
  rest_locals (p ∷ q ∷ ps) (v ∷ vs) = (p, one v) ∷ rest_locals (q ∷ ps) vs

  abbrev pub bound_locals : Bool → List Name → List V → Locals V
  bound_locals variadic ps vs = if variadic then rest_locals ps vs else zip_locals ps vs

  abbrev pub oks : List V → List (Result V)
  oks [] = []
  oks (v ∷ vs) = ok v ∷ oks vs

  length-oks : (vs : List V) → length (oks vs) ≡ length vs
  length-oks [] = refl
  length-oks (v ∷ vs) = omega (arith, length-oks vs)

  bind_args-zip :
      (param : List Name) (i : ℕ) (scope : Locals V) (ps : List Name) (vs : List V)
      → Tail param i ps
      → length vs ≡ length ps
      → bind_args param false i scope [] (oks vs) ≡ ok (scope ++ zip_locals ps vs, [])
  unfolding bind_args
  bind_args-zip param i scope [] [] t e = ap (λ s. ok (s, [])) (sym (append_nil scope))
  bind_args-zip param i scope [] (v ∷ vs) t e = absurd (omega (arith, e))
  bind_args-zip param i scope (p ∷ ps) [] t e = absurd (omega (arith, e))
  bind_args-zip param i scope (p ∷ ps) (v ∷ vs) t e = rw (first-at param i p ps t) (
      bind_args-zip param (suc i) (scope ++ (p, one v) ∷ []) ps vs (later-Tail param i p ps t)
        (omega (arith, e))
      ∙ ap (λ s. ok (s, [])) (append_snoc scope (p, one v) (zip_locals ps vs)))

  bind_args-collect :
      (param : List Name) (i : ℕ) (scope : Locals V) (vargs vs : List V)
      → length param ≤ i + 1
      → bind_args param true i scope vargs (oks vs) ≡ ok (scope, vargs ++ vs)
  unfolding bind_args
  bind_args-collect param i scope vargs [] le = ap (λ l. ok (scope, l)) (sym (append_nil vargs))
  bind_args-collect param i scope vargs (v ∷ vs) le = rw (le→leb (length param) (i + 1) le) (
      bind_args-collect param (suc i) scope (vargs ++ v ∷ []) vs (omega arith)
      ∙ ap (λ l. ok (scope, l)) (append_snoc vargs v vs))

  bind_rest-last :
      (param : List Name) (i : ℕ) (scope : Locals V) (p : Name) (vs : List V)
      → Tail param i (p ∷ [])
      → bind_rest param scope vs ≡ ok (scope ++ rest_locals (p ∷ []) vs)
  bind_rest-last param i scope p [] t = ap (λ s. ok s) (sym (append_nil scope))
  bind_rest-last param i scope p (v ∷ vs) t =
      let last : length param - 1 ≡ i = omega (arith, t.long) in
      rw (last, first-at param i p [] t) refl

  bind_args-rest :
      (param : List Name) (i : ℕ) (scope : Locals V) (p : Name) (ps : List Name) (vs : List V)
      → Tail param i (p ∷ ps)
      → length ps ≤ length vs
      → (bind_args param true i scope [] (oks vs) >>= λ r. bind_rest param r.0 r.1)
        ≡ ok (scope ++ rest_locals (p ∷ ps) vs)
  unfolding bind_args
  bind_args-rest param i scope p [] vs t le =
      ap (λ m. m >>= λ r. bind_rest param r.0 r.1)
        (bind_args-collect param i scope [] vs (omega (arith, t.long)))
      ∙ bind_rest-last param i scope p vs t
  bind_args-rest param i scope p (q ∷ ps) [] t le = absurd (omega (arith, le))
  bind_args-rest param i scope p (q ∷ ps) (v ∷ vs) t le =
      rw (lt→leb (length param) (i + 1) (omega (arith, t.long)), first-at param i p (q ∷ ps) t)
        (bind_args-rest param (suc i) (scope ++ (p, one v) ∷ []) q ps vs
            (later-Tail param i p (q ∷ ps) t) (omega (arith, le))
          ∙ ap (λ s. ok s) (append_snoc scope (p, one v) (rest_locals (q ∷ ps) vs)))

  locals-bound :
      (variadic : Bool) (p : Name) (ps : List Name) (vs : List V)
      → Takes (params (p ∷ ps)) variadic (length vs)
      → locals (p ∷ ps) variadic (oks vs) ≡ ok (bound_locals variadic (p ∷ ps) vs)
  unfolding locals
  locals-bound true p ps vs h =
      bind_args-rest (p ∷ ps) 0 [] p ps vs (whole-Tail (p ∷ ps)) (omega (arith, h))
  locals-bound false p ps vs h =
      ap (λ m. m >>= λ r. bind_rest (p ∷ ps) r.0 r.1)
        (bind_args-zip (p ∷ ps) 0 [] (p ∷ ps) vs (whole-Tail (p ∷ ps)) h)

  -- When Match chooses a target with parameters for the number of arguments, all of which evaluate,
  -- the call goes on with that target and binds its parameters to the arguments one for one; of a
  -- variadic target the last parameter gets the list of the arguments that are left, and no binding
  -- if there is none. No index is out of range.
  pub call-Binds :
      (fn : Fn V) (before : List (Func V)) (f : Func V) (after : List (Func V)) (p : Name)
      (ps : List Name) (vs : List V)
      → fn.funcs ≡ before ++ f ∷ after
      → NoneAccepts before (length vs)
      → Accepts f (length vs)
      → f.params ≡ params (p ∷ ps)
      → call fn (oks vs)
        ≡ ok (
          record { name = fn_name fn; param = p ∷ ps; variadic = f.variadic; body = f.body },
          bound_locals f.variadic (p ∷ ps) vs,
        )
  unfolding call
  call-Binds fn before f after p ps vs split none_before h e =
      let takes_them : Takes (params (p ∷ ps)) f.variadic (length vs) =
        subst (λ q. Takes q f.variadic (length vs)) e h in
      rw
        (
          length-oks vs,
          match_fn-Accepts fn before f after (p ∷ ps) (length vs) split none_before h e,
          locals-bound f.variadic p ps vs takes_them,
        )
        refl
