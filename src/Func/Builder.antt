-- ===== src/Func/Builder.antt =====
-- FuncBuilder of pkg/lang/core/func.go. Its methods queue stages, which Commit runs; a stage is
-- the closure of the source with the values that it captures.
use ww.Prelude.{
  same_text, ℕ, zero, suc, ◌-◌, Bool, true, false, if◌then◌else◌, ◌==◌, leb, ◌&&◌, List, [], ◌∷◌,
  ◌++◌, length, take, drop, Option, none, some, pos, Error, Result, ok, fail, ◌>>=◌,
  invalid_signature, not_symbol, no_signatures, panic,
}
use ww.Vector.Data.{Vector}
use ww.Vector.Methods
use ww.Func.Data.{Name, Forms, Params, nilary, Params, Func, Fn, CallSignature}

-- The stages of Start, SetMacro, SetName and AddTarget, and the one with which AddSeq passes an
-- error on. The body of a target is `none` where it is nil.
pub data Stage (A : Type 0) : Type 0 where
  start_stage : Stage A
  macro_stage : Bool → Stage A
  name_stage : Name → Stage A
  target_stage : (args : A) → (body : Option (List A)) → Stage A
  error_stage : Error → Stage A

pub record FuncBuilder (A : Type 0) : Type 0 where
  pub fn : Fn A
  pub sigs : List (CallSignature A)
  pub stages : List (Stage A)

-- "..."
abbrev pub dots : Name
dots = 46 ∷ 46 ∷ 46 ∷ []

-- strings.HasSuffix(last, "...")
abbrev pub has_dots : Name → Bool
has_dots s = leb 3 (length s) && same_text (drop (length s - 3) s) dots

-- The end of readParams: a variadic last parameter loses its dots.
abbrev pub strip_dots : List Name → List Name × Bool
strip_dots [] = ([], false)
strip_dots (last ∷ []) =
    if has_dots last then (take (length last - 3) last ∷ [], true) else (last ∷ [], false)
strip_dots (p ∷ q ∷ ps) = let (rest, variadic) = strip_dots (q ∷ ps) in (p ∷ rest, variadic)

module _ {A : Type 0} where
  abbrev pub zeroed_fn : Fn A
  zeroed_fn = record { macro = false; name = none; funcs = [] }

  abbrev pub add_stage : Stage A → FuncBuilder A → FuncBuilder A
  add_stage stage b = record { fn = b.fn; sigs = b.sigs; stages = b.stages ++ stage ∷ [] }

  -- Start
  abbrev pub start : FuncBuilder A → FuncBuilder A
  start b = record { fn = b.fn; sigs = []; stages = start_stage ∷ [] }

  -- SetMacro
  abbrev pub set_macro : Bool → FuncBuilder A → FuncBuilder A
  set_macro macro b = add_stage (macro_stage macro) b

  -- SetName
  abbrev pub set_name : Name → FuncBuilder A → FuncBuilder A
  set_name name b = add_stage (name_stage name) b

  -- AddTarget
  abbrev pub add_target : A → Option (List A) → FuncBuilder A → FuncBuilder A
  add_target args body b = add_stage (target_stage args body) b

  -- AddSeq, after ToSlice: `sig` and `err` are what that returned.
  unfoldable pub add_seq : List A → Option Error → FuncBuilder A → Result (FuncBuilder A)
  add_seq [] err b = fail panic
  add_seq (args ∷ body) none b = ok (add_target args (some body) b)
  add_seq (args ∷ body) (some e) b = ok (add_target args (some body) (add_stage (error_stage e) b))

  -- (callSignature).populateParams and populateBody
  unfoldable pub populate : CallSignature A → Func A
  populate sig = elim (sig.params) [
    | [] ↦ record { params = nilary; variadic = false; body = sig.body }
    | p ∷ ps ↦ record { params = Params.params (p ∷ ps); variadic = sig.variadic; body = sig.body }
  ]

  abbrev pub populate_all : List (CallSignature A) → List (Func A)
  populate_all [] = []
  populate_all (sig ∷ sigs) = populate sig ∷ populate_all sigs

  -- setFuncs
  unfoldable pub set_funcs : FuncBuilder A → Result (Fn A)
  set_funcs b =
      if length b.sigs == 0
      then fail no_signatures
      else ok (record { macro = b.fn.macro; name = b.fn.name; funcs = populate_all b.sigs })

module _ {A : Type 0} ⦃f : Forms A⦄ where
  -- The loop of readParams, with `left` rounds to go
  unfoldable pub read_symbols : (left : ℕ) → ℕ → Vector A → Result (List Name)
  read_symbols zero i v = ok []
  read_symbols (suc left) i v = do
    entry ← Methods.entry_at v (pos i)
    elim (f.symbol entry) [
      | none ↦ fail not_symbol
      | some s ↦ do ps ← read_symbols left (suc i) v; ok (s ∷ ps)
    ]

  -- readParams
  unfoldable pub read_params : Vector A → Result (List Name × Bool)
  read_params v = do ps ← read_symbols (Methods.count v) 0 v; ok (strip_dots ps)

  -- The closure of AddTarget, on a body that is not nil
  unfoldable pub add_signature : Option (Vector A) → List A → FuncBuilder A → Result (FuncBuilder A)
  add_signature none body b = fail invalid_signature
  add_signature (some v) body b = do
    (ps, variadic) ← read_params v
    let sig : CallSignature A = record { params = ps; variadic = variadic; body = body }
    ok (record { fn = b.fn; sigs = b.sigs ++ sig ∷ []; stages = b.stages })

  -- The closures that the methods queue
  unfoldable pub run_stage : Stage A → FuncBuilder A → Result (FuncBuilder A)
  run_stage start_stage b = ok (record { fn = zeroed_fn; sigs = b.sigs; stages = b.stages })
  run_stage (macro_stage macro) b = ok (record {
    fn = record { macro = macro; name = b.fn.name; funcs = b.fn.funcs };
    sigs = b.sigs;
    stages = b.stages;
  })
  run_stage (name_stage name) b =
      let given : Option Name = elim name [ [] ↦ none | x ∷ xs ↦ some (x ∷ xs) ] in
      ok (record {
        fn = record { macro = b.fn.macro; name = given; funcs = b.fn.funcs };
        sigs = b.sigs;
        stages = b.stages;
      })
  run_stage (error_stage e) b = fail e
  run_stage (target_stage args none) b = fail invalid_signature
  run_stage (target_stage args (some body)) b = add_signature (f.as_vector args) body b

  unfoldable pub run_stages : List (Stage A) → FuncBuilder A → Result (FuncBuilder A)
  run_stages [] b = ok b
  run_stages (stage ∷ stages) b = do b' ← run_stage stage b; run_stages stages b'

  -- Commit, with the state that it leaves the builder in
  unfoldable pub commit : FuncBuilder A → Result (Fn A × FuncBuilder A)
  commit b = do
    b' ← run_stages b.stages b
    fn ← set_funcs b'
    ok (fn, record { fn = fn; sigs = b'.sigs; stages = b'.stages })
