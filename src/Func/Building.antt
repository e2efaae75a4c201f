-- ===== src/Func/Building.antt =====
-- A function that FuncBuilder of pkg/lang/core/func.go builds from targets: what it stores.
use ww.Prelude.{
  Bool-cases, inl, inr, false, append_snoc, append_nil, ℕ, suc, ◌≡◌, ◌∙◌, refl, ap, sym, Bool, List,
  [], ◌∷◌, ◌++◌, length, some, ok, ◌>>=◌, Ensures, arith, ne→eq,
}
use ww.Vector.Data.{Vector}
use ww.Vector.Contents.{Holds}
use ww.Func.Data.{nilary, params, Func, Name, Forms, CallSignature}
use ww.Func.Builder.{
  Stage, target_stage, FuncBuilder, populate, strip_dots, has_dots, start, set_macro, set_name,
  add_target, run_stage, add_signature, run_stages, commit, set_funcs, populate_all,
}
use ww.Func.Params.{Named, read_params-Named}

module _ {A : Type 0} ⦃f : Forms A⦄ where
  -- AddTarget for each pair of arguments and body
  abbrev pub add_targets : List (A × List A) → FuncBuilder A → FuncBuilder A
  add_targets [] b = b
  add_targets ((args, body) ∷ targets) b = add_targets targets (add_target args (some body) b)

  -- Each target's arguments are a vector of symbols, and the signature has their names, less the
  -- dots of a rest parameter, and the target's body.
  abbrev pub Declares : List (A × List A) → List (CallSignature A) → Type 0
  Declares [] [] = Unit
  Declares ((args, body) ∷ targets) (sig ∷ sigs) =
      ((v : Vector A) × (xs : List A) × (names : List Name) × (f.as_vector args ≡ some v)
        × Holds v xs
        × Named xs names
        × (sig ≡ record {
          params = (strip_dots names).0;
          variadic = (strip_dots names).1;
          body = body;
        }))
      × Declares targets sigs
  Declares [] (sig ∷ sigs) = ⊥
  Declares (t ∷ targets) [] = ⊥

  abbrev target_stages : List (A × List A) → List (Stage A)
  target_stages [] = []
  target_stages ((args, body) ∷ targets) = target_stage args (some body) ∷ target_stages targets

  add_targets-stages :
      (targets : List (A × List A)) (b : FuncBuilder A)
      → add_targets targets b
        ≡ record { fn = b.fn; sigs = b.sigs; stages = b.stages ++ target_stages targets }
  add_targets-stages [] b = rw (append_nil b.stages) refl
  add_targets-stages ((args, body) ∷ targets) b =
      add_targets-stages targets (add_target args (some body) b)
      ∙ ap (λ s. record { fn = b.fn; sigs = b.sigs; stages = s })
          (append_snoc b.stages (target_stage args (some body)) (target_stages targets))

  -- The stage of one target appends its signature.
  run_stage-target :
      (args : A) (body : List A) (sig : CallSignature A) (b : FuncBuilder A)
      → Declares ((args, body) ∷ []) (sig ∷ [])
      → run_stage (target_stage args (some body)) b
        ≡ ok (record { fn = b.fn; sigs = b.sigs ++ sig ∷ []; stages = b.stages })
  unfolding run_stage add_signature
  run_stage-target args body sig b ((v, xs, names, e, holds, named, same), _) =
      rw (e, read_params-Named v xs names holds named, same) refl

  run_stages-targets :
      (targets : List (A × List A)) (sigs : List (CallSignature A)) (b : FuncBuilder A)
      → Declares targets sigs
      → run_stages (target_stages targets) b
        ≡ ok (record { fn = b.fn; sigs = b.sigs ++ sigs; stages = b.stages })
  unfolding run_stages
  run_stages-targets [] [] b h =
      ap (λ s. ok (record { fn = b.fn; sigs = s; stages = b.stages })) (sym (append_nil b.sigs))
  run_stages-targets ((args, body) ∷ targets) (sig ∷ sigs) b (h, rest) =
      ap (λ r. r >>= (λ b'. run_stages (target_stages targets) b'))
        (run_stage-target args body sig b (h, tt))
      ∙ run_stages-targets targets sigs
          (record { fn = b.fn; sigs = b.sigs ++ sig ∷ []; stages = b.stages }) rest
      ∙ ap (λ s. ok (record { fn = b.fn; sigs = s; stages = b.stages }))
          (append_snoc b.sigs sig sigs)
  run_stages-targets [] (sig ∷ sigs) b h = absurd h
  run_stages-targets (t ∷ targets) [] b h = absurd h

  -- The builder after Start, SetMacro and SetName
  abbrev pub started : Bool → Name → FuncBuilder A → FuncBuilder A
  started macro name b = set_name name (set_macro macro (start b))

  -- What Commit does with the stages of these methods and of AddTarget.
  commit-stages :
      (b : FuncBuilder A) (macro : Bool) (c : ℕ) (name : Name) (targets : List (A × List A))
      (sig : CallSignature A) (sigs : List (CallSignature A))
      → Declares targets (sig ∷ sigs)
      → Ensures
          (commit (record {
            fn = b.fn;
            sigs = [];
            stages = (started macro (c ∷ name) b).stages ++ target_stages targets;
          }))
          (λ r.
            r.0
            ≡ record { macro = macro; name = some (c ∷ name); funcs = populate_all (sig ∷ sigs) })
  unfolding commit run_stages run_stage set_funcs
  commit-stages b macro c name targets sig sigs h =
      let ready : FuncBuilder A = record {
        fn = record { macro = macro; name = some (c ∷ name); funcs = [] };
        sigs = [];
        stages = (started macro (c ∷ name) b).stages ++ target_stages targets;
      } in
      rw
        (run_stages-targets targets (sig ∷ sigs) ready h, ne→eq (suc (length sigs)) 0 (omega arith))
        ((_, _), refl, refl)

  -- What is stored of a target with these parameters
  abbrev pub stored : List Name → List A → Func A
  stored [] body = record { params = nilary; variadic = false; body = body }
  stored (p ∷ ps) body = record {
    params = params (strip_dots (p ∷ ps)).0;
    variadic = (strip_dots (p ∷ ps)).1;
    body = body;
  }

  -- Each target's arguments are a vector of symbols, and its function has their names, less the dots
  -- of a rest parameter, and the target's body.
  abbrev pub Stored : List (A × List A) → List (Func A) → Type 0
  Stored [] [] = Unit
  Stored ((args, body) ∷ targets) (g ∷ gs) =
      ((v : Vector A) × (xs : List A) × (names : List Name) × (f.as_vector args ≡ some v)
        × Holds v xs
        × Named xs names
        × (g ≡ stored names body))
      × Stored targets gs
  Stored [] (g ∷ gs) = ⊥
  Stored (t ∷ targets) [] = ⊥

  populate-stored :
      (names : List Name) (body : List A)
      → populate
          (record { params = (strip_dots names).0; variadic = (strip_dots names).1; body = body })
        ≡ stored names body
  unfolding populate
  populate-stored [] body = refl
  populate-stored (p ∷ []) body = elim (Bool-cases (has_dots p)) [
    | inl e ↦ rw e refl
    | inr e ↦ rw e refl
  ]
  populate-stored (p ∷ q ∷ ps) body = refl

  -- The signatures that the stages make of such targets.
  Stored-Declares :
      (targets : List (A × List A)) (gs : List (Func A))
      → Stored targets gs
      → (sigs : List (CallSignature A)) × Declares targets sigs × (populate_all sigs ≡ gs)
  Stored-Declares [] [] h = ([], tt, refl)
  Stored-Declares ((args, body) ∷ targets) (g ∷ gs) ((v, xs, names, e, holds, named, same), h) =
      let (sigs, d, p) = Stored-Declares targets gs h in
      (
        record { params = (strip_dots names).0; variadic = (strip_dots names).1; body = body }
            ∷ sigs,
        ((v, xs, names, e, holds, named, refl), d),
        cc (populate-stored names body, same, p),
      )
  Stored-Declares [] (g ∷ gs) h = absurd h
  Stored-Declares (t ∷ targets) [] h = absurd h

  commit-sigs :
      (b : FuncBuilder A) (macro : Bool) (c : ℕ) (name : Name) (targets : List (A × List A))
      (sigs : List (CallSignature A)) (g : Func A) (gs : List (Func A))
      → Declares targets sigs
      → populate_all sigs ≡ g ∷ gs
      → Ensures
          (commit (add_targets targets (started macro (c ∷ name) b)))
          (λ r. r.0 ≡ record { macro = macro; name = some (c ∷ name); funcs = g ∷ gs })
  commit-sigs b macro c name targets [] g gs h e = absurd (ground (arith, e))
  commit-sigs b macro c name targets (sig ∷ sigs) g gs h e =
      rw (add_targets-stages targets (started macro (c ∷ name) b)) (
        let (r, done, shape) = commit-stages b macro c name targets sig sigs h in
        (r, done, shape ∙ ap (λ l. record { macro = macro; name = some (c ∷ name); funcs = l }) e))

  -- Start, SetMacro, SetName with a name, AddTarget once or more and Commit: whatever the builder
  -- did before, when every target has a vector of symbols, this succeeds, and the function has the
  -- flag, the name, and one stored target for each, in order.
  pub commit-Stored :
      (b : FuncBuilder A) (macro : Bool) (c : ℕ) (name : Name) (targets : List (A × List A))
      (g : Func A) (gs : List (Func A))
      → Stored targets (g ∷ gs)
      → Ensures
          (commit (add_targets targets (started macro (c ∷ name) b)))
          (λ r. r.0 ≡ record { macro = macro; name = some (c ∷ name); funcs = g ∷ gs })
  commit-Stored b macro c name targets g gs h =
      let (sigs, d, p) = Stored-Declares targets (g ∷ gs) h in
      commit-sigs b macro c name targets sigs g gs d p
