-- ===== src/Func/Params.antt =====
-- readParams of pkg/lang/core/func.go on a vector of symbols.
use ww.Prelude.{
  ℕ, suc, ◌+◌, ◌-◌, ◌≡◌, ◌∙◌, refl, ap, subst, arith, true, false, List, [], ◌∷◌, ◌++◌, length,
  length-append, get_elem?, take, drop, some, ok, le→leb,
}
use ww.Vector.Data.{Vector}
use ww.Vector.Contents.{Holds}
use ww.Func.Data.{Name, Forms}
use ww.Func.Builder.{dots, has_dots, strip_dots, read_symbols, read_params}

pub drop_append {ℓ} : {A : Type ℓ} → (s t : List A) → drop (length s) (s ++ t) ≡ t
drop_append [] t = refl
drop_append (x ∷ s) t = drop_append s t

pub take_append {ℓ} : {A : Type ℓ} → (s t : List A) → take (length s) (s ++ t) ≡ s
take_append [] t = refl
take_append (x ∷ s) t = ap (λ l. x ∷ l) (take_append s t)

length-dots : (s : Name) → length (s ++ dots) - 3 ≡ length s
length-dots s = omega (arith, length-append s dots)

has_dots-append : (s : Name) → has_dots (s ++ dots) ≡ true
has_dots-append s =
    rw
      (
        le→leb 3 (length (s ++ dots)) (omega (arith, length-append s dots)),
        length-dots s,
        drop_append s dots,
      )
      refl

-- A last parameter with three dots behind it is a rest parameter, and loses them; the others stay.
strip_dots-variadic :
    (ps : List Name) (s : Name) → strip_dots (ps ++ (s ++ dots) ∷ []) ≡ (ps ++ s ∷ [], true)
strip_dots-variadic [] s = rw (has_dots-append s) (rw (length-dots s, take_append s dots) refl)
strip_dots-variadic (p ∷ []) s = rw (strip_dots-variadic [] s) refl
strip_dots-variadic (p ∷ q ∷ ps) s = rw (strip_dots-variadic (q ∷ ps) s) refl

strip_dots-plain :
    (ps : List Name) (s : Name)
    → has_dots s ≡ false
    → strip_dots (ps ++ s ∷ []) ≡ (ps ++ s ∷ [], false)
strip_dots-plain [] s h = rw h refl
strip_dots-plain (p ∷ []) s h = rw h refl
strip_dots-plain (p ∷ q ∷ ps) s h = rw (strip_dots-plain (q ∷ ps) s h) refl

module _ {A : Type 0} ⦃f : Forms A⦄ where
  -- The values are symbols with these texts.
  abbrev pub Named : List A → List Name → Type 0
  Named [] [] = Unit
  Named (x ∷ xs) (n ∷ ns) = (f.symbol x ≡ some n) × Named xs ns
  Named [] (n ∷ ns) = ⊥
  Named (x ∷ xs) [] = ⊥

  read_symbols-Named :
      (v : Vector A) (xs rest : List A) (names : List Name) (i : ℕ)
      → Holds v xs
      → Named rest names
      → ((k : ℕ) (x : A) → get_elem? rest k ≡ some x → get_elem? xs (i + k) ≡ some x)
      → read_symbols (length rest) i v ≡ ok names
  unfolding read_symbols
  read_symbols-Named v xs [] [] i h named at = refl
  read_symbols-Named v xs (x ∷ rest) (n ∷ names) i h (e, named) at =
      let here : i + 0 ≡ i = omega arith in
      let read = h.at i x (subst (λ k. get_elem? xs k ≡ some x) here (at 0 x refl)) in
      rw
        (
          read,
          e,
          read_symbols-Named v xs rest names (suc i) h named (λ k y p.
              let same : i + suc k ≡ suc i + k = omega arith in
              subst (λ m. get_elem? xs m ≡ some y) same (at (suc k) y p)),
        )
        refl
  read_symbols-Named v xs [] (n ∷ names) i h named at = absurd named
  read_symbols-Named v xs (x ∷ rest) [] i h named at = absurd named

  pub read_params-Named :
      (v : Vector A) (xs : List A) (names : List Name)
      → Holds v xs
      → Named xs names
      → read_params v ≡ ok (strip_dots names)
  unfolding read_params
  read_params-Named v xs names h named =
      rw
        (
          h.size,
          read_symbols-Named v xs xs names 0 h named (λ k x e.
              let same : k ≡ 0 + k = omega arith in subst (λ m. get_elem? xs m ≡ some x) same e),
        )
        refl

  -- readParams of a vector of symbols, the last of which ends in three dots, succeeds with the
  -- texts of the symbols, the last without the dots, and says variadic.
  pub read_params-variadic :
      (v : Vector A) (xs : List A) (ps : List Name) (s : Name)
      → Holds v xs
      → Named xs (ps ++ (s ++ dots) ∷ [])
      → read_params v ≡ ok (ps ++ s ∷ [], true)
  read_params-variadic v xs ps s h named =
      read_params-Named v xs (ps ++ (s ++ dots) ∷ []) h named ∙ ap ok (strip_dots-variadic ps s)

  -- readParams of a vector of symbols, the last of which does not end in three dots, succeeds with
  -- the texts of the symbols, and does not say variadic.
  pub read_params-plain :
      (v : Vector A) (xs : List A) (ps : List Name) (s : Name)
      → Holds v xs
      → Named xs (ps ++ s ∷ [])
      → has_dots s ≡ false
      → read_params v ≡ ok (ps ++ s ∷ [], false)
  read_params-plain v xs ps s h named plain =
      read_params-Named v xs (ps ++ s ∷ []) h named ∙ ap ok (strip_dots-plain ps s plain)
