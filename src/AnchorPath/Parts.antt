-- ===== src/AnchorPath/Parts.antt =====
-- What Parts, Clean, Join and Root of pkg/util/anchor/path/anchor.go have to do with each other.
use ww.Prelude.{
  ◌≤◌, length, length-append, subst, ◌&&◌, if◌then◌else◌, ℕ, ◌≡◌, ◌∙◌, ◌↔◌, refl, ap, sym, arith,
  true, false, Bool-cases, inl, inr, ◌==◌, List, [], ◌∷◌, ◌++◌, append_snoc, append_nil,
}
use ww.AnchorPath.Text.{
  Text, sep, parts_loop, parts, slashed, or_root, clean, joined, join, trims_empty, root,
}

-- No rune of the text is a separator.
abbrev pub NoSep : Text → Type 0
NoSep [] = Unit
NoSep (r ∷ rs) = ((r == sep) ≡ false) × NoSep rs

-- A component: not empty, and with no separator.
abbrev pub IsPart : Text → Type 0
IsPart [] = ⊥
IsPart (r ∷ rs) = NoSep (r ∷ rs)

abbrev pub AllParts : List Text → Type 0
AllParts [] = Unit
AllParts (p ∷ ps) = IsPart p × AllParts ps

NoSep-snoc : (rs : Text) (r : ℕ) → NoSep rs → (r == sep) ≡ false → NoSep (rs ++ r ∷ [])
NoSep-snoc [] r h e = (e, tt)
NoSep-snoc (x ∷ rs) r (hx, h) e = (hx, NoSep-snoc rs r h e)

AllParts-snoc : (ps : List Text) (p : Text) → AllParts ps → IsPart p → AllParts (ps ++ p ∷ [])
AllParts-snoc [] p h hp = (hp, tt)
AllParts-snoc (q ∷ ps) p (hq, h) hp = (hq, AllParts-snoc ps p h hp)

parts_loop-AllParts :
    (b : Text) (ps : List Text) (path : Text)
    → NoSep b
    → AllParts ps
    → AllParts (parts_loop b ps path)
unfolding parts_loop
parts_loop-AllParts [] ps [] hb h = h
parts_loop-AllParts (c ∷ b) ps [] hb h = AllParts-snoc ps (c ∷ b) h hb
parts_loop-AllParts [] ps (r ∷ path) hb h = elim (Bool-cases (r == sep)) [
  | inl e ↦ rw e (parts_loop-AllParts [] ps path tt h)
  | inr e ↦ rw e (parts_loop-AllParts (r ∷ []) ps path (e, tt) h)
]
parts_loop-AllParts (c ∷ b) ps (r ∷ path) hb h = elim (Bool-cases (r == sep)) [
  | inl e ↦
      rw e (parts_loop-AllParts [] (ps ++ (c ∷ b) ∷ []) path tt (AllParts-snoc ps (c ∷ b) h hb))
  | inr e ↦ rw e (parts_loop-AllParts ((c ∷ b) ++ r ∷ []) ps path (NoSep-snoc (c ∷ b) r hb e) h)
]

-- Every component that Parts returns is not empty and has no separator.
pub parts-AllParts : (path : Text) → AllParts (parts path)
unfolding parts
parts-AllParts path = parts_loop-AllParts [] [] path tt tt

-- Runes that are no separator are added to the component.
parts_loop-NoSep :
    (c : ℕ) (b w : Text) (ps : List Text) (rest : Text)
    → NoSep w
    → parts_loop (c ∷ b) ps (w ++ rest) ≡ parts_loop ((c ∷ b) ++ w) ps rest
unfolding parts_loop
parts_loop-NoSep c b [] ps rest h = ap (λ t. parts_loop (c ∷ t) ps rest) (sym (append_nil b))
parts_loop-NoSep c b (r ∷ w) ps rest (e, h) = rw e (
    parts_loop-NoSep c (b ++ r ∷ []) w ps rest h
    ∙ ap (λ t. parts_loop (c ∷ t) ps rest) (append_snoc b r w))

parts_loop-part :
    (p : Text) (ps : List Text) (rest : Text)
    → IsPart p
    → parts_loop [] ps (p ++ rest) ≡ parts_loop p ps rest
unfolding parts_loop
parts_loop-part [] ps rest h = absurd h
parts_loop-part (r ∷ p) ps rest (e, h) = rw e (parts_loop-NoSep r [] p ps rest h)

-- A separator, or the end, completes a component.
parts_loop-flush :
    (p : Text) (ps : List Text) (rest : Text)
    → IsPart p
    → parts_loop p ps (sep ∷ rest) ≡ parts_loop [] (ps ++ p ∷ []) rest
unfolding parts_loop
parts_loop-flush [] ps rest h = absurd h
parts_loop-flush (c ∷ p) ps rest h = refl

parts_loop-end : (p : Text) (ps : List Text) → IsPart p → parts_loop p ps [] ≡ ps ++ p ∷ []
unfolding parts_loop
parts_loop-end [] ps h = absurd h
parts_loop-end (c ∷ p) ps h = refl

parts_loop-joined :
    (p : Text) (qs acc : List Text)
    → AllParts (p ∷ qs)
    → parts_loop [] acc (joined (p ∷ qs)) ≡ acc ++ p ∷ qs
parts_loop-joined p [] acc (hp, h) =
    ap (λ t. parts_loop [] acc t) (sym (append_nil p))
    ∙ parts_loop-part p acc [] hp
    ∙ parts_loop-end p acc hp
parts_loop-joined p (q ∷ qs) acc (hp, h) =
    parts_loop-part p acc (sep ∷ joined (q ∷ qs)) hp
    ∙ parts_loop-flush p acc (joined (q ∷ qs)) hp
    ∙ parts_loop-joined q qs (acc ++ p ∷ []) h
    ∙ append_snoc acc p (q ∷ qs)

parts-joined : (ps : List Text) → AllParts ps → parts (joined ps) ≡ ps
unfolding parts parts_loop
parts-joined [] h = refl
parts-joined (p ∷ qs) h = parts_loop-joined p qs [] h

-- A leading separator is skipped.
slashed-joined : (p : Text) (qs : List Text) → slashed (p ∷ qs) ≡ sep ∷ joined (p ∷ qs)
slashed-joined p [] = ap (λ t. sep ∷ t) (append_nil p)
slashed-joined p (q ∷ qs) = ap (λ t. sep ∷ p ++ t) (slashed-joined q qs)

clean_shape :
    (path : Text) (p : Text) (qs : List Text) → parts path ≡ p ∷ qs → clean path ≡ slashed (p ∷ qs)
unfolding clean
clean_shape path p qs e = ap (λ ps. or_root (slashed ps)) e

clean_root : (path : Text) → parts path ≡ [] → clean path ≡ sep ∷ []
unfolding clean
clean_root path e = ap (λ ps. or_root (slashed ps)) e

parts-sep : (rest : Text) → parts (sep ∷ rest) ≡ parts rest
unfolding parts parts_loop
parts-sep rest = refl

parts-clean_by :
    (path : Text) (ps : List Text) → parts path ≡ ps → AllParts ps → parts (clean path) ≡ ps
parts-clean_by path [] e h = ap parts (clean_root path e) ∙ parts-sep [] ∙ parts-joined [] tt
parts-clean_by path (p ∷ qs) e h =
    ap parts (clean_shape path p qs e ∙ slashed-joined p qs)
    ∙ parts-sep (joined (p ∷ qs))
    ∙ parts-joined (p ∷ qs) h

-- Clean keeps the components of a path.
pub parts-clean : (path : Text) → parts (clean path) ≡ parts path
parts-clean path = parts-clean_by path (parts path) refl (parts-AllParts path)

-- A path that is cleaned twice is the path that is cleaned once.
pub clean-clean : (path : Text) → clean (clean path) ≡ clean path
unfolding clean
clean-clean path = ap (λ ps. or_root (slashed ps)) (parts-clean path)

-- Parts of the Join of components, each of them not empty and without a separator, are these
-- components.
pub parts-join : (ps : List Text) → AllParts ps → parts (join ps) ≡ ps
unfolding join
parts-join ps h = parts-clean (joined ps) ∙ parts-joined ps h

-- The loop keeps what it has: it returns at least that many components.
parts_loop_keeps :
    (b : Text) (ps : List Text) (path : Text) → length ps ≤ length (parts_loop b ps path)
unfolding parts_loop
parts_loop_keeps [] ps [] = omega arith
parts_loop_keeps (c ∷ b) ps [] = omega (arith, length-append ps ((c ∷ b) ∷ []))
parts_loop_keeps [] ps (r ∷ path) = elim (Bool-cases (r == sep)) [
  | inl e ↦ rw e (parts_loop_keeps [] ps path)
  | inr e ↦ rw e (parts_loop_keeps (r ∷ []) ps path)
]
parts_loop_keeps (c ∷ b) ps (r ∷ path) = elim (Bool-cases (r == sep)) [
  | inl e ↦ rw e (
      omega (arith, length-append ps ((c ∷ b) ∷ []), parts_loop_keeps [] (ps ++ (c ∷ b) ∷ []) path))
  | inr e ↦ rw e (parts_loop_keeps ((c ∷ b) ++ r ∷ []) ps path)
]

-- A component that was begun is returned.
parts_loop_begun : (c : ℕ) (b : Text) (path : Text) → 1 ≤ length (parts_loop (c ∷ b) [] path)
unfolding parts_loop
parts_loop_begun c b [] = omega arith
parts_loop_begun c b (r ∷ path) = elim (Bool-cases (r == sep)) [
  | inl e ↦ rw e (parts_loop_keeps [] ((c ∷ b) ∷ []) path)
  | inr e ↦ rw e (parts_loop_begun c (b ++ r ∷ []) path)
]

trims_empty-parts : (path : Text) → trims_empty path ≡ true → parts path ≡ []
unfolding parts parts_loop
trims_empty-parts [] h = refl
trims_empty-parts (r ∷ path) h = elim (Bool-cases (r == sep)) [
  | inl e ↦ rw e (trims_empty-parts path (subst (λ b. (b && trims_empty path) ≡ true) e h))
  | inr e ↦ absurd (ground (arith, subst (λ b. (b && trims_empty path) ≡ true) e h))
]

parts-trims_empty : (path : Text) → parts path ≡ [] → trims_empty path ≡ true
unfolding parts parts_loop
parts-trims_empty [] h = refl
parts-trims_empty (r ∷ path) h = elim (Bool-cases (r == sep)) [
  | inl e ↦ rw e (
      parts-trims_empty path
        (subst (λ b. (if b then parts_loop [] [] path else parts_loop (r ∷ []) [] path) ≡ []) e h))
  | inr e ↦ absurd (
      omega (
        arith,
        parts_loop_begun r [] path,
        ap length (
            subst (λ b. (if b then parts_loop [] [] path else parts_loop (r ∷ []) [] path) ≡ []) e
              h),
      ))
]

-- Root is true of a list of texts that is not empty exactly when Parts finds no component in the
-- first of them.
pub root-parts : (part : Text) (rest : List Text) → (root (part ∷ rest) ≡ true) ↔ (parts part ≡ [])
unfolding root
root-parts part rest = (trims_empty-parts part, parts-trims_empty part)
