-- ===== src/AnchorPath/Text.antt =====
-- The functions of pkg/util/anchor/path/anchor.go. A path is a valid UTF-8 text, by its runes, and a
-- strings.Builder is the text that was written to it.
use ww.Prelude.{ℕ, Bool, true, ◌&&◌, ◌==◌, if◌then◌else◌, List, [], ◌∷◌, ◌++◌}

abbrev pub Text : Type 0
Text = List ℕ

-- '/'
abbrev pub sep : ℕ
sep = 47

-- The loop of Parts, with what it has in `b` and in `parts`, and the lines behind it
unfoldable pub parts_loop : Text → List Text → Text → List Text
parts_loop [] parts [] = parts
parts_loop (c ∷ b) parts [] = parts ++ (c ∷ b) ∷ []
parts_loop [] parts (r ∷ path) =
    if r == sep then parts_loop [] parts path else parts_loop (r ∷ []) parts path
parts_loop (c ∷ b) parts (r ∷ path) =
    if r == sep
    then parts_loop [] (parts ++ (c ∷ b) ∷ []) path
    else parts_loop ((c ∷ b) ++ r ∷ []) parts path

-- Parts
unfoldable pub parts : Text → List Text
parts path = parts_loop [] [] path

-- What the loop of Clean writes
abbrev pub slashed : List Text → Text
slashed [] = []
slashed (part ∷ rest) = sep ∷ part ++ slashed rest

-- The end of Clean
abbrev pub or_root : Text → Text
or_root [] = sep ∷ []
or_root (r ∷ rs) = r ∷ rs

-- Clean
unfoldable pub clean : Text → Text
clean path = or_root (slashed (parts path))

-- strings.Join(parts, sep)
abbrev pub joined : List Text → Text
joined [] = []
joined (part ∷ []) = part
joined (part ∷ next ∷ rest) = part ++ sep ∷ joined (next ∷ rest)

-- Join
unfoldable pub join : List Text → Text
join ps = clean (joined ps)

-- strings.Trim(path[0], sep) == "": nothing but separators
abbrev pub trims_empty : Text → Bool
trims_empty [] = true
trims_empty (r ∷ rs) = (r == sep) && trims_empty rs

-- Root
unfoldable pub root : List Text → Bool
root [] = true
root (part ∷ rest) = trims_empty part
