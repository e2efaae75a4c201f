-- ===== src/AnchorPath/Examples.antt =====
-- Runs of the path functions, and their theorems at concrete inputs.
use ww.Prelude.{◌≡◌, refl, true, List, [], ◌∷◌}
use ww.AnchorPath.Text.{Text, parts_loop, parts, clean, join, root}
use ww.AnchorPath.Parts.{parts-join}

-- "//a/b/"
abbrev ab_path : Text
ab_path = 47 ∷ 47 ∷ 97 ∷ 47 ∷ 98 ∷ 47 ∷ []

abbrev ab_parts : List Text
ab_parts = (97 ∷ []) ∷ (98 ∷ []) ∷ []

runs :
    (parts ab_path ≡ ab_parts)
    × (clean ab_path ≡ 47 ∷ 97 ∷ 47 ∷ 98 ∷ [])
    × (clean [] ≡ 47 ∷ [])
    × (root ((47 ∷ []) ∷ []) ≡ true)
unfolding parts parts_loop clean root
runs = (refl, refl, refl, refl)

parts-join_example : parts (join ab_parts) ≡ ab_parts
parts-join_example = parts-join ab_parts ((refl, tt), ((refl, tt), tt))
