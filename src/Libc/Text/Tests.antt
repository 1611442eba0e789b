-- ===== src/Libc/Text/Tests.antt =====
-- Runs of string.c's functions, and their theorems at concrete texts.
use onix.Base.{ℕ, ◌≡◌, refl, some, List, [], ◌∷◌}
use onix.Base.Int.{pos}
use onix.Libc.Text.{strchr, strrchr, first_match, last_match}
use onix.Libc.Text.Copy.{text}

-- "ab"
abbrev ab : List ℕ
ab = 97 ∷ 98 ∷ []

strchr_twice :
    (strchr (text (97 ∷ 98 ∷ 97 ∷ []) []) (pos 97) ≡ some (some 0))
    × (strrchr (text (97 ∷ 98 ∷ 97 ∷ []) []) (pos 97) ≡ some (some 2))
unfolding strchr strrchr first_match last_match
strchr_twice = (refl, refl)
