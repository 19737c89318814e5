-- ===== src/Prelude/Codes.antt =====
-- Texts as lists of character codes, for the code that looks at single characters: letters of ASCII,
-- `split` and `join`. A code from 128 on has no case here.
use Prim.Native.Nat.{ℕ, ◌+◌, ◌-◌}
use mathlib.Core.Bool.{Bool, true, false, ◌&&◌}
use mathlib.Core.List.{List, [], ◌∷◌, ◌++◌, map}
use windsurf_to_api_go.Prelude.Tests.{leb, ◌==◌, if◌then◌else◌}

abbrev pub Codes : Type 0
Codes = List ℕ

abbrev pub is_empty : Codes → Bool
is_empty [] = true
is_empty (c ∷ cs) = false

unfoldable pub same_codes : Codes → Codes → Bool
same_codes [] [] = true
same_codes [] (d ∷ ds) = false
same_codes (c ∷ cs) [] = false
same_codes (c ∷ cs) (d ∷ ds) = c == d && same_codes cs ds

abbrev pub is_digit : ℕ → Bool
is_digit c = leb 48 c && leb c 57

abbrev pub upper : ℕ → ℕ
upper c = if leb 97 c && leb c 122 then c - 32 else c

abbrev pub lower : ℕ → ℕ
lower c = if leb 65 c && leb c 90 then c + 32 else c

abbrev pub to_upper : Codes → Codes
to_upper s = map upper s

abbrev pub to_lower : Codes → Codes
to_lower s = map lower s

-- The text before the first separator, put in front of the first part.
abbrev pub onto_first : ℕ → List Codes → List Codes
onto_first c [] = (c ∷ []) ∷ []
onto_first c (p ∷ ps) = (c ∷ p) ∷ ps

-- `strings.Split` and `split`, for a separator of one character: there is always a part.
unfoldable pub split : ℕ → Codes → List Codes
split sep [] = [] ∷ []
split sep (c ∷ s) = let parts = split sep s in if c == sep then [] ∷ parts else onto_first c parts

-- `strings.Join` and `join`.
unfoldable pub join : Codes → List Codes → Codes
join sep [] = []
join sep (p ∷ []) = p
join sep (p ∷ q ∷ ps) = p ++ sep ++ join sep (q ∷ ps)
