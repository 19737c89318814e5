-- ===== src/Prelude/Texts.antt =====
-- What the dashboard does to texts: trimming, lower case of ASCII letters, searching and joining.
use Prim.Native.Nat.{ℕ, zero, suc, ◌-◌}
use Prim.Native.Char.{Char, code}
use Prim.Native.String.{String, ◌++◌ as ◌<>◌, len, find, slice}
use mathlib.Core.Bool.{Bool, ◌&&◌, ◌||◌}
use mathlib.Core.List.{List, [], ◌∷◌}
use mathlib.Core.Option.{Option, none, some}
use windsurf_to_api_go.Prelude.Tests.{leb, ◌==◌, same, if◌then◌else◌}

-- The white space of JavaScript's `trim`.
abbrev is_space : ℕ → Bool
is_space c =
    leb 9 c && leb c 13
    || c == 32
    || c == 160
    || c == 5760
    || leb 8192 c && leb c 8202
    || c == 8232
    || c == 8233
    || c == 8239
    || c == 8287
    || c == 12288
    || c == 65279

unfoldable trim_start : String → String
trim_start String.[] = ""
trim_start (String.◌∷◌ c s) =
    let rest = trim_start s in if is_space (code c) then rest else String.◌∷◌ c s

unfoldable trim_end : String → String
trim_end String.[] = ""
trim_end (String.◌∷◌ c s) =
    let rest = trim_end s in if is_space (code c) && same rest "" then "" else String.◌∷◌ c rest

unfoldable pub trim : String → String
unfolding trim_start trim_end
trim s = trim_end (trim_start s)

-- `needle` occurs in `s`.
unfoldable pub includes : String → String → Bool
includes s needle = leb (find s needle) (len s)

unfoldable pub join_texts : String → List String → String
join_texts sep [] = ""
join_texts sep (s ∷ []) = s
join_texts sep (s ∷ t ∷ rest) = s <> sep <> join_texts sep (t ∷ rest)

-- `slice(0, n)`, by characters.
unfoldable pub first_chars : ℕ → String → String
first_chars zero s = ""
first_chars (suc n) String.[] = ""
first_chars (suc n) (String.◌∷◌ c s) = String.◌∷◌ c (first_chars n s)

abbrev pub is_blank : String → Bool
is_blank s = same s ""

-- `t || undefined`.
abbrev pub or_undefined : String → Option String
or_undefined s = if same s "" then none else some s

abbrev pub after_first : String → String
after_first String.[] = ""
after_first (String.◌∷◌ c s) = s

-- `toLowerCase` and `toUpperCase`, which change the letters of ASCII here.
abbrev lower_char : Char → String
lower_char c =
    if leb 65 (code c) && leb (code c) 90
    then slice "abcdefghijklmnopqrstuvwxyz" (code c - 65) (code c - 64)
    else String.◌∷◌ c ""

abbrev upper_char : Char → String
upper_char c =
    if leb 97 (code c) && leb (code c) 122
    then slice "ABCDEFGHIJKLMNOPQRSTUVWXYZ" (code c - 97) (code c - 96)
    else String.◌∷◌ c ""

unfoldable pub lower_text : String → String
lower_text String.[] = ""
lower_text (String.◌∷◌ c s) = lower_char c <> lower_text s

unfoldable pub upper_text : String → String
upper_text String.[] = ""
upper_text (String.◌∷◌ c s) = upper_char c <> upper_text s
