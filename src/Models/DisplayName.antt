-- ===== src/Models/DisplayName.antt =====
-- `DisplayName` of internal/models/scoring.go, on keys of ASCII characters, as lists of codes.
use windsurf_to_api_go.Prelude.{
  ℕ, Bool, true, false, ◌&&◌, ◌||◌, List, [], ◌∷◌, ◌++◌, ◌==◌, leb, ltb, if◌then◌else◌,
}
use windsurf_to_api_go.Prelude.Codes.{
  Codes, is_empty, same_codes, upper, to_upper, to_lower, split, join,
}

unfoldable pub all_digits : Codes → Bool
all_digits [] = true
all_digits (r ∷ s) = if ltb r 48 || ltb 57 r then false else all_digits s

unfoldable pub is_pure_digits : Codes → Bool
unfolding all_digits
is_pure_digits [] = false
is_pure_digits (r ∷ s) = all_digits (r ∷ s)

-- The characters `.`, `b`, `B`, `m`, `M`, `k` and `K`.
abbrev pub is_version_mark : ℕ → Bool
is_version_mark r = r == 46 || r == 98 || r == 66 || r == 109 || r == 77 || r == 107 || r == 75

unfoldable pub versionish_loop : Bool → Codes → Bool
versionish_loop has_digit [] = has_digit
versionish_loop has_digit (r ∷ s) =
    let with_digit = versionish_loop true s in
    let skip = versionish_loop has_digit s in
    if leb 48 r && leb r 57 then with_digit else if is_version_mark r then skip else false

unfoldable pub is_versionish : Codes → Bool
unfolding versionish_loop
is_versionish s = versionish_loop false s

-- The cases of the `switch`: `gpt`, `glm`, `swe` and `oss`.
unfoldable pub is_acronym : Codes → Bool
unfolding same_codes
is_acronym p =
    same_codes (to_lower p) (103 ∷ 112 ∷ 116 ∷ [])
    || same_codes (to_lower p) (103 ∷ 108 ∷ 109 ∷ [])
    || same_codes (to_lower p) (115 ∷ 119 ∷ 101 ∷ [])
    || same_codes (to_lower p) (111 ∷ 115 ∷ 115 ∷ [])

-- `strings.ToUpper(p[:1]) + p[1:]`.
abbrev pub capital : Codes → Codes
capital [] = []
capital (c ∷ cs) = upper c ∷ cs

-- The segment itself, where it is not merged with the next one.
unfoldable pub display_part : Codes → Codes
unfolding is_versionish
display_part p = if is_versionish p then to_upper p else capital p

-- The loop over the segments, from one of them on; `out` holds the words so far.
unfoldable pub display_loop : List Codes → List Codes → List Codes
unfolding is_acronym is_pure_digits display_part
display_loop [] out = out
display_loop (p ∷ []) out =
    if is_empty p
    then out
    else if is_acronym p
    then out ++ to_upper p ∷ []
    else out ++ display_part p ∷ []
display_loop (p ∷ q ∷ ps) out =
    let skip = display_loop (q ∷ ps) out in
    let shout = display_loop (q ∷ ps) (out ++ to_upper p ∷ []) in
    let merge = display_loop ps (out ++ (p ++ 46 ∷ q) ∷ []) in
    let plain = display_loop (q ∷ ps) (out ++ display_part p ∷ []) in
    if is_empty p
    then skip
    else if is_acronym p
    then shout
    else if is_pure_digits p && is_pure_digits q
    then merge
    else plain

unfoldable pub display_name : Codes → Codes
unfolding split join display_loop
display_name key = join (32 ∷ []) (display_loop (split 45 key) [])
