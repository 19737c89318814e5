-- ===== src/Web/ModelName.antt =====
-- `displayModelName` of web/src/utils/modelName.ts, on keys of ASCII characters, as lists of codes.
pub mod Agreement
use windsurf_to_api_go.Prelude.{
  ℕ, zero, suc, ◌+◌, Bool, true, false, ◌&&◌, ◌||◌, not, Option, none, some, List, [], ◌∷◌, ◌++◌,
  ◌==◌, leb, ltb, length, if◌then◌else◌,
}
use windsurf_to_api_go.Prelude.Codes.{
  Codes, is_empty, same_codes, is_digit, upper, to_upper, to_lower, split, join,
}

-- The set `ACRONYMS`.
abbrev pub acronyms : List Codes
acronyms =
    (103 ∷ 112 ∷ 116 ∷ [])
    ∷ (103 ∷ 108 ∷ 109 ∷ [])
    ∷ (115 ∷ 119 ∷ 101 ∷ [])
    ∷ (111 ∷ 115 ∷ 115 ∷ [])
    ∷ []

unfoldable pub has : List Codes → Codes → Bool
unfolding same_codes
has [] s = false
has (w ∷ ws) s = same_codes s w || has ws s

unfoldable pub version_loop : Codes → Bool → Bool
version_loop [] has_digit = has_digit
version_loop (c ∷ s) has_digit =
    let with_digit = version_loop s true in
    let skip = version_loop s has_digit in
    if is_digit c
    then with_digit
    else if c == 46 || c == 98 || c == 66 || c == 109 || c == 77 || c == 107 || c == 75
    then skip
    else false

unfoldable pub is_versionish : Codes → Bool
unfolding version_loop
is_versionish s = if is_empty s then false else version_loop s false

unfoldable pub digits_loop : Codes → Bool
digits_loop [] = true
digits_loop (c ∷ s) = let more = digits_loop s in if ltb c 48 || ltb 57 c then false else more

unfoldable pub is_pure_digits : Codes → Bool
unfolding digits_loop
is_pure_digits s = if is_empty s then false else digits_loop s

-- `parts[i]`, where it is within bounds.
abbrev pub at : List Codes → ℕ → Option Codes
at [] i = none
at (p ∷ ps) zero = some p
at (p ∷ ps) (suc i) = at ps i

-- `i + 1 < parts.length && isPureDigits(parts[i + 1])`: that part.
unfoldable pub digits_at : List Codes → ℕ → Option Codes
unfolding is_pure_digits
digits_at parts i = elim (at parts i) [
  | none ↦ none
  | some next ↦ if is_pure_digits next then some next else none
]

abbrev pub capital : Codes → Codes
capital [] = []
capital (c ∷ cs) = upper c ∷ cs

-- The loop at index `i`, with the pieces pushed so far. Each round adds one or two to `i`, so the count
-- of the parts is enough fuel.
unfoldable pub name_loop : ℕ → List Codes → ℕ → List Codes → List Codes
unfolding has digits_at is_versionish is_pure_digits
name_loop zero parts i out = out
name_loop (suc fuel) parts i out = elim (at parts i) [
  | none ↦ out
  | some seg ↦
      if is_empty seg
      then name_loop fuel parts (suc i) out
      else if has acronyms (to_lower seg)
      then name_loop fuel parts (suc i) (out ++ to_upper seg ∷ [])
      else elim (if is_pure_digits seg then digits_at parts (suc i) else none) [
        | some next ↦ name_loop fuel parts (suc (suc i)) (out ++ (seg ++ 46 ∷ next) ∷ [])
        | none ↦
            name_loop fuel parts (suc i)
              (out ++ (if is_versionish seg then to_upper seg else capital seg) ∷ [])
      ]
]

unfoldable pub display_model_name : Codes → Codes
unfolding split join name_loop
display_model_name id =
    if is_empty id then [] else join (32 ∷ []) (name_loop (length (split 45 id)) (split 45 id) 0 [])
