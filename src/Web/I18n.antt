-- ===== src/Web/I18n.antt =====
-- The dashboard's texts, web/src/composables/useI18n.ts. Texts are lists of character codes.
pub mod Lookup
use windsurf_to_api_go.Prelude.{
  ℕ, zero, suc, Bool, true, false, not, ◌&&◌, ◌||◌, Option, none, some, List, [], ◌∷◌, ◌++◌, ◌==◌,
  leb, if◌then◌else◌,
}
use windsurf_to_api_go.Prelude.Codes.{Codes, is_empty, same_codes, split, is_digit}

-- A value of a locale file. An array is a table of its indices. What `cur[p]` finds on a prototype is
-- never a text, nor an object that holds one.
mutual
  pub data Value : Type 0 where
    text : Codes → Value
    table : Rows → Value
    other : Value

  pub data Rows : Type 0 where
    no_rows : Rows
    row : Codes → Value → Rows → Rows

unfoldable pub lookup : Rows → Codes → Option Value
unfolding same_codes
lookup no_rows p = none
lookup (row key v rows) p = if same_codes key p then some v else lookup rows p

-- The loop of `resolveKey`, on the parts of the key.
unfoldable pub walk : List Codes → Option Value → Option Value
unfolding lookup
walk [] cur = cur
walk (p ∷ ps) (some (table rows)) = walk ps (lookup rows p)
walk (p ∷ ps) (some (text s)) = none
walk (p ∷ ps) (some other) = none
walk (p ∷ ps) none = none

unfoldable pub resolve_key : Value → Codes → Option Value
unfolding walk split
resolve_key data_ key = walk (split 46 key) (some data_)

-- The values of placeholders, as `String` prints them.
abbrev pub Params : Type 0
Params = List (Codes × Codes)

unfoldable pub param : Params → Codes → Option Codes
unfolding same_codes
param [] k = none
param ((j, v) ∷ ps) k = if same_codes j k then some v else param ps k

-- The characters of `\w`.
abbrev pub is_word : ℕ → Bool
is_word c = is_digit c || (leb 65 c && leb c 90) || c == 95 || (leb 97 c && leb c 122)

abbrev pub value_or_itself : Codes → Option Codes → Codes
value_or_itself k none = 123 ∷ k ++ 125 ∷ []
value_or_itself k (some v) = v

unfoldable pub placeholder : Params → Codes → Codes
unfolding param
placeholder params k = value_or_itself k (param params k)

-- `replace` with the pattern `\{(\w+)\}`: `name` is what follows an open brace, `none` outside of one. A
-- brace whose text does not end as a placeholder stays as it is, and no placeholder has the name of a
-- member of `Object.prototype`.
unfoldable pub replace : Params → Option Codes → Codes → Codes
unfolding placeholder
replace params none [] = []
replace params (some k) [] = 123 ∷ k
replace params none (c ∷ s) =
    let opened = replace params (some []) s in
    let plain = replace params none s in if c == 123 then opened else c ∷ plain
replace params (some k) (c ∷ s) =
    let longer = replace params (some (k ++ c ∷ [])) s in
    let closed = replace params none s in
    let reopened = replace params (some []) s in
    if is_word c
    then longer
    else if c == 125 && not (is_empty k)
    then placeholder params k ++ closed
    else if c == 123
    then 123 ∷ k ++ reopened
    else 123 ∷ k ++ c ∷ closed

unfoldable pub interpolate : Codes → Option Params → Codes
unfolding replace
interpolate s none = s
interpolate s (some params) = replace params none s

pub data Locale : Type 0 where
  zh_cn : Locale
  en : Locale

-- The bundled files, the locale, the override that the server sent, and the locale that is stored.
pub record State : Type 0 where
  pub bundled : Locale → Value
  pub locale : Locale
  pub override_ : Option Value
  pub stored : Option Locale

-- The stored locale, where the storage holds one that is supported, else the browser's own;
-- `speaks_chinese` says that the browser's language starts with `zh`.
unfoldable pub detect_initial_locale : Option Locale → Bool → Locale
detect_initial_locale (some l) speaks_chinese = l
detect_initial_locale none speaks_chinese = if speaks_chinese then zh_cn else en

unfoldable pub fallback_locale : Locale → Locale
fallback_locale zh_cn = en
fallback_locale en = zh_cn

-- A value where it is a text.
abbrev pub as_text : Option Value → Option Codes
as_text (some (text s)) = some s
as_text (some (table rows)) = none
as_text (some other) = none
as_text none = none

abbrev pub override_text : Option Value → Codes → Option Codes
unfolding resolve_key
override_text none key = none
override_text (some data_) key = as_text (resolve_key data_ key)

-- `t`.
unfoldable pub translate : State → Codes → Option Params → Codes
unfolding resolve_key interpolate fallback_locale
translate st key params = elim (override_text (st.override_) key) [
  | some v ↦ interpolate v params
  | none ↦ elim (as_text (resolve_key (st.bundled (st.locale)) key)) [
    | some v ↦ interpolate v params
    | none ↦ elim (as_text (resolve_key (st.bundled (fallback_locale (st.locale))) key)) [
      | some fb ↦ interpolate fb params
      | none ↦ key
    ]
  ]
]

-- `setLocale`; the storage may refuse the write.
unfoldable pub set_locale : Bool → Locale → State → State
set_locale refuses l st = record st {
  locale = l;
  override_ = none;
  stored = if refuses then st.stored else some l;
}

abbrev pub is_object : Value → Bool
is_object (table rows) = true
is_object (text s) = false
is_object other = false

-- `loadFromBackend`, with what the fetch gives: `none` where it fails or its answer is not `ok`.
unfoldable pub load_from_backend : Option Value → Locale → State → State
load_from_backend none l st = st
load_from_backend (some data_) l st =
    if is_object data_ then record st { override_ = some data_; locale = l } else st
