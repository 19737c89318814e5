-- ===== src/Web/I18n/Lookup.antt =====
-- What a reader of the dashboard sees for a key: the text of the first place that has one.
use windsurf_to_api_go.Prelude.{
  ℕ, Bool, true, false, not, ◌&&◌, Option, none, some, [], ◌∷◌, ◌++◌, ◌==◌, ==_iff, Bool-cases, inl,
  inr, ◌≡◌, refl, sym, ap, ◌∙◌,
}
use mathlib.Core.List.{append_assoc, append-nil}
use windsurf_to_api_go.Prelude.Codes.{Codes, is_empty}
use windsurf_to_api_go.Web.I18n.{
  Params, param, is_word, value_or_itself, placeholder, replace, interpolate, Locale, State,
  fallback_locale, as_text, resolve_key, translate, override_text,
}

and_left : (a b : Bool) → (a && b) ≡ true → a ≡ true
and_left true b h = refl
and_left false b h = h

open_text : Option Codes → Codes
open_text none = []
open_text (some k) = 123 ∷ k

placeholder-absent :
    (params : Params) (k : Codes)
    → param params k ≡ none
    → placeholder params k ≡ 123 ∷ (k ++ 125 ∷ [])
unfolding placeholder
placeholder-absent params k h = ap (value_or_itself k) h

replace-nothing :
    (params : Params) (name : Option Codes) (s : Codes)
    → ((k : Codes) → param params k ≡ none)
    → replace params name s ≡ open_text name ++ s
unfolding replace open_text
replace-nothing params none [] h = refl
replace-nothing params (some k) [] h = ap (λ t. 123 ∷ t) (sym (append-nil k))
replace-nothing params none (c ∷ s) h = elim (Bool-cases (c == 123)) [
  | inl e ↦
      rw e (replace-nothing params (some []) s h ∙ ap (λ (d : ℕ). d ∷ s) (sym ((==_iff c 123).0 e)))
  | inr e ↦ rw e (ap (λ t. c ∷ t) (replace-nothing params none s h))
]
replace-nothing params (some k) (c ∷ s) h = elim (Bool-cases (is_word c)) [
  | inl w ↦ rw w (
      replace-nothing params (some (k ++ c ∷ [])) s h
      ∙ ap (λ t. 123 ∷ t) (append_assoc k (c ∷ []) s))
  | inr w ↦ elim (Bool-cases (c == 125 && not (is_empty k))) [
    | inl e ↦
        let closing : c ≡ 125 = (==_iff c 125).0 (and_left _ _ e) in
        rw (w, e, placeholder-absent params k (h k), replace-nothing params none s h)
          (ap (λ t. 123 ∷ t) (append_assoc k (125 ∷ []) s)
            ∙ ap (λ (d : ℕ). 123 ∷ (k ++ d ∷ s)) (sym closing))
    | inr e ↦ elim (Bool-cases (c == 123)) [
      | inl f ↦
          rw (w, e, f, replace-nothing params (some []) s h)
            (ap (λ (d : ℕ). 123 ∷ (k ++ d ∷ s)) (sym ((==_iff c 123).0 f)))
      | inr f ↦ rw (w, e, f, replace-nothing params none s h) refl
    ]
  ]
]

-- Without values for its placeholders, every text is shown as it is.
pub interpolate-no_params : (s : Codes) → interpolate s (some []) ≡ s
unfolding interpolate open_text param
interpolate-no_params s = replace-nothing [] none s (λ k. refl)

-- The first of two texts that is there.
unfoldable pub first_text : Option Codes → Option Codes → Option Codes
first_text (some a) o = some a
first_text none o = o

-- The text of a key in a bundled file.
unfoldable pub bundled_text : State → Locale → Codes → Option Codes
unfolding resolve_key
bundled_text st l key = as_text (resolve_key (st.bundled l) key)

unfoldable pub shown : Option Codes → Codes → Option Params → Codes
unfolding interpolate
shown none key params = key
shown (some s) key params = interpolate s params

texts :
    (a b c : Option Codes) (key : Codes) (params : Option Params)
    → elim a [
      | some v ↦ interpolate v params
      | none ↦ elim b [
        | some v ↦ interpolate v params
        | none ↦ elim c [ some fb ↦ interpolate fb params | none ↦ key ]
      ]
    ]
      ≡ shown (first_text a (first_text b c)) key params
unfolding shown first_text
texts (some a) b c key params = refl
texts none (some b) c key params = refl
texts none none (some c) key params = refl
texts none none none key params = refl

-- `t` shows the text of the override, else that of the locale, else that of the other locale, with its
-- placeholders filled in; if none of the three has a text for the key, the key itself.
pub translate_lem :
    (st : State) (key : Codes) (params : Option Params)
    → translate st key params
      ≡ shown
          (first_text (override_text (st.override_) key) (
            first_text
              (bundled_text st (st.locale) key)
              (bundled_text st (fallback_locale (st.locale)) key)))
          key
          params
unfolding translate shown first_text bundled_text
translate_lem st key params =
    texts (override_text (st.override_) key) (bundled_text st (st.locale) key)
      (bundled_text st (fallback_locale (st.locale)) key) key params
