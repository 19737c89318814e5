-- ===== src/Web/Views/HostPort/Shape.antt =====
-- What an address with its port is split into, in web/src/views/Proxy.vue and LoginTake.vue.
use Prim.Native.Char.{Char, code, char}
use Prim.Native.String.append
use Prim.Native.String.{◌++◌ as ◌<>◌}
use windsurf_to_api_go.Prelude.{
  ℕ, zero, suc, ◌+◌, ◌-◌, ◌*◌, ◌≡◌, refl, ap, ◌∙◌, sym, String, true, false, none, some, arith,
  same_iff, Bool-cases, inl, inr,
}
use windsurf_to_api_go.Prelude.Codes.{is_digit}
use windsurf_to_api_go.Prelude.Texts.{trim, is_blank}
use windsurf_to_api_go.Web.Views.HostPort.{
  put_char, split_last, digits_value, one_line, match_parts, match_host_port, split_host_port,
}

-- Digits have no colon.
digits_rest :
    (room value n : ℕ) (c : Char) (s : String)
    → digits_value (suc room) value (String.◌∷◌ c s) ≡ some n
    → is_digit (code c) ≡ true
    → digits_value room (value * 10 + (code c - 48)) s ≡ some n
unfolding digits_value
digits_rest room value n c s h e = sym (rw e refl) ∙ h

digits_first :
    (room value n : ℕ) (c : Char) (s : String)
    → digits_value (suc room) value (String.◌∷◌ c s) ≡ some n
    → is_digit (code c) ≡ true
unfolding digits_value
digits_first room value n c s h = elim (Bool-cases (is_digit (code c))) [
  | inl e ↦ e
  | inr e ↦ absurd (cc)
]

no_colon : (c : Char) (s : String) → is_digit (code c) ≡ true → put_char c s none ≡ none
no_colon c s e = ground arith

no_room :
    (value n : ℕ) (c : Char) (s : String) → digits_value zero value (String.◌∷◌ c s) ≡ some n → ⊥
unfolding digits_value
no_room value n c s h = cc

split_last-digits :
    (room value n : ℕ) (s : String) → digits_value room value s ≡ some n → split_last s ≡ none
unfolding split_last
split_last-digits room value n String.[] h = refl
split_last-digits zero value n (String.◌∷◌ c s) h = absurd (no_room value n c s h)
split_last-digits (suc room) value n (String.◌∷◌ c s) h =
    let e : is_digit (code c) ≡ true = digits_first room value n c s h in
    ap (put_char c s)
      (split_last-digits room (value * 10 + (code c - 48)) n s (digits_rest room value n c s h e))
    ∙ no_colon c s e

colon_first : (port : String) → ("" <> ":" <> port) ≡ String.◌∷◌ (char 58 tt) port
colon_first port =
    append.nil (":" <> port)
    ∙ append.cons (char 58 tt) "" port
    ∙ ap (String.◌∷◌ (char 58 tt)) (append.nil port)

split_last-append :
    (host port : String)
    → split_last port ≡ none
    → split_last (host <> ":" <> port) ≡ some (host, port)
unfolding split_last
split_last-append String.[] port h =
    ap split_last (colon_first port) ∙ ap (put_char (char 58 tt) port) h
split_last-append (String.◌∷◌ c host) port h =
    ap split_last (append.cons c host (":" <> port))
    ∙ ap (put_char c (host <> ":" <> port)) (split_last-append host port h)

match_host_port-append :
    (host port : String) (n : ℕ)
    → is_blank host ≡ false
    → is_blank port ≡ false
    → one_line host ≡ true
    → digits_value 5 0 port ≡ some n
    → match_host_port (host <> ":" <> port) ≡ some (host, n)
unfolding match_host_port match_parts
match_host_port-append host port n named given line digits =
    rw
      (
        match_host_port,
        split_last-append host port (split_last-digits 5 0 n port digits),
        match_parts,
        named,
        given,
        line,
        digits,
      )
      refl

nothing_to_split : (parts : String × String) → split_last "" ≡ some parts → ⊥
unfolding split_last
nothing_to_split parts h = cc

not_blank : (s : String) (parts : String × String) → split_last s ≡ some parts → is_blank s ≡ false
unfolding split_last
not_blank s parts h = elim (Bool-cases (is_blank s)) [
  | inl e ↦ absurd (nothing_to_split parts (sym (ap split_last ((same_iff s "").0 e)) ∙ h))
  | inr e ↦ e
]

-- An address of a host, a colon and one to five digits, with no space around it and an empty port field,
-- becomes the host and the number, whatever colons the host has itself.
pub split_host_port-append :
    (host port : String) (n : ℕ)
    → is_blank host ≡ false
    → is_blank port ≡ false
    → one_line host ≡ true
    → digits_value 5 0 port ≡ some n
    → trim (host <> ":" <> port) ≡ host <> ":" <> port
    → split_host_port (some (host <> ":" <> port)) none ≡ (some host, some n)
unfolding split_host_port
split_host_port-append host port n named given line digits trimmed =
    rw
      (
        split_host_port,
        not_blank (host <> ":" <> port) (host, port)
            (split_last-append host port (split_last-digits 5 0 n port digits)),
        trimmed,
        match_host_port-append host port n named given line digits,
      )
      refl
