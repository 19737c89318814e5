-- ===== src/Web/Views/HostPort.antt =====
-- The pattern /^(.+):(\d{1,5})$/ that web/src/views/Proxy.vue and web/src/views/LoginTake.vue match an
-- address against: a host, the last colon and a port of one to five digits.
pub mod Shape
use Prim.Native.Char.{Char, code}
use Prim.Native.String
use Prim.Native.String.{◌++◌ as ◌<>◌}
use windsurf_to_api_go.Prelude.{
  ℕ, zero, suc, ◌+◌, ◌-◌, ◌*◌, String, Bool, true, false, not, ◌&&◌, ◌||◌, Option, none, some, ◌==◌,
  leb, if◌then◌else◌,
}
use windsurf_to_api_go.Prelude.Codes.{is_digit}
use windsurf_to_api_go.Prelude.Texts.{is_blank, trim}
use windsurf_to_api_go.Web.Request.{or_empty}

-- The texts before and after the last colon: those of the rest of the text, with a character in front, or
-- the split at this character.
abbrev pub put_char : Char → String → Option (String × String) → Option (String × String)
put_char c s (some parts) = some (String.◌∷◌ c parts.0, parts.1)
put_char c s none = if code c == 58 then some ("", s) else none

unfoldable pub split_last : String → Option (String × String)
split_last String.[] = none
split_last (String.◌∷◌ c s) = put_char c s (split_last s)

-- The value of the digits, at most `room` of them, where all characters are digits.
unfoldable pub digits_value : ℕ → ℕ → String → Option ℕ
digits_value room value String.[] = some value
digits_value zero value (String.◌∷◌ c s) = none
digits_value (suc room) value (String.◌∷◌ c s) =
    let rest = digits_value room (value * 10 + (code c - 48)) s in
    if is_digit (code c) then rest else none

-- `.` stands for any character but the ends of lines.
abbrev ends_line : ℕ → Bool
ends_line c = c == 10 || c == 13 || c == 8232 || c == 8233

unfoldable pub one_line : String → Bool
one_line String.[] = true
one_line (String.◌∷◌ c s) = not (ends_line (code c)) && one_line s

unfoldable pub match_parts : String → String → Option (String × ℕ)
unfolding digits_value one_line
match_parts host port =
    if is_blank host || is_blank port || not (one_line host)
    then none
    else elim (digits_value 5 0 port) [ none ↦ none | some n ↦ some (host, n) ]

unfoldable pub match_host_port : String → Option (String × ℕ)
unfolding split_last match_parts
match_host_port s = elim (split_last s) [ none ↦ none | some parts ↦ match_parts parts.0 parts.1 ]

abbrev pub has_port : Option ℕ → Bool
has_port none = false
has_port (some n) = not (n == 0)

-- The host and port that are left where the port field was empty and the host field holds both.
unfoldable pub split_host_port : Option String → Option ℕ → Option String × Option ℕ
unfolding match_host_port trim
split_host_port host port =
    if is_blank (or_empty host) || has_port port
    then (host, port)
    else elim (match_host_port (trim (or_empty host))) [
      | none ↦ (host, port)
      | some found ↦ (some found.0, some found.1)
    ]
