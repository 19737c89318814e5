-- ===== src/Web/Views/Overview/Format.antt =====
-- web/src/views/Overview.vue: how numbers are shown. They are not negative: the server counts them.
use Prim.Native.String.{◌++◌ as ◌<>◌}
use windsurf_to_api_go.Prelude.{
  ℕ, zero, suc, ◌*◌, ◌/◌, ◌%◌, ◌^◌, String, not, Option, none, some, ◌==◌, ltb, leb, if◌then◌else◌,
}
use windsurf_to_api_go.Prelude.Numbers.{
  Fraction, at_least, is_zero, show, fixed_one, fixed_two, fixed_four, round_div,
}

unfoldable pub score_tone : ℕ → String
score_tone score =
    if leb 90 score
    then "primary"
    else if leb 80 score
    then "success"
    else if leb 70 score
    then "info"
    else if leb 60 score
    then "warning"
    else "muted"

unfoldable pub format_uptime : ℕ → String
unfolding show
format_uptime seconds =
    let d = seconds / 86400 in
    let h = seconds % 86400 / 3600 in
    let m = seconds % 3600 / 60 in
    if seconds == 0
    then "-"
    else if not (d == 0)
    then show d <> "天 " <> show h <> "小时"
    else if not (h == 0)
    then show h <> "小时 " <> show m <> "分"
    else show m <> "分钟"

abbrev unit : ℕ → String
unit i =
    if i == 0
    then "B"
    else if i == 1
    then "KB"
    else if i == 2
    then "MB"
    else if i == 3
    then "GB"
    else "TB"

-- The loop divides by 1024 until the value is below 1024, four times at most: the number of divisions,
-- of `n / den` with `left` of the four to go.
unfoldable pub unit_loop : ℕ → ℕ → ℕ → ℕ
unit_loop zero n den = 0
unit_loop (suc left) n den =
    let more = suc (unit_loop left n (1024 * den)) in if leb (1024 * den) n then more else 0

unfoldable pub fmt_bytes : ℕ → String
unfolding unit_loop fixed_one fixed_two show
fmt_bytes n =
    let i = unit_loop 4 n 1 in
    let den = 1024 ^ i in
    if n == 0
    then "0 B"
    else (if ltb n (10 * den)
        then fixed_two n den
        else if ltb n (100 * den)
        then fixed_one n den
        else show (round_div n den))
      <> " "
      <> unit i

unfoldable pub fmt_bps : ℕ → String
unfolding fmt_bytes
fmt_bps n = fmt_bytes n <> "/s"

unfoldable pub fmt_tokens : ℕ → String
unfolding fixed_one fixed_two show
fmt_tokens n =
    if n == 0
    then "0"
    else if leb 1000000 n
    then fixed_two n 1000000 <> "M"
    else if leb 1000 n
    then fixed_one n 1000 <> "K"
    else show n

unfoldable pub fmt_usd : Fraction → String
unfolding fixed_two fixed_four
fmt_usd x =
    if is_zero x
    then "$0.00"
    else if ltb (100 * x.num) x.den
    then "<$0.01"
    else if ltb x.num x.den
    then "$" <> fixed_four x.num x.den
    else if ltb x.num (1000 * x.den)
    then "$" <> fixed_two x.num x.den
    else "$" <> fixed_two x.num (1000 * x.den) <> "K"

unfoldable pub usage_tone : Option Fraction → String
usage_tone none = "default"
usage_tone (some p) =
    if at_least p 90 then "danger" else if at_least p 70 then "warning" else "success"
