-- ===== src/Prelude/Numbers.antt =====
-- The numbers of the dashboard beyond the natural ones: whole numbers with a sign, and fractions for
-- the floats, of which every finite one is a fraction; and how the source prints them.
use Prim.Native.Nat.{ℕ, zero, suc, ◌+◌, ◌*◌, ◌/◌, ◌%◌}
use Prim.Native.String.{String, ◌++◌ as ◌<>◌}
use mathlib.Core.Bool.{Bool, true, false}
use windsurf_to_api_go.Prelude.Tests.{leb, ltb, ◌==◌, if◌then◌else◌}

pub data ℤ : Type 0 where
  pos : ℕ → ℤ
  negsuc : ℕ → ℤ

abbrev pub is_negative : ℤ → Bool
is_negative (pos n) = false
is_negative (negsuc n) = true

-- `num / den`, for a positive `den`.
pub record Fraction : Type 0 where
  pub num : ℕ
  pub den : ℕ

abbrev pub at_most : Fraction → ℕ → Bool
at_most x n = leb x.num (n * x.den)

abbrev pub at_least : Fraction → ℕ → Bool
at_least x n = leb (n * x.den) x.num

abbrev pub is_zero : Fraction → Bool
is_zero x = x.num == 0

-- The nearest whole number, the higher one of two: `Math.round`, and `toFixed(0)` of a positive number.
abbrev pub round_div : ℕ → ℕ → ℕ
round_div num den = (2 * num + den) / (2 * den)

abbrev digit : ℕ → String
digit n =
    if n == 0
    then "0"
    else if n == 1
    then "1"
    else if n == 2
    then "2"
    else if n == 3
    then "3"
    else if n == 4
    then "4"
    else if n == 5
    then "5"
    else if n == 6
    then "6"
    else if n == 7
    then "7"
    else if n == 8
    then "8"
    else "9"

-- The decimal digits, the last ones first; a number has fewer digits than `fuel = n + 1`.
unfoldable pub digits_loop : ℕ → ℕ → String → String
digits_loop zero n rest = rest
digits_loop (suc fuel) n rest =
    let more = digits_loop fuel (n / 10) (digit (n % 10) <> rest) in
    if ltb n 10 then digit n <> rest else more

unfoldable pub show : ℕ → String
unfolding digits_loop
show n = digits_loop (suc n) n ""

unfoldable pub show_int : ℤ → String
unfolding show
show_int (pos n) = show n
show_int (negsuc n) = "-" <> show (suc n)

-- `toString().padStart(2, '0')` and `padStart(3, '0')`.
unfoldable pub pad_two : ℕ → String
unfolding show
pad_two n = if ltb n 10 then "0" <> show n else show n

unfoldable pub pad_three : ℕ → String
unfolding show pad_two
pad_three n = if ltb n 100 then "0" <> pad_two n else show n

-- `toFixed(k)` of `num / den`, for k of 1, 2 and 4.
unfoldable pub fixed_one : ℕ → ℕ → String
unfolding show
fixed_one num den = let n = round_div (10 * num) den in show (n / 10) <> "." <> show (n % 10)

unfoldable pub fixed_two : ℕ → ℕ → String
unfolding show pad_two
fixed_two num den = let n = round_div (100 * num) den in show (n / 100) <> "." <> pad_two (n % 100)

unfoldable pub fixed_four : ℕ → ℕ → String
unfolding show pad_two
fixed_four num den =
    let n = round_div (10000 * num) den in
    show (n / 10000) <> "." <> pad_two (n % 10000 / 100) <> pad_two (n % 100)
