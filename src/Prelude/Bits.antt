-- ===== src/Prelude/Bits.antt =====
-- Masks on one byte as arithmetic, and a bitwise `or` of numbers that share no bit.
use Prim.Native.Nat.{
  ℕ, zero, suc, ◌+◌, ◌*◌, ◌/◌, ◌%◌, ◌^◌, ◌<◌, ◌≤◌, max, min, bit_and, bit_or, digits,
  bit_or-bitwise, bit_and-bitwise,
}
use mathlib.Core.Path.{◌≡◌, refl, ap, ◌∙◌}
use mathlib.Core.Bool.{Bool, true, ◌&&◌}
use native.Mathlib.Nat.{pow-suc}
use native.Mathlib.Omega.{arith}
use windsurf_to_api_go.Prelude.Tests.{◌==◌, ==_iff}

holds_below : (ℕ → Bool) → ℕ → Bool
holds_below test zero = true
holds_below test (suc n) = test n && holds_below test n

holds_below-lt : (test : ℕ → Bool) (n i : ℕ) → holds_below test n ≡ true → i < n → test i ≡ true
unfolding holds_below
holds_below-lt test zero i h lt = absurd (omega arith)
holds_below-lt test (suc n) i h lt = ground (arith, holds_below-lt test n i)

pub low_seven_bits : (b : ℕ) → b < 256 → bit_and b 0x7f ≡ b % 128
unfolding holds_below
low_seven_bits b h = (==_iff _ _).0 (holds_below-lt (λ b. bit_and b 0x7f == b % 128) 256 b refl h)

pub top_bit_of_byte : (b : ℕ) → b < 256 → bit_and b 0x80 ≡ b / 128 * 128
unfolding holds_below
top_bit_of_byte b h =
    (==_iff _ _).0 (holds_below-lt (λ b. bit_and b 0x80 == b / 128 * 128) 256 b refl h)

pub with_top_bit : (b : ℕ) → b < 256 → bit_or b 0x80 ≡ b % 128 + 128
unfolding holds_below
with_top_bit b h =
    (==_iff _ _).0 (holds_below-lt (λ b. bit_or b 0x80 == b % 128 + 128) 256 b refl h)

digits_above :
    (n v s g : ℕ) → v ≤ n → v < 2 ^ s → digits (λ b. b) max n v (g * 2 ^ s) ≡ v + g * 2 ^ s
digits_above zero v s g le lt = omega arith
digits_above (suc n) zero s g le lt = omega arith
digits_above (suc n) (suc a) zero g le lt = absurd (omega arith)
digits_above (suc n) (suc a) (suc t) g le lt =
    let double : g * 2 ^ suc t ≡ g * 2 ^ t * 2 =
      omega (arith, ap (λ (x : ℕ). g * x) (pow-suc 2 t)) in
    let half : g * 2 ^ suc t / 2 ≡ g * 2 ^ t = omega arith in
    rw half (
      omega (
        arith,
        pow-suc 2 t,
        digits_above n (suc a / 2) t g (omega arith) (omega (arith, pow-suc 2 t)),
      ))

-- An `or` adds, where the second number starts above the first one's bits.
pub bit_or-above : (v s g : ℕ) → v < 2 ^ s → bit_or v (g * 2 ^ s) ≡ v + g * 2 ^ s
bit_or-above v s g h = bit_or-bitwise v (g * 2 ^ s) ∙ digits_above v v s g (omega arith) h

or_nothing : (n a : ℕ) → a ≤ n → digits (λ b. b) max n a 0 ≡ a
or_nothing zero a le = omega arith
or_nothing (suc n) zero le = omega arith
or_nothing (suc n) (suc a) le = omega (arith, or_nothing n (suc a / 2) (omega arith))

digits_below :
    (n s a g b : ℕ) → a ≤ n → a ≡ g * 2 ^ s → b < 2 ^ s → digits (λ b. b) max n a b ≡ a + b
digits_below zero s a g b le e lt = omega arith
digits_below (suc n) s zero g b le e lt = omega arith
digits_below (suc n) zero (suc a) g b le e lt =
    let none_left : b ≡ 0 = omega arith in
    rw none_left (omega (arith, or_nothing (suc n) (suc a) le))
digits_below (suc n) (suc t) (suc a) g b le e lt =
    let double : g * 2 ^ suc t ≡ g * 2 ^ t * 2 =
      omega (arith, ap (λ (x : ℕ). g * x) (pow-suc 2 t)) in
    omega (
      arith,
      pow-suc 2 t,
      digits_below n t (suc a / 2) g (b / 2) (omega arith) (omega arith)
          (omega (arith, pow-suc 2 t)),
    )

-- The same with the two numbers the other way round.
pub bit_or-below : (s g b : ℕ) → b < 2 ^ s → bit_or (g * 2 ^ s) b ≡ g * 2 ^ s + b
bit_or-below s g b h =
    bit_or-bitwise (g * 2 ^ s) b ∙ digits_below (g * 2 ^ s) s (g * 2 ^ s) g b (omega arith) refl h

and_nothing : (n a : ℕ) → digits (λ b. zero) min n a 0 ≡ 0
and_nothing zero a = refl
and_nothing (suc n) zero = refl
and_nothing (suc n) (suc a) = omega (arith, and_nothing n (suc a / 2))

and_one : (n a : ℕ) → a ≤ n → digits (λ b. zero) min n a 1 ≡ a % 2
and_one zero a le = omega arith
and_one (suc n) zero le = omega arith
and_one (suc n) (suc a) le = omega (arith, and_nothing n (suc a / 2))

and_three : (n a : ℕ) → a ≤ n → digits (λ b. zero) min n a 3 ≡ a % 4
and_three zero a le = omega arith
and_three (suc n) zero le = omega arith
and_three (suc n) (suc a) le = omega (arith, and_one n (suc a / 2) (omega arith))

and_seven : (n a : ℕ) → a ≤ n → digits (λ b. zero) min n a 7 ≡ a % 8
and_seven zero a le = omega arith
and_seven (suc n) zero le = omega arith
and_seven (suc n) (suc a) le = omega (arith, and_three n (suc a / 2) (omega arith))

pub low_three_bits : (a : ℕ) → bit_and a 7 ≡ a % 8
low_three_bits a = bit_and-bitwise a 7 ∙ and_seven a a (omega arith)
