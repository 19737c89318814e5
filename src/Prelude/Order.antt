-- ===== src/Prelude/Order.antt =====
-- `<` on the native numbers is well founded.
use Prim.Native.Nat.{ℕ, zero, suc, ◌<◌}
use mathlib.Core.WellFounded.{Acc, WellFounded}
use native.Mathlib.Omega.{arith}

Acc-lt : (bound n : ℕ) → n < bound → Acc ◌<◌ n
Acc-lt zero n h = absurd (omega arith)
Acc-lt (suc bound) n h = Acc.intro n (λ m lt. Acc-lt bound m (omega arith))

unfoldable pub lt_wf : WellFounded ◌<◌
unfolding Acc-lt
lt_wf = record { apply = λ n. Acc-lt (suc n) n (omega arith) }
