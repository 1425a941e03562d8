-- ===== src/Base/Ranges.antt =====
-- A property of every number up to a bound, decided by evaluation.
use Prim.Native.Nat.{ℕ, zero, suc, ◌≤◌}
use mathlib.Core.Path.{◌≡◌, ap}
use mathlib.Core.Logic.{inl, inr}
use mathlib.Core.Bool.{Bool, true, ◌&&◌}
use native.Mathlib.Omega.{arith}
use connect_go.Base.Tests.{◌==◌, ==_iff, Bool-cases}

unfoldable pub all_upto : ℕ → (ℕ → Bool) → Bool
all_upto zero p = p 0
all_upto (suc n) p = p (suc n) && all_upto n p

pub all_upto_sound : (n : ℕ) (p : ℕ → Bool) (x : ℕ) → all_upto n p ≡ true → x ≤ n → p x ≡ true
unfolding all_upto
all_upto_sound zero p zero h le = h
all_upto_sound zero p (suc x) h le = absurd (omega arith)
all_upto_sound (suc n) p x h le = elim (Bool-cases (x == suc n)) [
  | inl e ↦ ground (arith, ap p ((==_iff x (suc n)).0 e))
  | inr e ↦ ground (arith, all_upto_sound n p x)
]
