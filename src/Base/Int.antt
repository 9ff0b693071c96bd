-- ===== src/Base/Int.antt =====
-- Go's `int`, as far as the program computes with one: tests and bounds on parsed form values.
use Prim.Native.Nat.{ℕ, ◌≤◌}
use mathlib.Core.Path.{◌≡◌}
use mathlib.Core.Logic.{◌↔◌}
use mathlib.Core.Bool.{Bool, true, false}
use native.Mathlib.Omega.{arith}
use base_guard.Base.Tests.{leb, ◌==◌}

-- `negsuc n` is -(n + 1).
pub data ℤ : Type 0 where
  pos : ℕ → ℤ
  negsuc : ℕ → ℤ

-- `lo <= i && i <= hi` for bounds that are not negative.
abbrev pub between : ℕ → ℕ → ℤ → Bool
between lo hi (pos n) = elim (leb lo n) [ true ↦ leb n hi | false ↦ false ]
between lo hi (negsuc n) = false

abbrev pub InRange : ℕ → ℕ → ℤ → Type 0
InRange lo hi i = (n : ℕ) × (i ≡ pos n) × (lo ≤ n) × (n ≤ hi)

unfoldable pub eq_ℤ : ℤ → ℤ → Bool
eq_ℤ (pos a) (pos b) = a == b
eq_ℤ (negsuc a) (negsuc b) = a == b
eq_ℤ _ _ = false

pub eq_ℤ_iff : (a b : ℤ) → (eq_ℤ a b ≡ true) ↔ (a ≡ b)
unfolding eq_ℤ
eq_ℤ_iff (pos a) (pos b) = ground arith
eq_ℤ_iff (pos a) (negsuc b) = ground arith
eq_ℤ_iff (negsuc a) (pos b) = ground arith
eq_ℤ_iff (negsuc a) (negsuc b) = ground arith

pub between_iff : (lo hi : ℕ) (i : ℤ) → (between lo hi i ≡ true) ↔ InRange lo hi i
between_iff lo hi (pos n) = (λ h. (n, ground arith, ground arith, ground arith), λ h. ground arith)
between_iff lo hi (negsuc n) = (λ h. ground arith, λ h. ground arith)
