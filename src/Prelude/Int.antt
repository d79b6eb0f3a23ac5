-- ===== src/Prelude/Int.antt =====
-- C integers over the native numbers, as far as the programs look at them: their sign.
use Prim.Native.Nat.{ℕ}
use mathlib.Core.Path.{◌≡◌, refl}
use mathlib.Core.Logic.{◌⊎◌, inl, inr}
use mathlib.Core.Bool.{Bool, true, false}

-- `negsuc n` is -(n + 1): `negsuc 0` is the -1 of a failed call or of a free slot.
pub data ℤ : Type 0 where
  pos : ℕ → ℤ
  negsuc : ℕ → ℤ

abbrev pub is_neg : ℤ → Bool
is_neg (pos n) = false
is_neg (negsuc n) = true

pub sign_cases : (z : ℤ) → ((k : ℕ) × (z ≡ negsuc k)) ⊎ ((n : ℕ) × (z ≡ pos n))
sign_cases (negsuc k) = inl (k, refl)
sign_cases (pos n) = inr (n, refl)
