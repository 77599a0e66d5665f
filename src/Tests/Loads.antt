-- ===== src/Tests/Loads.antt =====
-- Load averages as whole numbers: the assumptions on floating-point numbers can be met.
use for_montee.Base.{
  ℕ, suc, ◌+◌, ◌<◌, ◌≡◌, refl, ℤ, pos, negsuc, sub_ℕ, is_negative, ltb, Bool, true, false, arith,
}
use for_montee.IwyuTool.Execute.{Loads, IsLawful}

abbrev sub_ℤ : ℤ → ℤ → ℤ
sub_ℤ (pos a) (pos b) = sub_ℕ a b
sub_ℤ (pos a) (negsuc b) = pos (a + suc b)
sub_ℤ (negsuc a) (pos b) = negsuc (a + b)
sub_ℤ (negsuc a) (negsuc b) = sub_ℕ (suc b) (suc a)

abbrev lt_ℤ : ℤ → ℤ → Bool
lt_ℤ (pos a) (pos b) = ltb a b
lt_ℤ (pos a) (negsuc b) = false
lt_ℤ (negsuc a) (pos b) = true
lt_ℤ (negsuc a) (negsuc b) = ltb b a

-- The load is 5 at the start and falls by one in each round.
abbrev pub falling : Loads
falling = record {
  Float = ℤ;
  is_positive = lt_ℤ (pos 0);
  below_zero = is_negative;
  minus = sub_ℤ;
  below = lt_ℤ;
  trunc = λ x. x;
  loadavg = λ n. sub_ℤ (pos 5) (pos n);
}

falling_bounds :
    (x c : ℤ)
    → is_negative x ≡ false
    → lt_ℤ x c ≡ true
    → (n k : ℕ) × (x ≡ pos n) × (c ≡ pos k) × (n < k)
falling_bounds (pos n) (pos k) h lt = (n, k, refl, refl, ground arith)
falling_bounds (pos n) (negsuc k) h lt = absurd (ground arith)
falling_bounds (negsuc n) c h lt = absurd (ground arith)

pub falling-IsLawful : IsLawful falling
falling-IsLawful = record { trunc_bounds = falling_bounds }
