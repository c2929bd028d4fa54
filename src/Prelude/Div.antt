-- ===== src/Prelude/Div.antt =====
-- `big.Int.Div` and `big.Int.Sqrt`. `Div` is Euclidean: the remainder is never negative. Both panic
-- where they are not defined, which ends the call with an error here.
use Prim.Native.Nat.{ℕ, zero, suc, ◌+◌, ◌*◌, ◌/◌, ◌≤◌, ◌<◌}
use mathlib.Core.Path.{◌≡◌, refl}
use mathlib.Core.Logic.{inl, inr}
use native.Mathlib.Omega.{arith}
use dogeuni_indexer.Prelude.Tests.{leb, if◌then◌else◌, Bool-cases}
use dogeuni_indexer.Prelude.Int.{ℤ, pos, negsuc, sub_ℕ}
use dogeuni_indexer.Prelude.Result.{Result, ok, err, division_by_zero, negative_root}

-- -(n) for a natural number.
abbrev minus : ℕ → ℤ
minus n = sub_ℕ 0 n

unfoldable pub div_ℤ : ℤ → ℤ → Result ℤ
div_ℤ a (pos zero) = err division_by_zero
div_ℤ (pos n) (pos (suc d)) = ok (pos (n / suc d))
div_ℤ (negsuc n) (pos (suc d)) = ok (minus ((suc n + d) / suc d))
div_ℤ (pos n) (negsuc d) = ok (minus (n / suc d))
div_ℤ (negsuc n) (negsuc d) = ok (pos ((suc n + d) / suc d))

-- The root digit by digit in base 2: that of a quarter gives all but the last digit.
abbrev root_step : ℕ → ℕ → ℕ
root_step n r = if leb ((2 * r + 1) * (2 * r + 1)) n then 2 * r + 1 else 2 * r

root : ℕ → ℕ → ℕ
root zero n = 0
root (suc fuel) n = elim n [ zero ↦ 0 | suc m ↦ root_step (suc m) (root fuel (suc m / 4)) ]

unfoldable pub sqrt : ℕ → ℕ
unfolding root
sqrt n = root n n

unfoldable pub sqrt_ℤ : ℤ → Result ℤ
sqrt_ℤ (pos n) = ok (pos (sqrt n))
sqrt_ℤ (negsuc n) = err negative_root

root_step_bounds :
    (n r : ℕ)
    → r * r ≤ n / 4
    → n / 4 < (r + 1) * (r + 1)
    → (root_step n r * root_step n r ≤ n) × (n < (root_step n r + 1) * (root_step n r + 1))
root_step_bounds n r lo hi =
    let t = leb ((2 * r + 1) * (2 * r + 1)) n in
    elim (Bool-cases t) [
      | inl e ↦ let fits : (2 * r + 1) * (2 * r + 1) ≤ n = ground arith in rw e (omega arith)
      | inr e ↦ let exceeds : n < (2 * r + 1) * (2 * r + 1) = ground arith in rw e (omega arith)
    ]

root_bounds :
    (fuel n : ℕ)
    → n ≤ fuel
    → (root fuel n * root fuel n ≤ n) × (n < (root fuel n + 1) * (root fuel n + 1))
unfolding root
root_bounds zero n h = grind arith
root_bounds (suc fuel) zero h = grind arith
root_bounds (suc fuel) (suc m) h =
    let (lo, hi) = root_bounds fuel (suc m / 4) (omega arith) in
    root_step_bounds (suc m) (root fuel (suc m / 4)) lo hi

-- `sqrt n` is the largest number whose square is at most `n`.
pub sqrt_bounds : (n : ℕ) → (sqrt n * sqrt n ≤ n) × (n < (sqrt n + 1) * (sqrt n + 1))
unfolding sqrt
sqrt_bounds n = root_bounds n n (omega arith)

sqrt_large : sqrt 1000000000000000000000000 ≡ 1000000000000
unfolding sqrt
sqrt_large = refl

pub div_ℤ_pos : (n d : ℕ) → 0 < d → div_ℤ (pos n) (pos d) ≡ ok (pos (n / d))
unfolding div_ℤ
div_ℤ_pos n zero h = elim h [ ]
div_ℤ_pos n (suc d) h = refl

pub div_ℤ_pos-ok : (n d : ℕ) {q : ℤ} → div_ℤ (pos n) (pos d) ≡ ok q → (0 < d) × (q ≡ pos (n / d))
unfolding div_ℤ
div_ℤ_pos-ok n zero e = cc
div_ℤ_pos-ok n (suc d) e = (omega arith, cc e)
