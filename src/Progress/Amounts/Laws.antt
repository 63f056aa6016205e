-- ===== src/Progress/Amounts/Laws.antt =====
-- Bounds and rounding of the basis points, and the sign of a return.
use native.Mathlib.Nat.{
  mul-div-le, lt-mul-div-succ, div-lt_iff_lt-mul, le-div_iff_mul-le, div-mul-le_self,
}
use one_loyal.Prelude.{zero, suc, ◌/◌, ℕ, ◌+◌, ◌*◌, ◌≤◌, ◌<◌, ◌≡◌, true, arith}
use one_loyal.Prelude.Int.{ℤ, pos, ◌≤ℤ◌}
use one_loyal.Models.Sale.{SaleRecord, is_return_or_refund}
use one_loyal.Progress.Rules.{Rules}
use one_loyal.Progress.Amounts.{basis_points, signed_amount, quantize_half_up}

le-of_lt_suc : {a b : ℕ} → a < b + 1 → a ≤ b
le-of_lt_suc h = omega arith

-- The rounded quotient `q` of `n` by `d` satisfies `2nd - d/2 < q <= 2n/d + 1/2`, multiplied out.
quantize_bounds :
    (n d : ℕ)
    → 0 < d
    → (2 * d * quantize_half_up n d ≤ 2 * n + d) × (2 * n < 2 * d * quantize_half_up n d + d)
quantize_bounds n d h =
    let below : 2 * d * ((2 * n + d) / (2 * d)) ≤ 2 * n + d = mul-div-le (2 * n + d) (2 * d) in
    let above : 2 * n + d < 2 * d * ((2 * n + d) / (2 * d) + 1) =
      lt-mul-div-succ (2 * n + d) (omega arith) in
    (below, omega arith)

-- Up to the target the quotient needs no cap.
quantize_capped : (n d : ℕ) → 0 < d → n ≤ d → quantize_half_up (n * 10000) d ≤ 10000
quantize_capped n d h k =
    let positive : 0 < 2 * d = omega arith in
    let room : 2 * (n * 10000) + d < 10001 * (2 * d) = omega arith in
    le-of_lt_suc ((div-lt_iff_lt-mul positive).1 room)

quantize_mono : (m n d : ℕ) → m ≤ n → quantize_half_up m d ≤ quantize_half_up n d
quantize_mono m n zero h = omega arith
quantize_mono m n (suc d) h =
    (le-div_iff_mul-le (omega arith)).1 (omega (arith, div-mul-le_self (2 * m + suc d) (2 * suc d)))

-- The progress never exceeds 10000 basis points.
pub basis_points-le : (n d : ℕ) → basis_points n d ≤ 10000
unfolding basis_points
basis_points-le n d = ground arith

-- For a positive target that is not exceeded the basis points are the exact ratio rounded to the
-- nearest whole number, upwards at a half: `10000 * n / d - 1/2 < basis points <= 10000 * n / d +
-- 1/2`.
pub basis_points_nearest :
    (n d : ℕ)
    → 0 < d
    → n ≤ d
    → (2 * d * basis_points n d ≤ 2 * (n * 10000) + d)
      × (2 * (n * 10000) < 2 * d * basis_points n d + d)
unfolding basis_points
basis_points_nearest n d h k =
    ground (arith, quantize_bounds (n * 10000) d h, quantize_capped n d h k)

-- For the same target more progress never shows fewer basis points.
pub basis_points_mono : (m n d : ℕ) → m ≤ n → basis_points m d ≤ basis_points n d
unfolding basis_points
basis_points_mono m n d h = ground (arith, quantize_mono (m * 10000) (n * 10000) d (omega arith))

-- A return or a refund never adds to the total, whatever the sign of its amount.
pub signed_amount-return :
    (r : SaleRecord) (amount : ℤ) (rules : Rules)
    → is_return_or_refund r.document_kind ≡ true
    → signed_amount r amount rules ≤ℤ pos 0
unfolding signed_amount
signed_amount-return r amount rules h = ground arith
