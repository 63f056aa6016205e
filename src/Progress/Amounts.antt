-- ===== src/Progress/Amounts.antt =====
-- `_basis_points`, `_amount_for_record` and `_signed_amount`.
pub mod Laws
use one_loyal.Prelude.{
  ℕ, ◌+◌, ◌*◌, ◌/◌, ◌==◌, ◌||◌, min, Bool, Option, none, some, not, if◌then◌else◌,
}
use one_loyal.Prelude.Int.{ℤ, pos, ◌*ℤ◌, abs, neg_ℕ}
use one_loyal.Common.Json.{truthy}
use one_loyal.Models.Sale.{SaleRecord, is_return_or_refund}
use one_loyal.Progress.Rules.{Rules, is_text}

-- `Decimal(n) / Decimal(d)` rounded half up to a whole number, for positive `d`. Python first
-- rounds the quotient to 28 digits; for 64-bit amounts with `n <= 10000 * d` a quotient lies at
-- least `1 / 2d` from a half, farther than that rounding reaches, and beyond it the caller caps.
abbrev pub quantize_half_up : ℕ → ℕ → ℕ
quantize_half_up n d = (2 * n + d) / (2 * d)

-- The callers pass amounts that are not negative, where `<= 0` is `== 0`.
unfoldable pub basis_points : ℕ → ℕ → ℕ
basis_points numerator denominator =
    if denominator == 0 || numerator == 0
    then 0
    else min 10000 (quantize_half_up (numerator * 10000) denominator)

-- `x or 0`
abbrev pub or_zero : Option ℤ → ℤ
or_zero none = pos 0
or_zero (some x) = x

abbrev pub net_or_gross : SaleRecord → ℤ
net_or_gross r = elim r.net_amount_minor [ none ↦ r.gross_amount_minor | some net ↦ net ]

unfoldable pub amount_for_record : SaleRecord → Rules → ℤ
amount_for_record r rules =
    if is_text rules.payment_rule "paid_amount_only"
    then or_zero r.paid_amount_minor
    else if is_text rules.amount_basis "gross"
    then r.gross_amount_minor
    else if is_text rules.amount_basis "net"
    then net_or_gross r
    else or_zero r.paid_amount_minor

unfoldable pub signed_amount : SaleRecord → ℤ → Rules → ℤ
unfolding ◌*ℤ◌
signed_amount r amount rules =
    if is_return_or_refund r.document_kind
    then if not (truthy rules.subtract_returns) then pos 0 else neg_ℕ (abs amount)
    else amount *ℤ r.amount_sign
