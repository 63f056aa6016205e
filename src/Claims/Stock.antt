-- ===== src/Claims/Stock.antt =====
-- `_reserve_stock`, `_release_reserved_stock` and `_fulfill_reserved_stock`: the tier object after
-- the change, or the error.
pub mod Laws
use one_loyal.Prelude.{ℕ, ◌+◌, ◌-◌, ◌==◌, Bool, true, Option, none, some, if◌then◌else◌}
use one_loyal.Prelude.Int.{ℤ, pos, leb_ℤ}
use one_loyal.Core.{Error, Result, ok, err, conflict}
use one_loyal.Models.Campaign.{GiftTier, StockTrackingMode, available_quantity}

abbrev pub no_stock : Error
no_stock = conflict "Gift tier does not have available stock."

abbrev pub inconsistent : Error
inconsistent = conflict "Gift tier stock reservation is inconsistent."

-- `available_quantity is None or available_quantity <= 0`
abbrev pub is_sold_out : Option ℤ → Bool
is_sold_out none = true
is_sold_out (some available) = leb_ℤ available (pos 0)

abbrev pub reserve_in : StockTrackingMode → GiftTier → Result GiftTier
reserve_in StockTrackingMode.untracked t = ok t
reserve_in StockTrackingMode.soft t = ok (record t { reserved_quantity = t.reserved_quantity + 1 })
reserve_in StockTrackingMode.strict t =
    if is_sold_out (available_quantity t)
    then err no_stock
    else ok (record t { reserved_quantity = t.reserved_quantity + 1 })

unfoldable pub reserve_stock : GiftTier → Result GiftTier
unfolding available_quantity
reserve_stock t = reserve_in t.stock_tracking_mode t

abbrev pub release_in : StockTrackingMode → GiftTier → Result GiftTier
release_in StockTrackingMode.untracked t = ok t
release_in _ t =
    if t.reserved_quantity == 0
    then err inconsistent
    else ok (record t { reserved_quantity = t.reserved_quantity - 1 })

unfoldable pub release_reserved_stock : GiftTier → Result GiftTier
release_reserved_stock t = release_in t.stock_tracking_mode t

abbrev pub fulfill_in : StockTrackingMode → GiftTier → Result GiftTier
fulfill_in StockTrackingMode.untracked t = ok t
fulfill_in _ t =
    if t.reserved_quantity == 0
    then err inconsistent
    else ok (record t {
      reserved_quantity = t.reserved_quantity - 1;
      fulfilled_quantity = t.fulfilled_quantity + 1;
    })

unfoldable pub fulfill_reserved_stock : GiftTier → Result GiftTier
fulfill_reserved_stock t = fulfill_in t.stock_tracking_mode t
