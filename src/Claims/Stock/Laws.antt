-- ===== src/Claims/Stock/Laws.antt =====
-- What the three changes of the stock do to the counters, where they do not raise.
use one_loyal.Prelude.{ℕ, ◌+◌, ◌≤◌, ◌≡◌, refl, false, Option, none, some, arith}
use one_loyal.Prelude.Int.{◌-ℤ◌}
use one_loyal.Core.{ok}
use one_loyal.Models.Campaign.{GiftTier, StockTrackingMode, available_quantity}
use one_loyal.Claims.Stock.{
  is_sold_out, reserve_in, release_in, fulfill_in, reserve_stock, release_reserved_stock,
  fulfill_reserved_stock,
}

-- The quantity fits the stock; with no stock given there is nothing to hand out.
abbrev pub FitsStock : Option ℕ → ℕ → Type 0
FitsStock none n = n ≡ 0
FitsStock (some stock) n = n ≤ stock

-- The same tier but for its counters.
pub record SameTier (t t' : GiftTier) : Type 0 where
  pub id : t'.id ≡ t.id
  pub mode : t'.stock_tracking_mode ≡ t.stock_tracking_mode
  pub stock : t'.stock_quantity ≡ t.stock_quantity

available_room :
    (t : GiftTier)
    → is_sold_out (available_quantity t) ≡ false
    → FitsStock t.stock_quantity (t.reserved_quantity + 1 + t.fulfilled_quantity)
unfolding available_quantity ◌-ℤ◌
available_room t h = ground arith

abbrev pub IsTracked : StockTrackingMode → Type 0
IsTracked StockTrackingMode.untracked = ⊥
IsTracked _ = Unit

abbrev pub IsStrict : StockTrackingMode → Type 0
IsStrict StockTrackingMode.strict = Unit
IsStrict _ = ⊥

-- The tier `t'` after `t`, where the reserved and the fulfilled quantities of a tracked tier have
-- moved by `+ up - down` each, and what is strict still fits.
pub record Books (r_up r_down f_up : ℕ) (t t' : GiftTier) : Type 0 where
  pub same : SameTier t t'
  pub reserved :
      IsTracked t.stock_tracking_mode → t'.reserved_quantity + r_down ≡ t.reserved_quantity + r_up
  pub fulfilled :
      IsTracked t.stock_tracking_mode → t'.fulfilled_quantity ≡ t.fulfilled_quantity + f_up
  pub fits :
      IsStrict t.stock_tracking_mode
      → FitsStock t.stock_quantity (t.reserved_quantity + t.fulfilled_quantity)
      → FitsStock t'.stock_quantity (t'.reserved_quantity + t'.fulfilled_quantity)

reserve_in-Books :
    (mode : StockTrackingMode) (t t' : GiftTier)
    → t.stock_tracking_mode ≡ mode
    → reserve_in mode t ≡ ok t'
    → Books 1 0 0 t t'
reserve_in-Books StockTrackingMode.untracked t t' m e = ground arith
reserve_in-Books StockTrackingMode.soft t t' m e = ground arith
reserve_in-Books StockTrackingMode.strict t t' m e = ground (arith, available_room t)

release_in-Books :
    (mode : StockTrackingMode) (t t' : GiftTier)
    → t.stock_tracking_mode ≡ mode
    → release_in mode t ≡ ok t'
    → Books 0 1 0 t t'
release_in-Books StockTrackingMode.untracked t t' m e = ground arith
release_in-Books _ t t' m e = ground arith

fulfill_in-Books :
    (mode : StockTrackingMode) (t t' : GiftTier)
    → t.stock_tracking_mode ≡ mode
    → fulfill_in mode t ≡ ok t'
    → Books 0 1 1 t t'
fulfill_in-Books StockTrackingMode.untracked t t' m e = ground arith
fulfill_in-Books _ t t' m e = ground arith

-- Where `_reserve_stock` returns, a tracked tier has one more reserved; with the mode "strict" the
-- new reservation fits the stock.
pub reserve_stock-Books : (t t' : GiftTier) → reserve_stock t ≡ ok t' → Books 1 0 0 t t'
unfolding reserve_stock
reserve_stock-Books t t' e = reserve_in-Books t.stock_tracking_mode t t' refl e

-- Where `_release_reserved_stock` returns, a tracked tier has one less reserved.
pub release_reserved_stock-Books :
    (t t' : GiftTier) → release_reserved_stock t ≡ ok t' → Books 0 1 0 t t'
unfolding release_reserved_stock
release_reserved_stock-Books t t' e = release_in-Books t.stock_tracking_mode t t' refl e

-- Where `_fulfill_reserved_stock` returns, one unit of a tracked tier has gone from the reserved
-- to the fulfilled ones.
pub fulfill_reserved_stock-Books :
    (t t' : GiftTier) → fulfill_reserved_stock t ≡ ok t' → Books 0 1 1 t t'
unfolding fulfill_reserved_stock
fulfill_reserved_stock-Books t t' e = fulfill_in-Books t.stock_tracking_mode t t' refl e
