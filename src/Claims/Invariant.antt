-- ===== src/Claims/Invariant.antt =====
-- The invariant of claims and stock: one active claim for each customer of a campaign, and the
-- stock counters of a tracked tier are the numbers of its approved and fulfilled claims.
pub mod Changes
pub mod Actions
pub mod Kept
use one_loyal.Prelude.{
  ℕ, ◌+◌, ◌≤◌, ◌==◌, ◌&&◌, ◌≡◌, Bool, true, false, Option, none, some, List, count_if, All,
}
use one_loyal.Models.Campaign.{GiftTier, StockTrackingMode}
use one_loyal.Models.Claim.{RewardClaim, is_approved, is_fulfilled}
use one_loyal.Db.Exec.{Session}
use one_loyal.Db.Query.{is_null}
use one_loyal.Db.Keyed.{IsKeyed}
use one_loyal.Claims.Stock.Laws.{FitsStock, IsTracked, IsStrict}
use one_loyal.Claims.Service.{is_active_claim}

abbrev pub is_approved_for : ℕ → RewardClaim → Bool
is_approved_for tier_id c =
    c.gift_tier_id == tier_id && is_approved c.status && is_null c.deleted_at

abbrev pub is_fulfilled_for : ℕ → RewardClaim → Bool
is_fulfilled_for tier_id c =
    c.gift_tier_id == tier_id && is_fulfilled c.status && is_null c.deleted_at

abbrev pub IsBooked : List RewardClaim → GiftTier → Type 0
IsBooked claims t =
    (IsTracked t.stock_tracking_mode → t.reserved_quantity ≡ count_if (is_approved_for t.id) claims)
    × (IsTracked t.stock_tracking_mode
        → t.fulfilled_quantity ≡ count_if (is_fulfilled_for t.id) claims)
    × (IsStrict t.stock_tracking_mode
        → FitsStock t.stock_quantity (t.reserved_quantity + t.fulfilled_quantity))

pub record IsClaimState (s : Session) : Type 0 where
  pub keyed : IsKeyed (λ c. c.id) s.next_id s.claims
  pub single :
      (company_id campaign_id customer_id : ℕ)
      → count_if (is_active_claim company_id campaign_id customer_id) s.claims ≤ 1
  pub booked : All (IsBooked s.claims) s.gift_tiers
