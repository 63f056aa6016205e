-- ===== src/Claims/Decisions.antt =====
-- Each action on a claim decides first, reading only, and then writes: `decide_*` is the decision,
-- as a value.
pub mod Agree
use one_loyal.Prelude.{
  ℕ, ◌==◌, ◌&&◌, ◌≡◌, refl, String, Bool, true, false, not, Option, none, some, List, select, arith,
  if◌then◌else◌,
}
use one_loyal.Core.{Error, Result, ok, err, not_found, conflict}
use one_loyal.Core.Results.{◌>>=◌, ◌>>◌, refuse_if, required_row}
use one_loyal.Models.Campaign.{GiftTier}
use one_loyal.Models.Claim.{
  RewardClaim, RewardClaimStatus, is_active_status, is_pending, is_approved,
}
use one_loyal.Models.Event.{AuditContext}
use one_loyal.Db.Exec.{Session}
use one_loyal.Db.Query.{scalar_one_or_none, is_null}
use one_loyal.Events.{EventArgs, emit}
use one_loyal.Claims.Stock.{reserve_stock, release_reserved_stock, fulfill_reserved_stock}
use one_loyal.Claims.Service.{
  get_claim, get_tier, save_claim, save_tier, release_if_approved, claim_event, is_of_other,
  approve_claim, reject_claim, fulfill_claim, cancel_claim,
}

-- A claim before and after, and the tier before and after if its stock is booked.
pub record Change : Type 0 where
  pub old : RewardClaim
  pub new : RewardClaim
  pub booking : Option (GiftTier × GiftTier)

unfoldable pub claim_in : ℕ → ℕ → List RewardClaim → Result RewardClaim
claim_in company_id claim_id claims =
    required_row
      (scalar_one_or_none (
        select (λ c. c.id == claim_id && c.company_id == company_id && is_null c.deleted_at)
          claims))
      (not_found "Reward claim not found.")

unfoldable pub tier_in : ℕ → ℕ → ℕ → List GiftTier → Result GiftTier
tier_in company_id campaign_id gift_tier_id tiers =
    required_row
      (scalar_one_or_none (
        select
          (λ t.
            t.id == gift_tier_id
            && t.company_id == company_id
            && t.campaign_id == campaign_id
            && is_null t.deleted_at
            && t.is_active)
          tiers))
      (not_found "Gift tier not found.")

pub get_claim_lem :
    (company_id claim_id : ℕ) (s : Session)
    → get_claim company_id claim_id s ≡ (claim_in company_id claim_id s.claims, s)
unfolding get_claim claim_in
get_claim_lem company_id claim_id s = ground arith

pub get_tier_lem :
    (company_id campaign_id tier_id : ℕ) (s : Session)
    → get_tier company_id campaign_id tier_id s
      ≡ (tier_in company_id campaign_id tier_id s.gift_tiers, s)
unfolding get_tier tier_in
get_tier_lem company_id campaign_id tier_id s = ground arith

-- The tier of a claim, before and after a change of its stock.
unfoldable pub book :
    (GiftTier → Result GiftTier) → ℕ → RewardClaim → Session → Result (GiftTier × GiftTier)
book change company_id claim s = do
  tier ← tier_in company_id claim.campaign_id claim.gift_tier_id s.gift_tiers
  tier' ← change tier
  ok (tier, tier')

unfoldable pub book_release : ℕ → RewardClaim → Session → Result (Option (GiftTier × GiftTier))
unfolding book
book_release company_id claim s =
    if is_approved claim.status
    then (do pair ← book release_reserved_stock company_id claim s; ok (some pair))
    else ok none

module _ (company_id claim_id : ℕ) (s : Session) where
  unfoldable pub decide_approve : ℕ → Option String → Result Change
  unfolding book
  decide_approve user_id comment = do
    claim ← claim_in company_id claim_id s.claims
    refuse_if (not (is_pending claim.status)) (conflict "Only pending claims can be approved.")
    pair ← book reserve_stock company_id claim s
    ok (record {
      old = claim;
      new = record claim {
        status = RewardClaimStatus.approved;
        admin_comment = comment;
        decided_by_user_id = some user_id;
        decided_at = some s.now;
      };
      booking = some pair;
    })

  unfoldable pub decide_reject : ℕ → Option String → Result Change
  unfolding book_release
  decide_reject user_id comment = do
    claim ← claim_in company_id claim_id s.claims
    refuse_if (not (is_active_status claim.status))
        (conflict "Only pending or approved claims can be rejected.")
    booking ← book_release company_id claim s
    ok (record {
      old = claim;
      new = record claim {
        status = RewardClaimStatus.rejected;
        admin_comment = comment;
        decided_by_user_id = some user_id;
        decided_at = some s.now;
      };
      booking = booking;
    })

  unfoldable pub decide_fulfill : ℕ → Option String → Result Change
  unfolding book
  decide_fulfill user_id comment = do
    claim ← claim_in company_id claim_id s.claims
    refuse_if (not (is_approved claim.status)) (conflict "Only approved claims can be fulfilled.")
    pair ← book fulfill_reserved_stock company_id claim s
    ok (record {
      old = claim;
      new = record claim {
        status = RewardClaimStatus.fulfilled;
        admin_comment = comment;
        fulfilled_by_user_id = some user_id;
        fulfilled_at = some s.now;
      };
      booking = some pair;
    })

  unfoldable pub decide_cancel : Option ℕ → Option ℕ → Option String → Result Change
  unfolding book_release
  decide_cancel user_id customer_id comment = do
    claim ← claim_in company_id claim_id s.claims
    refuse_if (is_of_other customer_id claim) (not_found "Reward claim not found.")
    refuse_if (not (is_active_status claim.status))
        (conflict "Only pending or approved claims can be cancelled.")
    refuse_if (not (is_null customer_id) && not (is_pending claim.status))
        (conflict "Customers can cancel only pending claims.")
    booking ← book_release company_id claim s
    ok (record {
      old = claim;
      new = record claim {
        status = RewardClaimStatus.cancelled;
        admin_comment = comment;
        cancelled_by_user_id = user_id;
        cancelled_at = some s.now;
      };
      booking = booking;
    })

abbrev pub save_booking : Option (GiftTier × GiftTier) → Session → Session
save_booking none s = s
save_booking (some (_, tier')) s = save_tier tier' s

abbrev pub apply_change : Change → Session → Session
apply_change ch s = save_claim ch.new (save_booking ch.booking s)

-- What an action makes of its decision: the writes, the event and the claim, or the error alone.
abbrev pub conclude :
    Result Change
    → (RewardClaim → EventArgs)
    → Option AuditContext
    → Session
    → Result RewardClaim × Session
conclude (ok ch) event context s = (ok ch.new, (emit (event ch.new) context (apply_change ch s)).1)
conclude (err e) event context s = (err e, s)
