-- ===== src/Claims/Service.antt =====
-- `RewardClaimService`: the life of a reward claim. The lookups of a campaign and of a customer
-- are the queries of the progress service, word for word.
use one_loyal.Prelude.{
  ℕ, ◌==◌, ◌&&◌, String, Bool, true, false, not, Option, none, some, ◌∷◌, select, ltb,
  if◌then◌else◌,
}
use one_loyal.Core.{not_found, conflict}
use one_loyal.Common.Json.{uuid, str, end, field}
use one_loyal.Models.Campaign.{Campaign, CampaignStatus, GiftTier}
use one_loyal.Models.Claim.{
  RewardClaim, RewardClaimStatus, is_active_status, is_pending, is_approved, status_text,
}
use one_loyal.Models.Event.{AuditContext}
use one_loyal.Db.Exec.{
  Session, Exec, pure, lift, gets, raise_if, or_raise, modify, utc_now, fresh_id, ◌>>=◌, ◌>>◌,
}
use one_loyal.Db.Query.{scalar_one_or_none, put, is_null}
use one_loyal.Events.{EventArgs, event_args, emit}
use one_loyal.Progress.Service.{get_campaign, get_customer, is_progress_of}
use one_loyal.Claims.Stock.{reserve_stock, release_reserved_stock, fulfill_reserved_stock}

-- The row lock that `lock=True` asks for has no effect within one request.
unfoldable pub get_tier : ℕ → ℕ → ℕ → Exec GiftTier
get_tier company_id campaign_id gift_tier_id = do
  rows ← gets (λ s.
      select
        (λ t.
          t.id == gift_tier_id
          && t.company_id == company_id
          && t.campaign_id == campaign_id
          && is_null t.deleted_at
          && t.is_active)
        s.gift_tiers)
  found ← lift (scalar_one_or_none rows)
  or_raise found (not_found "Gift tier not found.")

unfoldable pub get_claim : ℕ → ℕ → Exec RewardClaim
get_claim company_id claim_id = do
  rows ← gets (λ s.
      select (λ c. c.id == claim_id && c.company_id == company_id && is_null c.deleted_at) s.claims)
  found ← lift (scalar_one_or_none rows)
  or_raise found (not_found "Reward claim not found.")

-- `campaign.status in {ACTIVE, COMPLETED}`
abbrev pub is_claimable_status : CampaignStatus → Bool
is_claimable_status CampaignStatus.active = true
is_claimable_status CampaignStatus.completed = true
is_claimable_status _ = false

-- The customer's claims in the campaign that are pending or approved.
abbrev pub is_active_claim : ℕ → ℕ → ℕ → RewardClaim → Bool
is_active_claim company_id campaign_id customer_id c =
    c.company_id == company_id
    && c.campaign_id == campaign_id
    && c.customer_id == customer_id
    && is_active_status c.status
    && is_null c.deleted_at

unfoldable pub ensure_claimable : ℕ → Campaign → ℕ → GiftTier → Exec (Unit {0})
ensure_claimable company_id campaign customer_id tier = do
  raise_if (not campaign.allow_claims) (conflict "Reward claims are disabled for this campaign.")
  raise_if (not (is_claimable_status campaign.status))
      (conflict "Claims are allowed only for active or completed campaigns.")
  rows ← gets (λ s. select (is_progress_of company_id campaign.id customer_id) s.progress)
  found ← lift (scalar_one_or_none rows)
  progress ← or_raise found (conflict "Customer progress must be calculated before claiming.")
  raise_if (ltb progress.total_amount_minor tier.required_amount_minor)
      (conflict "Customer has not reached this gift tier.")
  claims ← gets (λ s. select (is_active_claim company_id campaign.id customer_id) s.claims)
  active_claim ← lift (scalar_one_or_none claims)
  raise_if (not (is_null active_claim))
      (conflict "Customer already has an active claim for this campaign.")

-- `RewardClaimCreateRequest` and `PortalRewardClaimCreateRequest`
pub record ClaimRequest : Type 0 where
  pub campaign_id : ℕ
  pub customer_id : ℕ
  pub gift_tier_id : ℕ
  pub customer_comment : Option String

-- `argument or data.field`
abbrev pub given_or : Option ℕ → ℕ → ℕ
given_or none field_value = field_value
given_or (some i) field_value = i

abbrev pub new_claim : ℕ → ℕ → ℕ → ℕ → ℕ → Option String → RewardClaim
new_claim new_id company_id campaign_id customer_id tier_id comment = record {
  id = new_id;
  company_id = company_id;
  campaign_id = campaign_id;
  customer_id = customer_id;
  gift_tier_id = tier_id;
  status = RewardClaimStatus.pending;
  customer_comment = comment;
  admin_comment = none;
  decided_by_user_id = none;
  decided_at = none;
  fulfilled_by_user_id = none;
  fulfilled_at = none;
  cancelled_by_user_id = none;
  cancelled_at = none;
  deleted_at = none;
}

-- The event of a claim, with its status in the payload.
abbrev pub claim_event : ℕ → String → RewardClaim → EventArgs
claim_event company_id event_type claim =
    record (event_args company_id event_type "reward_claim" claim.id) {
      customer_id = some claim.customer_id;
      campaign_id = some claim.campaign_id;
      gift_tier_id = some claim.gift_tier_id;
      payload_json =
          some (
            field "claim_id" (uuid claim.id) (field "status" (str (status_text claim.status)) end));
    }

unfoldable pub create_claim :
    ℕ → ClaimRequest → Option ℕ → Option ℕ → Option AuditContext → Exec RewardClaim
unfolding get_campaign get_customer get_tier ensure_claimable emit
create_claim company_id request customer_id campaign_id context = do
  let claim_campaign_id = given_or campaign_id request.campaign_id
  let claim_customer_id = given_or customer_id request.customer_id
  get_customer company_id claim_customer_id
  campaign ← get_campaign company_id claim_campaign_id
  tier ← get_tier company_id claim_campaign_id request.gift_tier_id
  ensure_claimable company_id campaign claim_customer_id tier
  new_id ← fresh_id
  let claim =
      new_claim new_id company_id claim_campaign_id claim_customer_id tier.id
        request.customer_comment
  modify (λ s. record s { claims = claim ∷ s.claims })
  emit (claim_event company_id "reward_claim_created" claim) context
  pure claim

-- The flush of the changed objects.
abbrev pub save_claim : RewardClaim → Session → Session
save_claim c s = record s { claims = put (λ x. x.id) c s.claims }

abbrev pub save_tier : GiftTier → Session → Session
save_tier t s = record s { gift_tiers = put (λ x. x.id) t s.gift_tiers }

unfoldable pub approve_claim : ℕ → ℕ → ℕ → Option String → Option AuditContext → Exec RewardClaim
unfolding get_claim get_tier reserve_stock emit
approve_claim company_id claim_id user_id admin_comment context = do
  claim ← get_claim company_id claim_id
  raise_if (not (is_pending claim.status)) (conflict "Only pending claims can be approved.")
  tier ← get_tier company_id claim.campaign_id claim.gift_tier_id
  reserved ← lift (reserve_stock tier)
  now ← utc_now
  let approved : RewardClaim = record claim {
    status = RewardClaimStatus.approved;
    admin_comment = admin_comment;
    decided_by_user_id = some user_id;
    decided_at = some now;
  }
  modify (λ s. save_claim approved (save_tier reserved s))
  emit
      (record (claim_event company_id "reward_claim_approved" approved) {
        actor_user_id = some user_id;
      })
      context
  pure approved

-- `if status == APPROVED`: the reservation of the tier is given back.
unfoldable pub release_if_approved : ℕ → RewardClaim → Exec (Unit {0})
unfolding get_tier release_reserved_stock
release_if_approved company_id claim =
    if is_approved claim.status
    then (do
      tier ← get_tier company_id claim.campaign_id claim.gift_tier_id
      released ← lift (release_reserved_stock tier)
      modify (save_tier released))
    else pure tt

unfoldable pub reject_claim : ℕ → ℕ → ℕ → Option String → Option AuditContext → Exec RewardClaim
unfolding get_claim release_if_approved emit
reject_claim company_id claim_id user_id admin_comment context = do
  claim ← get_claim company_id claim_id
  raise_if (not (is_active_status claim.status))
      (conflict "Only pending or approved claims can be rejected.")
  release_if_approved company_id claim
  now ← utc_now
  let rejected : RewardClaim = record claim {
    status = RewardClaimStatus.rejected;
    admin_comment = admin_comment;
    decided_by_user_id = some user_id;
    decided_at = some now;
  }
  modify (save_claim rejected)
  emit
      (record (claim_event company_id "reward_claim_rejected" rejected) {
        actor_user_id = some user_id;
      })
      context
  pure rejected

unfoldable pub fulfill_claim : ℕ → ℕ → ℕ → Option String → Option AuditContext → Exec RewardClaim
unfolding get_claim get_tier fulfill_reserved_stock emit
fulfill_claim company_id claim_id user_id admin_comment context = do
  claim ← get_claim company_id claim_id
  raise_if (not (is_approved claim.status)) (conflict "Only approved claims can be fulfilled.")
  tier ← get_tier company_id claim.campaign_id claim.gift_tier_id
  handed_out ← lift (fulfill_reserved_stock tier)
  now ← utc_now
  let fulfilled : RewardClaim = record claim {
    status = RewardClaimStatus.fulfilled;
    admin_comment = admin_comment;
    fulfilled_by_user_id = some user_id;
    fulfilled_at = some now;
  }
  modify (λ s. save_claim fulfilled (save_tier handed_out s))
  emit
      (record (claim_event company_id "reward_claim_fulfilled" fulfilled) {
        actor_user_id = some user_id;
      })
      context
  pure fulfilled

-- `customer_id is not None and claim.customer_id != customer_id`
abbrev pub is_of_other : Option ℕ → RewardClaim → Bool
is_of_other none claim = false
is_of_other (some customer_id) claim = not (claim.customer_id == customer_id)

unfoldable pub cancel_claim :
    ℕ → ℕ → Option ℕ → Option ℕ → Option String → Option AuditContext → Exec RewardClaim
unfolding get_claim release_if_approved emit
cancel_claim company_id claim_id user_id customer_id admin_comment context = do
  claim ← get_claim company_id claim_id
  raise_if (is_of_other customer_id claim) (not_found "Reward claim not found.")
  raise_if (not (is_active_status claim.status))
      (conflict "Only pending or approved claims can be cancelled.")
  raise_if (not (is_null customer_id) && not (is_pending claim.status))
      (conflict "Customers can cancel only pending claims.")
  release_if_approved company_id claim
  now ← utc_now
  let cancelled : RewardClaim = record claim {
    status = RewardClaimStatus.cancelled;
    admin_comment = admin_comment;
    cancelled_by_user_id = user_id;
    cancelled_at = some now;
  }
  modify (save_claim cancelled)
  emit
      (record (claim_event company_id "reward_claim_cancelled" cancelled) {
        actor_user_id = user_id;
        actor_customer_id = customer_id;
      })
      context
  pure cancelled
