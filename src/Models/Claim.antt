-- ===== src/Models/Claim.antt =====
-- backend/app/modules/claims/models.py
use one_loyal.Prelude.{ℕ, String, Bool, true, false, Option}

pub data RewardClaimStatus : Type 0 where
  pending approved rejected fulfilled cancelled : RewardClaimStatus

-- `status in ACTIVE_REWARD_CLAIM_STATUSES`
abbrev pub is_active_status : RewardClaimStatus → Bool
is_active_status RewardClaimStatus.pending = true
is_active_status RewardClaimStatus.approved = true
is_active_status _ = false

abbrev pub is_pending : RewardClaimStatus → Bool
is_pending RewardClaimStatus.pending = true
is_pending _ = false

abbrev pub is_approved : RewardClaimStatus → Bool
is_approved RewardClaimStatus.approved = true
is_approved _ = false

abbrev pub is_fulfilled : RewardClaimStatus → Bool
is_fulfilled RewardClaimStatus.fulfilled = true
is_fulfilled _ = false

abbrev pub status_text : RewardClaimStatus → String
status_text RewardClaimStatus.pending = "pending"
status_text RewardClaimStatus.approved = "approved"
status_text RewardClaimStatus.rejected = "rejected"
status_text RewardClaimStatus.fulfilled = "fulfilled"
status_text RewardClaimStatus.cancelled = "cancelled"

pub record RewardClaim : Type 0 where
  pub id : ℕ
  pub company_id : ℕ
  pub campaign_id : ℕ
  pub customer_id : ℕ
  pub gift_tier_id : ℕ
  pub status : RewardClaimStatus
  pub customer_comment : Option String
  pub admin_comment : Option String
  pub decided_by_user_id : Option ℕ
  pub decided_at : Option ℕ
  pub fulfilled_by_user_id : Option ℕ
  pub fulfilled_at : Option ℕ
  pub cancelled_by_user_id : Option ℕ
  pub cancelled_at : Option ℕ
  pub deleted_at : Option ℕ
