-- ===== src/Claims/Stuck.antt =====
-- What becomes of an approved claim whose tier is no longer found.
use one_loyal.Prelude.{
  ℕ, ◌==◌, ◌&&◌, ◌≡◌, ◌⊎◌, refl, Bool, false, Option, none, String, List, arith,
}
use one_loyal.Models.Campaign.{GiftTier}
use one_loyal.Db.Query.{is_null}
use one_loyal.Db.Keyed.{IsKeyed, Has, select_off}
use one_loyal.Core.{ok, err, not_found}
use one_loyal.Models.Claim.{RewardClaim, RewardClaimStatus}
use one_loyal.Models.Event.{AuditContext}
use one_loyal.Db.Exec.{Session}
use one_loyal.Claims.Service.{reject_claim, fulfill_claim, cancel_claim}
use one_loyal.Claims.Decisions.{
  claim_in, tier_in, book, book_release, decide_reject, decide_fulfill, decide_cancel,
}
use one_loyal.Claims.Decisions.Agree.{
  reject_claim_decides, fulfill_claim_decides, cancel_claim_decides,
}

-- A row that cannot pass is not found, and the rows of its key are no others.
off_tier :
    (company_id campaign_id n : ℕ) (t : GiftTier) (tiers : List GiftTier)
    → IsKeyed (λ x. x.id) n tiers
    → Has t tiers
    → (is_null t.deleted_at ≡ false) ⊎ (t.is_active ≡ false)
    → tier_in company_id campaign_id t.id tiers ≡ err (not_found "Gift tier not found.")
unfolding tier_in
off_tier company_id campaign_id n t tiers v there off =
    let test : GiftTier → Bool = λ x.
      x.id == t.id
      && x.company_id == company_id
      && x.campaign_id == campaign_id
      && is_null x.deleted_at
      && x.is_active in
    rw
      (select_off (λ x. x.id) test n t tiers v there (ground (arith, off))
        (λ x h. ground (arith, h)))
      refl

-- An approved claim whose tier has been deleted or switched off can neither be rejected, nor
-- fulfilled, nor cancelled by the staff: each call raises "Gift tier not found." and writes
-- nothing, where the keys of the tiers differ.
pub approved_claim_is_stuck :
    (company_id claim_id : ℕ) (s : Session) (c : RewardClaim) (t : GiftTier)
    → claim_in company_id claim_id s.claims ≡ ok c
    → c.status ≡ RewardClaimStatus.approved
    → IsKeyed (λ x. x.id) s.next_id s.gift_tiers
    → Has t s.gift_tiers
    → t.id ≡ c.gift_tier_id
    → (is_null t.deleted_at ≡ false) ⊎ (t.is_active ≡ false)
    → (comment : Option String) (context : Option AuditContext)
    → ((user_id : ℕ)
        → reject_claim company_id claim_id user_id comment context s
          ≡ (err (not_found "Gift tier not found."), s))
      × ((user_id : ℕ)
          → fulfill_claim company_id claim_id user_id comment context s
            ≡ (err (not_found "Gift tier not found."), s))
      × ((user_id : Option ℕ)
          → cancel_claim company_id claim_id user_id none comment context s
            ≡ (err (not_found "Gift tier not found."), s))
unfolding decide_reject decide_fulfill decide_cancel book book_release
approved_claim_is_stuck company_id claim_id s c t h g v there own off comment context =
    let f = off_tier company_id c.campaign_id s.next_id t s.gift_tiers v there off in
    let f' : tier_in company_id c.campaign_id c.gift_tier_id s.gift_tiers
        ≡ err (not_found "Gift tier not found.") =
      rw (← own) f in
    (
      (λ user_id.
          rw (reject_claim_decides company_id claim_id comment context s user_id, h, g, f') refl),
      (λ user_id.
          rw (fulfill_claim_decides company_id claim_id comment context s user_id, h, g, f') refl),
      (λ user_id.
          rw (cancel_claim_decides company_id claim_id comment context s user_id none, h, g, f')
            refl),
    )
