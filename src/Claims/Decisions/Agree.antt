-- ===== src/Claims/Decisions/Agree.antt =====
-- The actions of the service are their decisions, carried out.
use one_loyal.Prelude.{ℕ, ◌≡◌, String, Option, some, inl, inr, arith}
use one_loyal.Core.{Result, ok, err, Result-cases}
use one_loyal.Models.Campaign.{GiftTier}
use one_loyal.Models.Claim.{RewardClaim}
use one_loyal.Models.Event.{AuditContext}
use one_loyal.Db.Exec.{Session}
use one_loyal.Events.{emit}
use one_loyal.Claims.Service.{
  claim_event, approve_claim, reject_claim, fulfill_claim, cancel_claim, release_if_approved,
  get_tier,
}
use one_loyal.Claims.Decisions.{
  get_claim_lem, get_tier_lem, decide_approve, decide_reject, decide_fulfill, decide_cancel,
  conclude, book_release, claim_in, tier_in, save_booking,
}

-- What the release leaves in the session.
abbrev released : Result (Option (GiftTier × GiftTier)) → Session → Result (Unit {0}) × Session
released (ok booking) s = (ok tt, save_booking booking s)
released (err e) s = (err e, s)

module _ (company_id claim_id : ℕ) (comment : Option String) (context : Option AuditContext)
    (s : Session) where
  abbrev found : Result RewardClaim
  found = claim_in company_id claim_id s.claims

  abbrev TierOf : RewardClaim → Type 0
  TierOf c =
      get_tier company_id c.campaign_id c.gift_tier_id s
      ≡ (tier_in company_id c.campaign_id c.gift_tier_id s.gift_tiers, s)

  tier_lem : (c : RewardClaim) → TierOf c
  tier_lem c = get_tier_lem company_id c.campaign_id c.gift_tier_id s

  pub approve_claim_decides :
      (user_id : ℕ)
      → approve_claim company_id claim_id user_id comment context s
        ≡ conclude
            (decide_approve company_id claim_id s user_id comment)
            (λ c. record (claim_event company_id "reward_claim_approved" c) {
              actor_user_id = some user_id;
            })
            context
            s
  unfolding approve_claim decide_approve emit
  approve_claim_decides user_id = elim (Result-cases found) [
    | inl (c, h) ↦ ground (arith, get_claim_lem company_id claim_id s, h, tier_lem c)
    | inr (e, h) ↦ ground (arith, get_claim_lem company_id claim_id s, h)
  ]

  pub fulfill_claim_decides :
      (user_id : ℕ)
      → fulfill_claim company_id claim_id user_id comment context s
        ≡ conclude
            (decide_fulfill company_id claim_id s user_id comment)
            (λ c. record (claim_event company_id "reward_claim_fulfilled" c) {
              actor_user_id = some user_id;
            })
            context
            s
  unfolding fulfill_claim decide_fulfill emit
  fulfill_claim_decides user_id = elim (Result-cases found) [
    | inl (c, h) ↦ ground (arith, get_claim_lem company_id claim_id s, h, tier_lem c)
    | inr (e, h) ↦ ground (arith, get_claim_lem company_id claim_id s, h)
  ]

  release_lem :
      (c : RewardClaim)
      → release_if_approved company_id c s ≡ released (book_release company_id c s) s
  unfolding release_if_approved book_release
  release_lem c = ground (arith, tier_lem c)

  pub reject_claim_decides :
      (user_id : ℕ)
      → reject_claim company_id claim_id user_id comment context s
        ≡ conclude
            (decide_reject company_id claim_id s user_id comment)
            (λ c. record (claim_event company_id "reward_claim_rejected" c) {
              actor_user_id = some user_id;
            })
            context
            s
  unfolding reject_claim decide_reject emit
  reject_claim_decides user_id = elim (Result-cases found) [
    | inl (c, h) ↦ ground (arith, get_claim_lem company_id claim_id s, h, release_lem c)
    | inr (e, h) ↦ ground (arith, get_claim_lem company_id claim_id s, h)
  ]

  pub cancel_claim_decides :
      (user_id customer_id : Option ℕ)
      → cancel_claim company_id claim_id user_id customer_id comment context s
        ≡ conclude
            (decide_cancel company_id claim_id s user_id customer_id comment)
            (λ c. record (claim_event company_id "reward_claim_cancelled" c) {
              actor_user_id = user_id;
              actor_customer_id = customer_id;
            })
            context
            s
  unfolding cancel_claim decide_cancel emit
  cancel_claim_decides user_id customer_id = elim (Result-cases found) [
    | inl (c, h) ↦ ground (arith, get_claim_lem company_id claim_id s, h, release_lem c)
    | inr (e, h) ↦ ground (arith, get_claim_lem company_id claim_id s, h)
  ]
