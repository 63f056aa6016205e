-- ===== src/Claims/Creation.antt =====
-- `create_claim` as a decision: what it reads, and the claim that it makes.
use one_loyal.Prelude.{
  ℕ, suc, ◌≤◌, ◌==◌, ◌&&◌, ◌≡◌, Bool, true, not, inl, inr, Option, none, some, List, ◌∷◌, select,
  count_if, ltb, arith,
}
use one_loyal.Core.{Result, ok, err, Result-cases, conflict}
use one_loyal.Core.Results.{
  ◌>>=◌, ◌>>◌, refuse_if, required_row, returned, required_row-ok, passed_guard,
}
use one_loyal.Models.Campaign.{Campaign, GiftTier}
use one_loyal.Models.Customer.{Customer}
use one_loyal.Models.Progress.{CustomerCampaignProgress}
use one_loyal.Models.Claim.{RewardClaim}
use one_loyal.Models.Event.{AuditContext}
use one_loyal.Db.Exec.{Session}
use one_loyal.Db.Query.{scalar_one_or_none, is_null}
use one_loyal.Db.Keyed.{Has, found_row, no_row}
use one_loyal.Events.{emit}
use one_loyal.Progress.Service.{is_progress_of}
use one_loyal.Progress.Service.Plan.{campaign_in, customer_in, get_campaign_lem, get_customer_lem}
use one_loyal.Claims.Service.{
  ClaimRequest, given_or, new_claim, is_claimable_status, is_active_claim, ensure_claimable,
  create_claim, claim_event,
}
use one_loyal.Claims.Decisions.{tier_in, get_tier_lem}

unfoldable pub claimable_in : ℕ → Campaign → ℕ → GiftTier → Session → Result (Unit {0})
claimable_in company_id campaign customer_id tier s = do
  refuse_if (not campaign.allow_claims) (conflict "Reward claims are disabled for this campaign.")
  refuse_if (not (is_claimable_status campaign.status))
      (conflict "Claims are allowed only for active or completed campaigns.")
  progress ←
      required_row
        (scalar_one_or_none (select (is_progress_of company_id campaign.id customer_id) s.progress))
        (conflict "Customer progress must be calculated before claiming.")
  refuse_if (ltb progress.total_amount_minor tier.required_amount_minor)
      (conflict "Customer has not reached this gift tier.")
  active_claim ←
      scalar_one_or_none (select (is_active_claim company_id campaign.id customer_id) s.claims)
  refuse_if (not (is_null active_claim))
      (conflict "Customer already has an active claim for this campaign.")

unfoldable pub decide_create : ℕ → ClaimRequest → Option ℕ → Option ℕ → Session → Result RewardClaim
decide_create company_id request customer_id campaign_id s = do
  customer_in company_id (given_or customer_id request.customer_id) s.customers
  campaign ← campaign_in company_id (given_or campaign_id request.campaign_id) s.campaigns
  tier ←
      tier_in company_id (given_or campaign_id request.campaign_id) request.gift_tier_id
        s.gift_tiers
  claimable_in company_id campaign (given_or customer_id request.customer_id) tier s
  ok (
      new_claim s.next_id company_id (given_or campaign_id request.campaign_id)
        (given_or customer_id request.customer_id) tier.id request.customer_comment)

ensure_claimable_lem :
    (company_id : ℕ) (campaign : Campaign) (customer_id : ℕ) (tier : GiftTier) (s : Session)
    → ensure_claimable company_id campaign customer_id tier s
      ≡ (claimable_in company_id campaign customer_id tier s, s)
unfolding ensure_claimable claimable_in
ensure_claimable_lem company_id campaign customer_id tier s = ground arith

abbrev pub with_claim : RewardClaim → Session → Session
with_claim c s = record s { claims = c ∷ s.claims; next_id = suc s.next_id }

abbrev pub created :
    ℕ → Result RewardClaim → Option AuditContext → Session → Result RewardClaim × Session
created company_id (ok c) context s =
    (ok c, (emit (claim_event company_id "reward_claim_created" c) context (with_claim c s)).1)
created company_id (err e) context s = (err e, s)

module _ (company_id : ℕ) (request : ClaimRequest) (customer_id campaign_id : Option ℕ)
    (s : Session) where
  abbrev k : ℕ
  k = given_or campaign_id request.campaign_id

  abbrev u : ℕ
  u = given_or customer_id request.customer_id

  pub create_claim_decides :
      (context : Option AuditContext)
      → create_claim company_id request customer_id campaign_id context s
        ≡ created company_id (decide_create company_id request customer_id campaign_id s) context s
  unfolding create_claim decide_create emit
  create_claim_decides context = elim (Result-cases (campaign_in company_id k s.campaigns)) [
    | inl (ca, g) ↦ elim (Result-cases (tier_in company_id k request.gift_tier_id s.gift_tiers)) [
      | inl (t, f) ↦ ground (
        arith,
        get_customer_lem company_id u s,
        get_campaign_lem company_id k s,
        g,
        get_tier_lem company_id k request.gift_tier_id s,
        f,
        ensure_claimable_lem company_id ca u t s,
      )
      | inr (_, f) ↦ ground (
        arith,
        get_customer_lem company_id u s,
        get_campaign_lem company_id k s,
        g,
        get_tier_lem company_id k request.gift_tier_id s,
        f,
      )
    ]
    | inr (_, g) ↦
        ground (arith, get_customer_lem company_id u s, get_campaign_lem company_id k s, g)
  ]

  found_here : (ca : Campaign) → campaign_in company_id k s.campaigns ≡ ok ca → ca.id ≡ k
  unfolding campaign_in
  found_here ca h =
      let test : Campaign → Bool =
        λ x. x.id == k && x.company_id == company_id && is_null x.deleted_at in
      let row =
        found_row test s.campaigns ca
          (required_row-ok (scalar_one_or_none (select test s.campaigns)) _ ca h) in
      ground (arith, row.1)

  module _ (ca : Campaign) (t : GiftTier) where
    -- The checks that a passed `_ensure_claimable` has made.
    pub record Checked : Type 0 where
      pub progress : CustomerCampaignProgress
      pub allowed : ca.allow_claims ≡ true
      pub claimable : is_claimable_status ca.status ≡ true
      pub of_progress : Has progress s.progress
      pub is_its_progress : is_progress_of company_id ca.id u progress ≡ true
      pub reached : t.required_amount_minor ≤ progress.total_amount_minor
      pub no_other : count_if (is_active_claim company_id ca.id u) s.claims ≡ 0

    no_active :
        (xs : List RewardClaim) (p : RewardClaim → Bool) (r : Option RewardClaim) (v : Unit {0})
        → scalar_one_or_none (select p xs) ≡ ok r
        → refuse_if
            (not (is_null r))
            (conflict "Customer already has an active claim for this campaign.")
          ≡ ok v
        → count_if p xs ≡ 0
    no_active xs p none v h g = no_row p xs h
    no_active xs p (some c) v h g = cc

    claimable_checks : (v : Unit {0}) → claimable_in company_id ca u t s ≡ ok v → Checked
    unfolding claimable_in
    claimable_checks v h =
        let (u1, allowed, h1) = returned (refuse_if (not ca.allow_claims) _) _ v h in
        let (u2, status, h2) =
          returned (refuse_if (not (is_claimable_status ca.status)) _) _ v h1 in
        let rows = scalar_one_or_none (select (is_progress_of company_id ca.id u) s.progress) in
        let (p, found, h3) = returned (required_row rows _) _ v h2 in
        let (u4, reached, h4) =
          returned (refuse_if (ltb p.total_amount_minor t.required_amount_minor) _) _ v h3 in
        let claims = scalar_one_or_none (select (is_active_claim company_id ca.id u) s.claims) in
        let (active, queried, h5) = returned claims _ v h4 in
        let row =
          found_row (is_progress_of company_id ca.id u) s.progress p
            (required_row-ok rows _ p found) in
        record {
          progress = p;
          allowed = passed_guard ca.allow_claims _ u1 allowed;
          claimable = passed_guard (is_claimable_status ca.status) _ u2 status;
          of_progress = row.0;
          is_its_progress = row.1;
          reached = ground (arith, reached);
          no_other = no_active s.claims (is_active_claim company_id ca.id u) active v queried h5;
        }

  -- The campaign, the customer and the tier of a claim that is made, with the checks it passed.
  pub record Earned (c : RewardClaim) : Type 0 where
    pub campaign : Campaign
    pub tier : GiftTier
    pub of_campaign : campaign_in company_id k s.campaigns ≡ ok campaign
    pub of_tier : tier_in company_id k request.gift_tier_id s.gift_tiers ≡ ok tier
    pub of_customer : (cu : Customer) × (customer_in company_id u s.customers ≡ ok cu)
    pub here : campaign.id ≡ k
    pub checks : Checked campaign tier
    pub is_made : c ≡ new_claim s.next_id company_id k u tier.id request.customer_comment

  pub decide_create-Earned :
      (c : RewardClaim)
      → decide_create company_id request customer_id campaign_id s ≡ ok c
      → Earned c
  unfolding decide_create
  decide_create-Earned c h =
      let (cu, customer, h1) = returned (customer_in company_id u s.customers) _ c h in
      let (ca, campaign, h2) = returned (campaign_in company_id k s.campaigns) _ c h1 in
      let (t, tier, h3) =
        returned (tier_in company_id k request.gift_tier_id s.gift_tiers) _ c h2 in
      let (v, checked, h4) = returned (claimable_in company_id ca u t s) _ c h3 in
      record {
        campaign = ca;
        tier = t;
        of_campaign = campaign;
        of_tier = tier;
        of_customer = (cu, customer);
        checks = claimable_checks ca t v checked;
        here = found_here ca campaign;
        is_made = cc (h4);
      }
