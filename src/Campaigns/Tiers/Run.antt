-- ===== src/Campaigns/Tiers/Run.antt =====
-- Calls on the gift tiers of campaigns one after another.
use one_loyal.Prelude.{
  ℕ, ◌≤◌, ◌==◌, ◌&&◌, ◌≡◌, ◌≢◌, Bool, inl, inr, List, [], ◌∷◌, select, count_if, bit, All, arith,
  Bool-cases,
}
use one_loyal.Models.Campaign.{Campaign, GiftTier}
use one_loyal.Db.Exec.{Session}
use one_loyal.Db.Query.{is_null}
use one_loyal.Campaigns.Service.{active_tiers_for_campaign}
use one_loyal.Campaigns.Lifecycle.Activation.{HasDistinctAmounts, amount}
use one_loyal.Campaigns.Tiers.{
  has_amount, TierRequest, TierPatch, create_tier, update_tier, delete_tier, reorder_tiers,
}
use one_loyal.Campaigns.Tiers.Amounts.{
  IsAmountState, create_tier-IsAmountState, update_tier-IsAmountState, delete_tier-IsAmountState,
  reorder_tiers-IsAmountState,
}

pub data TierCall : Type 0 where
  create : ℕ → ℕ → TierRequest → TierCall
  update : ℕ → ℕ → ℕ → TierPatch → TierCall
  delete : ℕ → ℕ → ℕ → TierCall
  reorder : ℕ → ℕ → List ℕ → TierCall

-- The session after a call, whether it returns or raises.
abbrev pub after : TierCall → Session → Session
after (create company_id campaign_id request) s = (create_tier company_id campaign_id request s).1
after (update company_id campaign_id tier_id patch) s =
    (update_tier company_id campaign_id tier_id patch s).1
after (delete company_id campaign_id tier_id) s = (delete_tier company_id campaign_id tier_id s).1
after (reorder company_id campaign_id tier_ids) s =
    (reorder_tiers company_id campaign_id tier_ids s).1

abbrev pub run : List TierCall → Session → Session
run [] s = s
run (call ∷ calls) s = run calls (after call s)

after-IsAmountState :
    (call : TierCall) (s : Session) → IsAmountState s → IsAmountState (after call s)
after-IsAmountState (create company_id campaign_id request) s v =
    create_tier-IsAmountState company_id campaign_id s v request
after-IsAmountState (update company_id campaign_id tier_id patch) s v =
    update_tier-IsAmountState company_id campaign_id s v tier_id patch
after-IsAmountState (delete company_id campaign_id tier_id) s v =
    delete_tier-IsAmountState company_id campaign_id s v tier_id
after-IsAmountState (reorder company_id campaign_id tier_ids) s v =
    reorder_tiers-IsAmountState company_id campaign_id s v tier_ids

-- Any calls that create, update, delete and reorder gift tiers, returning or raising, keep this:
-- keys differ, and no two tiers of a campaign that are not deleted have one required amount.
pub run-IsAmountState :
    (calls : List TierCall) (s : Session) → IsAmountState s → IsAmountState (run calls s)
run-IsAmountState [] s v = v
run-IsAmountState (call ∷ calls) s v =
    run-IsAmountState calls (after call s) (after-IsAmountState call s v)

-- Where a test finds one row at most for an amount, the rows that it selects differ in amount.
no_same :
    (p : GiftTier → Bool) (a : ℕ) (ts : List GiftTier)
    → count_if (λ t. p t && amount t == a) ts ≡ 0
    → All (λ u. amount u ≢ a) (select p ts)
no_same p a [] h = tt
no_same p a (t ∷ ts) h = elim (Bool-cases (p t)) [
  | inl passes ↦
      rw passes ((λ e. absurd (ground (arith, h, passes, e))), no_same p a ts (ground (arith, h)))
  | inr fails ↦ rw fails (no_same p a ts (ground (arith, h, fails)))
]

selected_distinct :
    (p : GiftTier → Bool) (ts : List GiftTier)
    → ((a : ℕ) → count_if (λ t. p t && amount t == a) ts ≤ 1)
    → HasDistinctAmounts (select p ts)
selected_distinct p [] f = tt
selected_distinct p (t ∷ ts) f = elim (Bool-cases (p t)) [
  | inl passes ↦ rw passes (
    no_same p (amount t) ts (ground (arith, f (amount t), passes)),
    selected_distinct p ts (λ a. ground (arith, f a)),
  )
  | inr fails ↦ rw fails (selected_distinct p ts (λ a. ground (arith, f a)))
]

fewer :
    (p q : GiftTier → Bool) (ts : List GiftTier)
    → ((t : GiftTier) → bit (p t) ≤ bit (q t))
    → count_if p ts ≤ count_if q ts
fewer p q [] f = omega arith
fewer p q (t ∷ ts) f = omega (arith, f t, fewer p q ts f)

-- From a state where no two tiers of a campaign that are not deleted have one amount, after any
-- calls on gift tiers the active tiers of each campaign differ in their amounts: the duplicate
-- check of an activation never fails.
pub run_keeps_distinct_amounts :
    (calls : List TierCall) (s : Session) (campaign : Campaign)
    → IsAmountState s
    → HasDistinctAmounts (active_tiers_for_campaign campaign (run calls s))
unfolding active_tiers_for_campaign
run_keeps_distinct_amounts calls s campaign v =
    let test : GiftTier → Bool = λ t.
      t.campaign_id == campaign.id
      && t.company_id == campaign.company_id
      && is_null t.deleted_at
      && t.is_active in
    let ts = (run calls s).gift_tiers in
    selected_distinct test ts (λ a. omega (
      arith,
      (run-IsAmountState calls s v).single campaign.id a,
      fewer (λ t. test t && amount t == a) (has_amount campaign.id a) ts (λ t. ground arith),
    ))
