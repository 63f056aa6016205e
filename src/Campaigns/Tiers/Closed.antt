-- ===== src/Campaigns/Tiers/Closed.antt =====
-- `_ensure_campaign_editable`: the gift tiers of a campaign that is over.
use one_loyal.Prelude.{ℕ, ◌≡◌, refl, ◌∙◌, ap, List, [], ◌∷◌, All}
use one_loyal.Core.{Error, ok, err, conflict}
use one_loyal.Models.Campaign.{Campaign, CampaignStatus}
use one_loyal.Db.Exec.{Session}
use one_loyal.Progress.Service.Plan.{campaign_in}
use one_loyal.Campaigns.Service.{editable}
use one_loyal.Campaigns.Tiers.{
  TierRequest, TierPatch, create_tier, update_tier, delete_tier, reorder_tiers,
}
use one_loyal.Campaigns.Tiers.Decisions.{
  editable_in, create_tier_decides, update_tier_decides, delete_tier_decides, reorder_tiers_decides,
  decide_create, decide_update, decide_delete, decide_reorder,
}
use one_loyal.Campaigns.Tiers.Run.{TierCall, create, update, delete, reorder, after, run}

-- The statuses of a campaign that is over, each with what its staff is told.
pub data IsClosed : CampaignStatus → Error → Type 0 where
  completed : IsClosed CampaignStatus.completed (conflict "Completed campaigns cannot be edited.")
  archived : IsClosed CampaignStatus.archived (conflict "Archived campaigns cannot be edited.")

closed_lem : (status : CampaignStatus) (e : Error) → IsClosed status e → editable status ≡ err e
closed_lem _ _ completed = refl
closed_lem _ _ archived = refl

-- A call on the tiers of this campaign
abbrev pub IsOn : ℕ → ℕ → TierCall → Type 0
IsOn company_id campaign_id (create a b request) = (a ≡ company_id) × (b ≡ campaign_id)
IsOn company_id campaign_id (update a b tier_id patch) = (a ≡ company_id) × (b ≡ campaign_id)
IsOn company_id campaign_id (delete a b tier_id) = (a ≡ company_id) × (b ≡ campaign_id)
IsOn company_id campaign_id (reorder a b tier_ids) = (a ≡ company_id) × (b ≡ campaign_id)

module _ (company_id campaign_id : ℕ) (s : Session) (c : Campaign) (e : Error)
    (h : campaign_in company_id campaign_id s.campaigns ≡ ok c) (over : IsClosed c.status e) where
  create_refused :
      (request : TierRequest) → create_tier company_id campaign_id request s ≡ (err e, s)
  unfolding editable_in decide_create
  create_refused request =
      rw (create_tier_decides company_id campaign_id s request, h, closed_lem c.status e over) refl

  update_refused :
      (tier_id : ℕ) (patch : TierPatch)
      → update_tier company_id campaign_id tier_id patch s ≡ (err e, s)
  unfolding editable_in decide_update
  update_refused tier_id patch =
      rw (update_tier_decides company_id campaign_id s tier_id patch, h, closed_lem c.status e over)
        refl

  delete_refused : (tier_id : ℕ) → delete_tier company_id campaign_id tier_id s ≡ (err e, s)
  unfolding editable_in decide_delete
  delete_refused tier_id =
      rw (delete_tier_decides company_id campaign_id s tier_id, h, closed_lem c.status e over) refl

  reorder_refused :
      (tier_ids : List ℕ) → reorder_tiers company_id campaign_id tier_ids s ≡ (err e, s)
  unfolding editable_in decide_reorder
  reorder_refused tier_ids =
      rw (reorder_tiers_decides company_id campaign_id s tier_ids, h, closed_lem c.status e over)
        refl

  call_refused : (call : TierCall) → IsOn company_id campaign_id call → after call s ≡ s
  call_refused (create a b request) on = rw (on.0, on.1) (ap (λ r. r.1) (create_refused request))
  call_refused (update a b tier_id patch) on =
      rw (on.0, on.1) (ap (λ r. r.1) (update_refused tier_id patch))
  call_refused (delete a b tier_id) on = rw (on.0, on.1) (ap (λ r. r.1) (delete_refused tier_id))
  call_refused (reorder a b tier_ids) on =
      rw (on.0, on.1) (ap (λ r. r.1) (reorder_refused tier_ids))

  run_refused : (calls : List TierCall) → All (IsOn company_id campaign_id) calls → run calls s ≡ s
  run_refused [] on = refl
  run_refused (call ∷ calls) on = ap (run calls) (call_refused call on.0) ∙ run_refused calls on.1

  -- Where the lookup finds a campaign that is completed or archived, each of the four calls on its
  -- gift tiers, with any arguments, raises that completed, or archived, campaigns cannot be edited,
  -- and any sequence of them leaves the whole session as it was.
  pub closed_campaign_keeps_tiers :
      ((request : TierRequest) → create_tier company_id campaign_id request s ≡ (err e, s))
      × ((tier_id : ℕ) (patch : TierPatch)
          → update_tier company_id campaign_id tier_id patch s ≡ (err e, s))
      × ((tier_id : ℕ) → delete_tier company_id campaign_id tier_id s ≡ (err e, s))
      × ((tier_ids : List ℕ) → reorder_tiers company_id campaign_id tier_ids s ≡ (err e, s))
      × ((calls : List TierCall) → All (IsOn company_id campaign_id) calls → run calls s ≡ s)
  closed_campaign_keeps_tiers =
      (create_refused, update_refused, delete_refused, reorder_refused, run_refused)
