-- ===== src/Campaigns/Service.antt =====
-- `CampaignService`: the life of a campaign. The lookup of a campaign is the query of the progress
-- service, word for word.
use one_loyal.Prelude.{
  ℕ, ◌==◌, ◌&&◌, ◌||◌, String, Bool, true, false, not, some, List, [], ◌∷◌, select, ltb, str_eq,
  if◌then◌else◌,
}
use one_loyal.Core.{Error, Result, ok, err, validation, conflict}
use one_loyal.Core.Results.{refuse_if}
use one_loyal.Models.Campaign.{Campaign, CampaignStatus, GiftTier}
use one_loyal.Db.Exec.{Session, Exec, pure, lift, gets, raise_if, modify, utc_now, ◌>>=◌, ◌>>◌}
use one_loyal.Db.Query.{put, is_null}
use one_loyal.Progress.Service.{get_campaign}

abbrev pub invalid_range : Error
invalid_range = validation "Campaign end date must be greater than or equal to start date."

abbrev pub validate_date_range : ℕ → ℕ → Result (Unit {0})
validate_date_range start_date end_date = refuse_if (ltb end_date start_date) invalid_range

-- `_ensure_campaign_editable`
abbrev pub editable : CampaignStatus → Result (Unit {0})
editable CampaignStatus.archived = err (conflict "Archived campaigns cannot be edited.")
editable CampaignStatus.completed = err (conflict "Completed campaigns cannot be edited.")
editable _ = ok tt

unfoldable pub active_tiers_for_campaign : Campaign → Session → List GiftTier
active_tiers_for_campaign campaign s =
    select
      (λ t.
        t.campaign_id == campaign.id
        && t.company_id == campaign.company_id
        && is_null t.deleted_at
        && t.is_active)
      s.gift_tiers

-- `amount in seen_amounts`
abbrev pub member : ℕ → List ℕ → Bool
member n [] = false
member n (x ∷ xs) = x == n || member n xs

-- The loop over the tiers, with the amounts that it has seen.
unfoldable pub validate_tiers : String → List ℕ → List GiftTier → Result (Unit {0})
validate_tiers currency seen [] = ok tt
validate_tiers currency seen (t ∷ ts) =
    let rest = validate_tiers currency (t.required_amount_minor ∷ seen) ts in
    if not (str_eq t.currency currency)
    then err (conflict "All gift tiers must match campaign currency.")
    else if member t.required_amount_minor seen
    then err (conflict "Gift tier required amounts must be unique inside a campaign.")
    else rest

-- `if not tiers: raise ...`
abbrev pub some_tiers : List GiftTier → Result (Unit {0})
some_tiers [] = err (conflict "Campaign cannot be activated without active gift tiers.")
some_tiers (t ∷ ts) = ok tt

unfoldable pub validate_activation : Campaign → Exec (Unit {0})
unfolding active_tiers_for_campaign validate_tiers
validate_activation campaign = do
  lift (validate_date_range campaign.start_date campaign.end_date)
  tiers ← gets (active_tiers_for_campaign campaign)
  lift (some_tiers tiers)
  lift (validate_tiers campaign.currency [] tiers)

-- The flush of the changed object.
abbrev pub save_campaign : Campaign → Session → Session
save_campaign c s = record s { campaigns = put (λ x. x.id) c s.campaigns }

unfoldable pub delete_campaign : ℕ → ℕ → Exec Campaign
unfolding get_campaign
delete_campaign company_id campaign_id = do
  campaign ← get_campaign company_id campaign_id
  now ← utc_now
  let deleted : Campaign = record campaign { deleted_at = some now }
  modify (save_campaign deleted)
  pure deleted

-- `campaign.status == X`
abbrev pub is_archived : CampaignStatus → Bool
is_archived CampaignStatus.archived = true
is_archived _ = false

abbrev pub is_active : CampaignStatus → Bool
is_active CampaignStatus.active = true
is_active _ = false

-- `campaign.status in {DRAFT, PAUSED}`
abbrev pub is_draft_or_paused : CampaignStatus → Bool
is_draft_or_paused CampaignStatus.draft = true
is_draft_or_paused CampaignStatus.paused = true
is_draft_or_paused _ = false

-- `campaign.status in {ACTIVE, PAUSED}`
abbrev pub is_active_or_paused : CampaignStatus → Bool
is_active_or_paused CampaignStatus.active = true
is_active_or_paused CampaignStatus.paused = true
is_active_or_paused _ = false

-- `campaign.status in {DRAFT, COMPLETED}`
abbrev pub is_draft_or_completed : CampaignStatus → Bool
is_draft_or_completed CampaignStatus.draft = true
is_draft_or_completed CampaignStatus.completed = true
is_draft_or_completed _ = false

-- `campaign.status = X` and the flush
abbrev pub set_status : CampaignStatus → Campaign → Exec Campaign
set_status status campaign = do
  let changed : Campaign = record campaign { status = status }
  modify (save_campaign changed)
  pure changed

unfoldable pub activate_campaign : ℕ → ℕ → Exec Campaign
unfolding get_campaign validate_activation
activate_campaign company_id campaign_id = do
  campaign ← get_campaign company_id campaign_id
  raise_if (is_archived campaign.status) (conflict "Archived campaigns cannot be activated.")
  raise_if (not (is_draft_or_paused campaign.status))
      (conflict "Campaign cannot be activated from its current status.")
  validate_activation campaign
  set_status CampaignStatus.active campaign

unfoldable pub pause_campaign : ℕ → ℕ → Exec Campaign
unfolding get_campaign
pause_campaign company_id campaign_id = do
  campaign ← get_campaign company_id campaign_id
  raise_if (not (is_active campaign.status)) (conflict "Only active campaigns can be paused.")
  set_status CampaignStatus.paused campaign

unfoldable pub complete_campaign : ℕ → ℕ → Exec Campaign
unfolding get_campaign
complete_campaign company_id campaign_id = do
  campaign ← get_campaign company_id campaign_id
  raise_if (not (is_active_or_paused campaign.status))
      (conflict "Only active or paused campaigns can be completed.")
  set_status CampaignStatus.completed campaign

unfoldable pub archive_campaign : ℕ → ℕ → Exec Campaign
unfolding get_campaign
archive_campaign company_id campaign_id = do
  campaign ← get_campaign company_id campaign_id
  raise_if (not (is_draft_or_completed campaign.status))
      (conflict "Only draft or completed campaigns can be archived.")
  set_status CampaignStatus.archived campaign
