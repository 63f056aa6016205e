-- ===== src/Campaigns/Lifecycle.antt =====
-- The states of a campaign, the steps between them, and when a campaign may start.
pub mod Moves
pub mod Run
pub mod Activation
use one_loyal.Prelude.{
  ℕ, ◌+◌, ◌≤◌, ◌==◌, ◌≡◌, ◌≢◌, ◌⊎◌, ◌&&◌, refl, sym, Bool, true, false, not, inl, inr, String,
  Option, none, some, List, [], ◌∷◌, All, All-map, ltb, str_eq, arith, select,
}
use one_loyal.Core.{Error, Result, ok, err, Result-cases, conflict}
use one_loyal.Core.Results.{◌>>=◌, ◌>>◌, refuse_if, returned, required_row-ok, passed_guard}
use one_loyal.Models.Campaign.{Campaign, CampaignStatus, GiftTier}
use one_loyal.Db.Exec.{Session, Exec}
use one_loyal.Db.Query.{scalar_one_or_none, is_null, put}
use one_loyal.Db.Keyed.{IsKeyed, Has, found_row, Has-put, Has-unique, put-IsKeyed}
use one_loyal.Progress.Service.Plan.{campaign_in, get_campaign_lem}
use one_loyal.Campaigns.Service.{
  validate_date_range, active_tiers_for_campaign, member, validate_tiers, some_tiers,
  validate_activation, save_campaign, is_archived, is_active, is_draft_or_paused,
  is_active_or_paused, is_draft_or_completed, activate_campaign, pause_campaign, complete_campaign,
  archive_campaign, delete_campaign,
}

pub data CampaignStep : CampaignStatus → CampaignStatus → Type 0 where
  activates : CampaignStep CampaignStatus.draft CampaignStatus.active
  resumes : CampaignStep CampaignStatus.paused CampaignStatus.active
  pauses : CampaignStep CampaignStatus.active CampaignStatus.paused
  completes_active : CampaignStep CampaignStatus.active CampaignStatus.completed
  completes_paused : CampaignStep CampaignStatus.paused CampaignStatus.completed
  archives_draft : CampaignStep CampaignStatus.draft CampaignStatus.archived
  archives_completed : CampaignStep CampaignStatus.completed CampaignStatus.archived

-- A deletion keeps the status.
pub data CampaignChange (old new : Campaign) : Type 0 where
  steps :
      CampaignStep old.status new.status → new.deleted_at ≡ old.deleted_at → CampaignChange old new
  deletes : new.status ≡ old.status → CampaignChange old new

pub data CampaignCall : Type 0 where
  activate pause complete archive delete : ℕ → ℕ → CampaignCall

abbrev pub perform : CampaignCall → Exec Campaign
perform (activate company_id campaign_id) = activate_campaign company_id campaign_id
perform (pause company_id campaign_id) = pause_campaign company_id campaign_id
perform (complete company_id campaign_id) = complete_campaign company_id campaign_id
perform (archive company_id campaign_id) = archive_campaign company_id campaign_id
perform (delete company_id campaign_id) = delete_campaign company_id campaign_id

-- What a call makes of a session: an error and nothing, or one campaign that has taken a step.
pub data CampaignMove (s : Session) : Result Campaign → Session → Type 0 where
  raises : (e : Error) → CampaignMove s (err e) s
  changes :
      (old new : Campaign)
      → Has old s.campaigns
      → new.id ≡ old.id
      → CampaignChange old new
      → CampaignMove s (ok new) (save_campaign new s)

module _ (s : Session) where
  unfoldable pub activation_checks : Campaign → Result (Unit {0})
  activation_checks c = do
    validate_date_range c.start_date c.end_date
    some_tiers (active_tiers_for_campaign c s)
    validate_tiers c.currency [] (active_tiers_for_campaign c s)

  pub validate_activation_lem : (c : Campaign) → validate_activation c s ≡ (activation_checks c, s)
  unfolding validate_activation activation_checks
  validate_activation_lem c = ground arith

-- The decisions of the calls, read from the session.
module _ (company_id campaign_id : ℕ) (s : Session) where
  abbrev pub found : Result Campaign
  found = campaign_in company_id campaign_id s.campaigns

  abbrev pub moved : CampaignStatus → Campaign → Campaign
  moved status c = record c { status = status }

  unfoldable pub decide_activate : Result Campaign
  decide_activate = do
    c ← found
    refuse_if (is_archived c.status) (conflict "Archived campaigns cannot be activated.")
    refuse_if (not (is_draft_or_paused c.status))
        (conflict "Campaign cannot be activated from its current status.")
    activation_checks s c
    ok (moved CampaignStatus.active c)

  abbrev pub saved : Result Campaign → Result Campaign × Session
  saved (ok c) = (ok c, save_campaign c s)
  saved (err e) = (err e, s)

  pub activate_campaign_decides : activate_campaign company_id campaign_id s ≡ saved decide_activate
  unfolding activate_campaign decide_activate
  activate_campaign_decides = elim (Result-cases found) [
    | inl (c, h) ↦
        ground (arith, get_campaign_lem company_id campaign_id s, h, validate_activation_lem s c)
    | inr (e, h) ↦ ground (arith, get_campaign_lem company_id campaign_id s, h)
  ]

  -- The other calls test the status alone.
  unfoldable pub decide_status : (CampaignStatus → Bool) → String → CampaignStatus → Result Campaign
  decide_status allowed message status = do
    c ← found
    refuse_if (not (allowed c.status)) (conflict message)
    ok (moved status c)

  pub pause_campaign_decides :
      pause_campaign company_id campaign_id s
      ≡ saved (decide_status is_active "Only active campaigns can be paused." CampaignStatus.paused)
  unfolding pause_campaign decide_status
  pause_campaign_decides = elim (Result-cases found) [
    | inl (c, h) ↦ ground (arith, get_campaign_lem company_id campaign_id s, h)
    | inr (e, h) ↦ ground (arith, get_campaign_lem company_id campaign_id s, h)
  ]

  pub complete_campaign_decides :
      complete_campaign company_id campaign_id s
      ≡ saved (
          decide_status is_active_or_paused "Only active or paused campaigns can be completed."
            CampaignStatus.completed)
  unfolding complete_campaign decide_status
  complete_campaign_decides = elim (Result-cases found) [
    | inl (c, h) ↦ ground (arith, get_campaign_lem company_id campaign_id s, h)
    | inr (e, h) ↦ ground (arith, get_campaign_lem company_id campaign_id s, h)
  ]

  pub archive_campaign_decides :
      archive_campaign company_id campaign_id s
      ≡ saved (
          decide_status is_draft_or_completed "Only draft or completed campaigns can be archived."
            CampaignStatus.archived)
  unfolding archive_campaign decide_status
  archive_campaign_decides = elim (Result-cases found) [
    | inl (c, h) ↦ ground (arith, get_campaign_lem company_id campaign_id s, h)
    | inr (e, h) ↦ ground (arith, get_campaign_lem company_id campaign_id s, h)
  ]

  unfoldable pub decide_delete : Result Campaign
  decide_delete = do c ← found; ok (record c { deleted_at = some s.now })

  pub delete_campaign_decides : delete_campaign company_id campaign_id s ≡ saved decide_delete
  unfolding delete_campaign decide_delete
  delete_campaign_decides = elim (Result-cases found) [
    | inl (c, h) ↦ ground (arith, get_campaign_lem company_id campaign_id s, h)
    | inr (e, h) ↦ ground (arith, get_campaign_lem company_id campaign_id s, h)
  ]
