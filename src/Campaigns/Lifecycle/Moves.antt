-- ===== src/Campaigns/Lifecycle/Moves.antt =====
-- The calls on a campaign as steps of its state machine, deletions and errors.
use one_loyal.Prelude.{ℕ, ◌==◌, ◌≡◌, ◌&&◌, refl, Bool, true, not, String, some, select}
use one_loyal.Core.{Result, ok, err}
use one_loyal.Core.Results.{◌>>=◌, refuse_if, returned, required_row-ok, passed_guard}
use one_loyal.Models.Campaign.{Campaign, CampaignStatus}
use one_loyal.Db.Exec.{Session}
use one_loyal.Db.Query.{scalar_one_or_none, is_null}
use one_loyal.Db.Keyed.{Has, found_row}
use one_loyal.Progress.Service.Plan.{campaign_in}
use one_loyal.Campaigns.Service.{
  is_archived, is_active, is_draft_or_paused, is_active_or_paused, is_draft_or_completed,
}
use one_loyal.Campaigns.Lifecycle.{
  CampaignStep, activates, resumes, pauses, completes_active, completes_paused, archives_draft,
  archives_completed, steps, deletes, CampaignCall, activate, pause, complete, archive, delete,
  perform, CampaignMove, raises, changes, found, moved, saved, activation_checks, decide_activate,
  decide_status, decide_delete, activate_campaign_decides, pause_campaign_decides,
  complete_campaign_decides, archive_campaign_decides, delete_campaign_decides,
}

module _ (company_id campaign_id : ℕ) (s : Session) where
  abbrev here : Result Campaign
  here = found company_id campaign_id s

  found_campaign : (c : Campaign) → here ≡ ok c → Has c s.campaigns
  unfolding campaign_in
  found_campaign c h =
      let test : Campaign → Bool =
        λ x. x.id == campaign_id && x.company_id == company_id && is_null x.deleted_at in
      (found_row test s.campaigns c
        (required_row-ok (scalar_one_or_none (select test s.campaigns)) _ c h)).0

  activate_step :
      (c : CampaignStatus) → is_draft_or_paused c ≡ true → CampaignStep c CampaignStatus.active
  activate_step CampaignStatus.draft h = activates
  activate_step CampaignStatus.paused h = resumes
  activate_step _ h = cc

  pause_step : (c : CampaignStatus) → is_active c ≡ true → CampaignStep c CampaignStatus.paused
  pause_step CampaignStatus.active h = pauses
  pause_step _ h = cc

  complete_step :
      (c : CampaignStatus) → is_active_or_paused c ≡ true → CampaignStep c CampaignStatus.completed
  complete_step CampaignStatus.active h = completes_active
  complete_step CampaignStatus.paused h = completes_paused
  complete_step _ h = cc

  archive_step :
      (c : CampaignStatus) → is_draft_or_completed c ≡ true → CampaignStep c CampaignStatus.archived
  archive_step CampaignStatus.draft h = archives_draft
  archive_step CampaignStatus.completed h = archives_completed
  archive_step _ h = cc

  -- A decision that moves the status of the campaign found.
  pub record IsMove (status : CampaignStatus) (new : Campaign) : Type 0 where
    pub old : Campaign
    pub of_table : here ≡ ok old
    pub takes : CampaignStep old.status status
    pub is_moved : new ≡ moved company_id campaign_id s status old

  saved-CampaignMove :
      (status : CampaignStatus) (d : Result Campaign)
      → ((c : Campaign) → d ≡ ok c → IsMove status c)
      → CampaignMove s (saved company_id campaign_id s d).0 (saved company_id campaign_id s d).1
  saved-CampaignMove status (ok c) f =
      let m = f c refl in
      rw (m.is_moved) (
        changes m.old (moved company_id campaign_id s status m.old)
          (found_campaign m.old m.of_table) refl (steps m.takes refl))
  saved-CampaignMove status (err e) f = raises e

  decide_status-IsMove :
      (allowed : CampaignStatus → Bool) (message : String) (status : CampaignStatus)
      → ((x : CampaignStatus) → allowed x ≡ true → CampaignStep x status)
      → (c : Campaign) → decide_status company_id campaign_id s allowed message status ≡ ok c
      → IsMove status c
  unfolding decide_status
  decide_status-IsMove allowed message status f c h =
      let (old, was, h1) = returned here _ c h in
      let (u, passed, h2) = returned (refuse_if (not (allowed old.status)) _) _ c h1 in
      record {
        old = old;
        of_table = was;
        takes = f old.status (passed_guard (allowed old.status) _ u passed);
        is_moved = cc (h2);
      }

  -- What an activation has checked.
  pub record IsActivation (new : Campaign) : Type 0 where
    pub move : IsMove CampaignStatus.active new
    pub checked : activation_checks s move.old ≡ ok tt

  pub decide_activate-IsActivation :
      (c : Campaign) → decide_activate company_id campaign_id s ≡ ok c → IsActivation c
  unfolding decide_activate
  decide_activate-IsActivation c h =
      let (old, was, h1) = returned here _ c h in
      let (_, _, h2) = returned (refuse_if (is_archived old.status) _) _ c h1 in
      let (u, passed, h3) = returned (refuse_if (not (is_draft_or_paused old.status)) _) _ c h2 in
      let (v, checked, h4) = returned (activation_checks s old) _ c h3 in
      record {
        move = record {
          old = old;
          of_table = was;
          takes =
              activate_step old.status (passed_guard (is_draft_or_paused old.status) _ u passed);
          is_moved = cc (h4);
        };
        checked = checked;
      }

  abbrev deleted : Result Campaign → Result Campaign × Session
  deleted r = saved company_id campaign_id s (r >>= λ c. ok (record c { deleted_at = some s.now }))

  decide_delete-CampaignMove :
      (r : Result Campaign) → here ≡ r → CampaignMove s (deleted r).0 (deleted r).1
  decide_delete-CampaignMove (ok c) h =
      changes c (record c { deleted_at = some s.now }) (found_campaign c h) refl (deletes refl)
  decide_delete-CampaignMove (err e) h = raises e

pub perform-CampaignMove :
    (call : CampaignCall) (s : Session) → CampaignMove s (perform call s).0 (perform call s).1
perform-CampaignMove (activate company_id campaign_id) s =
    rw (activate_campaign_decides company_id campaign_id s) (
      saved-CampaignMove company_id campaign_id s CampaignStatus.active
        (decide_activate company_id campaign_id s)
        (λ c h. (decide_activate-IsActivation company_id campaign_id s c h).move))
perform-CampaignMove (pause company_id campaign_id) s =
    rw (pause_campaign_decides company_id campaign_id s) (
      saved-CampaignMove company_id campaign_id s CampaignStatus.paused _ (
        decide_status-IsMove company_id campaign_id s is_active _ CampaignStatus.paused
          (pause_step company_id campaign_id s)))
perform-CampaignMove (complete company_id campaign_id) s =
    rw (complete_campaign_decides company_id campaign_id s) (
      saved-CampaignMove company_id campaign_id s CampaignStatus.completed _ (
        decide_status-IsMove company_id campaign_id s is_active_or_paused _ CampaignStatus.completed
          (complete_step company_id campaign_id s)))
perform-CampaignMove (archive company_id campaign_id) s =
    rw (archive_campaign_decides company_id campaign_id s) (
      saved-CampaignMove company_id campaign_id s CampaignStatus.archived _ (
        decide_status-IsMove company_id campaign_id s is_draft_or_completed _
          CampaignStatus.archived (archive_step company_id campaign_id s)))
perform-CampaignMove (delete company_id campaign_id) s =
    rw (delete_campaign_decides company_id campaign_id s) (
      unfold decide_delete in
      decide_delete-CampaignMove company_id campaign_id s (found company_id campaign_id s) refl)
