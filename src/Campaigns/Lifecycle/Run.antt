-- ===== src/Campaigns/Lifecycle/Run.antt =====
-- Calls on campaigns one after another.
use one_loyal.Prelude.{ℕ, ◌≤◌, ◌≡◌, ◌⊎◌, refl, sym, ◌∙◌, inl, inr, List, [], ◌∷◌, arith}
use one_loyal.Core.{Error, Result, err}
use one_loyal.Models.Campaign.{Campaign, CampaignStatus}
use one_loyal.Db.Exec.{Session}
use one_loyal.Db.Keyed.{IsKeyed, Has, Has-put, Has-unique, put-IsKeyed}
use one_loyal.Campaigns.Lifecycle.{
  CampaignStep, activates, resumes, pauses, completes_active, completes_paused, archives_draft,
  archives_completed, CampaignChange, steps, deletes, CampaignCall, perform, CampaignMove, raises,
  changes,
}
use one_loyal.Campaigns.Lifecycle.Moves.{perform-CampaignMove}

abbrev pub IsCampaignTable : Session → Type 0
IsCampaignTable s = IsKeyed (λ c. c.id) s.next_id s.campaigns

move-IsCampaignTable :
    (s : Session) {r : Result Campaign} {s' : Session}
    → CampaignMove s r s'
    → IsCampaignTable s
    → IsCampaignTable s'
move-IsCampaignTable s (raises e) v = v
move-IsCampaignTable s (changes old new h e c) v =
    put-IsKeyed (λ x. x.id) s.next_id new s.campaigns v

-- What a call makes of one campaign: its row as it was, or the row after one change.
move_of_campaign :
    (s : Session) (c : Campaign) {r : Result Campaign} {s' : Session}
    → IsCampaignTable s
    → CampaignMove s r s'
    → Has c s.campaigns
    → Has c s'.campaigns
      ⊎ ((c' : Campaign) × Has c' s'.campaigns × (c'.id ≡ c.id) × CampaignChange c c')
move_of_campaign s c v (raises e) h = inl h
move_of_campaign s c v (changes old new there same change) h =
    elim (Has-put (λ x. x.id) c new s.campaigns h) [
      | inl kept ↦ inl kept
      | inr (e, put_there) ↦
          let one : c ≡ old =
            Has-unique (λ x. x.id) s.next_id c old s.campaigns v h there (cc (same)) in
          inr (new, put_there, sym e, rw one change)
    ]

-- Where the keys of the campaigns differ, a call leaves a campaign's row as it is, moves its status
-- by a step of the state machine and keeps its deletion mark, or deletes it and keeps its status.
pub call_moves_campaign :
    (call : CampaignCall) (s : Session) (c : Campaign)
    → IsCampaignTable s
    → Has c s.campaigns
    → Has c (perform call s).1.campaigns
      ⊎ ((c' : Campaign) × Has c' (perform call s).1.campaigns
          × (c'.id ≡ c.id)
          × CampaignChange c c')
call_moves_campaign call s c v h = move_of_campaign s c v (perform-CampaignMove call s) h

raised :
    (s : Session) (e : Error) {r : Result Campaign} {s' : Session}
    → CampaignMove s r s'
    → r ≡ err e
    → s' ≡ s
raised s e (raises _) h = refl
raised s e (changes _ _ _ _ _) h = cc

-- A call on a campaign that raises leaves the whole session as it was.
pub failed_campaign_call_changes_nothing :
    (call : CampaignCall) (s : Session) (e : Error)
    → (perform call s).0 ≡ err e
    → (perform call s).1 ≡ s
failed_campaign_call_changes_nothing call s e = raised s e (perform-CampaignMove call s)

abbrev pub run : List CampaignCall → Session → Session
run [] s = s
run (call ∷ calls) s = run calls (perform call s).1

-- How far a campaign has come: open, completed, archived.
abbrev pub stage : CampaignStatus → ℕ
stage CampaignStatus.completed = 1
stage CampaignStatus.archived = 2
stage _ = 0

step-stage : {a b : CampaignStatus} → CampaignStep a b → stage a ≤ stage b
step-stage activates = omega arith
step-stage resumes = omega arith
step-stage pauses = omega arith
step-stage completes_active = omega arith
step-stage completes_paused = omega arith
step-stage archives_draft = omega arith
step-stage archives_completed = omega arith

change-stage : (c c' : Campaign) → CampaignChange c c' → stage c.status ≤ stage c'.status
change-stage c c' (steps step live) = step-stage step
change-stage c c' (deletes same) = rw same (omega arith)

-- Where the keys of the campaigns differ, a campaign never goes back by any calls: once completed
-- it is completed or archived, and once archived it is archived, and its row stays in the table.
pub run_never_reopens :
    (calls : List CampaignCall) (s : Session) (c : Campaign)
    → IsCampaignTable s
    → Has c s.campaigns
    → (c' : Campaign) × Has c' (run calls s).campaigns
      × (c'.id ≡ c.id)
      × (stage c.status ≤ stage c'.status)
run_never_reopens [] s c v h = (c, h, refl, omega arith)
run_never_reopens (call ∷ calls) s c v h =
    let v' = move-IsCampaignTable s (perform-CampaignMove call s) v in
    elim (call_moves_campaign call s c v h) [
      | inl kept ↦ run_never_reopens calls (perform call s).1 c v' kept
      | inr (d, there, same, change) ↦
          let rest = run_never_reopens calls (perform call s).1 d v' there in
          (rest.0, rest.1, rest.2 ∙ same, omega (arith, rest.3, change-stage c d change))
    ]
