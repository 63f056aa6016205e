-- ===== src/Progress/Service/Idempotence.antt =====
-- A calculation that is repeated with nothing changed in between but the time.
use one_loyal.Prelude.{ℕ, ◌≡◌, ◌∙◌, inl, inr, Option, some, ◌∷◌, [], select, arith}
use one_loyal.Core.{Result, ok, err, Result-cases}
use one_loyal.Models.Progress.{CustomerCampaignProgress}
use one_loyal.Models.Event.{AuditContext}
use one_loyal.Db.Exec.{Session}
use one_loyal.Db.Query.{put}
use one_loyal.Progress.Service.{
  Scope, announce, upsert_progress, is_progress_of, progress_row, calculate_customer_progress,
}
use one_loyal.Progress.Service.Stored.{
  IsProgressTable, upsert_progress_row, upsert_progress_values, upsert_progress-SameInputs,
}
use one_loyal.Progress.Service.Plan.{Plan, planned, calculate_carries_out, planned-OnlyEvents}

-- Nothing is announced where the total and both tiers are as before.
announce_nothing :
    (scope : Scope) (before after : CustomerCampaignProgress) (context : Option AuditContext)
    (s : Session)
    → after.total_amount_minor ≡ before.total_amount_minor
    → after.current_tier_id ≡ before.current_tier_id
    → after.next_tier_id ≡ before.next_tier_id
    → announce scope (some before) after context s ≡ (ok tt, s)
unfolding announce
announce_nothing scope before after context s h c n = ground arith

-- A row that holds the values already is only dated anew.
upsert_same :
    (company_id : ℕ) (plan : Plan) (context : Option AuditContext) (s : Session)
    (p : CustomerCampaignProgress) (dated : ℕ)
    → select (is_progress_of company_id plan.campaign.id plan.customer.id) s.progress ≡ p ∷ []
    → p
      ≡ record (progress_row p.id company_id plan.campaign plan.customer plan.total plan.result
          plan.stats dated) { company_id = p.company_id }
    → let again =
        upsert_progress company_id plan.campaign plan.customer plan.total plan.result plan.stats
          context s in
      (again.0 ≡ ok (record p { calculated_at = s.now })) × (again.1.events ≡ s.events)
unfolding upsert_progress
upsert_same company_id plan context s p dated one same =
    let scope : Scope = record {
      company_id = company_id;
      campaign_id = plan.campaign.id;
      customer_id = plan.customer.id;
    } in
    let new : CustomerCampaignProgress =
      record (progress_row p.id company_id plan.campaign plan.customer plan.total plan.result
        plan.stats s.now) { company_id = p.company_id } in
    rw one (
      ground (
        arith,
        same,
        announce_nothing scope p new context
            (record s { progress = put (λ q. q.id) new s.progress }),
      ))

carried_again :
    (company_id : ℕ) (plan : Plan) (context again : Option AuditContext) (s : Session) (later : ℕ)
    {p : CustomerCampaignProgress}
    → IsProgressTable s
    → let run =
        upsert_progress company_id plan.campaign plan.customer plan.total plan.result plan.stats in
      (run context s).0 ≡ ok p
      → let second = run again (record (run context s).1 { now = later }) in
        (second.0 ≡ ok (record p { calculated_at = later }))
        × (second.1.events ≡ (run context s).1.events)
carried_again company_id plan context again s later {p} v e =
    let first =
      upsert_progress company_id plan.campaign plan.customer plan.total plan.result plan.stats
        context s in
    upsert_same company_id plan again (record first.1 { now = later }) p s.now
      (upsert_progress_row company_id plan.campaign plan.customer plan.total plan.result plan.stats
        context s v e)
      (upsert_progress_values company_id plan.campaign plan.customer plan.total plan.result
        plan.stats context s v e)

module _ (company_id campaign_id customer_id : ℕ) (context again : Option AuditContext)
    (s : Session) (later : ℕ) where
  abbrev first : Result CustomerCampaignProgress × Session
  first = calculate_customer_progress company_id campaign_id customer_id context s

  abbrev second : Result CustomerCampaignProgress × Session
  second =
      calculate_customer_progress company_id campaign_id customer_id again
        (record first.1 { now = later })

  -- The second calculation reads what the first one read.
  planned_again :
      (plan : Plan)
      → planned company_id campaign_id customer_id s ≡ ok plan
      → IsProgressTable s
      → planned company_id campaign_id customer_id (record first.1 { now = later }) ≡ ok plan
  planned_again plan h v =
      let same =
        upsert_progress-SameInputs company_id plan.campaign plan.customer plan.total plan.result
          plan.stats context s v in
      rw (calculate_carries_out company_id campaign_id customer_id context s, h)
        (planned-OnlyEvents company_id campaign_id customer_id s _ same.customers same.campaigns
            same.gift_tiers same.sale_records
          ∙ h)

  run : Plan → Option AuditContext → Session → Result CustomerCampaignProgress × Session
  run plan =
      upsert_progress company_id plan.campaign plan.customer plan.total plan.result plan.stats

  first-eq :
      (plan : Plan)
      → planned company_id campaign_id customer_id s ≡ ok plan
      → first ≡ run plan context s
  unfolding run
  first-eq plan h = rw (calculate_carries_out company_id campaign_id customer_id context s, h)

  second-eq :
      (plan : Plan)
      → planned company_id campaign_id customer_id s ≡ ok plan
      → IsProgressTable s
      → second ≡ run plan again (record (run plan context s).1 { now = later })
  unfolding run
  second-eq plan h v = rw (
    calculate_carries_out company_id campaign_id customer_id again (record first.1 { now = later }),
    planned_again plan h v,
    first-eq plan h,
  )

  -- Where the table keeps one row for each customer of a campaign, a second calculation with
  -- nothing changed but the time returns the same row with the new date, and emits no event.
  pub recalculation_is_quiet :
      {p : CustomerCampaignProgress}
      → IsProgressTable s
      → first.0 ≡ ok p
      → (second.0 ≡ ok (record p { calculated_at = later })) × (second.1.events ≡ first.1.events)
  recalculation_is_quiet {p} v e =
      elim (Result-cases (planned company_id campaign_id customer_id s)) [
        | inl (plan, h) ↦
            let ran : (run plan context s).0 ≡ ok p = rw (first-eq plan h) at e in
            rw (second-eq plan h v, first-eq plan h)
              (unfold run in carried_again company_id plan context again s later v ran)
        | inr (x, h) ↦
            let failed : err x ≡ ok p =
              rw (calculate_carries_out company_id campaign_id customer_id context s, h) at e in
            cc
      ]
