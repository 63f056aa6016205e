-- ===== src/Progress/Service/EndToEnd.antt =====
-- What `calculate_customer_progress` stores, from the sales and the tiers to the row.
use one_loyal.Prelude.{
  ℕ, ap, ◌∙◌, ◌≤◌, ◌==◌, ◌&&◌, ◌≡◌, inl, inr, Option, List, [], ◌∷◌, All, All-map, select, arith,
  leb, Bool-cases, leb→le, leb→lt,
}
use one_loyal.Core.{Result, ok, err, Result-cases}
use one_loyal.Models.Campaign.{Campaign, GiftTier}
use one_loyal.Models.Progress.{CustomerCampaignProgress}
use one_loyal.Models.Event.{AuditContext}
use one_loyal.Db.Exec.{Session}
use one_loyal.Db.Query.{insert_asc, order_by_asc, is_null}
use one_loyal.Progress.Tiers.{calculate_tiers}
use one_loyal.Progress.Tiers.Laws.{
  IsAscending, IsCurrent, IsNext, IsLeft, calculate_tiers_finds, calculate_tiers-IsLeft,
}
use one_loyal.Progress.Service.{
  active_tiers, is_progress_of, calculate_customer_progress, upsert_progress, tier_id,
}
use one_loyal.Progress.Service.Stored.{
  IsProgressTable, upsert_progress-IsProgressTable, upsert_progress_row, upsert_progress_values,
}
use one_loyal.Progress.Service.Plan.{Plan, planned, carried_out, calculate_carries_out}

All-insert_asc {κ} :
    {A : Type 0} (P : A → Type κ) (key : A → ℕ) (r : A) (xs : List A)
    → P r
    → All P xs
    → All P (insert_asc key r xs)
unfolding insert_asc
All-insert_asc P key r [] h a = (h, tt)
All-insert_asc P key r (x ∷ xs) h a = elim (Bool-cases (leb (key r) (key x))) [
  | inl first ↦ rw (first, insert_asc) (h, a)
  | inr later ↦ rw (later, insert_asc) (a.0, All-insert_asc P key r xs h a.1)
]

abbrev required : GiftTier → ℕ
required t = t.required_amount_minor

insert_asc-IsAscending :
    (t : GiftTier) (ts : List GiftTier) → IsAscending ts → IsAscending (insert_asc required t ts)
unfolding insert_asc
insert_asc-IsAscending t [] a = (tt, tt)
insert_asc-IsAscending t (u ∷ us) a = elim (Bool-cases (leb (required t) (required u))) [
  | inl first ↦
      let le : required t ≤ required u = leb→le _ _ first in
      rw (first, insert_asc)
        (
          (
            le,
            All-map (λ w. required u ≤ required w) (λ w. required t ≤ required w) us
                (λ w k. omega arith) a.0,
          ),
          a,
        )
  | inr later ↦
      rw (later, insert_asc)
        (
          All-insert_asc (λ w. required u ≤ required w) required t us
              (omega (arith, leb→lt _ _ later)) a.0,
          insert_asc-IsAscending t us a.1,
        )
]

-- The tiers come out in ascending order.
pub order_by_asc-IsAscending : (ts : List GiftTier) → IsAscending (order_by_asc required ts)
unfolding order_by_asc
order_by_asc-IsAscending [] = tt
order_by_asc-IsAscending (t ∷ ts) =
    insert_asc-IsAscending t (order_by_asc required ts) (order_by_asc-IsAscending ts)

pub active_tiers-IsAscending :
    (campaign : Campaign) (s : Session) → IsAscending (active_tiers campaign s)
unfolding active_tiers
active_tiers-IsAscending campaign s = order_by_asc-IsAscending (
    select
      (λ t.
        t.company_id == campaign.company_id
        && t.campaign_id == campaign.id
        && t.is_active
        && is_null t.deleted_at)
      s.gift_tiers)

-- How the stored row follows from the plan of the calculation.
pub record Stores (company_id campaign_id customer_id : ℕ) (s s' : Session)
    (p : CustomerCampaignProgress) (plan : Plan) : Type 0 where
  pub from_plan : planned company_id campaign_id customer_id s ≡ ok plan
  pub the_row :
      select (is_progress_of company_id plan.campaign.id plan.customer.id) s'.progress ≡ p ∷ []
  pub total : p.total_amount_minor ≡ plan.total
  pub dated : p.calculated_at ≡ s.now
  pub current : p.current_tier_id ≡ tier_id plan.result.current_tier
  pub next : p.next_tier_id ≡ tier_id plan.result.next_tier
  pub left : p.amount_left_minor ≡ plan.result.amount_left_minor
  pub is_current :
      IsCurrent p.total_amount_minor (active_tiers plan.campaign s) plan.result.current_tier
  pub is_next : IsNext p.total_amount_minor (active_tiers plan.campaign s) plan.result.next_tier
  pub is_left : IsLeft p.total_amount_minor plan.result.next_tier p.amount_left_minor

module _ (company_id campaign_id customer_id : ℕ) (context : Option AuditContext)
    (s : Session) where
  abbrev ran : Result CustomerCampaignProgress × Session
  ran = calculate_customer_progress company_id campaign_id customer_id context s

  -- A calculation keeps the table at one row for each customer of a campaign, whether it returns or
  -- raises.
  pub calculate-IsProgressTable : IsProgressTable s → IsProgressTable ran.1
  calculate-IsProgressTable v = elim (Result-cases (planned company_id campaign_id customer_id s)) [
    | inl (plan, h) ↦
        rw (calculate_carries_out company_id campaign_id customer_id context s, h)
          (upsert_progress-IsProgressTable company_id plan.campaign plan.customer plan.total
            plan.result plan.stats context s v)
    | inr (x, h) ↦ rw (calculate_carries_out company_id campaign_id customer_id context s, h) v
  ]

  -- The tiers of a plan are those of its total.
  planned_result :
      (plan : Plan)
      → planned company_id campaign_id customer_id s ≡ ok plan
      → plan.result ≡ calculate_tiers plan.total (active_tiers plan.campaign s)
  unfolding planned
  planned_result plan h = ground arith

  plan_stored :
      (plan : Plan) {p : CustomerCampaignProgress}
      → planned company_id campaign_id customer_id s ≡ ok plan
      → IsProgressTable s
      → (upsert_progress company_id plan.campaign plan.customer plan.total plan.result plan.stats
          context s).0
        ≡ ok p
      → Stores company_id campaign_id customer_id s
          (upsert_progress company_id plan.campaign plan.customer plan.total plan.result plan.stats
            context s).1
          p
          plan
  plan_stored plan h v e =
      let tiers = active_tiers plan.campaign s in
      let values =
        upsert_progress_values company_id plan.campaign plan.customer plan.total plan.result
          plan.stats context s v e in
      let total = ap (λ (q : CustomerCampaignProgress). q.total_amount_minor) values in
      let left = ap (λ (q : CustomerCampaignProgress). q.amount_left_minor) values in
      let result = planned_result plan h in
      let found =
        calculate_tiers_finds plan.total tiers (active_tiers-IsAscending plan.campaign s) in
      record {
        from_plan = h;
        the_row =
            upsert_progress_row company_id plan.campaign plan.customer plan.total plan.result
              plan.stats context s v e;
        total = total;
        dated = ap (λ (q : CustomerCampaignProgress). q.calculated_at) values;
        current = ap (λ (q : CustomerCampaignProgress). q.current_tier_id) values;
        next = ap (λ (q : CustomerCampaignProgress). q.next_tier_id) values;
        left = left;
        is_current = rw (total, result) (found.0);
        is_next = rw (total, result) (found.1);
        is_left =
            rw (total, left, result)
              (calculate_tiers-IsLeft plan.total tiers (active_tiers-IsAscending plan.campaign s));
      }

  -- Where the table keeps one row for each customer of a campaign, a calculation that returns has
  -- stored the row that it returns, as the one row of the customer in the campaign, dated now. Its
  -- current tier is the highest active tier of the campaign that the stored total reaches, its next
  -- tier the lowest one that it does not reach, and the amount left is what is missing there.
  pub calculate-Stores :
      {p : CustomerCampaignProgress}
      → IsProgressTable s
      → ran.0 ≡ ok p
      → (plan : Plan) × Stores company_id campaign_id customer_id s ran.1 p plan
  calculate-Stores {p} v e = elim (Result-cases (planned company_id campaign_id customer_id s)) [
    | inl (plan, h) ↦
        let carried : ran ≡ carried_out company_id campaign_id customer_id (ok plan) context s =
          calculate_carries_out company_id campaign_id customer_id context s
          ∙ ap (λ r. carried_out company_id campaign_id customer_id r context s) h in
        (plan, rw carried (plan_stored plan h v (rw carried at e)))
    | inr (x, h) ↦
        let failed : err x ≡ ok p =
          rw (calculate_carries_out company_id campaign_id customer_id context s, h) at e in
        cc
  ]
