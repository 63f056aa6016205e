-- ===== src/Progress/Service/Stored.antt =====
-- The progress table with its one row for each customer of a campaign, and what
-- `_upsert_progress` writes there.
use one_loyal.Prelude.{
  ℕ, suc, Bool, ◌≤◌, ◌≡◌, ◌∙◌, refl, Option, none, some, [], ◌∷◌, select, count_if, arith, inl, inr,
}
use one_loyal.Core.{Error, Result, ok, err}
use one_loyal.Models.Campaign.{Campaign}
use one_loyal.Models.Customer.{Customer}
use one_loyal.Models.Progress.{CustomerCampaignProgress, Stats}
use one_loyal.Models.Event.{AuditContext}
use one_loyal.Db.Exec.{Session}
use one_loyal.Db.Query.{scalar_one_or_none, put}
use one_loyal.Db.Keyed.{
  IsKeyed, IsKeyed-le, select-put, found_row, no_row, count_if-put, put-IsKeyed, Scalar-cases,
  scalar-none,
}
use one_loyal.Progress.Tiers.{TierResult}
use one_loyal.Progress.Service.{Scope, announce, upsert_progress, is_progress_of, progress_row}

-- Only the events and the supply of identifiers may have changed.
pub record OnlyEvents (s t : Session) : Type 0 where
  pub customers : t.customers ≡ s.customers
  pub campaigns : t.campaigns ≡ s.campaigns
  pub gift_tiers : t.gift_tiers ≡ s.gift_tiers
  pub sale_records : t.sale_records ≡ s.sale_records
  pub progress : t.progress ≡ s.progress
  pub claims : t.claims ≡ s.claims
  pub now : t.now ≡ s.now
  pub next_id : s.next_id ≤ t.next_id

-- No table but those of the progress and of the events is written.
pub record SameInputs (s t : Session) : Type 0 where
  pub customers : t.customers ≡ s.customers
  pub campaigns : t.campaigns ≡ s.campaigns
  pub gift_tiers : t.gift_tiers ≡ s.gift_tiers
  pub sale_records : t.sale_records ≡ s.sale_records
  pub claims : t.claims ≡ s.claims

SameInputs-refl : (s : Session) → SameInputs s s
SameInputs-refl s = ground arith

SameInputs-OnlyEvents : (s u t : Session) → SameInputs s u → OnlyEvents u t → SameInputs s t
SameInputs-OnlyEvents s u t a o = record {
  customers = o.customers ∙ a.customers;
  campaigns = o.campaigns ∙ a.campaigns;
  gift_tiers = o.gift_tiers ∙ a.gift_tiers;
  sale_records = o.sale_records ∙ a.sale_records;
  claims = o.claims ∙ a.claims;
}

pub announce_lem :
    (scope : Scope) (before : Option CustomerCampaignProgress) (p : CustomerCampaignProgress)
    (context : Option AuditContext) (s : Session)
    → ((announce scope before p context s).0 ≡ ok tt)
      × OnlyEvents s (announce scope before p context s).1
unfolding announce
announce_lem scope before p context s = ground arith

module _ (company_id : ℕ) (campaign : Campaign) (customer : Customer) (total : ℕ) (r : TierResult)
    (stats : Stats) (context : Option AuditContext) (s : Session) where
  abbrev mine : CustomerCampaignProgress → Bool
  mine = is_progress_of company_id campaign.id customer.id

  abbrev row : ℕ → CustomerCampaignProgress
  row i = progress_row i company_id campaign customer total r stats s.now

  abbrev run : Result CustomerCampaignProgress × Session
  run = upsert_progress company_id campaign customer total r stats context s

  abbrev updated : CustomerCampaignProgress → CustomerCampaignProgress
  updated old = record (row old.id) { company_id = old.company_id }

  abbrev scope : Scope
  scope = record { company_id = company_id; campaign_id = campaign.id; customer_id = customer.id }

  -- What `upsert_progress` returns and leaves in the table, when there was no row.
  pub upsert_new :
      scalar_one_or_none (select mine s.progress) ≡ ok none
      → (run.0 ≡ ok (row s.next_id))
        × OnlyEvents
            (record s { progress = row s.next_id ∷ s.progress; next_id = suc s.next_id })
            run.1
  unfolding upsert_progress
  upsert_new h = rw h (
      ground (
        arith,
        announce_lem scope none (row s.next_id) context
            (record s { progress = row s.next_id ∷ s.progress; next_id = suc s.next_id }),
      ))

  -- What it returns and leaves in the table, when there was one.
  pub upsert_old :
      (old : CustomerCampaignProgress)
      → scalar_one_or_none (select mine s.progress) ≡ ok (some old)
      → (run.0 ≡ ok (updated old))
        × OnlyEvents (record s { progress = put (λ p. p.id) (updated old) s.progress }) run.1
  unfolding upsert_progress
  upsert_old old h = rw h (
      ground (
        arith,
        announce_lem scope (some old) (updated old) context
            (record s { progress = put (λ p. p.id) (updated old) s.progress }),
      ))

  -- What the database raises goes through, and nothing is written.
  pub upsert_error :
      (e : Error) → scalar_one_or_none (select mine s.progress) ≡ err e → run ≡ (err e, s)
  upsert_error e h = unfold upsert_progress in rw h

-- The table of progress: rows have distinct identifiers, and a customer has at most one row in a
-- campaign.
pub record IsProgressTable (s : Session) : Type 0 where
  pub keyed : IsKeyed (λ p. p.id) s.next_id s.progress
  pub unique :
      (company_id campaign_id customer_id : ℕ)
      → count_if (is_progress_of company_id campaign_id customer_id) s.progress ≤ 1

pub IsProgressTable-OnlyEvents :
    (s t : Session) → OnlyEvents s t → IsProgressTable s → IsProgressTable t
IsProgressTable-OnlyEvents s t o v = record {
  keyed = rw (o.progress) (IsKeyed-le (λ p. p.id) s.next_id t.next_id s.progress o.next_id v.keyed);
  unique = λ c k u. rw (o.progress) (v.unique c k u);
}

module _ (company_id : ℕ) (campaign : Campaign) (customer : Customer) (total : ℕ) (r : TierResult)
    (stats : Stats) (context : Option AuditContext) (s : Session) (v : IsProgressTable s) where
  new-IsProgressTable :
      scalar_one_or_none (select (is_progress_of company_id campaign.id customer.id) s.progress)
        ≡ ok none
      → IsProgressTable (record s {
        progress =
            progress_row s.next_id company_id campaign customer total r stats s.now ∷ s.progress;
        next_id = suc s.next_id;
      })
  new-IsProgressTable h = record {
    keyed = (omega arith, v.keyed);
    unique = λ c k u. ground (
      arith,
      v.unique c k u,
      no_row (is_progress_of company_id campaign.id customer.id) s.progress h,
    );
  }

  old-IsProgressTable :
      (old : CustomerCampaignProgress)
      → scalar_one_or_none (select (is_progress_of company_id campaign.id customer.id) s.progress)
        ≡ ok (some old)
      → IsProgressTable (record s {
        progress =
            put
              (λ p. p.id)
              (updated company_id campaign customer total r stats context s old)
              s.progress;
      })
  old-IsProgressTable old h =
      let p = is_progress_of company_id campaign.id customer.id in
      let new = updated company_id campaign customer total r stats context s old in
      let found = found_row p s.progress old h in
      record {
        keyed = put-IsKeyed (λ p. p.id) s.next_id new s.progress v.keyed;
        unique = λ c k u. ground (
          arith,
          v.unique c k u,
          found.1,
          count_if-put (λ p. p.id) (is_progress_of c k u) s.next_id old new s.progress v.keyed
              found.0 refl,
        );
      }

  abbrev query : Result (Option CustomerCampaignProgress)
  query = scalar_one_or_none (select (is_progress_of company_id campaign.id customer.id) s.progress)

  abbrev stored : Result CustomerCampaignProgress × Session
  stored = upsert_progress company_id campaign customer total r stats context s

  -- Storing keeps the table well formed, whether it returns or raises.
  pub upsert_progress-IsProgressTable : IsProgressTable stored.1
  upsert_progress-IsProgressTable = elim (Scalar-cases query) [
    | inl h ↦
        IsProgressTable-OnlyEvents _ stored.1
          (upsert_new company_id campaign customer total r stats context s h).1
          (new-IsProgressTable h)
    | inr (inl (old, h)) ↦
        IsProgressTable-OnlyEvents _ stored.1
          (upsert_old company_id campaign customer total r stats context s old h).1
          (old-IsProgressTable old h)
    | inr (inr (e, h)) ↦
        rw (upsert_error company_id campaign customer total r stats context s e h) v
  ]

  new_row :
      {p : CustomerCampaignProgress}
      → stored.0 ≡ ok p
      → query ≡ ok none
      → select (is_progress_of company_id campaign.id customer.id) stored.1.progress ≡ p ∷ []
  new_row e h =
      let made = upsert_new company_id campaign customer total r stats context s h in
      rw made.1.progress (
        ground (
          arith,
          made.0,
          scalar-none (select (is_progress_of company_id campaign.id customer.id) s.progress) h,
        ))

  old_row :
      {p : CustomerCampaignProgress} (old : CustomerCampaignProgress)
      → stored.0 ≡ ok p
      → query ≡ ok (some old)
      → select (is_progress_of company_id campaign.id customer.id) stored.1.progress ≡ p ∷ []
  old_row old e h =
      let made = upsert_old company_id campaign customer total r stats context s old h in
      let test = is_progress_of company_id campaign.id customer.id in
      let new = updated company_id campaign customer total r stats context s old in
      let found = found_row test s.progress old h in
      rw made.1.progress (
        ground (
          arith,
          made.0,
          found.1,
          select-put (λ p. p.id) test s.next_id old new s.progress v.keyed h refl,
        ))

  -- The row that is returned is the one row of the customer in the campaign.
  pub upsert_progress_row :
      {p : CustomerCampaignProgress}
      → stored.0 ≡ ok p
      → select (is_progress_of company_id campaign.id customer.id) stored.1.progress ≡ p ∷ []
  upsert_progress_row e = elim (Scalar-cases query) [
    | inl h ↦ new_row e h
    | inr (inl (old, h)) ↦ old_row old e h
    | inr (inr (x, h)) ↦ cc (upsert_error company_id campaign customer total r stats context s x h)
  ]

  -- The row that is returned holds the values that were stored.
  pub upsert_progress_values :
      {p : CustomerCampaignProgress}
      → stored.0 ≡ ok p
      → p ≡ record (progress_row p.id company_id campaign customer total r stats s.now) {
        company_id = p.company_id;
      }
  upsert_progress_values e = elim (Scalar-cases query) [
    | inl h ↦ ground (arith, (upsert_new company_id campaign customer total r stats context s h).0)
    | inr (inl (old, h)) ↦
        ground (arith, (upsert_old company_id campaign customer total r stats context s old h).0)
    | inr (inr (x, h)) ↦ cc (upsert_error company_id campaign customer total r stats context s x h)
  ]

  pub upsert_progress-SameInputs : SameInputs s stored.1
  upsert_progress-SameInputs = elim (Scalar-cases query) [
    | inl h ↦
        SameInputs-OnlyEvents s _ stored.1 (ground arith)
          (upsert_new company_id campaign customer total r stats context s h).1
    | inr (inl (old, h)) ↦
        SameInputs-OnlyEvents s _ stored.1 (ground arith)
          (upsert_old company_id campaign customer total r stats context s old h).1
    | inr (inr (x, h)) ↦
        rw (upsert_error company_id campaign customer total r stats context s x h)
          (SameInputs-refl s)
  ]
