-- ===== src/Campaigns/Lifecycle/Activation.antt =====
-- The checks of `activate_campaign` and what they ask of a campaign and its tiers.
use one_loyal.Prelude.{
  ℕ, ◌≤◌, ◌≡◌, ◌≢◌, ◌↔◌, refl, true, false, String, List, [], ◌∷◌, All, All-map, str_eq, arith, inl,
  inr, Bool-cases,
}
use one_loyal.Core.{Result, ok, err}
use one_loyal.Core.Results.{returned}
use one_loyal.Models.Campaign.{Campaign, CampaignStatus, GiftTier}
use one_loyal.Db.Exec.{Session}
use one_loyal.Campaigns.Service.{
  activate_campaign, validate_date_range, active_tiers_for_campaign, member, validate_tiers,
  some_tiers, validate_activation,
}
use one_loyal.Campaigns.Lifecycle.{
  CampaignStep, saved, decide_activate, activate_campaign_decides, activation_checks,
  validate_activation_lem,
}
use one_loyal.Campaigns.Lifecycle.Moves.{decide_activate-IsActivation}
use one_loyal.Progress.Service.Plan.{campaign_in}

abbrev pub amount : GiftTier → ℕ
amount t = t.required_amount_minor

-- No two tiers have one amount.
abbrev pub HasDistinctAmounts : List GiftTier → Type 0
HasDistinctAmounts [] = Unit
HasDistinctAmounts (t ∷ ts) = All (λ u. amount u ≢ amount t) ts × HasDistinctAmounts ts

abbrev Passes : String → List ℕ → GiftTier → Type 0
Passes currency seen t = (str_eq t.currency currency ≡ true) × (member (amount t) seen ≡ false)

validate_tiers_sound :
    (currency : String) (seen : List ℕ) (ts : List GiftTier) (u : Unit {0})
    → validate_tiers currency seen ts ≡ ok u
    → All (Passes currency seen) ts × HasDistinctAmounts ts
unfolding validate_tiers
validate_tiers_sound currency seen [] u h = (tt, tt)
validate_tiers_sound currency seen (t ∷ ts) u h = elim (Bool-cases (str_eq t.currency currency)) [
  | inl same ↦ elim (Bool-cases (member (amount t) seen)) [
    | inl known ↦ absurd (ground (arith, h))
    | inr new ↦
        let rest = validate_tiers_sound currency (amount t ∷ seen) ts u (rw (same, new) at h) in
        (
          (
            (same, new),
            All-map (Passes currency (amount t ∷ seen)) (Passes currency seen) ts
                (λ x p. ground (arith, p)) rest.0,
          ),
          (
            All-map (Passes currency (amount t ∷ seen)) (λ x. amount x ≢ amount t) ts
                (λ x p. ground (arith, p)) rest.0,
            rest.1,
          ),
        )
  ]
  | inr other ↦ absurd (ground (arith, h))
]

validate_tiers_complete :
    (currency : String) (seen : List ℕ) (ts : List GiftTier)
    → All (Passes currency seen) ts
    → HasDistinctAmounts ts
    → validate_tiers currency seen ts ≡ ok tt
unfolding validate_tiers
validate_tiers_complete currency seen [] p d = refl
validate_tiers_complete currency seen (t ∷ ts) p d =
    rw (p.0.0, p.0.1)
      (validate_tiers_complete currency (amount t ∷ seen) ts (still_new currency seen t ts p.1 d.0)
        d.1)
  where
    still_new :
        (currency : String) (seen : List ℕ) (t : GiftTier) (ts : List GiftTier)
        → All (Passes currency seen) ts
        → All (λ u. amount u ≢ amount t) ts
        → All (Passes currency (amount t ∷ seen)) ts
    still_new currency seen t [] p d = tt
    still_new currency seen t (x ∷ xs) p d =
        ((p.0.0, ground (arith, p.0.1, d.0)), still_new currency seen t xs p.1 d.1)

unseen :
    (currency : String) (ts : List GiftTier)
    → All (λ t. str_eq t.currency currency ≡ true) ts
    → All (Passes currency []) ts
unseen currency ts a =
    All-map (λ t. str_eq t.currency currency ≡ true) (Passes currency []) ts (λ t h. (h, refl)) a

-- The dates are in order, there is a tier to reach, and the tiers differ in their amounts and
-- share the currency of the campaign.
pub record IsReady (s : Session) (c : Campaign) : Type 0 where
  pub dates : c.start_date ≤ c.end_date
  pub tiers : active_tiers_for_campaign c s ≢ []
  pub currency : All (λ t. str_eq t.currency c.currency ≡ true) (active_tiers_for_campaign c s)
  pub amounts : HasDistinctAmounts (active_tiers_for_campaign c s)

some_tiers_iff : (ts : List GiftTier) → (some_tiers ts ≡ ok tt) ↔ (ts ≢ [])
some_tiers_iff [] = ((λ h. cc), λ h. absurd (h refl))
some_tiers_iff (t ∷ ts) = ((λ h e. cc), λ h. refl)

dates_iff : (a b : ℕ) → (validate_date_range a b ≡ ok tt) ↔ (a ≤ b)
dates_iff a b = ground arith

checks-IsReady : (s : Session) (c : Campaign) → activation_checks s c ≡ ok tt → IsReady s c
unfolding activation_checks
checks-IsReady s c h =
    let ts = active_tiers_for_campaign c s in
    let (u, dates, h1) = returned (validate_date_range c.start_date c.end_date) _ tt h in
    let (v, there, h2) = returned (some_tiers ts) _ tt h1 in
    let sound = validate_tiers_sound c.currency [] ts tt h2 in
    record {
      dates = (dates_iff c.start_date c.end_date).0 dates;
      tiers = (some_tiers_iff ts).0 there;
      currency =
          All-map (Passes c.currency []) (λ t. str_eq t.currency c.currency ≡ true) ts (λ t p. p.0)
            sound.0;
      amounts = sound.1;
    }

ready_checks : (s : Session) (c : Campaign) → IsReady s c → activation_checks s c ≡ ok tt
unfolding activation_checks
ready_checks s c r =
    let ts = active_tiers_for_campaign c s in
    rw ((dates_iff c.start_date c.end_date).1 r.dates, (some_tiers_iff ts).1 r.tiers)
      (validate_tiers_complete c.currency [] ts (unseen c.currency ts r.currency) r.amounts)

-- `_validate_activation` returns exactly when the campaign's dates are in order, it has an active
-- tier, and its active tiers have the campaign's currency and pairwise different required amounts.
pub validate_activation_iff :
    (campaign : Campaign) (s : Session)
    → ((validate_activation campaign s).0 ≡ ok tt) ↔ IsReady s campaign
validate_activation_iff campaign s =
    rw (validate_activation_lem s campaign) (checks-IsReady s campaign, ready_checks s campaign)

-- A campaign that is activated was found, was a draft or paused, passes all the checks of an
-- activation, and has changed in its status alone.
pub activate_campaign-IsReady :
    (company_id campaign_id : ℕ) (s : Session) (c : Campaign)
    → (activate_campaign company_id campaign_id s).0 ≡ ok c
    → (old : Campaign) × (campaign_in company_id campaign_id s.campaigns ≡ ok old)
      × CampaignStep old.status CampaignStatus.active
      × (c ≡ record old { status = CampaignStatus.active })
      × IsReady s old
activate_campaign-IsReady company_id campaign_id s c h =
    let decided : decide_activate company_id campaign_id s ≡ ok c =
      was_decided company_id campaign_id s _ c
        (rw (activate_campaign_decides company_id campaign_id s) at h) in
    let a = decide_activate-IsActivation company_id campaign_id s c decided in
    (
      a.move.old,
      a.move.of_table,
      a.move.takes,
      a.move.is_moved,
      checks-IsReady s a.move.old a.checked,
    )
  where
    was_decided :
        (company_id campaign_id : ℕ) (s : Session) (d : Result Campaign) (c : Campaign)
        → (saved company_id campaign_id s d).0 ≡ ok c
        → d ≡ ok c
    was_decided company_id campaign_id s (ok a) c h = h
    was_decided company_id campaign_id s (err e) c h = h
