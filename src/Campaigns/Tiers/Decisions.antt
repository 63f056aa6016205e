-- ===== src/Campaigns/Tiers/Decisions.antt =====
-- The calls on gift tiers as decisions, read from the session.
use one_loyal.Prelude.{
  ℕ, suc, ◌==◌, ◌&&◌, ◌≡◌, refl, Bool, true, false, not, inl, inr, Option, none, some, List, ◌∷◌,
  map, select, count_if, arith,
}
use one_loyal.Core.{Result, ok, err, Result-cases, validation, not_found}
use one_loyal.Core.Results.{◌>>=◌, ◌>>◌, refuse_if, required_row, returned, required_row-ok}
use one_loyal.Models.Campaign.{Campaign, GiftTier}
use one_loyal.Db.Exec.{Session}
use one_loyal.Db.Query.{scalar_one_or_none, is_null}
use one_loyal.Db.Keyed.{Has, found_row, no_row}
use one_loyal.Progress.Service.Plan.{campaign_in, get_campaign_lem}
use one_loyal.Campaigns.Service.{editable}
use one_loyal.Campaigns.Tiers.{
  ensure_campaign_editable, has_amount, is_not, amount_exists, ensure_amount_available,
  next_sort_order, TierRequest, title_fields, i18n_defaults, tier_title, new_tier, create_tier,
  listed_tiers, list_tiers, get_tier, save_tier, Patch, unset, set, patched, stripped, titled,
  TierPatch, ensure_patch_available, patched_tier, stored_tier, update_tier, delete_tier, same_set,
  place_all, pick, reorder_tiers,
}
use one_loyal.Common.Text.{strip}

unfoldable pub editable_in : ℕ → ℕ → List Campaign → Result Campaign
editable_in company_id campaign_id campaigns = do
  campaign ← campaign_in company_id campaign_id campaigns
  editable campaign.status
  ok campaign

editable_lem :
    (company_id campaign_id : ℕ) (s : Session)
    → ensure_campaign_editable company_id campaign_id s
      ≡ (editable_in company_id campaign_id s.campaigns, s)
unfolding ensure_campaign_editable editable_in
editable_lem company_id campaign_id s = ground (arith, get_campaign_lem company_id campaign_id s)

unfoldable pub available_in : ℕ → ℕ → Option ℕ → List GiftTier → Result (Unit {0})
available_in campaign_id amount exclude tiers = do
  found ←
      scalar_one_or_none (select (λ t. has_amount campaign_id amount t && is_not exclude t) tiers)
  refuse_if (not (is_null found)) amount_exists

available_lem :
    (campaign_id amount : ℕ) (exclude : Option ℕ) (s : Session)
    → ensure_amount_available campaign_id amount exclude s
      ≡ (available_in campaign_id amount exclude s.gift_tiers, s)
unfolding ensure_amount_available available_in
available_lem campaign_id amount exclude s = ground arith

no_other :
    (xs : List GiftTier) (p : GiftTier → Bool) (r : Option GiftTier) (v : Unit {0})
    → scalar_one_or_none (select p xs) ≡ ok r
    → refuse_if (not (is_null r)) amount_exists ≡ ok v
    → count_if p xs ≡ 0
no_other xs p none v h g = no_row p xs h
no_other xs p (some c) v h g = cc

-- An amount that is available is not there, but for the tier that is left out.
pub available_count :
    (campaign_id amount : ℕ) (exclude : Option ℕ) (tiers : List GiftTier) (v : Unit {0})
    → available_in campaign_id amount exclude tiers ≡ ok v
    → count_if (λ t. has_amount campaign_id amount t && is_not exclude t) tiers ≡ 0
unfolding available_in
available_count campaign_id amount exclude tiers v h =
    let test : GiftTier → Bool = λ t. has_amount campaign_id amount t && is_not exclude t in
    let (r, found, h1) = returned (scalar_one_or_none (select test tiers)) _ v h in
    no_other tiers test r v found h1

unfoldable pub patch_available_in : ℕ → ℕ → Patch ℕ → List GiftTier → Result (Unit {0})
patch_available_in campaign_id tier_id (set (some amount)) tiers =
    available_in campaign_id amount (some tier_id) tiers
patch_available_in campaign_id tier_id _ tiers = ok tt

patch_available_lem :
    (campaign_id tier_id : ℕ) (p : Patch ℕ) (s : Session)
    → ensure_patch_available campaign_id tier_id p s
      ≡ (patch_available_in campaign_id tier_id p s.gift_tiers, s)
unfolding ensure_patch_available patch_available_in
patch_available_lem campaign_id tier_id (set (some amount)) s =
    available_lem campaign_id amount (some tier_id) s
patch_available_lem campaign_id tier_id (set none) s = refl
patch_available_lem campaign_id tier_id unset s = refl

unfoldable pub live_tier_in : ℕ → ℕ → ℕ → List GiftTier → Result GiftTier
live_tier_in company_id campaign_id tier_id tiers =
    required_row
      (scalar_one_or_none (
        select
          (λ t.
            t.id == tier_id
            && t.company_id == company_id
            && t.campaign_id == campaign_id
            && is_null t.deleted_at)
          tiers))
      (not_found "Gift tier not found.")

live_tier_lem :
    (company_id campaign_id tier_id : ℕ) (s : Session)
    → get_tier company_id campaign_id tier_id s
      ≡ (live_tier_in company_id campaign_id tier_id s.gift_tiers, s)
unfolding get_tier live_tier_in
live_tier_lem company_id campaign_id tier_id s = ground arith

pub live_tier_found :
    (company_id campaign_id tier_id : ℕ) (tiers : List GiftTier) (t : GiftTier)
    → live_tier_in company_id campaign_id tier_id tiers ≡ ok t
    → Has t tiers × (t.id ≡ tier_id) × (t.campaign_id ≡ campaign_id) × (is_null t.deleted_at ≡ true)
unfolding live_tier_in
live_tier_found company_id campaign_id tier_id tiers t h =
    let test : GiftTier → Bool = λ x.
      x.id == tier_id
      && x.company_id == company_id
      && x.campaign_id == campaign_id
      && is_null x.deleted_at in
    let row =
      found_row test tiers t (required_row-ok (scalar_one_or_none (select test tiers)) _ t h) in
    let passes : (t.id ≡ tier_id) × (t.campaign_id ≡ campaign_id) × (is_null t.deleted_at ≡ true) =
      ground (arith, row.1) in
    (row.0, passes.0, passes.1, passes.2)

module _ (company_id campaign_id : ℕ) (s : Session) where
  abbrev pub campaign_here : Result Campaign
  campaign_here = editable_in company_id campaign_id s.campaigns

  unfoldable pub decide_create : TierRequest → Result GiftTier
  decide_create request = do
    campaign ← campaign_here
    available_in campaign_id request.required_amount_minor none s.gift_tiers
    title ←
        tier_title request.title
          (title_fields request.title_i18n (i18n_defaults (strip request.title)))
    ok (
        new_tier s.next_id company_id campaign_id campaign.currency title
          (next_sort_order campaign_id s) request)

  abbrev pub with_tier : Result GiftTier → Result GiftTier × Session
  with_tier (ok t) = (ok t, record s { gift_tiers = t ∷ s.gift_tiers; next_id = suc s.next_id })
  with_tier (err e) = (err e, s)

  pub create_tier_decides :
      (request : TierRequest)
      → create_tier company_id campaign_id request s ≡ with_tier (decide_create request)
  unfolding create_tier decide_create
  create_tier_decides request = elim (Result-cases campaign_here) [
    | inl (c, h) ↦ ground (
      arith,
      editable_lem company_id campaign_id s,
      h,
      available_lem campaign_id request.required_amount_minor none s,
    )
    | inr (e, h) ↦ ground (arith, editable_lem company_id campaign_id s, h)
  ]

  -- The object and its row.
  unfoldable pub decide_update : ℕ → TierPatch → Result (GiftTier × GiftTier)
  decide_update tier_id patch = do
    campaign_here
    tier ← live_tier_in company_id campaign_id tier_id s.gift_tiers
    patch_available_in campaign_id tier_id patch.required_amount_minor s.gift_tiers
    title ← patched (stripped patch.title) tier.title
    title_i18n ← patched patch.title_i18n (titled patch.title tier.title_i18n)
    amount ← patched patch.required_amount_minor tier.required_amount_minor
    mode ← patched patch.stock_tracking_mode tier.stock_tracking_mode
    is_active ← patched patch.is_active tier.is_active
    let changed = patched_tier patch title title_i18n amount mode is_active tier
    ok (changed, stored_tier patch tier changed)

  abbrev pub saved : Result GiftTier → Result GiftTier × Session
  saved (ok t) = (ok t, save_tier t s)
  saved (err e) = (err e, s)

  abbrev pub saved_pair : Result (GiftTier × GiftTier) → Result GiftTier × Session
  saved_pair (ok (t, row)) = (ok t, save_tier row s)
  saved_pair (err e) = (err e, s)

  pub update_tier_decides :
      (tier_id : ℕ) (patch : TierPatch)
      → update_tier company_id campaign_id tier_id patch s
        ≡ saved_pair (decide_update tier_id patch)
  unfolding update_tier decide_update
  update_tier_decides tier_id patch = elim (Result-cases campaign_here) [
    | inl (c, h) ↦ elim (Result-cases (live_tier_in company_id campaign_id tier_id s.gift_tiers)) [
      | inl (t, g) ↦ ground (
        arith,
        editable_lem company_id campaign_id s,
        h,
        live_tier_lem company_id campaign_id tier_id s,
        g,
        patch_available_lem campaign_id tier_id patch.required_amount_minor s,
      )
      | inr (e, g) ↦ ground (
        arith,
        editable_lem company_id campaign_id s,
        h,
        live_tier_lem company_id campaign_id tier_id s,
        g,
      )
    ]
    | inr (e, h) ↦ ground (arith, editable_lem company_id campaign_id s, h)
  ]

  unfoldable pub decide_delete : ℕ → Result GiftTier
  decide_delete tier_id = do
    campaign_here
    tier ← live_tier_in company_id campaign_id tier_id s.gift_tiers
    ok (record tier { is_active = false; deleted_at = some s.now })

  pub delete_tier_decides :
      (tier_id : ℕ) → delete_tier company_id campaign_id tier_id s ≡ saved (decide_delete tier_id)
  unfolding delete_tier decide_delete
  delete_tier_decides tier_id = elim (Result-cases campaign_here) [
    | inl (c, h) ↦ ground (
      arith,
      editable_lem company_id campaign_id s,
      h,
      live_tier_lem company_id campaign_id tier_id s,
    )
    | inr (e, h) ↦ ground (arith, editable_lem company_id campaign_id s, h)
  ]

  unfoldable pub decide_reorder : List ℕ → Result (Unit {0})
  decide_reorder tier_ids = do
    campaign_here
    refuse_if (not (same_set tier_ids (map (λ t. t.id) (listed_tiers company_id campaign_id s))))
        (validation "Reorder request must include every active gift tier exactly once.")

  abbrev pub reordered : List ℕ → Result (Unit {0}) → Result (List GiftTier) × Session
  reordered tier_ids (ok _) = (
    ok (pick tier_ids (place_all 0 tier_ids s.gift_tiers)),
    record s { gift_tiers = place_all 0 tier_ids s.gift_tiers },
  )
  reordered tier_ids (err e) = (err e, s)

  pub reorder_tiers_decides :
      (tier_ids : List ℕ)
      → reorder_tiers company_id campaign_id tier_ids s
        ≡ reordered tier_ids (decide_reorder tier_ids)
  unfolding reorder_tiers decide_reorder editable_in list_tiers
  reorder_tiers_decides tier_ids =
      elim (Result-cases (campaign_in company_id campaign_id s.campaigns)) [
        | inl (c, h) ↦ ground (
          arith,
          editable_lem company_id campaign_id s,
          h,
          get_campaign_lem company_id campaign_id s,
        )
        | inr (e, h) ↦ ground (arith, editable_lem company_id campaign_id s, h)
      ]
