-- ===== src/Campaigns/Editing.antt =====
-- `CampaignService.update_campaign`.
use one_loyal.Prelude.{ℕ, ◌≤◌, ◌≡◌, ap, refl, String, Bool, Option, none, some, arith}
use one_loyal.Core.{Result, ok, err, type_error}
use one_loyal.Core.Results.{◌>>=◌, ◌>>◌, returned, ok_injective}
use one_loyal.Common.Json.{Fields, str, end}
use one_loyal.Models.Campaign.{Campaign}
use one_loyal.Db.Exec.{Session, Exec}
use one_loyal.Progress.Service.{get_campaign}
use one_loyal.Progress.Service.Plan.{campaign_in, get_campaign_lem}
use one_loyal.Campaigns.Service.{validate_date_range, editable, save_campaign}
use one_loyal.Campaigns.Tiers.{
  Patch, unset, set, patched, patched_nullable, stripped, titled, set_key,
}

-- `CampaignUpdateRequest`
pub record CampaignPatch : Type 0 where
  pub title : Patch String
  pub description : Patch String
  pub start_date : Patch ℕ
  pub end_date : Patch ℕ
  pub rules_json : Patch Fields
  pub visibility_settings_json : Patch Fields
  pub allow_claims : Patch Bool

-- `update_data.get(field, old)`
abbrev pub given_date : Patch ℕ → ℕ → Option ℕ
given_date unset old = some old
given_date (set value) old = value

-- `_validate_date_range` of values that may be null: Python does not order a null and a date.
abbrev pub validate_given_dates : Option ℕ → Option ℕ → Result (ℕ × ℕ)
validate_given_dates (some start) (some stop) =
    validate_date_range start stop >>= λ _. ok (start, stop)
validate_given_dates _ _ = err type_error

-- `if field.endswith("_json") and value is None: value = {}`
abbrev pub patched_json : Patch Fields → Fields → Fields
patched_json unset old = old
patched_json (set none) old = end
patched_json (set (some value)) old = value

-- A description that is set goes under "en" into the object's map, which is made if it is null.
abbrev pub described : Patch String → Option Fields → Option Fields
described (set (some value)) none = some (set_key "en" (str value) end)
described (set (some value)) (some fields) = some (set_key "en" (str value) fields)
described _ old = old

abbrev pub patched_campaign : CampaignPatch → ℕ × ℕ → String → Bool → Campaign → Campaign
patched_campaign patch dates title allow_claims campaign = record campaign {
  title = title;
  title_i18n = titled patch.title campaign.title_i18n;
  description = patched_nullable patch.description campaign.description;
  description_i18n = described patch.description campaign.description_i18n;
  start_date = dates.0;
  end_date = dates.1;
  rules_json = patched_json patch.rules_json campaign.rules_json;
  visibility_settings_json =
      patched_json patch.visibility_settings_json campaign.visibility_settings_json;
  allow_claims = allow_claims;
}

-- The map that a description is put into, if it was there, changes in place.
abbrev pub stored_map : Option Fields → Option Fields → Option Fields
stored_map none new = new
stored_map (some old) new = some old

-- The row after the flush. The JSON columns do not track changes in place, so that "en" of a map
-- that was there reaches the object but not its row.
abbrev pub stored_campaign : Campaign → Campaign → Campaign
stored_campaign old campaign = record campaign {
  title_i18n = old.title_i18n;
  description_i18n = stored_map old.description_i18n campaign.description_i18n;
}

module _ (company_id campaign_id : ℕ) (patch : CampaignPatch) where
  -- From the object that was found: the checks, and the object with its new values.
  abbrev pub updated : Campaign → Result Campaign
  updated campaign = do
    editable campaign.status
    dates ←
        validate_given_dates (given_date patch.start_date campaign.start_date)
          (given_date patch.end_date campaign.end_date)
    title ← patched (stripped patch.title) campaign.title
    allow_claims ← patched patch.allow_claims campaign.allow_claims
    ok (patched_campaign patch dates title allow_claims campaign)

  -- The flush of the object.
  abbrev pub flushed : Campaign → Result Campaign → Exec Campaign
  flushed old (ok campaign) s = (ok campaign, save_campaign (stored_campaign old campaign) s)
  flushed old (err e) s = (err e, s)

  abbrev updated_found : Result Campaign × Session → Result Campaign × Session
  updated_found (ok campaign, s) = flushed campaign (updated campaign) s
  updated_found (err e, s) = (err e, s)

  unfoldable pub update_campaign : Exec Campaign
  unfolding get_campaign
  update_campaign s = updated_found (get_campaign company_id campaign_id s)

  update_campaign_decides :
      (s : Session)
      → update_campaign s ≡ updated_found (campaign_in company_id campaign_id s.campaigns, s)
  unfolding update_campaign
  update_campaign_decides s = ap updated_found (get_campaign_lem company_id campaign_id s)

  -- What an update that returns has done to the campaign `old`.
  pub record IsUpdate (s : Session) (old new : Campaign) : Type 0 where
    pub of_table : campaign_in company_id campaign_id s.campaigns ≡ ok old
    pub may_edit : editable old.status ≡ ok tt
    pub dates : new.start_date ≤ new.end_date
    pub status : new.status ≡ old.status
    pub currency : new.currency ≡ old.currency
    pub id : new.id ≡ old.id
    pub deleted_at : new.deleted_at ≡ old.deleted_at

  dates_in_order :
      (a b : Option ℕ) (dates : ℕ × ℕ) → validate_given_dates a b ≡ ok dates → dates.0 ≤ dates.1
  dates_in_order (some a) (some b) dates h = ground (arith, h)
  dates_in_order none b dates h = cc
  dates_in_order (some a) none dates h = cc

  updated-IsUpdate :
      (s : Session) (old new : Campaign)
      → campaign_in company_id campaign_id s.campaigns ≡ ok old
      → updated old ≡ ok new
      → IsUpdate s old new
  updated-IsUpdate s old new f h =
      let (u, may, h1) = returned (editable old.status) _ new h in
      let (dates, checked, h2) =
        returned
          (validate_given_dates (given_date patch.start_date old.start_date)
            (given_date patch.end_date old.end_date))
          _ new h1 in
      let (title, _, h3) = returned (patched (stripped patch.title) old.title) _ new h2 in
      let (allow, _, h4) = returned (patched patch.allow_claims old.allow_claims) _ new h3 in
      let made : patched_campaign patch dates title allow old ≡ new = ok_injective _ new h4 in
      rw (← made) (record {
        of_table = f;
        may_edit = may;
        dates =
            dates_in_order (given_date patch.start_date old.start_date)
              (given_date patch.end_date old.end_date) dates checked;
        status = refl;
        currency = refl;
        id = refl;
        deleted_at = refl;
      })

  flushed_ok :
      (s : Session) (old : Campaign) (d : Result Campaign) (new : Campaign)
      → (flushed old d s).0 ≡ ok new
      → d ≡ ok new
  flushed_ok s old (ok c) new h = h
  flushed_ok s old (err e) new h = h

  found-IsUpdate :
      (s : Session) (r : Result Campaign) (new : Campaign)
      → campaign_in company_id campaign_id s.campaigns ≡ r
      → (updated_found (r, s)).0 ≡ ok new
      → (old : Campaign) × IsUpdate s old new
  found-IsUpdate s (ok old) new f h =
      (old, updated-IsUpdate s old new f (flushed_ok s old (updated old) new h))
  found-IsUpdate s (err e) new f h = cc

  -- An update that returns was made on a campaign that was found and was neither completed nor
  -- archived; its dates are in order, and its status, currency, key and deletion mark are as
  -- before.
  pub update_campaign-IsUpdate :
      (s : Session) (new : Campaign)
      → (update_campaign s).0 ≡ ok new
      → (old : Campaign) × IsUpdate s old new
  update_campaign-IsUpdate s new h =
      found-IsUpdate s (campaign_in company_id campaign_id s.campaigns) new refl
        (rw (update_campaign_decides s) at h)

  -- An update of an editable campaign whose request sets the start date to null raises Python's
  -- `TypeError`, no application error, and writes nothing.
  pub update_campaign_null_date :
      (s : Session) (old : Campaign)
      → campaign_in company_id campaign_id s.campaigns ≡ ok old
      → editable old.status ≡ ok tt
      → patch.start_date ≡ set none
      → update_campaign s ≡ (err type_error, s)
  update_campaign_null_date s old f may null = rw (update_campaign_decides s, f, may, null) refl
