-- ===== src/Campaigns/Tiers.antt =====
-- `GiftTierService`: the gift tiers of a campaign.
pub mod Decisions
pub mod Amounts
pub mod Run
pub mod Closed
pub mod Order
use Prim.Native.Char.{code}
use one_loyal.Prelude.{
  ℕ, suc, max, ◌+◌, ◌==◌, ◌&&◌, ◌||◌, String, Bool, true, false, not, Option, none, some, List, [],
  ◌∷◌, map, select, leb, str_eq, if◌then◌else◌,
}
use one_loyal.Core.{Error, Result, ok, err, validation, not_found, conflict, integrity_error}
use one_loyal.Common.Json.{Json, Fields, str, end, field, get}
use one_loyal.Common.Text.{strip}
use one_loyal.Models.Campaign.{Campaign, GiftTier, StockTrackingMode}
use one_loyal.Db.Exec.{
  Session, Exec, pure, lift, gets, raise_if, or_raise, modify, utc_now, fresh_id, ◌>>=◌, ◌>>◌,
}
use one_loyal.Db.Query.{scalar_one_or_none, put, is_null, order_by_asc}
use one_loyal.Progress.Service.{get_campaign}
use one_loyal.Campaigns.Service.{editable, member}

unfoldable pub ensure_campaign_editable : ℕ → ℕ → Exec Campaign
unfolding get_campaign
ensure_campaign_editable company_id campaign_id = do
  campaign ← get_campaign company_id campaign_id
  lift (editable campaign.status)
  pure campaign

-- The live tiers of a campaign with the amount.
abbrev pub has_amount : ℕ → ℕ → GiftTier → Bool
has_amount campaign_id amount t =
    t.campaign_id == campaign_id && t.required_amount_minor == amount && is_null t.deleted_at

-- `GiftTier.id != exclude_tier_id`, where that is given
abbrev pub is_not : Option ℕ → GiftTier → Bool
is_not none t = true
is_not (some tier_id) t = not (t.id == tier_id)

abbrev pub amount_exists : Error
amount_exists = conflict "Gift tier required amount already exists in this campaign."

unfoldable pub ensure_amount_available : ℕ → ℕ → Option ℕ → Exec (Unit {0})
ensure_amount_available campaign_id required_amount_minor exclude_tier_id = do
  rows ← gets (λ s.
      select (λ t. has_amount campaign_id required_amount_minor t && is_not exclude_tier_id t)
        s.gift_tiers)
  found ← lift (scalar_one_or_none rows)
  raise_if (not (is_null found)) amount_exists

-- One more than `func.max(sort_order)`, and 0 where there is no row.
abbrev pub after_last : List GiftTier → ℕ
after_last [] = 0
after_last (t ∷ ts) = max (suc t.sort_order) (after_last ts)

abbrev pub next_sort_order : ℕ → Session → ℕ
next_sort_order campaign_id s =
    after_last (select (λ t. t.campaign_id == campaign_id && is_null t.deleted_at) s.gift_tiers)

-- `GiftTierCreateRequest`
pub record TierRequest : Type 0 where
  pub title : String
  pub title_i18n : Option Fields
  pub description : Option String
  pub description_i18n : Option Fields
  pub required_amount_minor : ℕ
  pub image_url : Option String
  pub stock_tracking_mode : StockTrackingMode
  pub stock_quantity : Option ℕ
  pub is_active : Bool

-- backend/app/common/i18n.py: `ensure_i18n_defaults`, of a text and of what may be null
abbrev pub i18n_defaults : String → Fields
i18n_defaults value = field "en" (str value) end

abbrev pub i18n_defaults_or_null : Option String → Option Fields
i18n_defaults_or_null none = none
i18n_defaults_or_null (some value) = some (i18n_defaults value)

-- `given or default`: an empty dict is false.
abbrev pub title_fields : Option Fields → Fields → Fields
title_fields (some (field k v rest)) default = field k v rest
title_fields _ default = default

abbrev pub description_fields : Option Fields → Option Fields → Option Fields
description_fields (some (field k v rest)) default = some (field k v rest)
description_fields _ default = default

-- `data.title.strip() if data.title else title_i18n.get("en")`, where a title that is no text
-- breaks a constraint of the table.
abbrev pub text_of : Option Json → Result String
text_of (some (str s)) = ok s
text_of _ = err integrity_error

abbrev pub tier_title : String → Fields → Result String
tier_title title title_i18n =
    if str_eq title "" then text_of (get "en" title_i18n) else ok (strip title)

abbrev pub new_tier : ℕ → ℕ → ℕ → String → String → ℕ → TierRequest → GiftTier
new_tier new_id company_id campaign_id currency title sort_order request = record {
  id = new_id;
  company_id = company_id;
  campaign_id = campaign_id;
  title = title;
  description = request.description;
  title_i18n = title_fields request.title_i18n (i18n_defaults (strip request.title));
  description_i18n =
      description_fields request.description_i18n (i18n_defaults_or_null request.description);
  required_amount_minor = request.required_amount_minor;
  currency = currency;
  image_url = request.image_url;
  stock_tracking_mode = request.stock_tracking_mode;
  stock_quantity = request.stock_quantity;
  reserved_quantity = 0;
  fulfilled_quantity = 0;
  sort_order = sort_order;
  is_active = request.is_active;
  deleted_at = none;
}

unfoldable pub create_tier : ℕ → ℕ → TierRequest → Exec GiftTier
unfolding ensure_campaign_editable ensure_amount_available
create_tier company_id campaign_id request = do
  campaign ← ensure_campaign_editable company_id campaign_id
  ensure_amount_available campaign_id request.required_amount_minor none
  let title_i18n = title_fields request.title_i18n (i18n_defaults (strip request.title))
  sort_order ← gets (next_sort_order campaign_id)
  title ← lift (tier_title request.title title_i18n)
  new_id ← fresh_id
  let tier = new_tier new_id company_id campaign_id campaign.currency title sort_order request
  modify (λ s. record s { gift_tiers = tier ∷ s.gift_tiers })
  pure tier

-- ORDER BY required_amount_minor ASC, sort_order ASC
unfoldable pub listed_tiers : ℕ → ℕ → Session → List GiftTier
unfolding order_by_asc
listed_tiers company_id campaign_id s =
    order_by_asc (λ t. t.required_amount_minor)
      (order_by_asc (λ t. t.sort_order)
        (select
          (λ t. t.company_id == company_id && t.campaign_id == campaign_id && is_null t.deleted_at)
          s.gift_tiers))

unfoldable pub list_tiers : ℕ → ℕ → Exec (List GiftTier)
unfolding get_campaign listed_tiers
list_tiers company_id campaign_id = do
  get_campaign company_id campaign_id
  gets (listed_tiers company_id campaign_id)

unfoldable pub get_tier : ℕ → ℕ → ℕ → Exec GiftTier
get_tier company_id campaign_id tier_id = do
  rows ← gets (λ s.
      select
        (λ t.
          t.id == tier_id
          && t.company_id == company_id
          && t.campaign_id == campaign_id
          && is_null t.deleted_at)
        s.gift_tiers)
  found ← lift (scalar_one_or_none rows)
  or_raise found (not_found "Gift tier not found.")

-- The flush of the changed object.
abbrev pub save_tier : GiftTier → Session → Session
save_tier t s = record s { gift_tiers = put (λ x. x.id) t s.gift_tiers }

-- A field of `data.model_dump(exclude_unset=True)`: not there, or a value, which may be null.
pub data Patch (A : Type 0) : Type 0 where
  unset : Patch A
  set : Option A → Patch A

-- `setattr` of a column that may be null, and of one that may not: the flush refuses a null.
abbrev pub patched_nullable : {A : Type 0} → Patch A → Option A → Option A
patched_nullable unset old = old
patched_nullable (set value) old = value

abbrev pub patched : {A : Type 0} → Patch A → A → Result A
patched unset old = ok old
patched (set none) old = err integrity_error
patched (set (some value)) old = ok value

-- `d[key] = value`
abbrev pub set_key : String → Json → Fields → Fields
set_key key value end = field key value end
set_key key value (field k v rest) =
    let rest' = set_key key value rest in
    if str_eq k key then field k value rest else field k v rest'

-- `GiftTierUpdateRequest`
pub record TierPatch : Type 0 where
  pub title : Patch String
  pub title_i18n : Patch Fields
  pub description : Patch String
  pub description_i18n : Patch Fields
  pub required_amount_minor : Patch ℕ
  pub image_url : Patch String
  pub stock_tracking_mode : Patch StockTrackingMode
  pub stock_quantity : Patch ℕ
  pub is_active : Patch Bool

-- The text that is set goes without the spaces around it, and under "en" into the object's map.
abbrev pub stripped : Patch String → Patch String
stripped (set (some value)) = set (some (strip value))
stripped other = other

abbrev pub titled : Patch String → Fields → Fields
titled (set (some value)) fields = set_key "en" (str (strip value)) fields
titled _ fields = fields

-- `if "required_amount_minor" in update_data`; no row has the amount null.
unfoldable pub ensure_patch_available : ℕ → ℕ → Patch ℕ → Exec (Unit {0})
unfolding ensure_amount_available
ensure_patch_available campaign_id tier_id (set (some amount)) =
    ensure_amount_available campaign_id amount (some tier_id)
ensure_patch_available campaign_id tier_id _ = pure tt

-- The object with its new values.
abbrev pub patched_tier :
    TierPatch → String → Fields → ℕ → StockTrackingMode → Bool → GiftTier → GiftTier
patched_tier patch title title_i18n amount mode is_active tier = record tier {
  title = title;
  title_i18n = title_i18n;
  description = patched_nullable patch.description tier.description;
  description_i18n = patched_nullable patch.description_i18n tier.description_i18n;
  required_amount_minor = amount;
  image_url = patched_nullable patch.image_url tier.image_url;
  stock_tracking_mode = mode;
  stock_quantity = patched_nullable patch.stock_quantity tier.stock_quantity;
  is_active = is_active;
}

-- The map after the flush: a JSON column does not track changes in place.
abbrev pub stored_title_map : Patch Fields → Fields → Fields → Fields
stored_title_map unset old new = old
stored_title_map (set value) old new = new

-- The row after the flush of the object. "en" of the map that was there reaches the object but not
-- its row; a map of the request does.
abbrev pub stored_tier : TierPatch → GiftTier → GiftTier → GiftTier
stored_tier patch old tier = record tier {
  title_i18n = stored_title_map patch.title_i18n old.title_i18n tier.title_i18n;
}

unfoldable pub update_tier : ℕ → ℕ → ℕ → TierPatch → Exec GiftTier
unfolding ensure_campaign_editable get_tier ensure_patch_available
update_tier company_id campaign_id tier_id patch = do
  ensure_campaign_editable company_id campaign_id
  tier ← get_tier company_id campaign_id tier_id
  ensure_patch_available campaign_id tier_id patch.required_amount_minor
  title ← lift (patched (stripped patch.title) tier.title)
  title_i18n ← lift (patched patch.title_i18n (titled patch.title tier.title_i18n))
  amount ← lift (patched patch.required_amount_minor tier.required_amount_minor)
  mode ← lift (patched patch.stock_tracking_mode tier.stock_tracking_mode)
  is_active ← lift (patched patch.is_active tier.is_active)
  let changed = patched_tier patch title title_i18n amount mode is_active tier
  modify (save_tier (stored_tier patch tier changed))
  pure changed

unfoldable pub delete_tier : ℕ → ℕ → ℕ → Exec GiftTier
unfolding ensure_campaign_editable get_tier
delete_tier company_id campaign_id tier_id = do
  ensure_campaign_editable company_id campaign_id
  tier ← get_tier company_id campaign_id tier_id
  now ← utc_now
  let deleted : GiftTier = record tier { is_active = false; deleted_at = some now }
  modify (save_tier deleted)
  pure deleted

-- `set(a) == set(b)`
abbrev pub is_subset : List ℕ → List ℕ → Bool
is_subset [] b = true
is_subset (x ∷ xs) b = member x b && is_subset xs b

abbrev pub same_set : List ℕ → List ℕ → Bool
same_set a b = is_subset a b && is_subset b a

-- `tiers_by_id[tier_id].sort_order = index`: the object of the row changes.
abbrev pub place : ℕ → ℕ → GiftTier → GiftTier
place tier_id index t = if t.id == tier_id then record t { sort_order = index } else t

-- `for index, tier_id in enumerate(tier_ids)`
abbrev pub place_all : ℕ → List ℕ → List GiftTier → List GiftTier
place_all index [] rows = rows
place_all index (i ∷ is) rows = place_all (suc index) is (map (place i index) rows)

-- `[tiers_by_id[tier_id] for tier_id in tier_ids]`, where no key is missing
abbrev pub pick : List ℕ → List GiftTier → List GiftTier
pick [] rows = []
pick (i ∷ is) rows = first_of (select (λ t. t.id == i) rows) (pick is rows)
  where
    first_of : List GiftTier → List GiftTier → List GiftTier
    first_of [] rest = rest
    first_of (t ∷ ts) rest = t ∷ rest

unfoldable pub reorder_tiers : ℕ → ℕ → List ℕ → Exec (List GiftTier)
unfolding ensure_campaign_editable list_tiers
reorder_tiers company_id campaign_id tier_ids = do
  ensure_campaign_editable company_id campaign_id
  tiers ← list_tiers company_id campaign_id
  raise_if (not (same_set tier_ids (map (λ t. t.id) tiers)))
      (validation "Reorder request must include every active gift tier exactly once.")
  modify (λ s. record s { gift_tiers = place_all 0 tier_ids s.gift_tiers })
  gets (λ s. pick tier_ids s.gift_tiers)
