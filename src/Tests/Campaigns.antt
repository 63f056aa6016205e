-- ===== src/Tests/Campaigns.antt =====
-- Runs of the campaign and gift tier services.
use one_loyal.Prelude.{ℕ, ◌≤◌, ◌≡◌, ◌↔◌, refl, inl, inr, some, List, [], ◌∷◌, arith}
use one_loyal.Core.{Error, ok, err, conflict}
use one_loyal.Models.Campaign.{Campaign, CampaignStatus}
use one_loyal.Db.Exec.{Session}
use one_loyal.Db.Keyed.{Has}
use one_loyal.Progress.Service.Plan.{campaign_in}
use one_loyal.Campaigns.Service.{active_tiers_for_campaign, validate_activation, activate_campaign}
use one_loyal.Campaigns.Lifecycle.{CampaignStep, activate, complete}
use one_loyal.Campaigns.Lifecycle.Run.{
  run as run_campaign_calls, IsCampaignTable, stage, run_never_reopens,
}
use one_loyal.Campaigns.Lifecycle.Activation.{
  IsReady, HasDistinctAmounts, validate_activation_iff, activate_campaign-IsReady,
}
use one_loyal.Campaigns.Tiers.{
  unset, set, TierPatch, TierRequest, create_tier, update_tier, delete_tier, reorder_tiers,
}
use one_loyal.Campaigns.Tiers.Amounts.{IsAmountState}
use one_loyal.Campaigns.Tiers.Run.{
  run as run_tier_calls, TierCall, update, delete, run-IsAmountState, run_keeps_distinct_amounts,
}
use one_loyal.Campaigns.Tiers.Closed.{IsClosed, IsOn, closed_campaign_keeps_tiers}
use one_loyal.Campaigns.Tiers.Order.{last_index, reorder_tiers_numbers}
use one_loyal.Common.Json.{field, str, end}
use one_loyal.Prelude.{none, All}
use one_loyal.Campaigns.Editing.{CampaignPatch, IsUpdate, update_campaign, update_campaign-IsUpdate}
use one_loyal.Tests.World.{spring, cup, bag, start}

abbrev draft : Campaign
draft = record spring { status = CampaignStatus.draft }

abbrev drafted : Session
drafted = record start { campaigns = draft ∷ [] }

start-IsCampaignTable : IsCampaignTable start
start-IsCampaignTable = ground arith

drafted-IsCampaignTable : IsCampaignTable drafted
drafted-IsCampaignTable = ground arith

validate_activation_iff_example :
    ((validate_activation draft drafted).0 ≡ ok tt) ↔ IsReady drafted draft
validate_activation_iff_example = validate_activation_iff draft drafted

activate_campaign-IsReady_example :
    (old : Campaign) × (campaign_in 1 20 drafted.campaigns ≡ ok old)
    × CampaignStep old.status CampaignStatus.active
    × (spring ≡ record old { status = CampaignStatus.active })
    × IsReady drafted old
unfolding activate_campaign
activate_campaign-IsReady_example = activate_campaign-IsReady 1 20 drafted spring refl

run_never_reopens_example :
    (c' : Campaign) × Has c'
      (run_campaign_calls (complete 1 20 ∷ activate 1 20 ∷ []) start).campaigns
    × (c'.id ≡ spring.id)
    × (stage spring.status ≤ stage c'.status)
run_never_reopens_example =
    run_never_reopens (complete 1 20 ∷ activate 1 20 ∷ []) start spring start-IsCampaignTable
      (inl refl)

start-IsAmountState : IsAmountState start
start-IsAmountState = record { keyed = ground arith; single = λ campaign_id amount. ground arith }

-- The amount of the bag is given to the cup, and after the bag's deletion once more.
abbrev to_bag : TierPatch
to_bag = record {
  title = unset;
  title_i18n = unset;
  description = unset;
  description_i18n = unset;
  required_amount_minor = set (some 2000);
  image_url = unset;
  stock_tracking_mode = unset;
  stock_quantity = unset;
  is_active = unset;
}

abbrev calls : List TierCall
calls = update 1 20 30 to_bag ∷ delete 1 20 31 ∷ update 1 20 30 to_bag ∷ []

run-IsAmountState_example : IsAmountState (run_tier_calls calls start)
run-IsAmountState_example = run-IsAmountState calls start start-IsAmountState

run_keeps_distinct_amounts_example :
    HasDistinctAmounts (active_tiers_for_campaign spring (run_tier_calls calls start))
run_keeps_distinct_amounts_example =
    run_keeps_distinct_amounts calls start spring start-IsAmountState

abbrev completed : Campaign
completed = record spring { status = CampaignStatus.completed }

abbrev closed : Session
closed = record start { campaigns = completed ∷ [] }

abbrev not_editable : Error
not_editable = conflict "Completed campaigns cannot be edited."

closed_campaign_keeps_tiers_example :
    ((request : TierRequest) → create_tier 1 20 request closed ≡ (err not_editable, closed))
    × ((tier_id : ℕ) (patch : TierPatch)
        → update_tier 1 20 tier_id patch closed ≡ (err not_editable, closed))
    × ((tier_id : ℕ) → delete_tier 1 20 tier_id closed ≡ (err not_editable, closed))
    × ((tier_ids : List ℕ) → reorder_tiers 1 20 tier_ids closed ≡ (err not_editable, closed))
    × ((calls : List TierCall) → All (IsOn 1 20) calls → run_tier_calls calls closed ≡ closed)
unfolding campaign_in
closed_campaign_keeps_tiers_example =
    closed_campaign_keeps_tiers 1 20 closed completed not_editable refl IsClosed.completed

-- The cup comes last.
reorder_tiers_numbers_example : last_index 30 (31 ∷ 30 ∷ []) ≡ some 1
unfolding reorder_tiers
reorder_tiers_numbers_example =
    reorder_tiers_numbers 1 20 (31 ∷ 30 ∷ []) start
      (record bag { sort_order = 0 } ∷ record cup { sort_order = 1 } ∷ [])
      (record cup { sort_order = 1 }) refl (inr (inl refl)) refl

abbrev renamed : CampaignPatch
renamed = record {
  title = set (some " Summer ");
  description = unset;
  start_date = unset;
  end_date = set (some 300);
  rules_json = set none;
  visibility_settings_json = unset;
  allow_claims = unset;
}

abbrev summer : Campaign
summer = record spring {
  title = "Summer";
  title_i18n = field "en" (str "Summer") end;
  end_date = 300;
}

update_campaign-IsUpdate_example : (old : Campaign) × IsUpdate 1 20 renamed start old summer
unfolding update_campaign
update_campaign-IsUpdate_example = update_campaign-IsUpdate 1 20 renamed start summer refl

abbrev without_start : CampaignPatch
without_start = record renamed { start_date = set none }
