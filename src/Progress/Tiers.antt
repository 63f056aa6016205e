-- ===== src/Progress/Tiers.antt =====
-- `_calculate_tiers`: where a total stands among the gift tiers of a campaign.
pub mod Laws
use one_loyal.Prelude.{ℕ, ◌-◌, Bool, true, false, Option, none, some, List, [], ◌∷◌, leb}
use one_loyal.Models.Campaign.{GiftTier}
use one_loyal.Progress.Amounts.{basis_points}

pub record TierResult : Type 0 where
  pub current_tier : Option GiftTier
  pub next_tier : Option GiftTier
  pub amount_left_minor : ℕ
  pub progress_percent_basis_points : ℕ
  pub no_tiers : Bool

-- The loop over the tiers, with its `break`; the result is (current_tier, next_tier).
unfoldable pub walk_tiers :
    ℕ → List GiftTier → Option GiftTier → Option GiftTier → Option GiftTier × Option GiftTier
walk_tiers total [] current next = (current, next)
walk_tiers total (tier ∷ tiers) current next = elim (leb tier.required_amount_minor total) [
  | true ↦ walk_tiers total tiers (some tier) next
  | false ↦ elim next [
    | none ↦ (current, some tier)
    | some n ↦ walk_tiers total tiers current (some n)
  ]
]

-- What the function returns for the tiers that the loop found; `first` is `tiers[0]`.
abbrev pub tier_result : ℕ → GiftTier → Option GiftTier × Option GiftTier → TierResult
tier_result total first (none, _) = record {
  current_tier = none;
  next_tier = some first;
  amount_left_minor = first.required_amount_minor - total;
  progress_percent_basis_points = basis_points total first.required_amount_minor;
  no_tiers = false;
}
tier_result total first (some current, none) = record {
  current_tier = some current;
  next_tier = none;
  amount_left_minor = 0;
  progress_percent_basis_points = 10000;
  no_tiers = false;
}
tier_result total first (some current, some next) = record {
  current_tier = some current;
  next_tier = some next;
  amount_left_minor = next.required_amount_minor - total;
  progress_percent_basis_points =
      basis_points (total - current.required_amount_minor)
        (next.required_amount_minor - current.required_amount_minor);
  no_tiers = false;
}

unfoldable pub calculate_tiers : ℕ → List GiftTier → TierResult
unfolding walk_tiers
calculate_tiers total [] = record {
  current_tier = none;
  next_tier = none;
  amount_left_minor = 0;
  progress_percent_basis_points = 0;
  no_tiers = true;
}
calculate_tiers total (first ∷ tiers) =
    tier_result total first (walk_tiers total (first ∷ tiers) none none)
