-- ===== src/Progress/Rules.antt =====
-- `_merged_rules` and `_empty_stats`: the calculation rules of a campaign.
use one_loyal.Prelude.{
  String, Bool, true, false, ◌||◌, none, some, List, [], ◌∷◌, str_eq, if◌then◌else◌,
}
use one_loyal.Core.{Result, ok, err, validation, type_error}
use one_loyal.Core.Results.{◌>>=◌}
use one_loyal.Common.Json.{Json, Fields, null, bool, str, arr, obj, end, field, get}
use one_loyal.Models.Progress.{Stats}

abbrev pub default_calculation_rules : Fields
default_calculation_rules = field "amount_basis" (str "gross") (
    field "include_cancelled" (bool false) (
      field "include_deleted" (bool false) (
        field "subtract_returns" (bool true) (
          field "payment_rule" (str "all_valid_documents")
            (field "currency_mismatch_policy" (str "exclude") end)))))

-- The values of the keys that the calculation reads.
pub record Rules : Type 0 where
  pub amount_basis : Json
  pub include_cancelled : Json
  pub include_deleted : Json
  pub subtract_returns : Json
  pub payment_rule : Json
  pub currency_mismatch_policy : Json

-- `{**DEFAULT_CALCULATION_RULES, **rules_json}[key]`; each key that is read has a default.
abbrev pub merged_value : Fields → String → Json
merged_value rules_json key = elim (get key rules_json) [
  | some v ↦ v
  | none ↦ elim (get key default_calculation_rules) [ some v ↦ v | none ↦ null ]
]

abbrev pub one_of : List String → String → Bool
one_of [] s = false
one_of (x ∷ xs) s = str_eq s x || one_of xs s

-- `value in {texts}`: a list or an object is not hashable.
abbrev pub in_set : Json → List String → Result Bool
in_set (str s) xs = ok (one_of xs s)
in_set (arr items) xs = err type_error
in_set (obj fields) xs = err type_error
in_set _ xs = ok false

-- `if value not in {texts}: raise ValidationAppError(message)`
abbrev pub require_in : Json → List String → String → Result Json
require_in value texts message = elim (in_set value texts) [
  | ok found ↦ if found then ok value else err (validation message)
  | err e ↦ err e
]

unfoldable pub merged_rules : Fields → Result Rules
merged_rules rules_json = do
  basis ←
      require_in (merged_value rules_json "amount_basis") ("gross" ∷ "net" ∷ "paid" ∷ [])
        "Unsupported amount_basis rule."
  payment ←
      require_in (merged_value rules_json "payment_rule")
        ("all_valid_documents" ∷ "paid_only" ∷ "paid_amount_only" ∷ []) "Unsupported payment_rule."
  policy ←
      require_in (merged_value rules_json "currency_mismatch_policy") ("exclude" ∷ "fail" ∷ [])
        "Unsupported currency_mismatch_policy."
  ok (record {
    amount_basis = basis;
    include_cancelled = merged_value rules_json "include_cancelled";
    include_deleted = merged_value rules_json "include_deleted";
    subtract_returns = merged_value rules_json "subtract_returns";
    payment_rule = payment;
    currency_mismatch_policy = policy;
  })

abbrev pub empty_stats : Rules → Stats
empty_stats rules = record {
  included_records_count = 0;
  excluded_cancelled_count = 0;
  excluded_deleted_count = 0;
  excluded_currency_mismatch_count = 0;
  excluded_unpaid_count = 0;
  excluded_returns_count = 0;
  no_tiers = false;
  amount_basis = rules.amount_basis;
  payment_rule = rules.payment_rule;
  currency_mismatch_policy = rules.currency_mismatch_policy;
}

-- `value == text`
abbrev pub is_text : Json → String → Bool
is_text (str s) t = str_eq s t
is_text _ t = false
