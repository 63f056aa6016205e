-- ===== src/Progress/Total/Spec.antt =====
-- What the total of a customer should be, with no loop and no order: a sum over the records that
-- count, and for each counter the number of records that it stands for.
use one_loyal.Prelude.{ℕ, ◌+◌, ◌&&◌, Bool, not, List, count_if, if◌then◌else◌, ltb}
use one_loyal.Prelude.Int.{ℤ, pos, pos_part}
use one_loyal.Prelude.Sums.{sum_of}
use one_loyal.Core.{Result, ok, err}
use one_loyal.Models.Campaign.{Campaign}
use one_loyal.Models.Sale.{SaleRecord}
use one_loyal.Models.Progress.{Stats}
use one_loyal.Progress.Rules.{Rules, empty_stats, is_text}
use one_loyal.Progress.Amounts.{amount_for_record, signed_amount}
use one_loyal.Progress.Total.{
  is_mismatched, is_excluded_cancelled, is_excluded_deleted, is_excluded_return, is_excluded_unpaid,
  currency_error,
}

module _ (campaign : Campaign) (rules : Rules) where
  abbrev pub in_currency : SaleRecord → Bool
  in_currency r = not (is_mismatched campaign rules r)

  abbrev pub is_kept : SaleRecord → Bool
  is_kept r = in_currency r && not (is_excluded_cancelled campaign rules r)

  abbrev pub is_live : SaleRecord → Bool
  is_live r = is_kept r && not (is_excluded_deleted campaign rules r)

  abbrev pub is_accepted : SaleRecord → Bool
  is_accepted r = is_live r && not (is_excluded_return campaign rules r)

  -- The record passes every rule.
  abbrev pub counts : SaleRecord → Bool
  counts r = is_accepted r && not (is_excluded_unpaid campaign rules r)

  -- What a record adds.
  abbrev pub contribution : SaleRecord → ℤ
  contribution r = if counts r then signed_amount r (amount_for_record r rules) rules else pos 0

  -- The counters after the records, from counters `s`.
  abbrev pub stats_after : Stats → List SaleRecord → Stats
  stats_after s rs = record s {
    included_records_count = s.included_records_count + count_if counts rs;
    excluded_cancelled_count =
        s.excluded_cancelled_count
        + count_if (λ r. in_currency r && is_excluded_cancelled campaign rules r) rs;
    excluded_deleted_count =
        s.excluded_deleted_count
        + count_if (λ r. is_kept r && is_excluded_deleted campaign rules r) rs;
    excluded_currency_mismatch_count =
        s.excluded_currency_mismatch_count + count_if (is_mismatched campaign rules) rs;
    excluded_unpaid_count =
        s.excluded_unpaid_count
        + count_if (λ r. is_accepted r && is_excluded_unpaid campaign rules r) rs;
    excluded_returns_count =
        s.excluded_returns_count
        + count_if (λ r. is_live r && is_excluded_return campaign rules r) rs;
  }

  -- The policy "fail", and a record in another currency.
  abbrev pub must_fail : List SaleRecord → Bool
  must_fail rs =
      is_text rules.currency_mismatch_policy "fail"
      && ltb 0 (count_if (is_mismatched campaign rules) rs)

  abbrev pub expected_total : List SaleRecord → Result (ℕ × Stats)
  expected_total rs =
      if must_fail rs
      then err (currency_error campaign rules)
      else ok (pos_part (sum_of contribution rs), stats_after (empty_stats rules) rs)
