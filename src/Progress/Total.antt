-- ===== src/Progress/Total.antt =====
-- `ProgressService._calculate_total`: which sale records count, and what they add up to.
pub mod Spec
pub mod Laws
use one_loyal.Prelude.{ℕ, ◌+◌, ◌&&◌, ◌||◌, String, Bool, not, List, [], ◌∷◌, str_eq, if◌then◌else◌}
use one_loyal.Prelude.Int.{ℤ, pos, ◌+ℤ◌, pos_part}
use one_loyal.Core.{Error, Result, ok, err, validation}
use one_loyal.Common.Json.{truthy}
use one_loyal.Models.Campaign.{Campaign}
use one_loyal.Models.Sale.{SaleRecord, is_return_or_refund, is_cancelled, is_deleted, is_paid}
use one_loyal.Models.Progress.{Stats}
use one_loyal.Progress.Rules.{Rules, empty_stats, is_text}
use one_loyal.Progress.Amounts.{amount_for_record, signed_amount}

-- The variables of the loop.
pub record Running : Type 0 where
  pub total : ℤ
  pub stats : Stats

module _ (campaign : Campaign) (rules : Rules) where
  -- the guards of the loop's body, in order; each skips the record
  unfoldable pub is_mismatched : SaleRecord → Bool
  is_mismatched r = not (str_eq r.currency campaign.currency)

  unfoldable pub is_excluded_cancelled : SaleRecord → Bool
  is_excluded_cancelled r = not (truthy rules.include_cancelled) && is_cancelled r.document_status

  unfoldable pub is_excluded_deleted : SaleRecord → Bool
  is_excluded_deleted r =
      not (truthy rules.include_deleted) && (is_deleted r.document_status || r.is_deleted_in_source)

  unfoldable pub is_excluded_return : SaleRecord → Bool
  is_excluded_return r = is_return_or_refund r.document_kind && not (truthy rules.subtract_returns)

  unfoldable pub is_excluded_unpaid : SaleRecord → Bool
  is_excluded_unpaid r = is_text rules.payment_rule "paid_only" && not (is_paid r.payment_status)

  abbrev pub currency_error : Error
  currency_error = validation "Sale record currency does not match campaign currency."

  -- One round of the loop.
  pub add_record : SaleRecord → Running → Result Running
  add_record r run =
      let stats = run.stats in
      if is_mismatched r
      then (if is_text rules.currency_mismatch_policy "fail"
          then err currency_error
          else ok (record run {
            stats = record stats {
              excluded_currency_mismatch_count = stats.excluded_currency_mismatch_count + 1;
            };
          }))
      else if is_excluded_cancelled r
      then ok (record run {
        stats = record stats { excluded_cancelled_count = stats.excluded_cancelled_count + 1 };
      })
      else if is_excluded_deleted r
      then ok (record run {
        stats = record stats { excluded_deleted_count = stats.excluded_deleted_count + 1 };
      })
      else if is_excluded_return r
      then ok (record run {
        stats = record stats { excluded_returns_count = stats.excluded_returns_count + 1 };
      })
      else if is_excluded_unpaid r
      then ok (record run {
        stats = record stats { excluded_unpaid_count = stats.excluded_unpaid_count + 1 };
      })
      else ok (record {
        total = run.total +ℤ signed_amount r (amount_for_record r rules) rules;
        stats = record stats { included_records_count = stats.included_records_count + 1 };
      })

  pub add_records : List SaleRecord → Running → Result Running
  add_records [] run = ok run
  add_records (r ∷ rs) run = elim (add_record r run) [
    | ok run' ↦ add_records rs run'
    | err e ↦ err e
  ]

  -- `max(total_amount_minor, 0), stats`
  abbrev clamp_total : Result Running → Result (ℕ × Stats)
  clamp_total (ok run) = ok (pos_part run.total, run.stats)
  clamp_total (err e) = err e

  unfoldable pub calculate_total : List SaleRecord → Result (ℕ × Stats)
  unfolding add_records add_record is_mismatched is_excluded_cancelled is_excluded_deleted
      is_excluded_return is_excluded_unpaid
  calculate_total rs =
      clamp_total (add_records rs (record { total = pos 0; stats = empty_stats rules }))
