-- ===== src/Progress/Total/Laws.antt =====
-- `_calculate_total` beside its specification, the order of the records, and the counters.
use mathlib.Core.List.{Permᴰ}
use one_loyal.Prelude.{
  ℕ, ◌+◌, ◌≤◌, ◌≡◌, ◌∙◌, refl, sym, true, false, List, [], ◌∷◌, length, arith, if◌then◌else◌,
  Bool-cases, inl, inr, Bool, ◌&&◌,
}
use one_loyal.Prelude.Int.{ℤ, pos, ◌+ℤ◌, ◌≤ℤ◌, pos_part, +ℤ_parts, +ℤ-zero, zero-+ℤ, +ℤ_assoc}
use one_loyal.Prelude.Sums.{sum_of, sum_of-perm, count_if-perm}
use one_loyal.Core.{Result, ok, err}
use one_loyal.Models.Campaign.{Campaign}
use one_loyal.Models.Sale.{SaleRecord, is_return_or_refund}
use one_loyal.Models.Progress.{Stats}
use one_loyal.Progress.Rules.{Rules, empty_stats, is_text}
use one_loyal.Progress.Amounts.{amount_for_record, signed_amount}
use one_loyal.Progress.Amounts.Laws.{signed_amount-return}
use one_loyal.Progress.Total.{
  Running, add_record, add_records, calculate_total, currency_error, is_mismatched,
  is_excluded_cancelled, is_excluded_deleted, is_excluded_unpaid, is_excluded_return,
}
use one_loyal.Progress.Total.Spec.{
  counts, contribution, stats_after, must_fail, expected_total, in_currency, is_kept, is_accepted,
  is_live,
}

-- What the six counters add up to.
abbrev pub counted : Stats → ℕ
counted s =
    s.included_records_count + s.excluded_cancelled_count + s.excluded_deleted_count
    + s.excluded_currency_mismatch_count + s.excluded_unpaid_count + s.excluded_returns_count

module _ (campaign : Campaign) (rules : Rules) where
  -- The loop from any running state.
  abbrev expected_run : List SaleRecord → Running → Result Running
  expected_run rs run =
      if must_fail campaign rules rs
      then err (currency_error campaign rules)
      else ok (record {
        total = run.total +ℤ sum_of (contribution campaign rules) rs;
        stats = stats_after campaign rules run.stats rs;
      })

  -- One record, by the specification.
  abbrev after : SaleRecord → Running → Running
  after r run = record {
    total = run.total +ℤ contribution campaign rules r;
    stats = stats_after campaign rules run.stats (r ∷ []);
  }

  abbrev refuses : SaleRecord → Bool
  refuses r = is_mismatched campaign rules r && is_text rules.currency_mismatch_policy "fail"

  add_record_lem :
      (r : SaleRecord) (run : Running)
      → add_record campaign rules r run
        ≡ (if refuses r then err (currency_error campaign rules) else ok (after r run))
  unfolding add_record
  add_record_lem r run = ground (arith, +ℤ-zero run.total)

  expected_run-cons :
      (r : SaleRecord) (rs : List SaleRecord) (run : Running)
      → refuses r ≡ false
      → expected_run rs (after r run) ≡ expected_run (r ∷ rs) run
  expected_run-cons r rs run h = ground (
    arith,
    +ℤ_assoc run.total (contribution campaign rules r) (sum_of (contribution campaign rules) rs),
  )

  add_records-eq-expected_run :
      (rs : List SaleRecord) (run : Running)
      → add_records campaign rules rs run ≡ expected_run rs run
  unfolding add_records
  add_records-eq-expected_run [] run = ground (arith, +ℤ-zero run.total)
  add_records-eq-expected_run (r ∷ rs) run = elim (Bool-cases (refuses r)) [
    | inl fails ↦ rw (add_record_lem r run, fails, add_records) (ground arith)
    | inr goes ↦
        rw (add_record_lem r run, goes, add_records)
          (add_records-eq-expected_run rs (after r run) ∙ expected_run-cons r rs run goes)
  ]

  -- The loop of `_calculate_total` computes what the specification says: it raises exactly under
  -- the policy "fail" with a record in another currency, and else returns the sum of the signed
  -- amounts of the records that pass every rule, at least 0, with each counter the number of
  -- records that stop at its rule.
  pub calculate_total-eq-expected_total :
      (rs : List SaleRecord) → calculate_total campaign rules rs ≡ expected_total campaign rules rs
  unfolding calculate_total
  calculate_total-eq-expected_total rs =
      let run =
        add_records-eq-expected_run rs (record { total = pos 0; stats = empty_stats rules }) in
      rw run (ground (arith, zero-+ℤ (sum_of (contribution campaign rules) rs)))

  expected_total-perm :
      {xs ys : List SaleRecord}
      → Permᴰ xs ys
      → expected_total campaign rules xs ≡ expected_total campaign rules ys
  expected_total-perm p =
      let mismatched = count_if-perm (is_mismatched campaign rules) p in
      cc (
        sum_of-perm (contribution campaign rules) p,
        mismatched,
        count_if-perm (counts campaign rules) p,
        count_if-perm (λ r. in_currency campaign rules r && is_excluded_cancelled campaign rules r)
            p,
        count_if-perm (λ r. is_kept campaign rules r && is_excluded_deleted campaign rules r) p,
        count_if-perm (λ r. is_accepted campaign rules r && is_excluded_unpaid campaign rules r) p,
        count_if-perm (λ r. is_live campaign rules r && is_excluded_return campaign rules r) p,
      )

  -- The order in which the database returns the records changes neither the total, nor a counter,
  -- nor whether the calculation fails.
  pub calculate_total-perm :
      {xs ys : List SaleRecord}
      → Permᴰ xs ys
      → calculate_total campaign rules xs ≡ calculate_total campaign rules ys
  calculate_total-perm {xs} {ys} p =
      calculate_total-eq-expected_total xs
      ∙ expected_total-perm p
      ∙ sym (calculate_total-eq-expected_total ys)

  outcomes_partition :
      (rs : List SaleRecord)
      → counted (stats_after campaign rules (empty_stats rules) rs) ≡ length rs
  outcomes_partition [] = refl
  outcomes_partition (r ∷ rs) = ground (arith, outcomes_partition rs)

  -- When the calculation succeeds, every record is in exactly one counter: the six counters add up
  -- to the number of records.
  pub calculate_total_counts_all :
      (rs : List SaleRecord) {total : ℕ} {stats : Stats}
      → calculate_total campaign rules rs ≡ ok (total, stats)
      → counted stats ≡ length rs
  calculate_total_counts_all rs h =
      ground (arith, outcomes_partition rs, calculate_total-eq-expected_total rs)

  pos_part-le : (a b : ℤ) → b ≤ℤ pos 0 → pos_part (b +ℤ a) ≤ pos_part a
  pos_part-le a b h = ground (arith, +ℤ_parts b a)

  -- Where both calculations return, one more return or refund never raises the total.
  pub calculate_total-return :
      (r : SaleRecord) (rs : List SaleRecord) {before after : ℕ} {s t : Stats}
      → is_return_or_refund r.document_kind ≡ true
      → calculate_total campaign rules rs ≡ ok (before, s)
      → calculate_total campaign rules (r ∷ rs) ≡ ok (after, t)
      → after ≤ before
  calculate_total-return r rs k h h' =
      let amount = amount_for_record r rules in
      let rest = sum_of (contribution campaign rules) rs in
      ground (
        arith,
        calculate_total-eq-expected_total rs,
        calculate_total-eq-expected_total (r ∷ rs),
        signed_amount-return r amount rules k,
        +ℤ_parts (signed_amount r amount rules) rest,
        zero-+ℤ rest,
        pos_part-le rest (contribution campaign rules r),
      )
