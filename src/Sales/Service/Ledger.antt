-- ===== src/Sales/Service/Ledger.antt =====
-- The table of sale records as what it promises: for each company and source key, one document.
use one_loyal.Prelude.{
  if◌then◌else◌, length-select, ◌∙◌, ℕ, ◌==◌, ◌&&◌, ◌≡◌, refl, true, false, inl, inr, String,
  Option, none, some, List, [], ◌∷◌, select, str_eq, eq_iff, arith, Bool-cases,
}
use one_loyal.Core.{Result, ok, err, Result-cases}
use one_loyal.Core.Results.{◌>>=◌}
use one_loyal.Common.Text.{strip}
use one_loyal.Models.Sale.{SaleRecord}
use one_loyal.Db.Exec.{Session}
use one_loyal.Db.Query.{scalar_one_or_none, put}
use one_loyal.Db.Keyed.{found_row, Scalar-cases, select-put, select-put_unseen, scalar-err}
use one_loyal.Progress.Service.Plan.{customer_in}
use one_loyal.Sales.Service.{
  SaleRecordCreateRequest, has_source_key, new_sale_record, overwritten,
  upsert_sale_record_by_source_key,
}
use one_loyal.Sales.Service.Decisions.{
  checked, none_excluded, rows_of, available_in, added, decide_create, replaced, decide_update,
  upsert_decides,
}
use one_loyal.Sales.Service.Table.{IsSalesTable}

-- The columns that a request does not state are forgotten.
abbrev pub forget : SaleRecord → SaleRecord
forget r = record r {
  id = 0;
  integration_id = none;
  import_batch_id = none;
  is_archived_in_source = false;
  content_hash = none;
  synced_at = none;
  deleted_at = none;
}

abbrev pub Ledger : Type 0
Ledger = ℕ → String → Option SaleRecord

abbrev pub first_document : List SaleRecord → Option SaleRecord
first_document [] = none
first_document (r ∷ rows) = some (forget r)

-- What a session promises: order, keys and bookkeeping are forgotten.
abbrev pub ledger : Session → Ledger
ledger s company_id source_key = first_document (rows_of company_id source_key s.sale_records)

abbrev pub recorded : Ledger → ℕ → String → SaleRecord → Ledger
recorded l company_id source_key document other other_key =
    if company_id == other && str_eq source_key other_key then some document else l other other_key

abbrev pub accepted : ℕ → SaleRecordCreateRequest → Session → Result String
accepted company_id request s =
    customer_in company_id request.customer_id s.customers >>= λ _. checked request

-- The promise of an upsert: an accepted document is the one under its key, and nothing else moves.
abbrev pub posted : ℕ → SaleRecordCreateRequest → Result String → Ledger → Ledger
posted company_id request (ok currency) l =
    recorded l company_id (strip request.source_key)
      (new_sale_record 0 company_id (strip request.source_key) currency request)
posted company_id request (err e) l = l

abbrev pub outcome : {A : Type 0} → Result A → Result (Unit {0})
outcome (ok a) = ok tt
outcome (err e) = err e

module _ (company_id : ℕ) (request : SaleRecordCreateRequest) (s : Session) where
  abbrev pub source : String
  source = strip request.source_key

  abbrev rows : List SaleRecord
  rows = rows_of company_id source s.sale_records

  -- An upsert as its promise.
  abbrev pub IsPosted : Result String → Result SaleRecord × Session → Type 0
  IsPosted a step =
      (outcome step.0 ≡ outcome a)
      × ((other : ℕ) (other_key : String)
          → ledger step.1 other other_key ≡ posted company_id request a (ledger s) other other_key)

  available :
      scalar_one_or_none rows ≡ ok none → available_in company_id source s.sale_records ≡ ok tt
  unfolding available_in
  available h = rw (none_excluded (has_source_key company_id source) s.sale_records, h) refl

  abbrev created : Result String → Result SaleRecord
  created a = a >>= λ currency. ok (new_sale_record s.next_id company_id source currency request)

  create_accepts :
      scalar_one_or_none rows ≡ ok none
      → decide_create company_id request s ≡ created (accepted company_id request s)
  unfolding decide_create
  create_accepts h = elim (Result-cases (customer_in company_id request.customer_id s.customers)) [
    | inl (c, found) ↦ ground (arith, available h, found)
    | inr (e, found) ↦ ground (arith, found)
  ]

  abbrev changed : SaleRecord → Result String → Result SaleRecord
  changed existing a = a >>= λ currency. ok (overwritten currency request existing)

  update_accepts :
      (existing : SaleRecord)
      → decide_update company_id request s existing
        ≡ changed existing (accepted company_id request s)
  unfolding decide_update
  update_accepts existing =
      elim (Result-cases (customer_in company_id request.customer_id s.customers)) [
        | inl (c, found) ↦ ground (arith, found)
        | inr (e, found) ↦ ground (arith, found)
      ]

  create-IsPosted :
      scalar_one_or_none rows ≡ ok none
      → (a : Result String) → IsPosted a (added company_id request s (created a))
  unfolding new_sale_record
  create-IsPosted h (ok currency) = (
    refl,
    λ other other_key. elim (Bool-cases (company_id == other && str_eq source other_key)) [
      | inl same ↦ rw same refl
      | inr differs ↦ rw differs refl
    ],
  )
  create-IsPosted h (err x) = (refl, λ other other_key. refl)

  overwritten_document :
      (existing : SaleRecord) (currency : String)
      → has_source_key company_id source existing ≡ true
      → forget (overwritten currency request existing)
        ≡ new_sale_record 0 company_id source currency request
  unfolding overwritten new_sale_record
  overwritten_document existing currency h =
      let e : (existing.company_id ≡ company_id) × (existing.source_key ≡ source) =
        ground (arith, eq_iff existing.source_key source, h) in
      rw (e.0, e.1) refl

  overwritten_key :
      (existing : SaleRecord) (currency : String) (other : ℕ) (other_key : String)
      → has_source_key other other_key (overwritten currency request existing)
        ≡ has_source_key other other_key existing
  unfolding overwritten
  overwritten_key existing currency other other_key = refl

  key_of_row :
      (existing : SaleRecord) (other : ℕ) (other_key : String)
      → has_source_key company_id source existing ≡ true
      → has_source_key other other_key existing ≡ (company_id == other && str_eq source other_key)
  key_of_row existing other other_key h =
      let e : (existing.company_id ≡ company_id) × (existing.source_key ≡ source) =
        ground (arith, eq_iff existing.source_key source, h) in
      rw (e.0, e.1) refl

  update-IsPosted :
      (existing : SaleRecord)
      → IsSalesTable s
      → scalar_one_or_none rows ≡ ok (some existing)
      → (a : Result String) → IsPosted a (replaced company_id request s (changed existing a))
  unfolding overwritten
  update-IsPosted existing v h (err x) = (refl, λ other other_key. refl)
  update-IsPosted existing v h (ok currency) =
      let there = found_row (has_source_key company_id source) s.sale_records existing h in
      let new : SaleRecord = overwritten currency request existing in
      (
        refl,
        λ other other_key.
            let p = has_source_key other other_key in
            let kept = overwritten_key existing currency other other_key in
            let own = key_of_row existing other other_key there.1 in
            elim (Bool-cases (company_id == other && str_eq source other_key)) [
              | inl same ↦
                  let e : (company_id ≡ other) × (source ≡ other_key) =
                    ground (arith, eq_iff source other_key, same) in
                  let one : select p (put (λ x. x.id) new s.sale_records) ≡ new ∷ [] =
                    select-put (λ x. x.id) p s.next_id existing new s.sale_records v.keyed
                      (rw (← e.0, ← e.1) h) refl (kept ∙ own ∙ same) in
                  rw (same, one) (rw (overwritten_document existing currency there.1) refl)
              | inr differs ↦
                  let none_seen : select p (put (λ x. x.id) new s.sale_records)
                      ≡ select p s.sale_records =
                    select-put_unseen (λ x. x.id) p s.next_id existing new s.sale_records v.keyed
                      there.0 refl (own ∙ differs) (kept ∙ own ∙ differs) in
                  rw (differs, none_seen) refl
            ],
      )

-- The promise that an upsert implements: for each company and source key one document, what the
-- last accepted upsert under it states. In a table that keeps its invariant an upsert answers as
-- the checks of the request do, an accepted one puts the request's document under its key and
-- leaves every other key's, and a refused one leaves all.
pub upsert_refines_ledger :
    (company_id : ℕ) (request : SaleRecordCreateRequest) (s : Session)
    → IsSalesTable s
    → IsPosted company_id request s
        (accepted company_id request s)
        (upsert_sale_record_by_source_key company_id request s)
upsert_refines_ledger company_id request s v =
    let a = accepted company_id request s in
    let p = has_source_key company_id (strip request.source_key) in
    rw (upsert_decides company_id request s)
      (elim (Scalar-cases (scalar_one_or_none (select p s.sale_records))) [
        | inl h ↦
            rw (h, create_accepts company_id request s h) (create-IsPosted company_id request s h a)
        | inr (inl (c, h)) ↦
            rw (h, update_accepts company_id request s c)
              (update-IsPosted company_id request s c v h a)
        | inr (inr (e, h)) ↦ absurd (
            omega (
              arith,
              scalar-err (select p s.sale_records) e h,
              length-select p s.sale_records,
              v.unique company_id (strip request.source_key),
            ))
      ])
