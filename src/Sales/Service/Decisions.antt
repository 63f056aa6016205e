-- ===== src/Sales/Service/Decisions.antt =====
-- The operations on sale records as decisions, read from the session.
use one_loyal.Prelude.{
  ℕ, suc, ◌&&◌, ◌≡◌, refl, Bool, not, inl, inr, String, Option, none, some, List, [], ◌∷◌, select,
  arith,
}
use one_loyal.Core.{Result, ok, err, Result-cases, conflict, integrity_error}
use one_loyal.Core.Results.{◌>>=◌, ◌>>◌, refuse_if}
use one_loyal.Common.Text.{strip}
use one_loyal.Models.Sale.{SaleRecord}
use one_loyal.Db.Exec.{Session}
use one_loyal.Db.Query.{scalar_one_or_none, put, is_null}
use one_loyal.Db.Keyed.{Scalar-cases}
use one_loyal.Progress.Service.Plan.{customer_in, get_customer_lem}
use one_loyal.Sales.Service.{
  SaleRecordCreateRequest, normalize_currency, validate_document_sign, violates_constraints,
  has_source_key, is_other, ensure_source_key_available, new_sale_record, overwritten,
  create_sale_record, update_existing, upsert_sale_record_by_source_key,
}

-- What both writes check of a request; the currency comes back normalized.
unfoldable pub checked : SaleRecordCreateRequest → Result String
checked request = do
  validate_document_sign request.document_kind request.amount_sign
  currency ← normalize_currency request.currency
  refuse_if (violates_constraints request) integrity_error
  ok currency

abbrev pub rows_of : ℕ → String → List SaleRecord → List SaleRecord
rows_of company_id source_key rows = select (has_source_key company_id source_key) rows

unfoldable pub available_in : ℕ → String → List SaleRecord → Result (Unit {0})
available_in company_id source_key rows = do
  found ←
      scalar_one_or_none
        (select (λ r. has_source_key company_id source_key r && is_other none r.id) rows)
  refuse_if (not (is_null found))
      (conflict "Sale record source_key already exists for this company.")

pub none_excluded :
    (p : SaleRecord → Bool) (rows : List SaleRecord)
    → select (λ r. p r && is_other none r.id) rows ≡ select p rows
none_excluded p [] = refl
none_excluded p (r ∷ rows) = ground (arith, none_excluded p rows)

available_lem :
    (company_id : ℕ) (source_key : String) (s : Session)
    → ensure_source_key_available company_id source_key none s
      ≡ (available_in company_id source_key s.sale_records, s)
unfolding ensure_source_key_available available_in
available_lem company_id source_key s = ground arith

module _ (company_id : ℕ) (request : SaleRecordCreateRequest) (s : Session) where
  abbrev pub key : String
  key = strip request.source_key

  -- A new row, and the session with it.
  abbrev pub added : Result SaleRecord → Result SaleRecord × Session
  added (ok r) = (ok r, record s { sale_records = r ∷ s.sale_records; next_id = suc s.next_id })
  added (err e) = (err e, s)

  unfoldable pub decide_create : Result SaleRecord
  decide_create = do
    customer_in company_id request.customer_id s.customers
    available_in company_id key s.sale_records
    currency ← checked request
    ok (new_sale_record s.next_id company_id key currency request)

  pub create_sale_record_decides : create_sale_record company_id request s ≡ added decide_create
  unfolding create_sale_record decide_create checked
  create_sale_record_decides =
      elim (Result-cases (customer_in company_id request.customer_id s.customers)) [
        | inl (c, h) ↦ ground (
          arith,
          get_customer_lem company_id request.customer_id s,
          available_lem company_id key s,
          h,
        )
        | inr (e, h) ↦ ground (arith, get_customer_lem company_id request.customer_id s, h)
      ]

  abbrev pub replaced : Result SaleRecord → Result SaleRecord × Session
  replaced (ok r) = (ok r, record s { sale_records = put (λ x. x.id) r s.sale_records })
  replaced (err e) = (err e, s)

  unfoldable pub decide_update : SaleRecord → Result SaleRecord
  decide_update existing = do
    customer_in company_id request.customer_id s.customers
    currency ← checked request
    ok (overwritten currency request existing)

  pub update_existing_decides :
      (existing : SaleRecord)
      → update_existing company_id request existing s ≡ replaced (decide_update existing)
  unfolding update_existing decide_update checked
  update_existing_decides existing =
      elim (Result-cases (customer_in company_id request.customer_id s.customers)) [
        | inl (c, h) ↦ ground (arith, get_customer_lem company_id request.customer_id s, h)
        | inr (e, h) ↦ ground (arith, get_customer_lem company_id request.customer_id s, h)
      ]

  abbrev pub upserted : Result (Option SaleRecord) → Result SaleRecord × Session
  upserted (ok none) = added decide_create
  upserted (ok (some existing)) = replaced (decide_update existing)
  upserted (err e) = (err e, s)

  pub upsert_decides :
      upsert_sale_record_by_source_key company_id request s
      ≡ upserted (scalar_one_or_none (rows_of company_id key s.sale_records))
  unfolding upsert_sale_record_by_source_key
  upsert_decides =
      elim (Scalar-cases (scalar_one_or_none (rows_of company_id key s.sale_records))) [
        | inl h ↦ rw (h, create_sale_record_decides) refl
        | inr (inl (c, h)) ↦ rw (h, update_existing_decides c) refl
        | inr (inr (e, h)) ↦ rw h refl
      ]
