-- ===== src/Sales/Service.antt =====
-- `SaleRecordService`. The lookup of a customer is the query of the progress service, word for word.
pub mod Decisions
pub mod Sound
pub mod Table
pub mod Ledger
use one_loyal.Prelude.{
  ℕ, zero, suc, ◌==◌, ◌&&◌, ◌||◌, String, Bool, true, false, not, Option, none, some, List, ◌∷◌,
  select, str_eq, if◌then◌else◌,
}
use one_loyal.Prelude.Int.{ℤ, pos, negsuc}
use one_loyal.Core.{Error, Result, ok, err, validation, conflict, not_found, integrity_error}
use one_loyal.Core.Results.{refuse_if}
use one_loyal.Common.Json.{Fields}
use one_loyal.Common.Text.{strip, upper, len, isalpha}
use one_loyal.Models.Customer.{ExternalProvider, provider_value}
use one_loyal.Models.Sale.{
  SaleRecord, SaleSourceType, SaleDocumentKind, PaymentStatus, SaleDocumentStatus,
  is_return_or_refund, is_deleted,
}
use one_loyal.Db.Exec.{
  Session, Exec, pure, lift, gets, raise_if, or_raise, modify, fresh_id, ◌>>=◌, ◌>>◌,
}
use one_loyal.Db.Query.{scalar_one_or_none, put, is_null}
use one_loyal.Events.{payload_or_empty}
use one_loyal.Progress.Service.{get_customer}

pub record SaleRecordCreateRequest : Type 0 where
  pub customer_id : ℕ
  pub source_type : SaleSourceType
  pub source_key : String
  pub provider : ExternalProvider
  pub document_kind : SaleDocumentKind
  pub erp_document_type : Option String
  pub external_document_id : Option String
  pub external_document_number : Option String
  pub external_updated_at : Option ℕ
  pub document_date : ℕ
  pub effective_date : ℕ
  pub gross_amount_minor : ℤ
  pub net_amount_minor : Option ℤ
  pub vat_amount_minor : Option ℤ
  pub discount_amount_minor : Option ℤ
  pub paid_amount_minor : Option ℤ
  pub debt_amount_minor : Option ℤ
  pub amount_sign : ℤ
  pub currency : String
  pub currency_scale : ℤ
  pub payment_status : PaymentStatus
  pub document_status : SaleDocumentStatus
  pub source_customer_external_id : Option String
  pub raw_payload_json : Option Fields

unfoldable pub normalize_currency : String → Result String
normalize_currency value =
    let normalized = upper (strip value) in
    if not (len normalized == 3) || not (isalpha normalized)
    then err (validation "Currency must be a 3-letter ISO currency code.")
    else ok normalized

abbrev pub is_sale : SaleDocumentKind → Bool
is_sale SaleDocumentKind.sale = true
is_sale _ = false

abbrev pub is_plus_one : ℤ → Bool
is_plus_one (pos n) = n == 1
is_plus_one (negsuc n) = false

abbrev pub is_minus_one : ℤ → Bool
is_minus_one (pos n) = false
is_minus_one (negsuc n) = n == 0

unfoldable pub validate_document_sign : SaleDocumentKind → ℤ → Result (Unit {0})
validate_document_sign kind sign =
    if is_return_or_refund kind && not (is_minus_one sign)
    then err (validation "Returns and refunds must use amount_sign -1.")
    else if is_sale kind && not (is_plus_one sign)
    then err (validation "Sale documents must use amount_sign 1.")
    else ok tt

abbrev pub is_negative : ℤ → Bool
is_negative (pos n) = false
is_negative (negsuc n) = true

-- The check constraints of the table, which the flush of a row with these columns meets.
unfoldable pub violates_constraints : SaleRecordCreateRequest → Bool
violates_constraints row =
    is_negative row.gross_amount_minor
    || not (is_plus_one row.amount_sign || is_minus_one row.amount_sign)
    || is_negative row.currency_scale

abbrev pub has_source_key : ℕ → String → SaleRecord → Bool
has_source_key company_id source_key r =
    r.company_id == company_id && str_eq r.source_key source_key

abbrev pub is_other : Option ℕ → ℕ → Bool
is_other none id = true
is_other (some excluded) id = not (id == excluded)

unfoldable pub ensure_source_key_available : ℕ → String → Option ℕ → Exec (Unit {0})
ensure_source_key_available company_id source_key exclude_record_id = do
  rows ← gets (λ s.
      select (λ r. has_source_key company_id source_key r && is_other exclude_record_id r.id)
        s.sale_records)
  found ← lift (scalar_one_or_none rows)
  raise_if (not (is_null found))
      (conflict "Sale record source_key already exists for this company.")

unfoldable pub new_sale_record : ℕ → ℕ → String → String → SaleRecordCreateRequest → SaleRecord
new_sale_record id company_id source_key currency request = record {
  id = id;
  company_id = company_id;
  customer_id = request.customer_id;
  integration_id = none;
  import_batch_id = none;
  source_type = request.source_type;
  source_key = source_key;
  provider = provider_value request.provider;
  erp_document_type = request.erp_document_type;
  document_kind = request.document_kind;
  external_document_id = request.external_document_id;
  external_document_number = request.external_document_number;
  external_updated_at = request.external_updated_at;
  document_date = request.document_date;
  effective_date = request.effective_date;
  gross_amount_minor = request.gross_amount_minor;
  net_amount_minor = request.net_amount_minor;
  vat_amount_minor = request.vat_amount_minor;
  discount_amount_minor = request.discount_amount_minor;
  paid_amount_minor = request.paid_amount_minor;
  debt_amount_minor = request.debt_amount_minor;
  amount_sign = request.amount_sign;
  currency = currency;
  currency_scale = request.currency_scale;
  payment_status = request.payment_status;
  document_status = request.document_status;
  is_deleted_in_source = is_deleted request.document_status;
  is_archived_in_source = false;
  source_customer_external_id = request.source_customer_external_id;
  raw_payload_json = payload_or_empty request.raw_payload_json;
  content_hash = none;
  synced_at = none;
  deleted_at = none;
}

-- The fields that an upsert sets on the row it finds.
unfoldable pub overwritten : String → SaleRecordCreateRequest → SaleRecord → SaleRecord
overwritten currency request existing = record existing {
  customer_id = request.customer_id;
  source_type = request.source_type;
  provider = provider_value request.provider;
  erp_document_type = request.erp_document_type;
  document_kind = request.document_kind;
  external_document_id = request.external_document_id;
  external_document_number = request.external_document_number;
  external_updated_at = request.external_updated_at;
  document_date = request.document_date;
  effective_date = request.effective_date;
  gross_amount_minor = request.gross_amount_minor;
  net_amount_minor = request.net_amount_minor;
  vat_amount_minor = request.vat_amount_minor;
  discount_amount_minor = request.discount_amount_minor;
  paid_amount_minor = request.paid_amount_minor;
  debt_amount_minor = request.debt_amount_minor;
  amount_sign = request.amount_sign;
  currency = currency;
  currency_scale = request.currency_scale;
  payment_status = request.payment_status;
  document_status = request.document_status;
  is_deleted_in_source = is_deleted request.document_status;
  source_customer_external_id = request.source_customer_external_id;
  raw_payload_json = payload_or_empty request.raw_payload_json;
}

unfoldable pub create_sale_record : ℕ → SaleRecordCreateRequest → Exec SaleRecord
create_sale_record company_id request = do
  get_customer company_id request.customer_id
  ensure_source_key_available company_id (strip request.source_key) none
  lift (validate_document_sign request.document_kind request.amount_sign)
  currency ← lift (normalize_currency request.currency)
  raise_if (violates_constraints request) integrity_error
  new_id ← fresh_id
  let sale_record = new_sale_record new_id company_id (strip request.source_key) currency request
  modify (λ s. record s { sale_records = sale_record ∷ s.sale_records })
  pure sale_record

-- What the assignments before an error have changed in memory is not flushed, and is left out.
unfoldable pub update_existing : ℕ → SaleRecordCreateRequest → SaleRecord → Exec SaleRecord
update_existing company_id request existing = do
  get_customer company_id request.customer_id
  lift (validate_document_sign request.document_kind request.amount_sign)
  currency ← lift (normalize_currency request.currency)
  let changed = overwritten currency request existing
  raise_if (violates_constraints request) integrity_error
  modify (λ s. record s { sale_records = put (λ r. r.id) changed s.sale_records })
  pure changed

abbrev pub create_or_update : ℕ → SaleRecordCreateRequest → Option SaleRecord → Exec SaleRecord
create_or_update company_id request none = create_sale_record company_id request
create_or_update company_id request (some existing) = update_existing company_id request existing

unfoldable pub upsert_sale_record_by_source_key : ℕ → SaleRecordCreateRequest → Exec SaleRecord
upsert_sale_record_by_source_key company_id request = do
  rows ← gets (λ s. select (has_source_key company_id (strip request.source_key)) s.sale_records)
  existing ← lift (scalar_one_or_none rows)
  create_or_update company_id request existing

unfoldable pub get_sale_record : ℕ → ℕ → Exec SaleRecord
get_sale_record company_id sale_record_id = do
  rows ← gets (λ s.
      select (λ r. r.id == sale_record_id && r.company_id == company_id && is_null r.deleted_at)
        s.sale_records)
  found ← lift (scalar_one_or_none rows)
  or_raise found (not_found "Sale record not found.")
