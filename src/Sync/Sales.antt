-- ===== src/Sync/Sales.antt =====
-- `_upsert_sale_record`: the sale record under a source key.
pub mod Laws
pub mod Table
use one_loyal.Prelude.{
  ℕ, ◌==◌, ◌&&◌, ◌||◌, String, Bool, true, false, not, Option, none, some, List, [], ◌∷◌, ◌++◌,
  select, str_eq, ltb, if◌then◌else◌,
}
use one_loyal.Prelude.Int.{ℤ}
use one_loyal.Core.{Error, Result, ok, err, validation, not_found}
use one_loyal.Core.Results.{refuse_if}
use one_loyal.Common.Text.{strip, lowered}
use one_loyal.Common.JsonEquality.{eq_text, fields_eq}
use one_loyal.Models.Customer.{Customer, CustomerStatus, CustomerExternalRef}
use one_loyal.Models.Sale.{
  SaleRecord, SaleSourceType, SaleDocumentKind, PaymentStatus, SaleDocumentStatus,
}
use one_loyal.Models.Sync.{Integration, ErpCustomerDto, ErpSaleDto}
use one_loyal.Db.Exec.{
  Session, Exec, pure, lift, gets, raise_if, or_raise, modify, utc_now, fresh_id, ◌>>=◌, ◌>>◌,
}
use one_loyal.Db.Query.{scalar_one_or_none, put, is_null}
use one_loyal.Events.{time_or}
use one_loyal.Sales.Service.{validate_document_sign, has_source_key}
use one_loyal.Sync.Values.{SaleValues, valid_sale_values, source_key_of, is_newer}
use one_loyal.Sync.Customers.{find_ref}

-- `_external_ref_for_sale`
unfoldable pub external_ref_for_sale : ℕ → String → String → Exec CustomerExternalRef
external_ref_for_sale company_id provider customer_external_id = do
  found ← find_ref company_id provider customer_external_id
  or_raise found (not_found "Sale customer external reference was not found.")

-- The values that a sale has in the table, both for a new row and for an update.
unfoldable pub sale_update_values :
    Integration → ErpSaleDto → SaleValues → ℕ → String → ℕ → SaleRecord → SaleRecord
sale_update_values integration sale values customer_id source_key synced_at row = record row {
  customer_id = customer_id;
  integration_id = some integration.id;
  source_type = SaleSourceType.erp;
  source_key = source_key;
  provider = integration.provider;
  erp_document_type = sale.erp_document_type;
  document_kind = values.kind;
  external_document_id = some sale.external_id;
  external_document_number = sale.external_document_number;
  external_updated_at = sale.external_updated_at;
  document_date = sale.document_date;
  effective_date = sale.effective_date;
  gross_amount_minor = sale.gross_amount_minor;
  net_amount_minor = sale.net_amount_minor;
  vat_amount_minor = sale.vat_amount_minor;
  discount_amount_minor = sale.discount_amount_minor;
  paid_amount_minor = sale.paid_amount_minor;
  debt_amount_minor = sale.debt_amount_minor;
  amount_sign = sale.amount_sign;
  currency = sale.currency;
  currency_scale = sale.currency_scale;
  payment_status = values.payment;
  document_status = values.status;
  is_deleted_in_source = sale.is_deleted_in_source;
  is_archived_in_source = sale.is_archived_in_source;
  source_customer_external_id = some sale.customer_external_id;
  raw_payload_json = sale.raw_payload;
  content_hash = sale.content_hash;
  synced_at = some synced_at;
}

unfoldable pub new_erp_sale :
    ℕ → ℕ → Integration → ErpSaleDto → SaleValues → ℕ → String → ℕ → SaleRecord
new_erp_sale id company_id integration sale values customer_id source_key now = record {
  id = id;
  company_id = company_id;
  customer_id = customer_id;
  integration_id = some integration.id;
  import_batch_id = none;
  source_type = SaleSourceType.erp;
  source_key = source_key;
  provider = integration.provider;
  erp_document_type = sale.erp_document_type;
  document_kind = values.kind;
  external_document_id = some sale.external_id;
  external_document_number = sale.external_document_number;
  external_updated_at = sale.external_updated_at;
  document_date = sale.document_date;
  effective_date = sale.effective_date;
  gross_amount_minor = sale.gross_amount_minor;
  net_amount_minor = sale.net_amount_minor;
  vat_amount_minor = sale.vat_amount_minor;
  discount_amount_minor = sale.discount_amount_minor;
  paid_amount_minor = sale.paid_amount_minor;
  debt_amount_minor = sale.debt_amount_minor;
  amount_sign = sale.amount_sign;
  currency = sale.currency;
  currency_scale = sale.currency_scale;
  payment_status = values.payment;
  document_status = values.status;
  is_deleted_in_source = sale.is_deleted_in_source;
  is_archived_in_source = sale.is_archived_in_source;
  source_customer_external_id = some sale.customer_external_id;
  raw_payload_json = sale.raw_payload;
  content_hash = sale.content_hash;
  synced_at = some now;
  deleted_at = none;
}

-- The dictionary that `_upsert_sale_record` returns; `skipped` is always false.
pub record SaleOutcome : Type 0 where
  pub created : Bool
  pub updated : Bool
  pub affected_customer_id : Option ℕ

unfoldable pub should_update : SaleRecord → ErpSaleDto → Bool
should_update existing sale =
    not (eq_text existing.content_hash sale.content_hash)
    || is_newer existing.external_updated_at sale.external_updated_at

abbrev pub save_sale : SaleRecord → Session → Session
save_sale r s = record s { sale_records = put (λ x. x.id) r s.sale_records }

module _ (company_id : ℕ) (integration : Integration) (sale : ErpSaleDto) where
  abbrev pub key : String
  key = source_key_of integration.provider sale

  abbrev pub add_sale : SaleValues → ℕ → Exec SaleOutcome
  add_sale values customer_id = do
    now ← utc_now
    new_id ← fresh_id
    let row = new_erp_sale new_id company_id integration sale values customer_id key now
    modify (λ s. record s { sale_records = row ∷ s.sale_records })
    pure (record { created = true; updated = false; affected_customer_id = some customer_id })

  abbrev pub touch_sale : SaleRecord → Exec SaleOutcome
  touch_sale existing = do
    now ← utc_now
    modify (save_sale (record existing { synced_at = some now }))
    pure (record { created = false; updated = false; affected_customer_id = none })

  abbrev pub overwrite_sale : SaleValues → ℕ → SaleRecord → Exec SaleOutcome
  overwrite_sale values customer_id existing = do
    now ← utc_now
    modify (save_sale (sale_update_values integration sale values customer_id key now existing))
    pure (record { created = false; updated = true; affected_customer_id = some customer_id })

  abbrev pub write_sale : SaleValues → ℕ → Option SaleRecord → Exec SaleOutcome
  write_sale values customer_id none = add_sale values customer_id
  write_sale values customer_id (some existing) =
      if should_update existing sale
      then overwrite_sale values customer_id existing
      else touch_sale existing

  unfoldable pub upsert_sale_record : Exec SaleOutcome
  unfolding external_ref_for_sale
  upsert_sale_record = do
    values ← lift (valid_sale_values sale)
    external_ref ← external_ref_for_sale company_id integration.provider sale.customer_external_id
    rows ← gets (λ s. select (has_source_key company_id key) s.sale_records)
    existing ← lift (scalar_one_or_none rows)
    write_sale values external_ref.customer_id existing
