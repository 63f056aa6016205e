-- ===== src/Models/Sale.antt =====
-- backend/app/modules/sales/models.py
use one_loyal.Prelude.{ℕ, String, Bool, true, false, Option}
use one_loyal.Common.Json.{Fields}
use one_loyal.Prelude.Int.{ℤ}

pub data SaleSourceType : Type 0 where
  erp csv manual : SaleSourceType

pub data SaleDocumentKind : Type 0 where
  sale return refund adjustment correction : SaleDocumentKind

pub data PaymentStatus : Type 0 where
  unknown unpaid partial paid overpaid : PaymentStatus

pub data SaleDocumentStatus : Type 0 where
  draft posted cancelled deleted unknown : SaleDocumentStatus

pub record SaleRecord : Type 0 where
  pub id : ℕ
  pub company_id : ℕ
  pub customer_id : ℕ
  pub integration_id : Option ℕ
  pub import_batch_id : Option ℕ
  pub source_type : SaleSourceType
  pub source_key : String
  pub provider : String
  pub erp_document_type : Option String
  pub document_kind : SaleDocumentKind
  pub external_document_id : Option String
  pub external_document_number : Option String
  pub external_updated_at : Option ℕ
  pub document_date : ℕ
  pub effective_date : ℕ
  pub gross_amount_minor : ℤ
  pub net_amount_minor : Option ℤ
  pub vat_amount_minor : Option ℤ
  pub discount_amount_minor : Option ℤ
  pub paid_amount_minor : Option ℤ
  pub debt_amount_minor : Option ℤ
  pub amount_sign : ℤ
  pub currency : String
  pub currency_scale : ℤ
  pub payment_status : PaymentStatus
  pub document_status : SaleDocumentStatus
  pub is_deleted_in_source : Bool
  pub is_archived_in_source : Bool
  pub source_customer_external_id : Option String
  pub raw_payload_json : Fields
  pub content_hash : Option String
  pub synced_at : Option ℕ
  pub deleted_at : Option ℕ

-- `kind in {RETURN, REFUND}`
abbrev pub is_return_or_refund : SaleDocumentKind → Bool
is_return_or_refund SaleDocumentKind.return = true
is_return_or_refund SaleDocumentKind.refund = true
is_return_or_refund _ = false

abbrev pub is_cancelled : SaleDocumentStatus → Bool
is_cancelled SaleDocumentStatus.cancelled = true
is_cancelled _ = false

abbrev pub is_deleted : SaleDocumentStatus → Bool
is_deleted SaleDocumentStatus.deleted = true
is_deleted _ = false

abbrev pub is_paid : PaymentStatus → Bool
is_paid PaymentStatus.paid = true
is_paid _ = false
