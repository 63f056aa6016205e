-- ===== src/Sync/Values.antt =====
-- What an ERP's texts stand for: `_valid_sale_values`, `_source_key`, `_external_updated_is_newer`.
use Prim.Native.String.{◌++◌}
use one_loyal.Prelude.{ℕ, String, Bool, true, false, Option, none, some, str_eq, ltb, if◌then◌else◌}
use one_loyal.Core.{Result, ok, err, validation}
use one_loyal.Core.Results.{◌>>=◌, ◌>>◌}
use one_loyal.Common.Text.{strip}
use one_loyal.Models.Sale.{SaleDocumentKind, PaymentStatus, SaleDocumentStatus}
use one_loyal.Models.Sync.{ErpSaleDto}
use one_loyal.Sales.Service.{validate_document_sign}

-- The values of the enumerations, read back from their texts
abbrev pub document_kind_of : String → Option SaleDocumentKind
document_kind_of text =
    if str_eq text "sale"
    then some SaleDocumentKind.sale
    else if str_eq text "return"
    then some SaleDocumentKind.return
    else if str_eq text "refund"
    then some SaleDocumentKind.refund
    else if str_eq text "adjustment"
    then some SaleDocumentKind.adjustment
    else if str_eq text "correction"
    then some SaleDocumentKind.correction
    else none

abbrev pub payment_status_of : String → Option PaymentStatus
payment_status_of text =
    if str_eq text "unknown"
    then some PaymentStatus.unknown
    else if str_eq text "unpaid"
    then some PaymentStatus.unpaid
    else if str_eq text "partial"
    then some PaymentStatus.partial
    else if str_eq text "paid"
    then some PaymentStatus.paid
    else if str_eq text "overpaid"
    then some PaymentStatus.overpaid
    else none

abbrev pub document_status_of : String → Option SaleDocumentStatus
document_status_of text =
    if str_eq text "draft"
    then some SaleDocumentStatus.draft
    else if str_eq text "posted"
    then some SaleDocumentStatus.posted
    else if str_eq text "cancelled"
    then some SaleDocumentStatus.cancelled
    else if str_eq text "deleted"
    then some SaleDocumentStatus.deleted
    else if str_eq text "unknown"
    then some SaleDocumentStatus.unknown
    else none

-- The three texts of a sale that name values
pub record SaleValues : Type 0 where
  pub kind : SaleDocumentKind
  pub payment : PaymentStatus
  pub status : SaleDocumentStatus

abbrev pub or_unsupported : {A : Type 0} → Option A → String → Result A
or_unsupported none message = err (validation message)
or_unsupported (some a) message = ok a

-- `_valid_sale_values`
unfoldable pub valid_sale_values : ErpSaleDto → Result SaleValues
valid_sale_values sale = do
  kind ← or_unsupported (document_kind_of sale.document_kind) "Unsupported sale document kind."
  payment ← or_unsupported (payment_status_of sale.payment_status) "Unsupported payment status."
  status ← or_unsupported (document_status_of sale.document_status) "Unsupported document status."
  validate_document_sign kind sale.amount_sign
  ok (record { kind = kind; payment = payment; status = status })

-- `f"{provider}:{external_id}"`
abbrev pub provider_key : String → ErpSaleDto → String
provider_key provider sale = provider ++ ":" ++ sale.external_id

abbrev pub given_key : Option String → String → String
given_key none default = default
given_key (some key) default = if str_eq key "" then default else strip key

-- `_source_key`: an empty key counts as none.
unfoldable pub source_key_of : String → ErpSaleDto → String
source_key_of provider sale = given_key sale.source_key (provider_key provider sale)

-- `_external_updated_is_newer`
abbrev pub is_newer : Option ℕ → Option ℕ → Bool
is_newer existing none = false
is_newer none (some new) = true
is_newer (some old) (some new) = ltb old new
