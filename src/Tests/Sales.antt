-- ===== src/Tests/Sales.antt =====
-- Runs of the sales service.
use one_loyal.Prelude.{◌≡◌, refl, none, [], ◌∷◌, arith}
use one_loyal.Prelude.Int.{pos, negsuc}
use one_loyal.Core.{ok}
use one_loyal.Models.Customer.{ExternalProvider}
use one_loyal.Models.Sale.{SaleSourceType, SaleDocumentKind, PaymentStatus, SaleDocumentStatus}
use one_loyal.Sales.Service.{
  SaleRecordCreateRequest, upsert_sale_record_by_source_key, normalize_currency,
}
use one_loyal.Sales.Service.Sound.{IsSoundRecord}
use one_loyal.Sales.Service.Table.{IsSalesTable, create, upsert, run, run-IsSalesTable}
use one_loyal.Sales.Service.Ledger.{IsPosted, accepted, upsert_refines_ledger}
use one_loyal.Tests.World.{purchase, start}

abbrev order : SaleRecordCreateRequest
order = record {
  customer_id = 10;
  source_type = SaleSourceType.manual;
  source_key = " 1c ";
  provider = ExternalProvider.manual;
  document_kind = SaleDocumentKind.sale;
  erp_document_type = none;
  external_document_id = none;
  external_document_number = none;
  external_updated_at = none;
  document_date = 151;
  effective_date = 151;
  gross_amount_minor = pos 700;
  net_amount_minor = none;
  vat_amount_minor = none;
  discount_amount_minor = none;
  paid_amount_minor = none;
  debt_amount_minor = none;
  amount_sign = pos 1;
  currency = "usd";
  currency_scale = pos 2;
  payment_status = PaymentStatus.paid;
  document_status = SaleDocumentStatus.posted;
  source_customer_external_id = none;
  raw_payload_json = none;
}

abbrev refund : SaleRecordCreateRequest
refund = record order {
  source_key = "2c";
  document_kind = SaleDocumentKind.refund;
  amount_sign = negsuc 0;
}

normalize_currency_runs : normalize_currency " usd" ≡ ok "USD"
unfolding normalize_currency native.Mathlib.Decide.dec_lt
normalize_currency_runs = refl

pub purchase-IsSoundRecord : IsSoundRecord purchase
purchase-IsSoundRecord = (
  record {
    returns = λ h. ground (arith, h);
    sales = λ h. refl;
    signed = ground arith;
    amount = refl;
    letters = (refl, refl);
  },
  refl,
)

start-IsSalesTable : IsSalesTable start
start-IsSalesTable = record {
  keyed = (omega arith, tt);
  unique = λ company_id source_key. ground arith;
  sound = (purchase-IsSoundRecord, tt);
}

run-IsSalesTable_example : IsSalesTable (run (upsert 1 order ∷ create 1 refund ∷ []) start)
run-IsSalesTable_example =
    run-IsSalesTable (upsert 1 order ∷ create 1 refund ∷ []) start start-IsSalesTable

upsert_refines_ledger_example :
    IsPosted 1 order start (accepted 1 order start) (upsert_sale_record_by_source_key 1 order start)
upsert_refines_ledger_example = upsert_refines_ledger 1 order start start-IsSalesTable
