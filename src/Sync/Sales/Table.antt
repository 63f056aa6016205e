-- ===== src/Sync/Sales/Table.antt =====
-- The table of sale records under all its writers: the service of sales and the sync.
use one_loyal.Prelude.{
  ℕ, ◌≡◌, refl, true, inl, inr, Option, none, some, List, [], ◌∷◌, All, arith, Bool-cases,
}
use one_loyal.Prelude.Int.{pos, negsuc}
use one_loyal.Core.{Result, ok, err}
use one_loyal.Core.Results.{returned, ok_injective}
use one_loyal.Models.Sale.{SaleRecord, is_return_or_refund}
use one_loyal.Models.Sync.{Integration, ErpSaleDto}
use one_loyal.Db.Exec.{Session}
use one_loyal.Db.Query.{scalar_one_or_none}
use one_loyal.Db.Keyed.{found_row, All-Has, All-put}
use one_loyal.Sales.Service.{
  SaleRecordCreateRequest, is_sale, has_source_key, validate_document_sign, create_sale_record,
  upsert_sale_record_by_source_key,
}
use one_loyal.Sales.Service.Sound.{IsSoundRecord, sign_of_kind}
use one_loyal.Sales.Service.Table.{IsTableOf, create_sale_record-IsSalesTable, upsert-IsSalesTable}
use one_loyal.Sync.Values.{
  SaleValues, valid_sale_values, or_unsupported, document_kind_of, payment_status_of,
  document_status_of,
}
use one_loyal.Sync.Sales.{
  should_update, sale_update_values, new_erp_sale, write_sale, upsert_sale_record, key,
}
use one_loyal.Sync.Sales.Laws.{
  Found, rows, decide_sale, written, upsert_decides, IsDecided, decide_sale-IsDecided, IsSaleTable,
  upsert_sale_record-IsSaleTable,
}

-- The sign agrees with the kind; a document of no integration has passed all the checks of the
-- service.
pub record IsSignedSale (r : SaleRecord) : Type 0 where
  pub returns : is_return_or_refund r.document_kind ≡ true → r.amount_sign ≡ negsuc 0
  pub sales : is_sale r.document_kind ≡ true → r.amount_sign ≡ pos 1
  pub own : r.integration_id ≡ none → IsSoundRecord r

sound-IsSignedSale : (r : SaleRecord) → IsSoundRecord r → IsSignedSale r
sound-IsSignedSale r h = record { returns = h.0.returns; sales = h.0.sales; own = λ e. h }

checked_sign :
    (sale : ErpSaleDto) (values : SaleValues)
    → valid_sale_values sale ≡ ok values
    → (is_return_or_refund values.kind ≡ true → sale.amount_sign ≡ negsuc 0)
      × (is_sale values.kind ≡ true → sale.amount_sign ≡ pos 1)
unfolding valid_sale_values
checked_sign sale values h =
    let (kind, _, h1) =
      returned (or_unsupported (document_kind_of sale.document_kind) _) _ values h in
    let (payment, _, h2) =
      returned (or_unsupported (payment_status_of sale.payment_status) _) _ values h1 in
    let (status, _, h3) =
      returned (or_unsupported (document_status_of sale.document_status) _) _ values h2 in
    let (u, signs, h4) = returned (validate_document_sign kind sale.amount_sign) _ values h3 in
    let same = ok_injective _ values h4 in rw (← same) (sign_of_kind kind sale.amount_sign u signs)

module _ (company_id : ℕ) (integration : Integration) (sale : ErpSaleDto) (s : Session)
    (v : All IsSignedSale s.sale_records) where
  write_sale-All :
      (values : SaleValues) (customer_id : ℕ) (existing : Option SaleRecord)
      → valid_sale_values sale ≡ ok values
      → scalar_one_or_none (rows company_id integration sale s.sale_records) ≡ ok existing
      → All IsSignedSale
          (write_sale company_id integration sale values customer_id existing s).1.sale_records
  unfolding new_erp_sale sale_update_values
  write_sale-All values customer_id none h found =
      let signs = checked_sign sale values h in
      (record { returns = signs.0; sales = signs.1; own = λ e. absurd (ground (arith, e)) }, v)
  write_sale-All values customer_id (some existing) h found =
      let signs = checked_sign sale values h in
      let there =
        (found_row (has_source_key company_id (key company_id integration sale)) s.sale_records
          existing found).0 in
      let old = All-Has IsSignedSale existing s.sale_records v there in
      elim (Bool-cases (should_update existing sale)) [
        | inl stale ↦ rw stale (
            All-put IsSignedSale (λ x. x.id) _ s.sale_records v
              (record {
                returns = signs.0;
                sales = signs.1;
                own = λ e. absurd (ground (arith, e));
              }))
        | inr current ↦ rw current (
            All-put IsSignedSale (λ x. x.id) _ s.sale_records v
              (record { returns = old.returns; sales = old.sales; own = old.own }))
      ]

  written-All :
      (d : Result (Found company_id integration sale))
      → ((f : Found company_id integration sale)
          → d ≡ ok f
          → IsDecided company_id integration sale s f)
      → All IsSignedSale (written company_id integration sale s d).1.sale_records
  written-All (ok f) decided =
      let is_decided = decided f refl in
      write_sale-All f.values f.customer_id f.existing is_decided.checked is_decided.row_found
  written-All (err e) decided = v

pub upsert_sale_record-IsTableOf :
    (company_id : ℕ) (integration : Integration) (sale : ErpSaleDto) (s : Session)
    → IsTableOf IsSignedSale s
    → IsTableOf IsSignedSale (upsert_sale_record company_id integration sale s).1
upsert_sale_record-IsTableOf company_id integration sale s v =
    let before : IsSaleTable s = record { keyed = v.keyed; unique = v.unique } in
    let t = upsert_sale_record-IsSaleTable company_id integration sale s before in
    record {
      keyed = t.keyed;
      unique = t.unique;
      sound = rw (upsert_decides company_id integration sale s) (
          written-All company_id integration sale s v.sound
            (decide_sale company_id integration sale s)
            (decide_sale-IsDecided company_id integration sale s));
    }

-- A call that writes sale records: by hand, or by a sync.
pub data SaleWrite : Type 0 where
  create upsert : ℕ → SaleRecordCreateRequest → SaleWrite
  sync : ℕ → Integration → ErpSaleDto → SaleWrite

abbrev pub after : SaleWrite → Session → Session
after (create company_id request) s = (create_sale_record company_id request s).1
after (upsert company_id request) s = (upsert_sale_record_by_source_key company_id request s).1
after (sync company_id integration sale) s = (upsert_sale_record company_id integration sale s).1

abbrev pub run_writes : List SaleWrite → Session → Session
run_writes [] s = s
run_writes (call ∷ calls) s = run_writes calls (after call s)

after-IsTableOf :
    (call : SaleWrite) (s : Session)
    → IsTableOf IsSignedSale s
    → IsTableOf IsSignedSale (after call s)
after-IsTableOf (create company_id request) s v =
    create_sale_record-IsSalesTable IsSignedSale sound-IsSignedSale company_id request s v
after-IsTableOf (upsert company_id request) s v =
    upsert-IsSalesTable IsSignedSale sound-IsSignedSale company_id request s v
after-IsTableOf (sync company_id integration sale) s v =
    upsert_sale_record-IsTableOf company_id integration sale s v

-- Whatever the service of sales and the sync write one after another, documents that either refuses
-- among them, the table of sale records keeps this: its primary keys differ, no company has two
-- records of one source key, returns and refunds have the sign -1 and sales the sign 1, and a record
-- without an integration satisfies all that the service checks: its gross amount is not negative,
-- its currency has three letters, and its deletion flag agrees with its status.
pub run_writes-IsTableOf :
    (calls : List SaleWrite) (s : Session)
    → IsTableOf IsSignedSale s
    → IsTableOf IsSignedSale (run_writes calls s)
run_writes-IsTableOf [] s v = v
run_writes-IsTableOf (call ∷ calls) s v =
    run_writes-IsTableOf calls (after call s) (after-IsTableOf call s v)
