-- ===== src/Sync/Sales/Laws.antt =====
-- What a sale of the provider becomes: one row under its key, and nothing the second time.
use one_loyal.Prelude.{
  ◌≡◌, ◌≤◌, refl, inl, inr, arith, Bool-cases, count_if, bit, eq_iff, ◌∙◌, ap, ℕ, ◌==◌, ◌&&◌,
  String, true, false, Option, none, some, List, [], ◌∷◌, select, str_eq,
}
use one_loyal.Core.{Result, ok, err, Result-cases, not_found}
use one_loyal.Core.Results.{◌>>=◌, returned, ok_injective, required_row}
use one_loyal.Common.JsonEquality.{eq_text}
use one_loyal.Models.Customer.{CustomerExternalRef}
use one_loyal.Models.Sale.{SaleRecord}
use one_loyal.Models.Sync.{Integration, ErpSaleDto}
use one_loyal.Db.Exec.{Session}
use one_loyal.Db.Query.{scalar_one_or_none}
use one_loyal.Db.Keyed.{
  IsKeyed, Has, found_row, no_row, scalar-none, select-put, put-IsKeyed, count_if-put,
}
use one_loyal.Sales.Service.{has_source_key}
use one_loyal.Sync.Values.{SaleValues, valid_sale_values, is_newer}
use one_loyal.Sync.Customers.{find_ref, is_ref}
use one_loyal.Sync.Sales.{
  external_ref_for_sale, sale_update_values, new_erp_sale, SaleOutcome, should_update, save_sale,
  key, write_sale, upsert_sale_record,
}

-- The table's primary keys differ, and no company has two records of one source key.
pub record IsSaleTable (s : Session) : Type 0 where
  pub keyed : IsKeyed (λ r. r.id) s.next_id s.sale_records
  pub unique : (company : ℕ) (k : String) → count_if (has_source_key company k) s.sale_records ≤ 1

-- What an upsert returns that has found the sale up to date.
abbrev pub unchanged : SaleOutcome
unchanged = record { created = false; updated = false; affected_customer_id = none }

module _ (company_id : ℕ) (integration : Integration) (sale : ErpSaleDto) where
  unfoldable pub ref_in : List CustomerExternalRef → Result CustomerExternalRef
  ref_in refs =
      required_row
        (scalar_one_or_none
          (select (is_ref company_id integration.provider sale.customer_external_id) refs))
        (not_found "Sale customer external reference was not found.")

  ref_lem :
      (s : Session)
      → external_ref_for_sale company_id integration.provider sale.customer_external_id s
        ≡ (ref_in s.external_refs, s)
  unfolding external_ref_for_sale find_ref ref_in
  ref_lem s = ground arith

  abbrev source : String
  source = key company_id integration sale

  abbrev pub rows : List SaleRecord → List SaleRecord
  rows sales = select (has_source_key company_id source) sales

  -- What a sale finds before it is written.
  pub record Found : Type 0 where
    pub values : SaleValues
    pub customer_id : ℕ
    pub existing : Option SaleRecord

  unfoldable pub decide_sale : Session → Result Found
  decide_sale s = valid_sale_values sale >>= λ values. ref_in s.external_refs >>= λ ref.
      scalar_one_or_none (rows s.sale_records) >>= λ existing.
      ok (record { values = values; customer_id = ref.customer_id; existing = existing })

  abbrev pub written : Session → Result Found → Result SaleOutcome × Session
  written s (ok f) = write_sale company_id integration sale f.values f.customer_id f.existing s
  written s (err e) = (err e, s)

  pub upsert_decides :
      (s : Session) → upsert_sale_record company_id integration sale s ≡ written s (decide_sale s)
  unfolding upsert_sale_record decide_sale
  upsert_decides s = elim (Result-cases (valid_sale_values sale)) [
    | inl (v, h) ↦ elim (Result-cases (ref_in s.external_refs)) [
      | inl (ref, g) ↦ elim (Result-cases (scalar_one_or_none (rows s.sale_records))) [
        | inl (x, e) ↦ ground (arith, h, ref_lem s, g, e)
        | inr (x, e) ↦ ground (arith, h, ref_lem s, g, e)
      ]
      | inr (x, g) ↦ ground (arith, h, ref_lem s, g)
    ]
    | inr (x, h) ↦ ground (arith, h)
  ]

  -- The sale has its one row, and the row is up to date.
  pub record IsSettled (s : Session) (row : SaleRecord) : Type 0 where
    pub one : rows s.sale_records ≡ row ∷ []
    pub current : should_update row sale ≡ false

  same_text : (t : Option String) → eq_text t t ≡ true
  same_text none = refl
  same_text (some t) = (eq_iff t t).1 refl

  never_newer : (t : Option ℕ) → is_newer t t ≡ false
  never_newer none = refl
  never_newer (some t) = ground arith

  up_to_date :
      (row : SaleRecord)
      → row.content_hash ≡ sale.content_hash
      → row.external_updated_at ≡ sale.external_updated_at
      → should_update row sale ≡ false
  unfolding should_update
  up_to_date row h t =
      rw (h, t, same_text sale.content_hash, never_newer sale.external_updated_at) refl

  stamped :
      (row : SaleRecord) (t : ℕ)
      → should_update (record row { synced_at = some t }) sale ≡ should_update row sale
  unfolding should_update
  stamped row t = refl

  -- What a write leaves: the sale is settled, and the references are as they were.
  record IsWritten (s s' : Session) : Type 0 where
    row : SaleRecord
    settled : IsSettled s' row
    refs : s'.external_refs ≡ s.external_refs

  module _ (s : Session) (v : IsSaleTable s) (values : SaleValues) (customer_id : ℕ) where
    own : (company_id == company_id && str_eq source source) ≡ true
    own = ground (arith, eq_iff source source)

    add-IsWritten :
        scalar_one_or_none (rows s.sale_records) ≡ ok none
        → IsWritten s (write_sale company_id integration sale values customer_id none s).1
    unfolding new_erp_sale
    add-IsWritten h =
        let row =
          new_erp_sale s.next_id company_id integration sale values customer_id source s.now in
        let empty : rows s.sale_records ≡ [] = scalar-none (rows s.sale_records) h in
        record {
          row = row;
          settled = record { one = rw (own, empty) refl; current = up_to_date row refl refl };
          refs = refl;
        }

    -- A row that is written over the row found.
    put-IsSettled :
        (existing row : SaleRecord)
        → scalar_one_or_none (rows s.sale_records) ≡ ok (some existing)
        → row.id ≡ existing.id
        → has_source_key company_id source row ≡ true
        → should_update row sale ≡ false
        → IsSettled (save_sale row s) row
    put-IsSettled existing row h e k c = record {
      one =
          select-put (λ x. x.id) (has_source_key company_id source) s.next_id existing row
            s.sale_records v.keyed h e k;
      current = c;
    }

    update-IsWritten :
        (existing : SaleRecord)
        → scalar_one_or_none (rows s.sale_records) ≡ ok (some existing)
        → IsWritten s
            (write_sale company_id integration sale values customer_id (some existing) s).1
    unfolding sale_update_values
    update-IsWritten existing h =
        let (there, mine) =
          found_row (has_source_key company_id source) s.sale_records existing h in
        elim (Bool-cases (should_update existing sale)) [
          | inl stale ↦
              let row =
                sale_update_values integration sale values customer_id source s.now existing in
              rw stale (record {
                row = row;
                settled =
                    put-IsSettled existing row h refl (ground (arith, mine, eq_iff source source))
                      (up_to_date row refl refl);
                refs = refl;
              })
          | inr current ↦ rw current (record {
            row = record existing { synced_at = some s.now };
            settled = put-IsSettled existing _ h refl mine (stamped existing s.now ∙ current);
            refs = refl;
          })
        ]

    write-IsWritten :
        (existing : Option SaleRecord)
        → scalar_one_or_none (rows s.sale_records) ≡ ok existing
        → IsWritten s (write_sale company_id integration sale values customer_id existing s).1
    write-IsWritten none h = add-IsWritten h
    write-IsWritten (some existing) h = update-IsWritten existing h

  -- What a decision has found, and that it is the decision of any session with the same references
  -- where the sale is settled.
  pub record IsDecided (s : Session) (f : Found) : Type 0 where
    pub checked : valid_sale_values sale ≡ ok f.values
    pub row_found : scalar_one_or_none (rows s.sale_records) ≡ ok f.existing
    pub again :
        (s' : Session) (row : SaleRecord)
        → s'.external_refs ≡ s.external_refs
        → IsSettled s' row
        → decide_sale s'
          ≡ ok (record { values = f.values; customer_id = f.customer_id; existing = some row })

  pub decide_sale-IsDecided : (s : Session) (f : Found) → decide_sale s ≡ ok f → IsDecided s f
  unfolding decide_sale
  decide_sale-IsDecided s f h =
      let (v, valid, h1) = returned (valid_sale_values sale) _ f h in
      let (ref, linked, h2) = returned (ref_in s.external_refs) _ f h1 in
      let (existing, found, h3) = returned (scalar_one_or_none (rows s.sale_records)) _ f h2 in
      let same = ok_injective _ f h3 in
      rw (← same) (record {
        checked = valid;
        row_found = found;
        again = λ s' row refs settled. rw (valid, refs, linked, settled.one) refl;
      })

  settled_again :
      (s : Session) (d : Result Found) (outcome : SaleOutcome) (later : ℕ)
      → IsSaleTable s
      → ((f : Found) → d ≡ ok f → IsDecided s f)
      → (written s d).0 ≡ ok outcome
      → (row : SaleRecord) × (rows (written s d).1.sale_records ≡ row ∷ [])
        × (upsert_sale_record company_id integration sale (record (written s d).1 { now = later })
            ≡ (
              ok unchanged,
              save_sale
                  (record row { synced_at = some later })
                  (record (written s d).1 { now = later }),
            ))
  settled_again s (ok f) outcome later v decided h =
      let d = decided f refl in
      let w = write-IsWritten s v f.values f.customer_id f.existing d.row_found in
      let s' = record (written s (ok f)).1 { now = later } in
      let settled : IsSettled s' w.row = record {
        one = w.settled.one;
        current = w.settled.current;
      } in
      let plan = d.again s' w.row w.refs settled in
      (w.row, w.settled.one, rw (upsert_decides s', plan, settled.current) refl)
  settled_again s (err e) outcome later v decided h = cc

  -- A sale that the provider hands over again changes nothing: in a table where the keys of the
  -- records and the source keys of each company differ, if the first time returned, then the second
  -- time, whenever it is, creates and updates no record, affects no customer, and writes only the
  -- time of the sync on the one row that the table then holds under the sale's source key.
  pub resync_changes_nothing :
      (s : Session) (outcome : SaleOutcome) (later : ℕ)
      → IsSaleTable s
      → (upsert_sale_record company_id integration sale s).0 ≡ ok outcome
      → (row : SaleRecord) × (rows (upsert_sale_record company_id integration sale s).1.sale_records
          ≡ row ∷ [])
        × (upsert_sale_record company_id integration sale
              (record (upsert_sale_record company_id integration sale s).1 { now = later })
            ≡ (
              ok unchanged,
              save_sale
                  (record row { synced_at = some later })
                  (record (upsert_sale_record company_id integration sale s).1 { now = later }),
            ))
  resync_changes_nothing s outcome later v h =
      let decided = upsert_decides s in
      rw decided (
        settled_again s (decide_sale s) outcome later v (decide_sale-IsDecided s) (rw decided at h))

  same_row_key :
      (other : ℕ) (other_key : String) (r : SaleRecord)
      → has_source_key other other_key r ≡ true
      → has_source_key company_id source r ≡ true
      → (other ≡ company_id) × (other_key ≡ source)
  same_row_key other other_key r h g =
      ground (arith, eq_iff r.source_key other_key, eq_iff r.source_key source, h, g)

  put-IsSaleTable :
      (s : Session) (existing row : SaleRecord)
      → IsSaleTable s
      → Has existing s.sale_records
      → row.id ≡ existing.id
      → row.company_id ≡ existing.company_id
      → row.source_key ≡ existing.source_key
      → IsSaleTable (save_sale row s)
  put-IsSaleTable s existing row v there e c k = record {
    keyed = put-IsKeyed (λ x. x.id) s.next_id row s.sale_records v.keyed;
    unique = λ other other_key.
        let same : has_source_key other other_key row ≡ has_source_key other other_key existing =
          rw (c, k) refl in
        omega (
          arith,
          count_if-put (λ x. x.id) (has_source_key other other_key) s.next_id existing row
              s.sale_records v.keyed there e,
          ap bit same,
          v.unique other other_key,
        );
  }

  written-IsSaleTable :
      (s : Session) (values : SaleValues) (customer_id : ℕ) (existing : Option SaleRecord)
      → scalar_one_or_none (rows s.sale_records) ≡ ok existing
      → IsSaleTable s
      → IsSaleTable (write_sale company_id integration sale values customer_id existing s).1
  unfolding new_erp_sale sale_update_values
  written-IsSaleTable s values customer_id none h v =
      let row =
        new_erp_sale s.next_id company_id integration sale values customer_id source s.now in
      let mine : has_source_key company_id source row ≡ true = own s v values customer_id in
      record {
        keyed = (omega arith, v.keyed);
        unique = λ other other_key. elim (Bool-cases (has_source_key other other_key row)) [
          | inl same ↦
              let (e, k) = same_row_key other other_key row same mine in
              let none_yet : count_if (has_source_key other other_key) s.sale_records ≡ 0 =
                rw (e, k) (no_row (has_source_key company_id source) s.sale_records h) in
              rw (same, none_yet) (omega arith)
          | inr differs ↦ rw differs (omega (arith, v.unique other other_key))
        ];
      }
  written-IsSaleTable s values customer_id (some existing) h v =
      let (there, mine) = found_row (has_source_key company_id source) s.sale_records existing h in
      elim (Bool-cases (should_update existing sale)) [
        | inl stale ↦
            let row =
              sale_update_values integration sale values customer_id source s.now existing in
            rw stale (
              put-IsSaleTable s existing row v there refl refl
                (ground (arith, eq_iff existing.source_key source, mine)))
        | inr current ↦ rw current (
            put-IsSaleTable s existing (record existing { synced_at = some s.now }) v there refl
              refl refl)
      ]

  decided-IsSaleTable :
      (s : Session) (d : Result Found)
      → ((f : Found) → d ≡ ok f → IsDecided s f)
      → IsSaleTable s
      → IsSaleTable (written s d).1
  decided-IsSaleTable s (ok f) decided v =
      written-IsSaleTable s f.values f.customer_id f.existing (decided f refl).row_found v
  decided-IsSaleTable s (err e) decided v = v

  -- The sync of a sale, refused ones among them, keeps the keys of the records apart, and makes no
  -- second record of a source key of any company.
  pub upsert_sale_record-IsSaleTable :
      (s : Session)
      → IsSaleTable s
      → IsSaleTable (upsert_sale_record company_id integration sale s).1
  upsert_sale_record-IsSaleTable s v =
      rw (upsert_decides s) (decided-IsSaleTable s (decide_sale s) (decide_sale-IsDecided s) v)
