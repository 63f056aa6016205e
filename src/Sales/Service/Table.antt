-- ===== src/Sales/Service/Table.antt =====
-- What the table of sale records keeps under the operations of its service.
use one_loyal.Prelude.{
  sym, ℕ, ◌≤◌, ◌≡◌, refl, true, inl, inr, String, List, [], ◌∷◌, All, count_if, select, eq_iff,
  arith, Bool-cases,
}
use one_loyal.Core.{Result, ok, err}
use one_loyal.Core.Results.{returned, ok_injective}
use one_loyal.Common.Text.{strip}
use one_loyal.Models.Sale.{SaleRecord}
use one_loyal.Db.Exec.{Session, Exec}
use one_loyal.Db.Query.{scalar_one_or_none, is_null}
use one_loyal.Db.Keyed.{
  IsKeyed, Has, found_row, no_row, Scalar-cases, All-put, put-IsKeyed, count_if-put,
}
use one_loyal.Progress.Service.Plan.{customer_in}
use one_loyal.Sales.Service.{
  SaleRecordCreateRequest, has_source_key, new_sale_record, overwritten, create_sale_record,
  upsert_sale_record_by_source_key,
}
use one_loyal.Sales.Service.Decisions.{
  checked, none_excluded, rows_of, available_in, added, decide_create, create_sale_record_decides,
  replaced, decide_update, upsert_decides,
}
use one_loyal.Sales.Service.Sound.{IsSoundRecord, checked-IsSound}

-- The keys differ, no source key of a company is there twice, and every document has a property.
pub record IsTableOf (P : SaleRecord → Type 0) (s : Session) : Type 0 where
  pub keyed : IsKeyed (λ r. r.id) s.next_id s.sale_records
  pub unique :
      (company_id : ℕ) (source_key : String)
      → count_if (has_source_key company_id source_key) s.sale_records ≤ 1
  pub sound : All P s.sale_records

abbrev pub IsSalesTable : Session → Type 0
IsSalesTable s = IsTableOf IsSoundRecord s

same_key :
    (company_id other : ℕ) (source_key other_key : String) (r : SaleRecord)
    → has_source_key company_id source_key r ≡ true
    → has_source_key other other_key r ≡ true
    → (company_id ≡ other) × (source_key ≡ other_key)
same_key company_id other source_key other_key r h g =
    ground (arith, eq_iff r.source_key source_key, eq_iff r.source_key other_key, h, g)

available_none :
    (company_id : ℕ) (source_key : String) (rows : List SaleRecord) (u : Unit {0})
    → available_in company_id source_key rows ≡ ok u
    → count_if (has_source_key company_id source_key) rows ≡ 0
unfolding available_in
available_none company_id source_key rows u h =
    let p = has_source_key company_id source_key in
    let (found, was, h1) =
      returned (scalar_one_or_none (select p rows)) _ u (rw (none_excluded p rows) at h) in
    elim (Bool-cases (is_null found)) [
      | inl nothing ↦ no_row p rows (ground (arith, was, nothing))
      | inr there ↦ absurd (ground (arith, h1, there))
    ]

-- What a creation that returns has checked, and the row it has made.
pub record IsCreation (company_id : ℕ) (request : SaleRecordCreateRequest) (s : Session)
    (r : SaleRecord) : Type 0 where
  pub currency : String
  pub passed : checked request ≡ ok currency
  pub fresh : count_if (has_source_key company_id (strip request.source_key)) s.sale_records ≡ 0
  pub made : r ≡ new_sale_record s.next_id company_id (strip request.source_key) currency request

pub decide_create-IsCreation :
    (company_id : ℕ) (request : SaleRecordCreateRequest) (s : Session) (r : SaleRecord)
    → decide_create company_id request s ≡ ok r
    → IsCreation company_id request s r
unfolding decide_create
decide_create-IsCreation company_id request s r h =
    let (c, _, h1) = returned (customer_in company_id request.customer_id s.customers) _ r h in
    let (u, free, h2) =
      returned (available_in company_id (strip request.source_key) s.sale_records) _ r h1 in
    let (currency, passed, h3) = returned (checked request) _ r h2 in
    record {
      currency = currency;
      passed = passed;
      fresh = available_none company_id (strip request.source_key) s.sale_records u free;
      made = sym (ok_injective _ r h3);
    }

pub record IsUpdate (request : SaleRecordCreateRequest) (existing r : SaleRecord) : Type 0 where
  pub currency : String
  pub passed : checked request ≡ ok currency
  pub made : r ≡ overwritten currency request existing

pub decide_update-IsUpdate :
    (company_id : ℕ) (request : SaleRecordCreateRequest) (s : Session) (existing r : SaleRecord)
    → decide_update company_id request s existing ≡ ok r
    → IsUpdate request existing r
unfolding decide_update
decide_update-IsUpdate company_id request s existing r h =
    let (c, _, h1) = returned (customer_in company_id request.customer_id s.customers) _ r h in
    let (currency, passed, h2) = returned (checked request) _ r h1 in
    record { currency = currency; passed = passed; made = sym (ok_injective _ r h2) }

module _ (P : SaleRecord → Type 0) (from : (r : SaleRecord) → IsSoundRecord r → P r) where
  create-IsSalesTable :
      (company_id : ℕ) (request : SaleRecordCreateRequest) (s : Session) (d : Result SaleRecord)
      → ((r : SaleRecord) → d ≡ ok r → IsCreation company_id request s r)
      → IsTableOf P s
      → IsTableOf P (added company_id request s d).1
  unfolding new_sale_record
  create-IsSalesTable company_id request s (err e) f v = v
  create-IsSalesTable company_id request s (ok r) f v =
      let c = f r refl in
      let new : SaleRecord =
        new_sale_record s.next_id company_id (strip request.source_key) c.currency request in
      rw (c.made) (record {
        keyed = (omega arith, v.keyed);
        unique = λ other other_key. elim (Bool-cases (has_source_key other other_key new)) [
          | inl same ↦
              let e =
                same_key other company_id other_key (strip request.source_key) new same
                  (ground (arith, eq_iff (strip request.source_key) (strip request.source_key))) in
              let none_yet : count_if (has_source_key other other_key) s.sale_records ≡ 0 =
                rw (e.0, e.1) c.fresh in
              rw (same, none_yet) (omega arith)
          | inr differs ↦ rw differs (omega (arith, v.unique other other_key))
        ];
        sound = (from new (checked-IsSound request c.currency c.passed, refl), v.sound);
      })

  update-IsSalesTable :
      (company_id : ℕ) (request : SaleRecordCreateRequest) (s : Session) (existing : SaleRecord)
      (d : Result SaleRecord)
      → Has existing s.sale_records
      → ((r : SaleRecord) → d ≡ ok r → IsUpdate request existing r)
      → IsTableOf P s
      → IsTableOf P (replaced company_id request s d).1
  unfolding overwritten
  update-IsSalesTable company_id request s existing (err e) there f v = v
  update-IsSalesTable company_id request s existing (ok r) there f v =
      let c = f r refl in
      let new : SaleRecord = overwritten c.currency request existing in
      rw (c.made) (record {
        keyed = put-IsKeyed (λ x. x.id) s.next_id new s.sale_records v.keyed;
        unique = λ other other_key. omega (
          arith,
          count_if-put (λ x. x.id) (has_source_key other other_key) s.next_id existing new
              s.sale_records v.keyed there refl,
          v.unique other other_key,
        );
        sound =
            All-put P (λ x. x.id) new s.sale_records v.sound
              (from new (checked-IsSound request c.currency c.passed, refl));
      })

  -- `create_sale_record` keeps a table of documents of which soundness is all that is asked.
  pub create_sale_record-IsSalesTable :
      (company_id : ℕ) (request : SaleRecordCreateRequest) (s : Session)
      → IsTableOf P s
      → IsTableOf P (create_sale_record company_id request s).1
  create_sale_record-IsSalesTable company_id request s v =
      rw (create_sale_record_decides company_id request s) (
        create-IsSalesTable company_id request s (decide_create company_id request s)
          (decide_create-IsCreation company_id request s) v)

  pub upsert-IsSalesTable :
      (company_id : ℕ) (request : SaleRecordCreateRequest) (s : Session)
      → IsTableOf P s
      → IsTableOf P (upsert_sale_record_by_source_key company_id request s).1
  upsert-IsSalesTable company_id request s v =
      let rows = rows_of company_id (strip request.source_key) s.sale_records in
      rw (upsert_decides company_id request s) (elim (Scalar-cases (scalar_one_or_none rows)) [
        | inl h ↦ rw h (
            create-IsSalesTable company_id request s (decide_create company_id request s)
              (decide_create-IsCreation company_id request s) v)
        | inr (inl (c, h)) ↦ rw h (
            update-IsSalesTable company_id request s c (decide_update company_id request s c)
              (found_row (has_source_key company_id (strip request.source_key)) s.sale_records c
                h).0
              (decide_update-IsUpdate company_id request s c) v)
        | inr (inr (e, h)) ↦ rw h v
      ])

-- A call of the service.
pub data SaleCall : Type 0 where
  create upsert : ℕ → SaleRecordCreateRequest → SaleCall

abbrev pub perform : SaleCall → Exec SaleRecord
perform (create company_id request) = create_sale_record company_id request
perform (upsert company_id request) = upsert_sale_record_by_source_key company_id request

abbrev pub run : List SaleCall → Session → Session
run [] s = s
run (call ∷ calls) s = run calls (perform call s).1

-- Any calls of `create_sale_record` and `upsert_sale_record_by_source_key`, refused ones among them,
-- with no sync between them, keep the table of sale records: its primary keys differ, no company has two records of one source key, returns and
-- refunds have the sign -1 and sales the sign 1, no gross amount is negative, every currency has
-- three letters, and the deletion flag agrees with the document's status.
pub run-IsSalesTable :
    (calls : List SaleCall) (s : Session) → IsSalesTable s → IsSalesTable (run calls s)
run-IsSalesTable [] s v = v
run-IsSalesTable (create company_id request ∷ calls) s v =
    run-IsSalesTable calls (create_sale_record company_id request s).1
      (create_sale_record-IsSalesTable IsSoundRecord (λ r h. h) company_id request s v)
run-IsSalesTable (upsert company_id request ∷ calls) s v =
    run-IsSalesTable calls (upsert_sale_record_by_source_key company_id request s).1
      (upsert-IsSalesTable IsSoundRecord (λ r h. h) company_id request s v)
