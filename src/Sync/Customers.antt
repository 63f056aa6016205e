-- ===== src/Sync/Customers.antt =====
-- `_upsert_customer`: the customer behind an external reference.
use one_loyal.Prelude.{
  ℕ, ◌==◌, ◌&&◌, String, Bool, true, false, not, Option, none, some, List, [], ◌∷◌, select, str_eq,
  if◌then◌else◌,
}
use one_loyal.Core.{not_found}
use one_loyal.Common.Text.{strip, lowered}
use one_loyal.Common.JsonEquality.{eq_text, fields_eq}
use one_loyal.Models.Customer.{Customer, CustomerStatus, CustomerExternalRef}
use one_loyal.Models.Sync.{Integration, ErpCustomerDto}
use one_loyal.Db.Exec.{Exec, pure, lift, gets, or_raise, modify, utc_now, fresh_id, ◌>>=◌, ◌>>◌}
use one_loyal.Db.Query.{scalar_one_or_none, put}
use one_loyal.Events.{time_or}

abbrev pub lowered_or_none : Option String → Option String
lowered_or_none none = none
lowered_or_none (some text) = some (lowered text)

abbrev pub is_ref : ℕ → String → String → CustomerExternalRef → Bool
is_ref company_id provider external_id r =
    r.company_id == company_id && str_eq r.provider provider && str_eq r.external_id external_id

unfoldable pub find_ref : ℕ → String → String → Exec (Option CustomerExternalRef)
find_ref company_id provider external_id = do
  rows ← gets (λ s. select (is_ref company_id provider external_id) s.external_refs)
  lift (scalar_one_or_none rows)

-- The customer and the reference that a new external customer becomes.
abbrev pub new_customer : ℕ → ℕ → ErpCustomerDto → Customer
new_customer id company_id dto = record {
  id = id;
  company_id = company_id;
  name = strip dto.name;
  phone = dto.phone;
  email = lowered_or_none dto.email;
  tax_id = dto.tax_id;
  status = CustomerStatus.active;
  metadata_json = dto.metadata;
  deleted_at = none;
}

abbrev pub new_ref : ℕ → ℕ → ℕ → Integration → ErpCustomerDto → ℕ → CustomerExternalRef
new_ref id company_id customer_id integration dto now = record {
  id = id;
  company_id = company_id;
  customer_id = customer_id;
  integration_id = some integration.id;
  provider = integration.provider;
  external_id = dto.external_id;
  external_name = some dto.name;
  external_phone = dto.phone;
  external_email = lowered_or_none dto.email;
  raw_payload_json = dto.raw_payload;
  last_seen_at = some (time_or dto.last_seen_at now);
}

abbrev pub updated_customer : ErpCustomerDto → Customer → Customer
updated_customer dto c = record c {
  name = strip dto.name;
  phone = dto.phone;
  email = lowered_or_none dto.email;
  tax_id = dto.tax_id;
  metadata_json = dto.metadata;
}

abbrev pub updated_ref :
    Integration → ErpCustomerDto → ℕ → CustomerExternalRef → CustomerExternalRef
updated_ref integration dto now r = record r {
  integration_id = some integration.id;
  external_name = some dto.name;
  external_phone = dto.phone;
  external_email = lowered_or_none dto.email;
  raw_payload_json = dto.raw_payload;
  last_seen_at = some (time_or dto.last_seen_at now);
}

abbrev pub is_own : Option ℕ → ℕ → Bool
is_own none id = false
is_own (some other) id = other == id

-- Whether one of the fields that are set had another value.
unfoldable pub is_changed : Integration → ErpCustomerDto → Customer → CustomerExternalRef → Bool
is_changed integration dto c r = not (
    str_eq c.name (strip dto.name)
    && eq_text c.phone dto.phone
    && eq_text c.email (lowered_or_none dto.email)
    && eq_text c.tax_id dto.tax_id
    && fields_eq c.metadata_json dto.metadata
    && is_own r.integration_id integration.id
    && eq_text r.external_name (some dto.name)
    && eq_text r.external_phone dto.phone
    && eq_text r.external_email (lowered_or_none dto.email)
    && fields_eq r.raw_payload_json dto.raw_payload)

-- Whether the customer was created, and whether it was updated.
abbrev pub Upserted : Type 0
Upserted = Bool × Bool

-- `customer is None or customer.company_id != company_id`
abbrev pub of_company : ℕ → List Customer → Option Customer
of_company company_id [] = none
of_company company_id (c ∷ rest) = if c.company_id == company_id then some c else none

abbrev pub create_linked : ℕ → Integration → ErpCustomerDto → Exec Upserted
create_linked company_id integration dto = do
  now ← utc_now
  customer_id ← fresh_id
  ref_id ← fresh_id
  modify (λ s. record s {
    customers = new_customer customer_id company_id dto ∷ s.customers;
    external_refs = new_ref ref_id company_id customer_id integration dto now ∷ s.external_refs;
  })
  pure (true, false)

abbrev pub update_linked : ℕ → Integration → ErpCustomerDto → CustomerExternalRef → Exec Upserted
update_linked company_id integration dto external_ref = do
  now ← utc_now
  rows ← gets (λ s. select (λ c. c.id == external_ref.customer_id) s.customers)
  customer ← or_raise (of_company company_id rows) (not_found "Linked customer not found.")
  modify (λ s. record s {
    customers = put (λ c. c.id) (updated_customer dto customer) s.customers;
    external_refs = put (λ r. r.id) (updated_ref integration dto now external_ref) s.external_refs;
  })
  pure (false, is_changed integration dto customer external_ref)

abbrev pub create_or_update :
    ℕ → Integration → ErpCustomerDto → Option CustomerExternalRef → Exec Upserted
create_or_update company_id integration dto none = create_linked company_id integration dto
create_or_update company_id integration dto (some external_ref) =
    update_linked company_id integration dto external_ref

unfoldable pub upsert_customer : ℕ → Integration → ErpCustomerDto → Exec Upserted
unfolding find_ref
upsert_customer company_id integration dto = do
  found ← find_ref company_id integration.provider dto.external_id
  create_or_update company_id integration dto found
