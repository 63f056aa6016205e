-- ===== src/Customers/Service.antt =====
-- `CustomerService`. The lookup of a customer is the query of the progress service, word for word.
pub mod Decisions
pub mod Links
pub mod Assignments
use one_loyal.Prelude.{
  ℕ, ◌==◌, ◌&&◌, String, Bool, true, false, not, Option, none, some, List, [], ◌∷◌, select,
  count_if, str_eq, if◌then◌else◌,
}
use one_loyal.Core.{Error, Result, ok, err, validation, not_found, conflict, integrity_error}
use one_loyal.Common.Json.{Json, Fields, null, str, uuid, end, field}
use one_loyal.Common.Text.{strip, lowered}
use one_loyal.Models.Customer.{
  Customer, CustomerStatus, CustomerExternalRef, CustomerAssignment, ExternalProvider,
  provider_value,
}
use one_loyal.Models.User.{User, is_sales_manager}
use one_loyal.Db.Exec.{
  Session, Exec, pure, lift, gets, raise_if, or_raise, modify, utc_now, fresh_id, ◌>>=◌, ◌>>◌,
}
use one_loyal.Db.Query.{scalar_one_or_none, put, is_null, eq_nullable}
use one_loyal.Events.{EventArgs, event_args, emit, payload_or_empty}
use one_loyal.Progress.Service.{get_customer}
use one_loyal.Campaigns.Tiers.{Patch, unset, set, patched, patched_nullable}

pub record CustomerCreateRequest : Type 0 where
  pub name : String
  pub phone : Option String
  pub email : Option String
  pub tax_id : Option String
  pub metadata_json : Option Fields

pub record CustomerUpdateRequest : Type 0 where
  pub name : Patch String
  pub phone : Patch String
  pub email : Patch String
  pub tax_id : Patch String
  pub status : Patch CustomerStatus
  pub metadata_json : Patch Fields

pub record CustomerExternalRefCreateRequest : Type 0 where
  pub customer_id : ℕ
  pub provider : ExternalProvider
  pub external_id : String
  pub external_name : Option String
  pub external_phone : Option String
  pub external_email : Option String
  pub raw_payload_json : Option Fields

-- `str(email).lower() if email else None`: an empty text counts as none.
abbrev pub email_or_none : Option String → Option String
email_or_none none = none
email_or_none (some email) = if str_eq email "" then none else some (lowered email)

abbrev pub text_json : Option String → Json
text_json none = null
text_json (some text) = str text

abbrev pub new_customer : ℕ → ℕ → CustomerCreateRequest → Customer
new_customer id company_id request = record {
  id = id;
  company_id = company_id;
  name = strip request.name;
  phone = request.phone;
  email = email_or_none request.email;
  tax_id = request.tax_id;
  status = CustomerStatus.active;
  metadata_json = payload_or_empty request.metadata_json;
  deleted_at = none;
}

abbrev pub customer_created : ℕ → Customer → EventArgs
customer_created company_id c = record (event_args company_id "customer.created" "customer" c.id) {
  customer_id = some c.id;
  payload_json =
      some (
        field "id" (uuid c.id) (field "name" (str c.name) (field "email" (text_json c.email) end)));
}

unfoldable pub create_customer : ℕ → CustomerCreateRequest → Exec Customer
create_customer company_id request = do
  new_id ← fresh_id
  let customer = new_customer new_id company_id request
  modify (λ s. record s { customers = customer ∷ s.customers })
  emit (customer_created company_id customer) none
  pure customer

abbrev pub save_customer : Customer → Session → Session
save_customer c s = record s { customers = put (λ x. x.id) c s.customers }

abbrev pub mapped : {A B : Type 0} → (A → B) → Patch A → Patch B
mapped f unset = unset
mapped f (set none) = set none
mapped f (set (some a)) = set (some (f a))

-- `metadata_json` is never null.
abbrev pub patched_fields : Patch Fields → Fields → Fields
patched_fields unset old = old
patched_fields (set none) old = end
patched_fields (set (some fields)) old = fields

unfoldable pub update_customer : ℕ → ℕ → CustomerUpdateRequest → Exec Customer
update_customer company_id customer_id request = do
  customer ← get_customer company_id customer_id
  name ← lift (patched (mapped strip request.name) customer.name)
  status ← lift (patched request.status customer.status)
  let changed = record customer {
    name = name;
    phone = patched_nullable request.phone customer.phone;
    email = patched_nullable (mapped lowered request.email) customer.email;
    tax_id = patched_nullable request.tax_id customer.tax_id;
    status = status;
    metadata_json = patched_fields request.metadata_json customer.metadata_json;
  }
  modify (save_customer changed)
  pure changed

unfoldable pub archive_customer : ℕ → ℕ → Exec Customer
archive_customer company_id customer_id = do
  customer ← get_customer company_id customer_id
  now ← utc_now
  let archived = record customer { status = CustomerStatus.archived; deleted_at = some now }
  modify (save_customer archived)
  pure archived

abbrev pub is_ref_of : ℕ → String → String → CustomerExternalRef → Bool
is_ref_of company_id provider external_id r =
    r.company_id == company_id && str_eq r.provider provider && str_eq r.external_id external_id

abbrev pub new_external_ref : ℕ → ℕ → ℕ → CustomerExternalRefCreateRequest → CustomerExternalRef
new_external_ref id company_id customer_id request = record {
  id = id;
  company_id = company_id;
  customer_id = customer_id;
  integration_id = none;
  provider = provider_value request.provider;
  external_id = request.external_id;
  external_name = request.external_name;
  external_phone = request.external_phone;
  external_email = email_or_none request.external_email;
  raw_payload_json = payload_or_empty request.raw_payload_json;
  last_seen_at = none;
}

unfoldable pub create_external_ref :
    ℕ → ℕ → CustomerExternalRefCreateRequest → Exec CustomerExternalRef
create_external_ref company_id customer_id request = do
  raise_if (not (request.customer_id == customer_id))
      (validation "customer_id must match the route customer_id.")
  get_customer company_id customer_id
  rows ← gets (λ s.
      select (is_ref_of company_id (provider_value request.provider) request.external_id)
        s.external_refs)
  found ← lift (scalar_one_or_none rows)
  raise_if (not (is_null found)) (conflict "External customer reference already exists.")
  new_id ← fresh_id
  let ref = new_external_ref new_id company_id customer_id request
  modify (λ s. record s { external_refs = ref ∷ s.external_refs })
  pure ref

abbrev pub is_assignment : ℕ → ℕ → ℕ → CustomerAssignment → Bool
is_assignment company_id customer_id user_id a =
    a.company_id == company_id && a.customer_id == customer_id && a.sales_manager_user_id == user_id

-- `user is None or user.company_id != company_id`
abbrev pub user_of_company : ℕ → List User → Option User
user_of_company company_id [] = none
user_of_company company_id (u ∷ rest) = if eq_nullable u.company_id company_id then some u else none

abbrev pub new_assignment : ℕ → ℕ → ℕ → ℕ → CustomerAssignment
new_assignment id company_id customer_id user_id = record {
  id = id;
  company_id = company_id;
  customer_id = customer_id;
  sales_manager_user_id = user_id;
}

unfoldable pub assign_customer : ℕ → ℕ → ℕ → Exec CustomerAssignment
assign_customer company_id customer_id user_id = do
  get_customer company_id customer_id
  users ← gets (λ s. select (λ u. u.id == user_id) s.users)
  user ← or_raise (user_of_company company_id users) (not_found "Sales manager user not found.")
  raise_if (not (is_sales_manager user.role))
      (validation "Assigned user must have sales_manager role.")
  rows ← gets (λ s. select (is_assignment company_id customer_id user_id) s.assignments)
  found ← lift (scalar_one_or_none rows)
  raise_if (not (is_null found)) (conflict "Customer is already assigned to this sales manager.")
  new_id ← fresh_id
  let assignment = new_assignment new_id company_id customer_id user_id
  modify (λ s. record s { assignments = assignment ∷ s.assignments })
  pure assignment

-- DELETE with its row count
unfoldable pub unassign_customer : ℕ → ℕ → ℕ → Exec (Unit {0})
unassign_customer company_id customer_id user_id = do
  get_customer company_id customer_id
  rowcount ← gets (λ s. count_if (is_assignment company_id customer_id user_id) s.assignments)
  modify (λ s. record s {
    assignments = select (λ a. not (is_assignment company_id customer_id user_id a)) s.assignments;
  })
  raise_if (rowcount == 0) (not_found "Customer assignment not found.")
