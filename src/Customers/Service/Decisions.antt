-- ===== src/Customers/Service/Decisions.antt =====
-- The calls on references and assignments as decisions, read from the session.
use one_loyal.Prelude.{
  ℕ, suc, ◌==◌, ◌≡◌, ap, ◌∙◌, Bool, true, not, inl, inr, Option, Option-cases, none, some, List,
  ◌∷◌, select, count_if, arith, if◌then◌else◌,
}
use one_loyal.Core.{Error, Result, ok, err, Result-cases, validation, not_found, conflict}
use one_loyal.Core.Results.{◌>>=◌, ◌>>◌, refuse_if, returned, ok_injective}
use one_loyal.Models.Customer.{
  Customer, CustomerStatus, CustomerExternalRef, CustomerAssignment, provider_value,
}
use one_loyal.Models.User.{User, is_sales_manager}
use one_loyal.Db.Exec.{Session}
use one_loyal.Db.Query.{scalar_one_or_none, is_null}
use one_loyal.Db.Keyed.{no_row}
use one_loyal.Progress.Service.Plan.{customer_in, get_customer_lem}
use one_loyal.Common.Text.{strip, lowered}
use one_loyal.Campaigns.Tiers.{patched, patched_nullable}
use one_loyal.Customers.Service.{
  CustomerUpdateRequest, save_customer, mapped, patched_fields, update_customer, archive_customer,
  unassign_customer, CustomerExternalRefCreateRequest, is_ref_of, new_external_ref,
  create_external_ref, is_assignment, user_of_company, new_assignment, assign_customer,
}

-- The rows that pass are none, or the call is refused.
unfoldable pub none_taken : {A : Type 0} → (A → Bool) → List A → Error → Result (Unit {0})
none_taken p rows e = do
  found ← scalar_one_or_none (select p rows)
  refuse_if (not (is_null found)) e

pub none_taken-count :
    {A : Type 0} (p : A → Bool) (rows : List A) (e : Error) (u : Unit {0})
    → none_taken p rows e ≡ ok u
    → count_if p rows ≡ 0
unfolding none_taken
none_taken-count p rows e u h =
    let (found, was, h1) = returned (scalar_one_or_none (select p rows)) _ u h in
    elim (Option-cases found) [
      | inl nothing ↦ no_row p rows (was ∙ ap ok nothing)
      | inr (x, there) ↦ absurd (ground (arith, h1, there))
    ]

module _ (company_id customer_id : ℕ) (s : Session) where
  module _ (request : CustomerExternalRefCreateRequest) where
    abbrev pub same_ref : CustomerExternalRef → Bool
    same_ref = is_ref_of company_id (provider_value request.provider) request.external_id

    unfoldable pub decide_ref : Result (Unit {0})
    decide_ref = do
      refuse_if (not (request.customer_id == customer_id))
          (validation "customer_id must match the route customer_id.")
      customer_in company_id customer_id s.customers
      none_taken same_ref s.external_refs (conflict "External customer reference already exists.")

    abbrev pub referred : Result (Unit {0}) → Result CustomerExternalRef × Session
    referred (ok u) = (
      ok (new_external_ref s.next_id company_id customer_id request),
      record s {
        external_refs = new_external_ref s.next_id company_id customer_id request ∷ s.external_refs;
        next_id = suc s.next_id;
      },
    )
    referred (err e) = (err e, s)

    pub create_external_ref_decides :
        create_external_ref company_id customer_id request s ≡ referred decide_ref
    unfolding create_external_ref decide_ref none_taken
    create_external_ref_decides =
        elim (Result-cases (customer_in company_id customer_id s.customers)) [
          | inl (c, h) ↦
              elim (Result-cases (scalar_one_or_none (select same_ref s.external_refs))) [
                | inl (found, g) ↦ ground (arith, get_customer_lem company_id customer_id s, h, g)
                | inr (e, g) ↦ ground (arith, get_customer_lem company_id customer_id s, h, g)
              ]
          | inr (e, h) ↦ ground (arith, get_customer_lem company_id customer_id s, h)
        ]

  module _ (user_id : ℕ) where
    abbrev pub manager : Option User
    manager = user_of_company company_id (select (λ u. u.id == user_id) s.users)

    abbrev pub or_refused : {A : Type 0} → Option A → Error → Result A
    or_refused none e = err e
    or_refused (some a) e = ok a

    unfoldable pub decide_assign : Result User
    decide_assign = do
      customer_in company_id customer_id s.customers
      user ← or_refused manager (not_found "Sales manager user not found.")
      refuse_if (not (is_sales_manager user.role))
          (validation "Assigned user must have sales_manager role.")
      none_taken (is_assignment company_id customer_id user_id) s.assignments
          (conflict "Customer is already assigned to this sales manager.")
      ok user

    abbrev pub assigned : Result User → Result CustomerAssignment × Session
    assigned (ok user) = (
      ok (new_assignment s.next_id company_id customer_id user_id),
      record s {
        assignments = new_assignment s.next_id company_id customer_id user_id ∷ s.assignments;
        next_id = suc s.next_id;
      },
    )
    assigned (err e) = (err e, s)

    pub assign_customer_decides :
        assign_customer company_id customer_id user_id s ≡ assigned decide_assign
    unfolding assign_customer decide_assign none_taken
    assign_customer_decides = elim (Result-cases (customer_in company_id customer_id s.customers)) [
      | inl (c, h) ↦ elim (Option-cases manager) [
        | inl nobody ↦ ground (arith, get_customer_lem company_id customer_id s, h, nobody)
        | inr (u, there) ↦
            let rows = select (is_assignment company_id customer_id user_id) s.assignments in
            elim (Result-cases (scalar_one_or_none rows)) [
              | inl (x, g) ↦ ground (arith, get_customer_lem company_id customer_id s, h, there, g)
              | inr (e, g) ↦ ground (arith, get_customer_lem company_id customer_id s, h, there, g)
            ]
      ]
      | inr (e, h) ↦ ground (arith, get_customer_lem company_id customer_id s, h)
    ]

    -- What an assignment that returns has checked.
    pub record IsAssigned (user : User) : Type 0 where
      pub user_found : manager ≡ some user
      pub role : is_sales_manager user.role ≡ true
      pub new_pair : count_if (is_assignment company_id customer_id user_id) s.assignments ≡ 0

    pub decide_assign-IsAssigned : (user : User) → decide_assign ≡ ok user → IsAssigned user
    unfolding decide_assign
    decide_assign-IsAssigned user h =
        let (c, _, h1) = returned (customer_in company_id customer_id s.customers) _ user h in
        let (u, was, h2) =
          returned (or_refused manager (not_found "Sales manager user not found.")) _ user h1 in
        let (_, role, h3) = returned (refuse_if (not (is_sales_manager u.role)) _) _ user h2 in
        let test = is_assignment company_id customer_id user_id in
        let (v, free, h4) = returned (none_taken test s.assignments _) _ user h3 in
        let one = ok_injective u user h4 in
        rw (← one) (record {
          user_found = ground (arith, was);
          role = ground (arith, role);
          new_pair = none_taken-count test s.assignments _ v free;
        })

module _ (company_id customer_id : ℕ) (s : Session) where
  abbrev pub saved : Result Customer → Result Customer × Session
  saved (ok c) = (ok c, save_customer c s)
  saved (err e) = (err e, s)

  unfoldable pub decide_update : CustomerUpdateRequest → Result Customer
  decide_update request = do
    customer ← customer_in company_id customer_id s.customers
    name ← patched (mapped strip request.name) customer.name
    status ← patched request.status customer.status
    ok (record customer {
      name = name;
      phone = patched_nullable request.phone customer.phone;
      email = patched_nullable (mapped lowered request.email) customer.email;
      tax_id = patched_nullable request.tax_id customer.tax_id;
      status = status;
      metadata_json = patched_fields request.metadata_json customer.metadata_json;
    })

  pub update_customer_decides :
      (request : CustomerUpdateRequest)
      → update_customer company_id customer_id request s ≡ saved (decide_update request)
  unfolding update_customer decide_update
  update_customer_decides request =
      let located = get_customer_lem company_id customer_id s in
      elim (Result-cases (customer_in company_id customer_id s.customers)) [
        | inl (c, h) ↦ elim (Result-cases (patched (mapped strip request.name) c.name)) [
          | inl (name, n) ↦ elim (Result-cases (patched request.status c.status)) [
            | inl (status, t) ↦ ground (arith, located, h, n, t)
            | inr (e, t) ↦ ground (arith, located, h, n, t)
          ]
          | inr (e, n) ↦ ground (arith, located, h, n)
        ]
        | inr (e, h) ↦ ground (arith, located, h)
      ]

  unfoldable pub decide_archive : Result Customer
  decide_archive = do
    customer ← customer_in company_id customer_id s.customers
    ok (record customer { status = CustomerStatus.archived; deleted_at = some s.now })

  pub archive_customer_decides : archive_customer company_id customer_id s ≡ saved decide_archive
  unfolding archive_customer decide_archive
  archive_customer_decides = elim (Result-cases (customer_in company_id customer_id s.customers)) [
    | inl (c, h) ↦ ground (arith, get_customer_lem company_id customer_id s, h)
    | inr (e, h) ↦ ground (arith, get_customer_lem company_id customer_id s, h)
  ]

  module _ (user_id : ℕ) where
    -- What an unassignment deletes, and what it says.
    abbrev pub unassigned : Result Customer → Result (Unit {0}) × Session
    unassigned (ok c) = (
      (if count_if (is_assignment company_id customer_id user_id) s.assignments == 0
          then err (not_found "Customer assignment not found.")
          else ok tt),
      record s {
        assignments =
            select (λ a. not (is_assignment company_id customer_id user_id a)) s.assignments;
      },
    )
    unassigned (err e) = (err e, s)

    pub unassign_customer_lem :
        unassign_customer company_id customer_id user_id s
        ≡ unassigned (customer_in company_id customer_id s.customers)
    unfolding unassign_customer
    unassign_customer_lem = elim (Result-cases (customer_in company_id customer_id s.customers)) [
      | inl (c, h) ↦ ground (arith, get_customer_lem company_id customer_id s, h)
      | inr (e, h) ↦ ground (arith, get_customer_lem company_id customer_id s, h)
    ]
