-- ===== src/Customers/Service/Assignments.antt =====
-- `assign_customer` and `unassign_customer`: the one undoes the other.
use one_loyal.Prelude.{
  ℕ, suc, ◌≡◌, refl, sym, ap, ◌∙◌, Bool, not, inl, inr, List, [], ◌∷◌, count_if, select, arith,
}
use one_loyal.Core.{ok, Result-cases}
use one_loyal.Core.Results.{returned}
use one_loyal.Models.Customer.{Customer, CustomerAssignment}
use one_loyal.Models.User.{User}
use one_loyal.Db.Exec.{Session}
use one_loyal.Progress.Service.Plan.{customer_in}
use one_loyal.Customers.Service.{is_assignment, new_assignment, assign_customer, unassign_customer}
use one_loyal.Customers.Service.Decisions.{
  unassign_customer_lem, decide_assign, assigned, assign_customer_decides, decide_assign-IsAssigned,
}

module _ {A : Type 0} (p : A → Bool) where
  -- Where none passes, deleting those that pass deletes none.
  select-not : (xs : List A) → count_if p xs ≡ 0 → select (λ x. not (p x)) xs ≡ xs
  select-not [] h = refl
  select-not (x ∷ xs) h = ground (arith, select-not xs)

module _ (company_id customer_id user_id : ℕ) (s : Session) where
  abbrev with_assignment : Session
  with_assignment = record s {
    assignments = new_assignment s.next_id company_id customer_id user_id ∷ s.assignments;
    next_id = suc s.next_id;
  }

  decide_assign-customer :
      (user : User)
      → decide_assign company_id customer_id s user_id ≡ ok user
      → (c : Customer) × (customer_in company_id customer_id s.customers ≡ ok c)
  unfolding decide_assign
  decide_assign-customer user h =
      let (c, there, _) = returned (customer_in company_id customer_id s.customers) _ user h in
      (c, there)

  -- The new assignment passes its own test, and no other does.
  unassign_new :
      (c : Customer)
      → customer_in company_id customer_id s.customers ≡ ok c
      → count_if (is_assignment company_id customer_id user_id) s.assignments ≡ 0
      → unassign_customer company_id customer_id user_id with_assignment
        ≡ (ok tt, record with_assignment { assignments = s.assignments })
  unassign_new c there free =
      let test = is_assignment company_id customer_id user_id in
      let kept = select-not test s.assignments free in
      unassign_customer_lem company_id customer_id with_assignment user_id
      ∙ ground (arith, there, kept)

  -- An assignment that returns is undone by an unassignment: it returns too, and leaves the
  -- assignments as they were.
  pub assign_then_unassign :
      (a : CustomerAssignment) (s' : Session)
      → assign_customer company_id customer_id user_id s ≡ (ok a, s')
      → unassign_customer company_id customer_id user_id s'
        ≡ (ok tt, record s' { assignments = s.assignments })
  assign_then_unassign a s' h =
      let done = sym (assign_customer_decides company_id customer_id s user_id) ∙ h in
      elim (Result-cases (decide_assign company_id customer_id s user_id)) [
        | inl (user, d) ↦
            let (c, there) = decide_assign-customer user d in
            let checked = decide_assign-IsAssigned company_id customer_id s user_id user d in
            let same : with_assignment ≡ s' =
              ap (λ r. r.1) (sym (ap (assigned company_id customer_id s user_id) d) ∙ done) in
            rw (← same) (unassign_new c there checked.new_pair)
        | inr (e, d) ↦ absurd (ground (arith, done, d))
      ]
