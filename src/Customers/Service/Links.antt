-- ===== src/Customers/Service/Links.antt =====
-- The references and assignments of customers, along any calls of `CustomerService`.
use one_loyal.Prelude.{
  ℕ, suc, ◌≤◌, ◌==◌, ◌&&◌, ◌≡◌, refl, Bool, not, inl, inr, String, List, [], ◌∷◌, count_if, select,
  eq_iff, arith, Bool-cases,
}
use one_loyal.Core.{Result, ok, err}
use one_loyal.Core.Results.{refuse_if, returned}
use one_loyal.Models.Customer.{Customer, CustomerAssignment, provider_value}
use one_loyal.Models.User.{User}
use one_loyal.Db.Exec.{Session}
use one_loyal.Db.Keyed.{IsKeyed, IsKeyed-le}
use one_loyal.Events.{emit}
use one_loyal.Progress.Service.Plan.{customer_in}
use one_loyal.Customers.Service.{
  CustomerCreateRequest, CustomerUpdateRequest, CustomerExternalRefCreateRequest, create_customer,
  update_customer, archive_customer, is_ref_of, new_external_ref, create_external_ref,
  is_assignment, assign_customer, unassign_customer,
}
use one_loyal.Customers.Service.Decisions.{
  none_taken-count, same_ref, decide_ref, referred, create_external_ref_decides, saved,
  update_customer_decides, archive_customer_decides, unassigned, unassign_customer_lem, assigned,
  assign_customer_decides, IsAssigned, decide_assign-IsAssigned,
}

-- The keys differ, no company has a reference twice, and no customer a manager twice.
pub record IsLinked (s : Session) : Type 0 where
  pub refs : IsKeyed (λ r. r.id) s.next_id s.external_refs
  pub refs_once :
      (company_id : ℕ) (provider external_id : String)
      → count_if (is_ref_of company_id provider external_id) s.external_refs ≤ 1
  pub pairs : IsKeyed (λ a. a.id) s.next_id s.assignments
  pub pairs_once :
      (company_id customer_id user_id : ℕ)
      → count_if (is_assignment company_id customer_id user_id) s.assignments ≤ 1

module _ {A : Type 0} (p : A → Bool) where
  select-IsKeyed :
      (key : A → ℕ) (n : ℕ) (xs : List A) → IsKeyed key n xs → IsKeyed key n (select p xs)
  select-IsKeyed key n [] v = tt
  select-IsKeyed key n (x ∷ xs) v = elim (Bool-cases (p x)) [
    | inl passes ↦ rw passes (v.0, select-IsKeyed key (key x) xs v.1)
    | inr fails ↦ rw fails (
        IsKeyed-le key (key x) n (select p xs) (omega (arith, v.0))
          (select-IsKeyed key (key x) xs v.1))
  ]

  count_if-select-le : (q : A → Bool) (xs : List A) → count_if q (select p xs) ≤ count_if q xs
  count_if-select-le q [] = omega arith
  count_if-select-le q (x ∷ xs) = ground (arith, count_if-select-le q xs)

-- A call that leaves references and assignments alone.
kept-IsLinked :
    (s s' : Session)
    → s'.external_refs ≡ s.external_refs
    → s'.assignments ≡ s.assignments
    → s.next_id ≤ s'.next_id
    → IsLinked s
    → IsLinked s'
kept-IsLinked s s' r a n v = record {
  refs = rw r (IsKeyed-le (λ x. x.id) s.next_id s'.next_id s.external_refs n v.refs);
  refs_once = λ company_id provider external_id. rw r (v.refs_once company_id provider external_id);
  pairs = rw a (IsKeyed-le (λ x. x.id) s.next_id s'.next_id s.assignments n v.pairs);
  pairs_once = λ company_id customer_id user_id. rw a (v.pairs_once company_id customer_id user_id);
}

create_customer-IsLinked :
    (company_id : ℕ) (request : CustomerCreateRequest) (s : Session)
    → IsLinked s
    → IsLinked (create_customer company_id request s).1
unfolding create_customer emit
create_customer-IsLinked company_id request s v = kept-IsLinked s _ refl refl (omega arith) v

module _ (company_id customer_id : ℕ) (s : Session) (v : IsLinked s) where
  saved-IsLinked : (d : Result Customer) → IsLinked (saved company_id customer_id s d).1
  saved-IsLinked (ok c) = kept-IsLinked s _ refl refl (omega arith) v
  saved-IsLinked (err e) = v

  decide_ref-free :
      (request : CustomerExternalRefCreateRequest) (u : Unit {0})
      → decide_ref company_id customer_id s request ≡ ok u
      → count_if (same_ref company_id customer_id s request) s.external_refs ≡ 0
  unfolding decide_ref
  decide_ref-free request u h =
      let (_, _, h1) = returned (refuse_if (not (request.customer_id == customer_id)) _) _ u h in
      let (_, _, h2) = returned (customer_in company_id customer_id s.customers) _ u h1 in
      none_taken-count (same_ref company_id customer_id s request) s.external_refs _ u h2

  referred-IsLinked :
      (request : CustomerExternalRefCreateRequest) (d : Result (Unit {0}))
      → ((u : Unit {0})
          → d ≡ ok u
          → count_if (same_ref company_id customer_id s request) s.external_refs ≡ 0)
      → IsLinked (referred company_id customer_id s request d).1
  referred-IsLinked request (ok u) f =
      let new = new_external_ref s.next_id company_id customer_id request in
      record {
        refs = (omega arith, v.refs);
        refs_once = λ c p x. elim (Bool-cases (is_ref_of c p x new)) [
          | inl same ↦
              let e : (company_id ≡ c)
                  × (provider_value request.provider ≡ p)
                  × (request.external_id ≡ x) =
                ground (
                  arith,
                  same,
                  eq_iff (provider_value request.provider) p,
                  eq_iff request.external_id x,
                ) in
              let none_yet : count_if (is_ref_of c p x) s.external_refs ≡ 0 =
                rw (← e.0, ← e.1, ← e.2) (f u refl) in
              rw (same, none_yet) (omega arith)
          | inr differs ↦ rw differs (omega (arith, v.refs_once c p x))
        ];
        pairs =
            IsKeyed-le (λ a. a.id) s.next_id (suc s.next_id) s.assignments (omega arith) v.pairs;
        pairs_once = v.pairs_once;
      }
  referred-IsLinked request (err e) f = v

  module _ (user_id : ℕ) where
    assigned-IsLinked :
        (d : Result User)
        → ((user : User) → d ≡ ok user → IsAssigned company_id customer_id s user_id user)
        → IsLinked (assigned company_id customer_id s user_id d).1
    assigned-IsLinked (ok user) f = record {
      refs = IsKeyed-le (λ r. r.id) s.next_id (suc s.next_id) s.external_refs (omega arith) v.refs;
      refs_once = v.refs_once;
      pairs = (omega arith, v.pairs);
      pairs_once = λ c k m.
          elim (Bool-cases (company_id == c && customer_id == k && user_id == m)) [
            | inl same ↦
                let e : (company_id ≡ c) × (customer_id ≡ k) × (user_id ≡ m) =
                  ground (arith, same) in
                let none_yet : count_if (is_assignment c k m) s.assignments ≡ 0 =
                  rw (← e.0, ← e.1, ← e.2) ((f user refl).new_pair) in
                rw (same, none_yet) (omega arith)
            | inr differs ↦ rw differs (omega (arith, v.pairs_once c k m))
          ];
    }
    assigned-IsLinked (err e) f = v

    unassigned-IsLinked :
        (d : Result Customer) → IsLinked (unassigned company_id customer_id s user_id d).1
    unassigned-IsLinked (ok c) =
        let other =
          λ (a : CustomerAssignment). not (is_assignment company_id customer_id user_id a) in
        record {
          refs = v.refs;
          refs_once = v.refs_once;
          pairs = select-IsKeyed other (λ a. a.id) s.next_id s.assignments v.pairs;
          pairs_once = λ c' k m. omega (
            arith,
            count_if-select-le other (is_assignment c' k m) s.assignments,
            v.pairs_once c' k m,
          );
        }
    unassigned-IsLinked (err e) = v

pub data CustomerCall : Type 0 where
  create : ℕ → CustomerCreateRequest → CustomerCall
  update : ℕ → ℕ → CustomerUpdateRequest → CustomerCall
  archive : ℕ → ℕ → CustomerCall
  refer : ℕ → ℕ → CustomerExternalRefCreateRequest → CustomerCall
  assign unassign : ℕ → ℕ → ℕ → CustomerCall

abbrev pub perform : CustomerCall → Session → Session
perform (create company_id request) s = (create_customer company_id request s).1
perform (update company_id customer_id request) s =
    (update_customer company_id customer_id request s).1
perform (archive company_id customer_id) s = (archive_customer company_id customer_id s).1
perform (refer company_id customer_id request) s =
    (create_external_ref company_id customer_id request s).1
perform (assign company_id customer_id user_id) s =
    (assign_customer company_id customer_id user_id s).1
perform (unassign company_id customer_id user_id) s =
    (unassign_customer company_id customer_id user_id s).1

abbrev pub run : List CustomerCall → Session → Session
run [] s = s
run (call ∷ calls) s = run calls (perform call s)

call-IsLinked : (call : CustomerCall) (s : Session) → IsLinked s → IsLinked (perform call s)
call-IsLinked (create company_id request) s v = create_customer-IsLinked company_id request s v
call-IsLinked (update company_id customer_id request) s v =
    rw (perform, update_customer_decides company_id customer_id s request)
      (saved-IsLinked company_id customer_id s v _)
call-IsLinked (archive company_id customer_id) s v =
    rw (perform, archive_customer_decides company_id customer_id s)
      (saved-IsLinked company_id customer_id s v _)
call-IsLinked (refer company_id customer_id request) s v =
    rw (perform, create_external_ref_decides company_id customer_id s request)
      (referred-IsLinked company_id customer_id s v request _
        (decide_ref-free company_id customer_id s v request))
call-IsLinked (assign company_id customer_id user_id) s v =
    rw (perform, assign_customer_decides company_id customer_id s user_id)
      (assigned-IsLinked company_id customer_id s v user_id _
        (decide_assign-IsAssigned company_id customer_id s user_id))
call-IsLinked (unassign company_id customer_id user_id) s v =
    rw (perform, unassign_customer_lem company_id customer_id s user_id)
      (unassigned-IsLinked company_id customer_id s v user_id _)

-- Any calls on customers, refused ones among them, keep the keys of references and assignments
-- apart, make no second reference of one company, provider and external identifier, and assign no
-- customer to one sales manager twice.
pub run-IsLinked : (calls : List CustomerCall) (s : Session) → IsLinked s → IsLinked (run calls s)
run-IsLinked [] s v = v
run-IsLinked (call ∷ calls) s v = run-IsLinked calls (perform call s) (call-IsLinked call s v)
