-- ===== src/Tests/Customers.antt =====
-- Calls on a customer with a sales manager.
use one_loyal.Prelude.{◌≡◌, refl, none, some, List, [], ◌∷◌, arith}
use one_loyal.Core.{ok}
use one_loyal.Models.User.{User, UserRole, UserStatus}
use one_loyal.Models.Customer.{CustomerAssignment, ExternalProvider}
use one_loyal.Db.Exec.{Session}
use one_loyal.Customers.Service.{
  CustomerExternalRefCreateRequest, assign_customer, unassign_customer, new_assignment,
}
use one_loyal.Customers.Service.Links.{
  IsLinked, CustomerCall, run, refer, assign, archive, run-IsLinked,
}
use one_loyal.Customers.Service.Assignments.{assign_then_unassign}
use one_loyal.Tests.World.{start}

abbrev max : User
max = record {
  id = 80;
  company_id = some 1;
  email = "max@example.com";
  full_name = "Max";
  password_hash = "hash";
  role = UserRole.sales_manager;
  status = UserStatus.active;
  last_login_at = none;
}

abbrev staffed : Session
staffed = record start { users = max ∷ [] }

abbrev anns_number : CustomerExternalRefCreateRequest
anns_number = record {
  customer_id = 10;
  provider = ExternalProvider.one_c;
  external_id = "a";
  external_name = none;
  external_phone = none;
  external_email = none;
  raw_payload_json = none;
}

-- The second reference is refused.
abbrev day : List CustomerCall
day = refer 1 10 anns_number ∷ refer 1 10 anns_number ∷ assign 1 10 80 ∷ archive 1 10 ∷ []

run-IsLinked_example : IsLinked (run day staffed)
run-IsLinked_example = run-IsLinked day staffed (record {
  refs = tt;
  refs_once = λ c p x. omega arith;
  pairs = tt;
  pairs_once = λ c k m. omega arith;
})

abbrev anns_manager : CustomerAssignment
anns_manager = new_assignment 100 1 10 80

abbrev with_manager : Session
with_manager = record staffed { assignments = anns_manager ∷ []; next_id = 101 }

max_is_assigned : assign_customer 1 10 80 staffed ≡ (ok anns_manager, with_manager)
unfolding assign_customer one_loyal.Progress.Service.get_customer
max_is_assigned = refl

assign_then_unassign_example :
    unassign_customer 1 10 80 with_manager ≡ (ok tt, record with_manager { assignments = [] })
assign_then_unassign_example =
    assign_then_unassign 1 10 80 staffed anns_manager with_manager max_is_assigned
