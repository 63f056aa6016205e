-- ===== src/Tests/Claims.antt =====
-- Runs of the claim service.
use one_loyal.Prelude.{
  ℕ, ◌+◌, ◌≤◌, ◌≡◌, ◌⊎◌, refl, false, inl, inr, Option, none, List, [], ◌∷◌, count_if, arith,
}
use one_loyal.Core.{err, conflict, not_found}
use one_loyal.Models.Claim.{RewardClaim, RewardClaimStatus}
use one_loyal.Db.Exec.{Session}
use one_loyal.Db.Keyed.{Has}
use one_loyal.Events.{emit}
use one_loyal.Claims.Service.{
  ClaimRequest, new_claim, create_claim, approve_claim, reject_claim, fulfill_claim, cancel_claim,
}
use one_loyal.Claims.Creation.{Earned}
use one_loyal.Claims.Decisions.{claim_in}
use one_loyal.Claims.Invariant.{IsClaimState, is_approved_for, is_fulfilled_for}
use one_loyal.Claims.Invariant.Changes.{ClaimStep}
use one_loyal.Claims.Invariant.Kept.{ClaimCall, create, approve, fulfill, perform}
use one_loyal.Claims.Run.{
  run, run-IsClaimState, run_oversells_nothing, call_moves_status, run_keeps_decided,
  failed_call_changes_nothing, create_claim-Earned,
}
use one_loyal.Claims.Stuck.{approved_claim_is_stuck}
use one_loyal.Tests.World.{bag, reserved_cup, earned, wish, claimed, granted_wish, granted}

earned-IsClaimState : IsClaimState earned
earned-IsClaimState = record {
  keyed = tt;
  single = λ company_id campaign_id customer_id. omega arith;
  booked = ground arith;
}

claimed-IsClaimState : IsClaimState claimed
claimed-IsClaimState = record {
  keyed = ground arith;
  single = λ company_id campaign_id customer_id. ground arith;
  booked = ground arith;
}

granted-IsClaimState : IsClaimState granted
granted-IsClaimState = record {
  keyed = ground arith;
  single = λ company_id campaign_id customer_id. ground arith;
  booked = ground arith;
}

abbrev request : ClaimRequest
request = record { campaign_id = 20; customer_id = 10; gift_tier_id = 30; customer_comment = none }

-- Ann asks for the cup, it is approved, and another approval is refused.
abbrev calls : List ClaimCall
calls = create 1 request none none none ∷ approve 1 100 7 none none ∷ approve 1 100 7 none none ∷ []

run-IsClaimState_example : IsClaimState (run calls earned)
run-IsClaimState_example = run-IsClaimState calls earned earned-IsClaimState

run_oversells_nothing_example :
    count_if (is_approved_for 30) (run calls earned).claims
      + count_if (is_fulfilled_for 30) (run calls earned).claims
    ≤ 1
unfolding create_claim approve_claim emit
run_oversells_nothing_example =
    run_oversells_nothing calls earned earned-IsClaimState reserved_cup (inr (inl refl)) 1 tt refl

-- The approval of a claim moves its row.
call_moves_status_example :
    Has wish (perform (approve 1 60 7 none none) claimed).1.claims
    ⊎ ((c' : RewardClaim) × Has c' (perform (approve 1 60 7 none none) claimed).1.claims
        × (c'.id ≡ wish.id)
        × ClaimStep wish.status c'.status)
call_moves_status_example =
    call_moves_status (approve 1 60 7 none none) claimed wish claimed-IsClaimState (inl refl)

abbrev rejected_wish : RewardClaim
rejected_wish = record wish { status = RewardClaimStatus.rejected }

abbrev rejected : Session
rejected = record earned { claims = rejected_wish ∷ [] }

rejected-IsClaimState : IsClaimState rejected
rejected-IsClaimState = record {
  keyed = ground arith;
  single = λ company_id campaign_id customer_id. ground arith;
  booked = ground arith;
}

-- After a rejection Ann may claim again, and the rejected claim stays.
run_keeps_decided_example : Has rejected_wish (run calls rejected).claims
run_keeps_decided_example =
    run_keeps_decided calls rejected rejected_wish rejected-IsClaimState (inl refl) refl

failed_call_changes_nothing_example : (perform (fulfill 1 60 7 none none) claimed).1 ≡ claimed
unfolding fulfill_claim
failed_call_changes_nothing_example =
    failed_call_changes_nothing (fulfill 1 60 7 none none) claimed
      (conflict "Only approved claims can be fulfilled.") refl

create_claim-Earned_example : Earned 1 request none none earned (new_claim 100 1 20 10 30 none)
unfolding create_claim emit
create_claim-Earned_example =
    create_claim-Earned 1 request none none none earned (new_claim 100 1 20 10 30 none) refl

-- The cup is switched off while the claim is approved.
abbrev inactive : Session
inactive = record granted { gift_tiers = bag ∷ record reserved_cup { is_active = false } ∷ [] }

approved_claim_is_stuck_example :
    ((user_id : ℕ)
      → reject_claim 1 60 user_id none none inactive
        ≡ (err (not_found "Gift tier not found."), inactive))
    × ((user_id : ℕ)
        → fulfill_claim 1 60 user_id none none inactive
          ≡ (err (not_found "Gift tier not found."), inactive))
    × ((user_id : Option ℕ)
        → cancel_claim 1 60 user_id none none none inactive
          ≡ (err (not_found "Gift tier not found."), inactive))
unfolding claim_in
approved_claim_is_stuck_example =
    approved_claim_is_stuck 1 60 inactive granted_wish (record reserved_cup { is_active = false })
      refl refl (ground arith) (inr (inl refl)) refl (inr refl) none none
