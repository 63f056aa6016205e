-- ===== src/Claims/Invariant/Kept.antt =====
-- The calls of the claim service as moves of the session, and the invariant under them.
use one_loyal.Prelude.{ℕ, suc, ◌≡◌, refl, String, true, Option, ◌∷◌, count_if, All-map, arith}
use one_loyal.Core.{Error, Result, ok, err}
use one_loyal.Models.Claim.{RewardClaim, is_pending}
use one_loyal.Models.Event.{AuditContext}
use one_loyal.Db.Exec.{Session, Exec}
use one_loyal.Db.Keyed.{IsKeyed-le}
use one_loyal.Events.{EventArgs, emit}
use one_loyal.Claims.Service.{
  ClaimRequest, is_active_claim, create_claim, approve_claim, reject_claim, fulfill_claim,
  cancel_claim, claim_event,
}
use one_loyal.Claims.Creation.{
  decide_create, create_claim_decides, created, with_claim, decide_create-Earned,
}
use one_loyal.Claims.Decisions.{
  Change, conclude, apply_change, decide_approve, decide_reject, decide_fulfill, decide_cancel,
}
use one_loyal.Claims.Decisions.Agree.{
  approve_claim_decides, reject_claim_decides, fulfill_claim_decides, cancel_claim_decides,
}
use one_loyal.Claims.Invariant.{IsClaimState, IsBooked}
use one_loyal.Claims.Invariant.Changes.{IsSound, apply_change-IsClaimState}
use one_loyal.Claims.Invariant.Actions.{
  decide_approve-IsSound, decide_reject-IsSound, decide_fulfill-IsSound, decide_cancel-IsSound,
}

-- The calls of the service, with their arguments.
pub data ClaimCall : Type 0 where
  create : ℕ → ClaimRequest → Option ℕ → Option ℕ → Option AuditContext → ClaimCall
  approve reject fulfill : ℕ → ℕ → ℕ → Option String → Option AuditContext → ClaimCall
  cancel : ℕ → ℕ → Option ℕ → Option ℕ → Option String → Option AuditContext → ClaimCall

abbrev pub perform : ClaimCall → Exec RewardClaim
perform (create company_id request customer_id campaign_id context) =
    create_claim company_id request customer_id campaign_id context
perform (approve company_id claim_id user_id comment context) =
    approve_claim company_id claim_id user_id comment context
perform (reject company_id claim_id user_id comment context) =
    reject_claim company_id claim_id user_id comment context
perform (fulfill company_id claim_id user_id comment context) =
    fulfill_claim company_id claim_id user_id comment context
perform (cancel company_id claim_id user_id customer_id comment context) =
    cancel_claim company_id claim_id user_id customer_id comment context

-- A claim that may be added: pending, with a new key, and no active one beside it.
pub record IsFresh (s : Session) (c : RewardClaim) : Type 0 where
  pub key : c.id ≡ s.next_id
  pub pending : is_pending c.status ≡ true
  pub alone : count_if (is_active_claim c.company_id c.campaign_id c.customer_id) s.claims ≡ 0

-- What a call makes of a session: an error and nothing, one sound change, or one new claim.
pub data ClaimMove (s : Session) : Result RewardClaim → Session → Type 0 where
  raises : (e : Error) → ClaimMove s (err e) s
  changes :
      (ch : Change) (event : EventArgs) (context : Option AuditContext)
      → IsSound s ch
      → ClaimMove s (ok ch.new) (emit event context (apply_change ch s)).1
  makes :
      (c : RewardClaim) (event : EventArgs) (context : Option AuditContext)
      → IsFresh s c
      → ClaimMove s (ok c) (emit event context (with_claim c s)).1

conclude-ClaimMove :
    (d : Result Change) (event : RewardClaim → EventArgs) (context : Option AuditContext)
    (s : Session)
    → ((ch : Change) → d ≡ ok ch → IsSound s ch)
    → ClaimMove s (conclude d event context s).0 (conclude d event context s).1
conclude-ClaimMove (ok ch) event context s sound = changes ch (event ch.new) context (sound ch refl)
conclude-ClaimMove (err e) event context s sound = raises e

created-ClaimMove :
    (company_id : ℕ) (d : Result RewardClaim) (context : Option AuditContext) (s : Session)
    → ((c : RewardClaim) → d ≡ ok c → IsFresh s c)
    → ClaimMove s (created company_id d context s).0 (created company_id d context s).1
created-ClaimMove company_id (ok c) context s f =
    makes c (claim_event company_id "reward_claim_created" c) context (f c refl)
created-ClaimMove company_id (err e) context s f = raises e

decide_create-IsFresh :
    (company_id : ℕ) (request : ClaimRequest) (customer_id campaign_id : Option ℕ) (s : Session)
    (c : RewardClaim)
    → decide_create company_id request customer_id campaign_id s ≡ ok c
    → IsFresh s c
decide_create-IsFresh company_id request customer_id campaign_id s c h =
    let e = decide_create-Earned company_id request customer_id campaign_id s c h in
    rw (e.is_made)
      (record { key = refl; pending = refl; alone = rw (e.here) at (e.checks.no_other) })

-- Every call is such a move.
pub perform-ClaimMove :
    (call : ClaimCall) (s : Session) → ClaimMove s (perform call s).0 (perform call s).1
perform-ClaimMove (create company_id request customer_id campaign_id context) s =
    rw (create_claim_decides company_id request customer_id campaign_id s context) (
      created-ClaimMove company_id (decide_create company_id request customer_id campaign_id s)
        context s (decide_create-IsFresh company_id request customer_id campaign_id s))
perform-ClaimMove (approve company_id claim_id user_id comment context) s =
    rw (approve_claim_decides company_id claim_id comment context s user_id) (
      conclude-ClaimMove (decide_approve company_id claim_id s user_id comment) _ context s
        (λ ch. decide_approve-IsSound company_id claim_id s ch user_id comment))
perform-ClaimMove (reject company_id claim_id user_id comment context) s =
    rw (reject_claim_decides company_id claim_id comment context s user_id) (
      conclude-ClaimMove (decide_reject company_id claim_id s user_id comment) _ context s
        (λ ch. decide_reject-IsSound company_id claim_id s ch user_id comment))
perform-ClaimMove (fulfill company_id claim_id user_id comment context) s =
    rw (fulfill_claim_decides company_id claim_id comment context s user_id) (
      conclude-ClaimMove (decide_fulfill company_id claim_id s user_id comment) _ context s
        (λ ch. decide_fulfill-IsSound company_id claim_id s ch user_id comment))
perform-ClaimMove (cancel company_id claim_id user_id customer_id comment context) s =
    rw (cancel_claim_decides company_id claim_id comment context s user_id customer_id) (
      conclude-ClaimMove (decide_cancel company_id claim_id s user_id customer_id comment) _ context
        s (λ ch. decide_cancel-IsSound company_id claim_id s ch user_id customer_id comment))

-- An event takes the next identifier and touches no claim and no tier.
emit-IsClaimState :
    (args : EventArgs) (context : Option AuditContext) (s : Session)
    → IsClaimState s
    → IsClaimState (emit args context s).1
unfolding emit
emit-IsClaimState args context s v = record {
  keyed = IsKeyed-le (λ c. c.id) s.next_id (suc s.next_id) s.claims (omega arith) v.keyed;
  single = v.single;
  booked = v.booked;
}

with_claim-IsClaimState :
    (c : RewardClaim) (s : Session) → IsFresh s c → IsClaimState s → IsClaimState (with_claim c s)
with_claim-IsClaimState c s f v = record {
  keyed = (rw (f.key) (omega arith), rw (f.key) (v.keyed));
  single = λ company_id campaign_id customer_id.
      ground (arith, f.pending, f.alone, v.single company_id campaign_id customer_id);
  booked =
      All-map (IsBooked s.claims) (IsBooked (c ∷ s.claims)) s.gift_tiers
        (λ t b. ground (arith, f.pending)) v.booked;
}

pub ClaimMove-IsClaimState :
    (s : Session) {r : Result RewardClaim} {s' : Session}
    → ClaimMove s r s'
    → IsClaimState s
    → IsClaimState s'
ClaimMove-IsClaimState s (raises e) v = v
ClaimMove-IsClaimState s (changes ch event context sound) v =
    emit-IsClaimState event context (apply_change ch s) (apply_change-IsClaimState s ch v sound)
ClaimMove-IsClaimState s (makes c event context fresh) v =
    emit-IsClaimState event context (with_claim c s) (with_claim-IsClaimState c s fresh v)
