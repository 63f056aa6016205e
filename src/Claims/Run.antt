-- ===== src/Claims/Run.antt =====
-- Calls of the claim service one after another, each a request of its own.
use one_loyal.Prelude.{
  ℕ, ◌+◌, ◌≤◌, ◌≡◌, ◌⊎◌, refl, sym, false, inl, inr, Option, none, some, List, [], ◌∷◌, count_if,
  arith,
}
use one_loyal.Core.{Error, Result, ok, err}
use one_loyal.Models.Campaign.{GiftTier}
use one_loyal.Models.Claim.{RewardClaim, is_active_status}
use one_loyal.Models.Event.{AuditContext}
use one_loyal.Db.Exec.{Session}
use one_loyal.Db.Keyed.{Has, Has-put, Has-unique, All-Has}
use one_loyal.Db.Query.{put}
use one_loyal.Events.{emit}
use one_loyal.Claims.Service.{save_claim, ClaimRequest, create_claim}
use one_loyal.Claims.Creation.{created, Earned, create_claim_decides, decide_create-Earned}
use one_loyal.Claims.Decisions.{save_booking}
use one_loyal.Claims.Stock.Laws.{IsTracked, IsStrict}
use one_loyal.Claims.Invariant.{IsClaimState, IsBooked, is_approved_for, is_fulfilled_for}
use one_loyal.Claims.Invariant.Changes.{ClaimStep, ClaimStep-active}
use one_loyal.Claims.Invariant.Kept.{
  ClaimCall, perform, ClaimMove, raises, changes, makes, perform-ClaimMove, ClaimMove-IsClaimState,
}

-- The session after the calls, whether they return or raise.
abbrev pub run : List ClaimCall → Session → Session
run [] s = s
run (call ∷ calls) s = run calls (perform call s).1

-- Any calls of the claim service, returning or raising, keep a state sound: keys differ, a customer
-- has at most one pending or approved claim in a campaign, the reserved and fulfilled quantities of
-- each tracked tier are the numbers of its approved and fulfilled claims, and those of a strict
-- tier fit its stock.
pub run-IsClaimState :
    (calls : List ClaimCall) (s : Session) → IsClaimState s → IsClaimState (run calls s)
run-IsClaimState [] s v = v
run-IsClaimState (call ∷ calls) s v =
    run-IsClaimState calls (perform call s).1
      (ClaimMove-IsClaimState s (perform-ClaimMove call s) v)

module _ (calls : List ClaimCall) (s : Session) (v : IsClaimState s) (t : GiftTier)
    (h : Has t (run calls s).gift_tiers) where
  after : IsBooked (run calls s).claims t
  after =
      All-Has (IsBooked (run calls s).claims) t (run calls s).gift_tiers
        (run-IsClaimState calls s v).booked h

  -- After any calls of the claim service from a sound state, for every tier whose mode is "strict"
  -- and whose stock is given, the approved and the fulfilled claims together are no more than the
  -- stock.
  pub run_oversells_nothing :
      (stock : ℕ)
      → IsStrict t.stock_tracking_mode
      → t.stock_quantity ≡ some stock
      → count_if (is_approved_for t.id) (run calls s).claims
          + count_if (is_fulfilled_for t.id) (run calls s).claims
        ≤ stock
  run_oversells_nothing stock k q =
      let strict : IsTracked t.stock_tracking_mode = ground (arith, k) in
      let fits = after.2 k in ground (arith, after.0 strict, after.1 strict, fits)

booked_claims :
    (new : RewardClaim) (b : Option (GiftTier × GiftTier)) (s : Session)
    → (save_claim new (save_booking b s)).claims ≡ put (λ x. x.id) new s.claims
booked_claims new none s = refl
booked_claims new (some p) s = refl

-- What a move does to one claim of the table.
move_of_claim :
    (s : Session) (v : IsClaimState s) (c : RewardClaim) {r : Result RewardClaim} {s' : Session}
    → ClaimMove s r s'
    → Has c s.claims
    → Has c s'.claims
      ⊎ ((c' : RewardClaim) × Has c' s'.claims × (c'.id ≡ c.id) × ClaimStep c.status c'.status)
unfolding emit
move_of_claim s v c (raises e) h = inl h
move_of_claim s v c (changes ch event context sound) h =
    rw (booked_claims ch.new ch.booking s) (elim (Has-put (λ x. x.id) c ch.new s.claims h) [
      | inl there ↦ inl there
      | inr (e, there) ↦
          let same = sound.1 in
          let one : c ≡ ch.old =
            Has-unique (λ x. x.id) s.next_id c ch.old s.claims v.keyed h sound.0 (cc (same.id)) in
          inr (ch.new, there, sym e, rw one (same.step))
    ])
move_of_claim s v c (makes d event context fresh) h = inl (inr h)

-- An action that raises leaves the whole session as it was.
raised :
    (s : Session) (e : Error) {r : Result RewardClaim} {s' : Session}
    → ClaimMove s r s'
    → r ≡ err e
    → s' ≡ s
raised s e (raises _) h = refl
raised s e (changes _ _ _ _) h = cc
raised s e (makes _ _ _ _) h = cc

-- A call of the claim service that raises leaves the whole session as it was: its errors are found
-- before anything is written.
pub failed_call_changes_nothing :
    (call : ClaimCall) (s : Session) (e : Error)
    → (perform call s).0 ≡ err e
    → (perform call s).1 ≡ s
failed_call_changes_nothing call s e = raised s e (perform-ClaimMove call s)

-- In a sound state a call leaves the row of a claim as it is, or moves its status by a step: from
-- pending to approved, rejected or cancelled, from approved to rejected, fulfilled or cancelled.
pub call_moves_status :
    (call : ClaimCall) (s : Session) (c : RewardClaim)
    → IsClaimState s
    → Has c s.claims
    → Has c (perform call s).1.claims
      ⊎ ((c' : RewardClaim) × Has c' (perform call s).1.claims
          × (c'.id ≡ c.id)
          × ClaimStep c.status c'.status)
call_moves_status call s c v h = move_of_claim s v c (perform-ClaimMove call s) h

-- From a sound state, the row of a claim that is rejected, fulfilled or cancelled is never changed
-- again by any calls of the claim service.
pub run_keeps_decided :
    (calls : List ClaimCall) (s : Session) (c : RewardClaim)
    → IsClaimState s
    → Has c s.claims
    → is_active_status c.status ≡ false
    → Has c (run calls s).claims
run_keeps_decided [] s c v h d = h
run_keeps_decided (call ∷ calls) s c v h d =
    let kept : Has c (perform call s).1.claims = elim (call_moves_status call s c v h) [
      | inl there ↦ there
      | inr (c', there, same, step) ↦ absurd (ground (arith, ClaimStep-active step))
    ] in
    run_keeps_decided calls (perform call s).1 c
      (ClaimMove-IsClaimState s (perform-ClaimMove call s) v) kept d

was_decided :
    (company_id : ℕ) (d : Result RewardClaim) (context : Option AuditContext) (s : Session)
    (c : RewardClaim)
    → (created company_id d context s).0 ≡ ok c
    → d ≡ ok c
was_decided company_id (ok a) context s c h = h
was_decided company_id (err e) context s c h = h

-- A claim that is created is pending, for a customer, a campaign and an active tier that exist; the
-- campaign allows claims and is active or completed, the customer's stored progress has reached the
-- tier, and there was no other pending or approved claim of the customer in the campaign.
pub create_claim-Earned :
    (company_id : ℕ) (request : ClaimRequest) (customer_id campaign_id : Option ℕ)
    (context : Option AuditContext) (s : Session) (c : RewardClaim)
    → (create_claim company_id request customer_id campaign_id context s).0 ≡ ok c
    → Earned company_id request customer_id campaign_id s c
create_claim-Earned company_id request customer_id campaign_id context s c h =
    let decided =
      rw (create_claim_decides company_id request customer_id campaign_id s context) at h in
    decide_create-Earned company_id request customer_id campaign_id s c
      (was_decided company_id _ context s c decided)
