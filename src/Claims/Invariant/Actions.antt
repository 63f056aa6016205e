-- ===== src/Claims/Invariant/Actions.antt =====
-- The decisions of the four actions are sound changes.
use one_loyal.Prelude.{
  ℕ, ◌+◌, ◌==◌, ◌&&◌, ◌≡◌, refl, String, Bool, true, not, inl, inr, Option, none, some, List, bit,
  arith,
}
use one_loyal.Core.{Result, ok}
use one_loyal.Models.Campaign.{GiftTier}
use one_loyal.Models.Claim.{
  RewardClaim, RewardClaimStatus, is_active_status, is_pending, is_approved, is_fulfilled,
}
use one_loyal.Db.Exec.{Session}
use one_loyal.Db.Query.{scalar_one_or_none, is_null}
use one_loyal.Db.Keyed.{Has, found_row}
use one_loyal.Claims.Stock.{reserve_stock, release_reserved_stock, fulfill_reserved_stock}
use one_loyal.Claims.Stock.Laws.{
  Books, reserve_stock-Books, release_reserved_stock-Books, fulfill_reserved_stock-Books,
}
use one_loyal.Claims.Decisions.{
  Change, claim_in, tier_in, book, book_release, decide_approve, decide_reject, decide_fulfill,
  decide_cancel,
}
use one_loyal.Claims.Invariant.Changes.{
  ClaimStep, approves, rejects_pending, rejects_approved, fulfills, cancels_pending,
  cancels_approved, SameClaim, Follows, IsSound,
}
use one_loyal.Prelude.{select, Bool-cases}
use one_loyal.Claims.Service.{is_of_other}
use one_loyal.Core.Results.{◌>>=◌, refuse_if, returned, required_row-ok, passed_guard}

-- A claim that an action finds is a row of the table, and is not deleted.
claim_found :
    (company_id claim_id : ℕ) (claims : List RewardClaim) (c : RewardClaim)
    → claim_in company_id claim_id claims ≡ ok c
    → Has c claims × (is_null c.deleted_at ≡ true)
unfolding claim_in
claim_found company_id claim_id claims c h =
    let test : RewardClaim → Bool =
      λ x. x.id == claim_id && x.company_id == company_id && is_null x.deleted_at in
    let row =
      found_row test claims c (required_row-ok (scalar_one_or_none (select test claims)) _ c h) in
    (row.0, ground (arith, row.1))

tier_found :
    (company_id campaign_id tier_id : ℕ) (tiers : List GiftTier) (t : GiftTier)
    → tier_in company_id campaign_id tier_id tiers ≡ ok t
    → Has t tiers × (t.id ≡ tier_id)
unfolding tier_in
tier_found company_id campaign_id tier_id tiers t h =
    let test : GiftTier → Bool = λ x.
      x.id == tier_id
      && x.company_id == company_id
      && x.campaign_id == campaign_id
      && is_null x.deleted_at
      && x.is_active in
    let row =
      found_row test tiers t (required_row-ok (scalar_one_or_none (select test tiers)) _ t h) in
    (row.0, ground (arith, row.1))

-- A booking is a change of the claim's tier.
book_found :
    (change : GiftTier → Result GiftTier) (company_id : ℕ) (c : RewardClaim) (s : Session)
    (t t' : GiftTier)
    → book change company_id c s ≡ ok (t, t')
    → Has t s.gift_tiers × (t.id ≡ c.gift_tier_id) × (change t ≡ ok t')
unfolding book
book_found change company_id c s t t' h =
    let (u, found, h1) =
      returned (tier_in company_id c.campaign_id c.gift_tier_id s.gift_tiers) _ (t, t') h in
    let (u', changed, h2) = returned (change u) _ (t, t') h1 in
    let row = tier_found company_id c.campaign_id c.gift_tier_id s.gift_tiers u found in
    let same : u ≡ t = ground (arith, h2) in
    let same' : u' ≡ t' = ground (arith, h2) in
    (rw (← same) (row.0), rw (← same) (row.1), rw (← same, ← same') changed)

-- The counters follow the claim if its status moves as the change of the stock says.
Books-Follows :
    (r_up r_down f_up : ℕ) (t t' : GiftTier) (c new : RewardClaim)
    → Books r_up r_down f_up t t'
    → t.id ≡ c.gift_tier_id
    → SameClaim c new
    → is_null c.deleted_at ≡ true
    → bit (is_approved c.status) + r_up ≡ bit (is_approved new.status) + r_down
    → bit (is_fulfilled c.status) + f_up ≡ bit (is_fulfilled new.status)
    → Follows c new t t'
Books-Follows r_up r_down f_up t t' c new b here same live ap fu = (
  b.same.id,
  here,
  b.same.mode,
  b.same.stock,
  (λ k. ground (arith, b.reserved k, same.gift_tier_id, same.deleted_at)),
  (λ k. ground (arith, b.fulfilled k, same.gift_tier_id, same.deleted_at)),
  b.fits,
)

-- What the guards of the actions say of a claim's status, in numbers.
pending_bits :
    (status : RewardClaimStatus)
    → is_pending status ≡ true
    → (bit (is_active_status status) ≡ 1)
      × (bit (is_approved status) ≡ 0)
      × (bit (is_fulfilled status) ≡ 0)
pending_bits status h = ground arith

approved_bits :
    (status : RewardClaimStatus)
    → is_approved status ≡ true
    → (bit (is_active_status status) ≡ 1)
      × (bit (is_approved status) ≡ 1)
      × (bit (is_fulfilled status) ≡ 0)
approved_bits status h = ground arith

active_bits :
    (status : RewardClaimStatus)
    → is_active_status status ≡ true
    → (bit (is_active_status status) ≡ 1) × (bit (is_fulfilled status) ≡ 0)
active_bits status h = ground arith

approve_step :
    (status : RewardClaimStatus)
    → is_pending status ≡ true
    → ClaimStep status RewardClaimStatus.approved
approve_step RewardClaimStatus.pending h = approves
approve_step _ h = cc

fulfill_step :
    (status : RewardClaimStatus)
    → is_approved status ≡ true
    → ClaimStep status RewardClaimStatus.fulfilled
fulfill_step RewardClaimStatus.approved h = fulfills
fulfill_step _ h = cc

reject_step :
    (status : RewardClaimStatus)
    → is_active_status status ≡ true
    → ClaimStep status RewardClaimStatus.rejected
reject_step RewardClaimStatus.pending h = rejects_pending
reject_step RewardClaimStatus.approved h = rejects_approved
reject_step _ h = cc

cancel_step :
    (status : RewardClaimStatus)
    → is_active_status status ≡ true
    → ClaimStep status RewardClaimStatus.cancelled
cancel_step RewardClaimStatus.pending h = cancels_pending
cancel_step RewardClaimStatus.approved h = cancels_approved
cancel_step _ h = cc

module _ (company_id claim_id : ℕ) (s : Session) where
  transported : (made ch : Change) → ok made ≡ ok ch → IsSound s made → IsSound s ch
  transported made ch h sound = let e : made ≡ ch = cc in rw (← e) sound

  -- An action that books a change of the stock.
  booked-IsSound :
      (change : GiftTier → Result GiftTier) (r_up r_down f_up : ℕ)
      → ((t t' : GiftTier) → change t ≡ ok t' → Books r_up r_down f_up t t')
      → (c new : RewardClaim) (pair : GiftTier × GiftTier)
      → claim_in company_id claim_id s.claims ≡ ok c
      → book change company_id c s ≡ ok pair
      → SameClaim c new
      → bit (is_approved c.status) + r_up ≡ bit (is_approved new.status) + r_down
      → bit (is_fulfilled c.status) + f_up ≡ bit (is_fulfilled new.status)
      → IsSound s (record { old = c; new = new; booking = some pair })
  booked-IsSound change r_up r_down f_up books c new (t, t') found booked same ap fu =
      let row = claim_found company_id claim_id s.claims c found in
      let (there, here, changed) = book_found change company_id c s t t' booked in
      (
        row.0,
        same,
        (
          there,
          Books-Follows r_up r_down f_up t t' c new (books t t' changed) here same row.1 ap fu,
        ),
      )

  pub decide_approve-IsSound :
      (ch : Change) (user_id : ℕ) (comment : Option String)
      → decide_approve company_id claim_id s user_id comment ≡ ok ch
      → IsSound s ch
  unfolding decide_approve
  decide_approve-IsSound ch user_id comment h =
      let (c, found, h1) = returned (claim_in company_id claim_id s.claims) _ ch h in
      let (u, passed, h2) = returned (refuse_if (not (is_pending c.status)) _) _ ch h1 in
      let (pair, booked, h3) = returned (book reserve_stock company_id c s) _ ch h2 in
      let guard = passed_guard (is_pending c.status) _ u passed in
      transported _ ch h3 (
        booked-IsSound reserve_stock 1 0 0 reserve_stock-Books c _ pair found booked
          (record {
            id = refl;
            company_id = refl;
            campaign_id = refl;
            customer_id = refl;
            gift_tier_id = refl;
            deleted_at = refl;
            step = approve_step c.status guard;
            active = omega (arith, (pending_bits c.status guard).0);
          })
          (omega (arith, (pending_bits c.status guard).1))
          (omega (arith, (pending_bits c.status guard).2)))

  pub decide_fulfill-IsSound :
      (ch : Change) (user_id : ℕ) (comment : Option String)
      → decide_fulfill company_id claim_id s user_id comment ≡ ok ch
      → IsSound s ch
  unfolding decide_fulfill
  decide_fulfill-IsSound ch user_id comment h =
      let (c, found, h1) = returned (claim_in company_id claim_id s.claims) _ ch h in
      let (u, passed, h2) = returned (refuse_if (not (is_approved c.status)) _) _ ch h1 in
      let (pair, booked, h3) = returned (book fulfill_reserved_stock company_id c s) _ ch h2 in
      let guard = passed_guard (is_approved c.status) _ u passed in
      transported _ ch h3 (
        booked-IsSound fulfill_reserved_stock 0 1 1 fulfill_reserved_stock-Books c _ pair found
          booked
          (record {
            id = refl;
            company_id = refl;
            campaign_id = refl;
            customer_id = refl;
            gift_tier_id = refl;
            deleted_at = refl;
            step = fulfill_step c.status guard;
            active = omega arith;
          })
          (omega (arith, (approved_bits c.status guard).1))
          (omega (arith, (approved_bits c.status guard).2)))

  -- An action that gives back the reservation of an approved claim, and books nothing of another.
  release-IsSound :
      (c new : RewardClaim) (booking : Option (GiftTier × GiftTier))
      → claim_in company_id claim_id s.claims ≡ ok c
      → book_release company_id c s ≡ ok booking
      → SameClaim c new
      → bit (is_approved new.status) ≡ 0
      → bit (is_fulfilled c.status) ≡ bit (is_fulfilled new.status)
      → IsSound s (record { old = c; new = new; booking = booking })
  unfolding book_release
  release-IsSound c new booking found released same ap fu =
      elim (Bool-cases (is_approved c.status)) [
        | inl approved ↦
            let booked : (book release_reserved_stock company_id c s >>= λ pair. ok (some pair))
                ≡ ok booking =
              rw approved at released in
            let (pair, booked', h) =
              returned (book release_reserved_stock company_id c s) _ booking booked in
            let e : booking ≡ some pair = cc in
            rw e (
              booked-IsSound release_reserved_stock 0 1 0 release_reserved_stock-Books c new pair
                found booked' same (rw approved (omega arith)) (omega arith))
        | inr other ↦
            let e : booking ≡ none = ground (arith, released) in
            rw e (
              (claim_found company_id claim_id s.claims c found).0,
              same,
              (
                (λ tier_id. ground (arith, same.gift_tier_id, same.deleted_at)),
                (λ tier_id. ground (arith, same.gift_tier_id, same.deleted_at)),
              ),
            )
      ]

  pub decide_reject-IsSound :
      (ch : Change) (user_id : ℕ) (comment : Option String)
      → decide_reject company_id claim_id s user_id comment ≡ ok ch
      → IsSound s ch
  unfolding decide_reject
  decide_reject-IsSound ch user_id comment h =
      let (c, found, h1) = returned (claim_in company_id claim_id s.claims) _ ch h in
      let (u, passed, h2) = returned (refuse_if (not (is_active_status c.status)) _) _ ch h1 in
      let (booking, released, h3) = returned (book_release company_id c s) _ ch h2 in
      let passes = passed_guard (is_active_status c.status) _ u passed in
      let guard = active_bits c.status passes in
      transported _ ch h3 (
        release-IsSound c _ booking found released
          (record {
            id = refl;
            company_id = refl;
            campaign_id = refl;
            customer_id = refl;
            gift_tier_id = refl;
            deleted_at = refl;
            step = reject_step c.status passes;
            active = omega arith;
          })
          refl (guard.1))

  pub decide_cancel-IsSound :
      (ch : Change) (user_id customer_id : Option ℕ) (comment : Option String)
      → decide_cancel company_id claim_id s user_id customer_id comment ≡ ok ch
      → IsSound s ch
  unfolding decide_cancel
  decide_cancel-IsSound ch user_id customer_id comment h =
      let (c, found, h1) = returned (claim_in company_id claim_id s.claims) _ ch h in
      let (_, _, h2) = returned (refuse_if (is_of_other customer_id c) _) _ ch h1 in
      let (u, passed, h3) = returned (refuse_if (not (is_active_status c.status)) _) _ ch h2 in
      let (_, _, h4) =
        returned (refuse_if (not (is_null customer_id) && not (is_pending c.status)) _) _ ch h3 in
      let (booking, released, h5) = returned (book_release company_id c s) _ ch h4 in
      let passes = passed_guard (is_active_status c.status) _ u passed in
      let guard = active_bits c.status passes in
      transported _ ch h5 (
        release-IsSound c _ booking found released
          (record {
            id = refl;
            company_id = refl;
            campaign_id = refl;
            customer_id = refl;
            gift_tier_id = refl;
            deleted_at = refl;
            step = cancel_step c.status passes;
            active = omega arith;
          })
          refl (guard.1))
