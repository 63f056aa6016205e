-- ===== src/Claims/Invariant/Changes.antt =====
-- A sound change of one claim and the stock of its tier keeps the invariant.
use one_loyal.Prelude.{
  ℕ, ◌+◌, ◌≤◌, ◌==◌, ◌≡◌, ◌≢◌, ◌∙◌, sym, refl, Bool, true, inl, inr, Option, none, some, List, [],
  ◌∷◌, count_if, bit, All, All-map, arith, Bool-cases,
}
use one_loyal.Models.Campaign.{GiftTier}
use one_loyal.Models.Claim.{RewardClaim, RewardClaimStatus, is_active_status}
use one_loyal.Db.Exec.{Session}
use one_loyal.Db.Query.{put}
use one_loyal.Db.Keyed.{Has, count_if-put, put-IsKeyed, All-Has}
use one_loyal.Claims.Service.{is_active_claim, save_claim}
use one_loyal.Claims.Decisions.{Change, apply_change, save_booking}
use one_loyal.Claims.Stock.Laws.{FitsStock, IsTracked, IsStrict}
use one_loyal.Claims.Invariant.{is_approved_for, is_fulfilled_for, IsBooked, IsClaimState}

-- The steps of a claim's status.
pub data ClaimStep : RewardClaimStatus → RewardClaimStatus → Type 0 where
  approves : ClaimStep RewardClaimStatus.pending RewardClaimStatus.approved
  rejects_pending : ClaimStep RewardClaimStatus.pending RewardClaimStatus.rejected
  rejects_approved : ClaimStep RewardClaimStatus.approved RewardClaimStatus.rejected
  fulfills : ClaimStep RewardClaimStatus.approved RewardClaimStatus.fulfilled
  cancels_pending : ClaimStep RewardClaimStatus.pending RewardClaimStatus.cancelled
  cancels_approved : ClaimStep RewardClaimStatus.approved RewardClaimStatus.cancelled

pub ClaimStep-active : {a b : RewardClaimStatus} → ClaimStep a b → is_active_status a ≡ true
ClaimStep-active approves = refl
ClaimStep-active rejects_pending = refl
ClaimStep-active rejects_approved = refl
ClaimStep-active fulfills = refl
ClaimStep-active cancels_pending = refl
ClaimStep-active cancels_approved = refl

-- The claim keeps all but its status and its remarks, and does not become active again.
pub record SameClaim (old new : RewardClaim) : Type 0 where
  pub id : new.id ≡ old.id
  pub company_id : new.company_id ≡ old.company_id
  pub campaign_id : new.campaign_id ≡ old.campaign_id
  pub customer_id : new.customer_id ≡ old.customer_id
  pub gift_tier_id : new.gift_tier_id ≡ old.gift_tier_id
  pub deleted_at : new.deleted_at ≡ old.deleted_at
  pub step : ClaimStep old.status new.status
  pub active : bit (is_active_status new.status) ≤ bit (is_active_status old.status)

-- The counters of the tier move as the claim moves between the states that they count.
abbrev pub Follows : RewardClaim → RewardClaim → GiftTier → GiftTier → Type 0
Follows old new t t' =
    (t'.id ≡ t.id)
    × (t.id ≡ old.gift_tier_id)
    × (t'.stock_tracking_mode ≡ t.stock_tracking_mode)
    × (t'.stock_quantity ≡ t.stock_quantity)
    × (IsTracked t.stock_tracking_mode
        → t'.reserved_quantity + bit (is_approved_for t.id old)
          ≡ t.reserved_quantity + bit (is_approved_for t.id new))
    × (IsTracked t.stock_tracking_mode
        → t'.fulfilled_quantity + bit (is_fulfilled_for t.id old)
          ≡ t.fulfilled_quantity + bit (is_fulfilled_for t.id new))
    × (IsStrict t.stock_tracking_mode
        → FitsStock t.stock_quantity (t.reserved_quantity + t.fulfilled_quantity)
        → FitsStock t'.stock_quantity (t'.reserved_quantity + t'.fulfilled_quantity))

-- With no booking the claim neither enters nor leaves the states that the counters count.
abbrev pub BookingFollows :
    Session → RewardClaim → RewardClaim → Option (GiftTier × GiftTier) → Type 0
BookingFollows s old new none =
    ((tier_id : ℕ) → is_approved_for tier_id new ≡ is_approved_for tier_id old)
    × ((tier_id : ℕ) → is_fulfilled_for tier_id new ≡ is_fulfilled_for tier_id old)
BookingFollows s old new (some (t, t')) = Has t s.gift_tiers × Follows old new t t'

abbrev pub IsSound : Session → Change → Type 0
IsSound s ch =
    Has ch.old s.claims × SameClaim ch.old ch.new × BookingFollows s ch.old ch.new ch.booking

All-put_where {κ μ} :
    {A : Type 0} (P : A → Type κ) (Q : A → Type μ) (key : A → ℕ) (r : A) (xs : List A)
    → ((x : A) → key x ≢ key r → P x → Q x)
    → Q r
    → All P xs
    → All Q (put key r xs)
All-put_where P Q key r [] f q a = tt
All-put_where P Q key r (x ∷ xs) f q a = elim (Bool-cases (key x == key r)) [
  | inl same ↦ rw same (q, All-put_where P Q key r xs f q a.1)
  | inr other ↦ rw other (f x (λ e. absurd (ground arith)) a.0, All-put_where P Q key r xs f q a.1)
]

module _ (s : Session) (v : IsClaimState s) (old new : RewardClaim) (h : Has old s.claims)
    (same : SameClaim old new) where
  abbrev claims' : List RewardClaim
  claims' = put (λ c. c.id) new s.claims

  counted :
      (p : RewardClaim → Bool)
      → count_if p claims' + bit (p old) ≡ count_if p s.claims + bit (p new)
  counted p = count_if-put (λ c. c.id) p s.next_id old new s.claims v.keyed h same.id

  still_single :
      (company_id campaign_id customer_id : ℕ)
      → count_if (is_active_claim company_id campaign_id customer_id) claims' ≤ 1
  still_single c k u = ground (
    arith,
    v.single c k u,
    counted (is_active_claim c k u),
    same.company_id,
    same.campaign_id,
    same.customer_id,
    same.deleted_at,
    same.active,
  )

  -- A tier that the claim does not ask for is booked as before.
  others_booked :
      (t : GiftTier) → t.id ≢ old.gift_tier_id → IsBooked s.claims t → IsBooked claims' t
  others_booked t ne b =
      ground
        (arith, counted (is_approved_for t.id), counted (is_fulfilled_for t.id), same.gift_tier_id)

  unmoved_booked :
      BookingFollows s old new none → (t : GiftTier) → IsBooked s.claims t → IsBooked claims' t
  unmoved_booked m t b =
      ground
        (arith, counted (is_approved_for t.id), counted (is_fulfilled_for t.id), m.0 t.id, m.1 t.id)

  moved_booked :
      (t t' : GiftTier) → Follows old new t t' → IsBooked s.claims t → IsBooked claims' t'
  moved_booked t t' f b = (
    (λ k.
        let k' : IsTracked t.stock_tracking_mode = rw f.2 at k in
        rw f.0 (omega (arith, f.4 k', b.0 k', counted (is_approved_for t.id)))),
    (λ k.
        let k' : IsTracked t.stock_tracking_mode = rw f.2 at k in
        rw f.0 (omega (arith, f.5 k', b.1 k', counted (is_fulfilled_for t.id)))),
    (λ k. let k' : IsStrict t.stock_tracking_mode = rw f.2 at k in f.6 k' (b.2 k')),
  )

-- A sound change keeps the invariant.
pub apply_change-IsClaimState :
    (s : Session) (ch : Change) → IsClaimState s → IsSound s ch → IsClaimState (apply_change ch s)
apply_change-IsClaimState s ch v sound = go ch.booking sound.2
  where
    go :
        (b : Option (GiftTier × GiftTier))
        → BookingFollows s ch.old ch.new b
        → IsClaimState (save_claim ch.new (save_booking b s))
    go none m = record {
      keyed = put-IsKeyed (λ c. c.id) s.next_id ch.new s.claims v.keyed;
      single = still_single s v ch.old ch.new sound.0 sound.1;
      booked =
          All-map (IsBooked s.claims) (IsBooked (put (λ c. c.id) ch.new s.claims)) s.gift_tiers
            (unmoved_booked s v ch.old ch.new sound.0 sound.1 m) v.booked;
    }
    go (some (t, t')) m = record {
      keyed = put-IsKeyed (λ c. c.id) s.next_id ch.new s.claims v.keyed;
      single = still_single s v ch.old ch.new sound.0 sound.1;
      booked =
          All-put_where (IsBooked s.claims) (IsBooked (put (λ c. c.id) ch.new s.claims)) (λ x. x.id)
            t' s.gift_tiers
            (λ x ne.
              others_booked s v ch.old ch.new sound.0 sound.1 x
                (λ e. ne (e ∙ sym m.1.1 ∙ sym m.1.0)))
            (moved_booked s v ch.old ch.new sound.0 sound.1 t t' m.1
              (All-Has (IsBooked s.claims) t s.gift_tiers v.booked m.0))
            v.booked;
    }
