-- ===== src/Campaigns/Tiers/Amounts.antt =====
-- The required amounts of the live tiers of a campaign, under the calls of `GiftTierService`.
use one_loyal.Prelude.{
  ℕ, suc, ◌≤◌, ◌==◌, ◌&&◌, ◌≡◌, refl, Bool, true, false, not, inl, inr, none, some, List, [], ◌∷◌,
  map, count_if, arith, sym, ◌∙◌, Bool-cases,
}
use one_loyal.Core.{Result, ok, err}
use one_loyal.Core.Results.{returned, ok_injective}
use one_loyal.Models.Campaign.{GiftTier}
use one_loyal.Db.Exec.{Session}
use one_loyal.Db.Query.{is_null}
use one_loyal.Db.Keyed.{IsKeyed, Has, count_if-put, put-IsKeyed, count_if-except}
use one_loyal.Campaigns.Tiers.{
  has_amount, TierRequest, title_fields, i18n_defaults, tier_title, Patch, unset, set, patched,
  stripped, titled, TierPatch, patched_tier, stored_tier, new_tier, next_sort_order, create_tier,
  update_tier, delete_tier, reorder_tiers, place, place_all, save_tier,
}
use one_loyal.Campaigns.Tiers.Decisions.{
  campaign_here, available_in, available_count, patch_available_in, live_tier_in, live_tier_found,
  decide_create, with_tier, create_tier_decides, decide_update, saved, saved_pair,
  update_tier_decides, decide_delete, delete_tier_decides, decide_reorder, reordered,
  reorder_tiers_decides,
}
use one_loyal.Common.Text.{strip}

pub record IsAmountState (s : Session) : Type 0 where
  pub keyed : IsKeyed (λ t. t.id) s.next_id s.gift_tiers
  pub single : (campaign_id amount : ℕ) → count_if (has_amount campaign_id amount) s.gift_tiers ≤ 1

-- The row may be written: its amount is as before, or new to the campaign, or it is deleted.
abbrev MayWrite : List GiftTier → GiftTier → GiftTier → Type 0
MayWrite tiers old new =
    (new.id ≡ old.id)
    × ((campaign_id amount : ℕ)
        → has_amount campaign_id amount new ≡ true
        → count_if (λ t. has_amount campaign_id amount t && not (t.id == old.id)) tiers ≡ 0)

save_tier-IsAmountState :
    (s : Session) (old new : GiftTier)
    → Has old s.gift_tiers
    → MayWrite s.gift_tiers old new
    → IsAmountState s
    → IsAmountState (save_tier new s)
save_tier-IsAmountState s old new h m v = record {
  keyed = put-IsKeyed (λ t. t.id) s.next_id new s.gift_tiers v.keyed;
  single = λ campaign_id amount. ground (
    arith,
    v.single campaign_id amount,
    m.1 campaign_id amount,
    count_if-put (λ t. t.id) (has_amount campaign_id amount) s.next_id old new s.gift_tiers v.keyed
        h m.0,
    count_if-except (λ t. t.id) (has_amount campaign_id amount) s.next_id old s.gift_tiers v.keyed
        h,
  );
}

-- With the amount, the campaign and the deletion as before, the row may be written.
same_amount-MayWrite :
    (s : Session) (old new : GiftTier)
    → IsAmountState s
    → Has old s.gift_tiers
    → new.id ≡ old.id
    → ((campaign_id amount : ℕ)
        → has_amount campaign_id amount new ≡ has_amount campaign_id amount old)
    → MayWrite s.gift_tiers old new
same_amount-MayWrite s old new v h same f = (
  same,
  (λ campaign_id amount e. ground (
    arith,
    v.single campaign_id amount,
    f campaign_id amount,
    count_if-except (λ t. t.id) (has_amount campaign_id amount) s.next_id old s.gift_tiers v.keyed
        h,
  )),
)

saved-IsAmountState :
    (company_id campaign_id : ℕ) (s : Session) (d : Result GiftTier)
    → IsAmountState s
    → ((t : GiftTier)
        → d ≡ ok t
        → (old : GiftTier) × Has old s.gift_tiers × MayWrite s.gift_tiers old t)
    → IsAmountState (saved company_id campaign_id s d).1
saved-IsAmountState company_id campaign_id s (ok t) v f =
    let (old, h, m) = f t refl in save_tier-IsAmountState s old t h m v
saved-IsAmountState company_id campaign_id s (err e) v f = v

saved_pair-IsAmountState :
    (company_id campaign_id : ℕ) (s : Session) (d : Result (GiftTier × GiftTier))
    → IsAmountState s
    → ((pair : GiftTier × GiftTier)
        → d ≡ ok pair
        → (old : GiftTier) × Has old s.gift_tiers × MayWrite s.gift_tiers old pair.1)
    → IsAmountState (saved_pair company_id campaign_id s d).1
saved_pair-IsAmountState company_id campaign_id s (ok (t, row)) v f =
    let (old, h, m) = f (t, row) refl in save_tier-IsAmountState s old row h m v
saved_pair-IsAmountState company_id campaign_id s (err e) v f = v

count_if_also :
    (p : GiftTier → Bool) (xs : List GiftTier) → count_if (λ t. p t && true) xs ≡ count_if p xs
count_if_also p [] = refl
count_if_also p (x ∷ xs) = ground (arith, count_if_also p xs)

-- A patch of the amount keeps it, or has found the new one free.
patch_MayWrite :
    (campaign_id tier_id : ℕ) (s : Session) (p : Patch ℕ) (amount : ℕ) (old new : GiftTier)
    (u : Unit {0})
    → IsAmountState s
    → Has old s.gift_tiers
      × (old.id ≡ tier_id)
      × (old.campaign_id ≡ campaign_id)
      × (is_null old.deleted_at ≡ true)
    → patch_available_in campaign_id tier_id p s.gift_tiers ≡ ok u
    → patched p old.required_amount_minor ≡ ok amount
    → new.id ≡ old.id
    → new.campaign_id ≡ old.campaign_id
    → new.deleted_at ≡ old.deleted_at
    → new.required_amount_minor ≡ amount
    → MayWrite s.gift_tiers old new
unfolding patch_available_in
patch_MayWrite k i s unset amount old new u v row free changed same a b c =
    same_amount-MayWrite s old new v row.0 same (λ k' a'. ground (arith, changed))
patch_MayWrite k i s (set none) amount old new u v row free changed same a b c = cc
patch_MayWrite k i s (set (some x)) amount old new u v row free changed same a b c =
    let none_there = available_count k x (some i) s.gift_tiers u free in
    (
      same,
      (λ k' a' e.
          let here : (k' ≡ k) × (a' ≡ x) = ground (arith, changed, row.2) in
          rw (here.0, here.1, row.1) none_there),
    )

-- The sort order is no part of what a test of the amount reads.
count_if-place :
    (p : GiftTier → Bool)
    → ((t : GiftTier) (n : ℕ) → p (record t { sort_order = n }) ≡ p t)
    → (i n : ℕ) (xs : List GiftTier) → count_if p (map (place i n) xs) ≡ count_if p xs
count_if-place p f i n [] = refl
count_if-place p f i n (x ∷ xs) = ground (arith, f x n, count_if-place p f i n xs)

count_if-place_all :
    (p : GiftTier → Bool)
    → ((t : GiftTier) (n : ℕ) → p (record t { sort_order = n }) ≡ p t)
    → (is : List ℕ) (n : ℕ) (xs : List GiftTier) → count_if p (place_all n is xs) ≡ count_if p xs
count_if-place_all p f [] n xs = refl
count_if-place_all p f (i ∷ is) n xs =
    count_if-place_all p f is (suc n) (map (place i n) xs) ∙ count_if-place p f i n xs

place-IsKeyed :
    (i n m : ℕ) (xs : List GiftTier)
    → IsKeyed (λ t. t.id) m xs
    → IsKeyed (λ t. t.id) m (map (place i n) xs)
place-IsKeyed i n m [] k = tt
place-IsKeyed i n m (x ∷ xs) k = elim (Bool-cases (x.id == i)) [
  | inl same ↦ rw same (k.0, place-IsKeyed i n x.id xs k.1)
  | inr other ↦ rw other (k.0, place-IsKeyed i n x.id xs k.1)
]

place_all-IsKeyed :
    (is : List ℕ) (n m : ℕ) (xs : List GiftTier)
    → IsKeyed (λ t. t.id) m xs
    → IsKeyed (λ t. t.id) m (place_all n is xs)
place_all-IsKeyed [] n m xs k = k
place_all-IsKeyed (i ∷ is) n m xs k =
    place_all-IsKeyed is (suc n) m (map (place i n) xs) (place-IsKeyed i n m xs k)

module _ (company_id campaign_id : ℕ) (s : Session) (v : IsAmountState s) where
  pub delete_tier-IsAmountState :
      (tier_id : ℕ) → IsAmountState (delete_tier company_id campaign_id tier_id s).1
  unfolding decide_delete
  delete_tier-IsAmountState tier_id = rw (delete_tier_decides company_id campaign_id s tier_id) (
      saved-IsAmountState company_id campaign_id s (decide_delete company_id campaign_id s tier_id)
        v
        (λ t h.
          let (c, _, h1) = returned (campaign_here company_id campaign_id s) _ t h in
          let (old, found, h2) =
            returned (live_tier_in company_id campaign_id tier_id s.gift_tiers) _ t h1 in
          let made : record old { is_active = false; deleted_at = some s.now } ≡ t = cc (h2) in
          (
            old,
            (live_tier_found company_id campaign_id tier_id s.gift_tiers old found).0,
            rw (← made) (refl, λ k a e. absurd (ground (arith, e))),
          )))

  created-IsAmountState :
      (d : Result GiftTier)
      → ((t : GiftTier)
          → d ≡ ok t
          → (t.id ≡ s.next_id)
            × (count_if (has_amount t.campaign_id t.required_amount_minor) s.gift_tiers ≡ 0))
      → IsAmountState (with_tier company_id campaign_id s d).1
  created-IsAmountState (ok t) f =
      let fresh = f t refl in
      record {
        keyed = (rw (fresh.0) (omega arith), rw (fresh.0) (v.keyed));
        single = λ k a. ground (arith, v.single k a, fresh.1);
      }
  created-IsAmountState (err e) f = v

  pub create_tier-IsAmountState :
      (request : TierRequest) → IsAmountState (create_tier company_id campaign_id request s).1
  unfolding decide_create
  create_tier-IsAmountState request = rw (create_tier_decides company_id campaign_id s request) (
      created-IsAmountState (decide_create company_id campaign_id s request) (λ t h.
        let (c, _, h1) = returned (campaign_here company_id campaign_id s) _ t h in
        let (u, free, h2) =
          returned (available_in campaign_id request.required_amount_minor none s.gift_tiers) _ t
            h1 in
        let (title, _, h3) =
          returned
            (tier_title request.title
              (title_fields request.title_i18n (i18n_defaults (strip request.title))))
            _ t h2 in
        let none_there =
          available_count campaign_id request.required_amount_minor none s.gift_tiers u free in
        let made : new_tier s.next_id company_id campaign_id c.currency title
              (next_sort_order campaign_id s) request
            ≡ t =
          cc (h3) in
        rw (← made) (
          refl,
          sym (count_if_also (has_amount campaign_id request.required_amount_minor) s.gift_tiers)
              ∙ none_there,
        )))

  update-MayWrite :
      (tier_id : ℕ) (patch : TierPatch) (t : GiftTier × GiftTier)
      → decide_update company_id campaign_id s tier_id patch ≡ ok t
      → (old : GiftTier) × Has old s.gift_tiers × MayWrite s.gift_tiers old t.1
  unfolding decide_update
  update-MayWrite tier_id patch t h =
      let (c, _, h1) = returned (campaign_here company_id campaign_id s) _ t h in
      let (old, found, h2) =
        returned (live_tier_in company_id campaign_id tier_id s.gift_tiers) _ t h1 in
      let (u, free, h3) =
        returned (patch_available_in campaign_id tier_id patch.required_amount_minor s.gift_tiers) _
          t h2 in
      let (title, _, h4) = returned (patched (stripped patch.title) old.title) _ t h3 in
      let (title_i18n, _, h5) =
        returned (patched patch.title_i18n (titled patch.title old.title_i18n)) _ t h4 in
      let (amount, changed, h6) =
        returned (patched patch.required_amount_minor old.required_amount_minor) _ t h5 in
      let (mode, _, h7) =
        returned (patched patch.stock_tracking_mode old.stock_tracking_mode) _ t h6 in
      let (is_active, _, h8) = returned (patched patch.is_active old.is_active) _ t h7 in
      let row = live_tier_found company_id campaign_id tier_id s.gift_tiers old found in
      let changed_tier = patched_tier patch title title_i18n amount mode is_active old in
      let made : (changed_tier, stored_tier patch old changed_tier) ≡ t = ok_injective _ t h8 in
      (
        old,
        row.0,
        rw (← made) (
            patch_MayWrite campaign_id tier_id s patch.required_amount_minor amount old
              (stored_tier patch old changed_tier) u v row free changed refl refl refl refl),
      )

  pub update_tier-IsAmountState :
      (tier_id : ℕ) (patch : TierPatch)
      → IsAmountState (update_tier company_id campaign_id tier_id patch s).1
  update_tier-IsAmountState tier_id patch =
      rw (update_tier_decides company_id campaign_id s tier_id patch) (
        saved_pair-IsAmountState company_id campaign_id s
          (decide_update company_id campaign_id s tier_id patch) v (update-MayWrite tier_id patch))

  reordered-IsAmountState :
      (tier_ids : List ℕ) (d : Result (Unit {0}))
      → IsAmountState (reordered company_id campaign_id s tier_ids d).1
  reordered-IsAmountState tier_ids (ok _) = record {
    keyed = place_all-IsKeyed tier_ids 0 s.next_id s.gift_tiers v.keyed;
    single = λ k a.
        rw (count_if-place_all (has_amount k a) (λ t n. refl) tier_ids 0 s.gift_tiers)
          (v.single k a);
  }
  reordered-IsAmountState tier_ids (err e) = v

  pub reorder_tiers-IsAmountState :
      (tier_ids : List ℕ) → IsAmountState (reorder_tiers company_id campaign_id tier_ids s).1
  reorder_tiers-IsAmountState tier_ids =
      rw (reorder_tiers_decides company_id campaign_id s tier_ids)
        (reordered-IsAmountState tier_ids (decide_reorder company_id campaign_id s tier_ids))
