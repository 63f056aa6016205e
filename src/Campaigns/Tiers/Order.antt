-- ===== src/Campaigns/Tiers/Order.antt =====
-- The order that a reorder request gives to the tiers of a campaign.
use one_loyal.Prelude.{
  ℕ, suc, ◌+◌, ◌==◌, ◌&&◌, ◌≡◌, ◌⊎◌, refl, sym, ap, ◌∙◌, Bool, true, false, inl, inr, Option, none,
  some, List, [], ◌∷◌, map, select, leb, arith, Bool-cases, if◌then◌else◌,
}
use one_loyal.Core.{Result, ok, err}
use one_loyal.Core.Results.{returned, passed_guard}
use one_loyal.Models.Campaign.{GiftTier}
use one_loyal.Db.Exec.{Session}
use one_loyal.Db.Query.{is_null, insert_asc, order_by_asc}
use one_loyal.Db.Keyed.{Has}
use one_loyal.Campaigns.Service.{member}
use one_loyal.Campaigns.Tiers.{listed_tiers, is_subset, same_set, place, place_all, reorder_tiers}
use one_loyal.Campaigns.Tiers.Decisions.{
  campaign_here, decide_reorder, reordered, reorder_tiers_decides,
}

-- The last position of an identifier in the request.
abbrev pub last_index : ℕ → List ℕ → Option ℕ
last_index i [] = none
last_index i (j ∷ js) = elim (last_index i js) [
  | some k ↦ some (suc k)
  | none ↦ if j == i then some 0 else none
]

-- What the loop makes of one row.
abbrev place_row : ℕ → List ℕ → GiftTier → GiftTier
place_row n [] t = t
place_row n (i ∷ is) t = place_row (suc n) is (place i n t)

abbrev order_of : ℕ → Option ℕ → ℕ → ℕ
order_of n none old = old
order_of n (some k) old = n + k

next_order :
    (n : ℕ) (o : Option ℕ) (same : Bool) (old : ℕ)
    → order_of (suc n) o (if same then n else old)
      ≡ order_of n (elim o [ some k ↦ some (suc k) | none ↦ if same then some 0 else none ]) old
next_order n none true old = omega arith
next_order n none false old = refl
next_order n (some k) same old = omega arith

place_row_lem :
    (n : ℕ) (is : List ℕ) (t : GiftTier)
    → place_row n is t ≡ record t { sort_order = order_of n (last_index t.id is) t.sort_order }
place_row_lem n [] t = refl
place_row_lem n (i ∷ is) t =
    place_row_lem (suc n) is (place i n t)
    ∙ placed_lem (t.id == i)
    ∙ ap (λ x. record t { sort_order = x })
        (next_order n (last_index t.id is) (t.id == i) t.sort_order
          ∙ ap
              (λ b.
                order_of n
                  (elim (last_index t.id is) [
                    | some k ↦ some (suc k)
                    | none ↦ if b then some 0 else none
                  ])
                  t.sort_order)
              back)
  where
    back : (t.id == i) ≡ (i == t.id)
    back = ground arith

    -- The row that is placed here or not, with its later order.
    placed_lem :
        (b : Bool)
        → record (if b then record t { sort_order = n } else t) {
          sort_order =
              order_of
                (suc n)
                (last_index (if b then record t { sort_order = n } else t).id is)
                (if b then record t { sort_order = n } else t).sort_order;
        }
          ≡ record t {
            sort_order = order_of (suc n) (last_index t.id is) (if b then n else t.sort_order);
          }
    placed_lem true = refl
    placed_lem false = refl

Has-place_all :
    (n : ℕ) (is : List ℕ) (t' : GiftTier) (xs : List GiftTier)
    → Has t' (place_all n is xs)
    → (t : GiftTier) × Has t xs × (t' ≡ place_row n is t)
Has-place_all n [] t' xs h = (t', h, refl)
Has-place_all n (i ∷ is) t' xs h =
    let (u, there, e) = Has-place_all (suc n) is t' (map (place i n) xs) h in
    let (t, here, d) = Has-map (place i n) u xs there in (t, here, e ∙ ap (place_row (suc n) is) d)
  where
    Has-map :
        (f : GiftTier → GiftTier) (u : GiftTier) (xs : List GiftTier)
        → Has u (map f xs)
        → (t : GiftTier) × Has t xs × (u ≡ f t)
    Has-map f u [] h = absurd h
    Has-map f u (x ∷ xs) h = elim h [
      | inl e ↦ (x, inl refl, sym e)
      | inr r ↦ let (t, there, e) = Has-map f u xs r in (t, inr there, e)
    ]

Has-insert_asc :
    (key : GiftTier → ℕ) (t r : GiftTier) (xs : List GiftTier)
    → (r ≡ t) ⊎ Has t xs
    → Has t (insert_asc key r xs)
unfolding insert_asc
Has-insert_asc key t r [] h = h
Has-insert_asc key t r (x ∷ xs) h = elim (Bool-cases (leb (key r) (key x))) [
  | inl first ↦ rw first h
  | inr later ↦ rw later (elim h [
    | inl e ↦ inr (Has-insert_asc key t r xs (inl e))
    | inr there ↦ elim there [
      | inl e ↦ inl e
      | inr rest ↦ inr (Has-insert_asc key t r xs (inr rest))
    ]
  ])
]

Has-order_by_asc :
    (key : GiftTier → ℕ) (t : GiftTier) (xs : List GiftTier)
    → Has t xs
    → Has t (order_by_asc key xs)
unfolding order_by_asc
Has-order_by_asc key t [] h = h
Has-order_by_asc key t (x ∷ xs) h = elim h [
  | inl e ↦ Has-insert_asc key t x (order_by_asc key xs) (inl e)
  | inr there ↦ Has-insert_asc key t x (order_by_asc key xs) (inr (Has-order_by_asc key t xs there))
]

Has-selected :
    (p : GiftTier → Bool) (t : GiftTier) (xs : List GiftTier)
    → p t ≡ true
    → Has t xs
    → Has t (select p xs)
Has-selected p t [] e h = h
Has-selected p t (x ∷ xs) e h = elim h [
  | inl q ↦ rw (q, e) (inl refl)
  | inr there ↦ ground (arith, Has-selected p t xs e there)
]

member-Has :
    (t : GiftTier) (xs : List GiftTier) → Has t xs → member t.id (map (λ x. x.id) xs) ≡ true
member-Has t [] h = absurd h
member-Has t (x ∷ xs) h = elim h [
  | inl e ↦ ground (arith, e)
  | inr there ↦ ground (arith, member-Has t xs there)
]

member-is_subset :
    (i : ℕ) (a b : List ℕ) → is_subset a b ≡ true → member i a ≡ true → member i b ≡ true
member-is_subset i [] b h m = cc
member-is_subset i (x ∷ xs) b h m = ground (arith, member-is_subset i xs b)

indexed :
    (i : ℕ) (is : List ℕ) (old : ℕ)
    → member i is ≡ true
    → last_index i is ≡ some (order_of 0 (last_index i is) old)
indexed i [] old m = cc
indexed i (j ∷ js) old m = ground (arith, indexed i js old)

module _ (company_id campaign_id : ℕ) (tier_ids : List ℕ) (s : Session) where
  abbrev is_listed : GiftTier → Bool
  is_listed t = t.company_id == company_id && t.campaign_id == campaign_id && is_null t.deleted_at

  listed_member :
      (t : GiftTier)
      → same_set tier_ids (map (λ x. x.id) (listed_tiers company_id campaign_id s)) ≡ true
      → Has t s.gift_tiers
      → is_listed t ≡ true
      → member t.id tier_ids ≡ true
  unfolding listed_tiers
  listed_member t same h e =
      let rows = select is_listed s.gift_tiers in
      let there =
        Has-order_by_asc (λ x. x.required_amount_minor) t (order_by_asc (λ x. x.sort_order) rows)
          (Has-order_by_asc (λ x. x.sort_order) t rows
            (Has-selected is_listed t s.gift_tiers e h)) in
      let ids = map (λ x. x.id) (listed_tiers company_id campaign_id s) in
      let covers : is_subset ids tier_ids ≡ true = ground (arith, same) in
      member-is_subset t.id ids tier_ids covers
        (member-Has t (listed_tiers company_id campaign_id s) there)

  reordered_numbers :
      (d : Result (Unit {0})) (ts : List GiftTier) (t : GiftTier)
      → d ≡ decide_reorder company_id campaign_id s tier_ids
      → (reordered company_id campaign_id s tier_ids d).0 ≡ ok ts
      → Has t (reordered company_id campaign_id s tier_ids d).1.gift_tiers
      → is_listed t ≡ true
      → last_index t.id tier_ids ≡ some t.sort_order
  unfolding decide_reorder
  reordered_numbers (ok u) ts t d e h listed =
      let (c, _, h1) = returned (campaign_here company_id campaign_id s) _ u (sym d) in
      let same = passed_guard _ _ u h1 in
      let (old, was, placed) = Has-place_all 0 tier_ids t s.gift_tiers h in
      let now = placed ∙ place_row_lem 0 tier_ids old in
      rw now
        (indexed old.id tier_ids old.sort_order (listed_member old same was (rw now at listed)))
  reordered_numbers (err x) ts t d e h listed = cc

  -- After a reorder request that returns, each tier of the campaign that is not deleted has as its
  -- sort order its last position in the request.
  pub reorder_tiers_numbers :
      (ts : List GiftTier) (t : GiftTier)
      → (reorder_tiers company_id campaign_id tier_ids s).0 ≡ ok ts
      → Has t (reorder_tiers company_id campaign_id tier_ids s).1.gift_tiers
      → (t.company_id == company_id && t.campaign_id == campaign_id && is_null t.deleted_at) ≡ true
      → last_index t.id tier_ids ≡ some t.sort_order
  reorder_tiers_numbers ts t e h listed =
      let lem = reorder_tiers_decides company_id campaign_id s tier_ids in
      reordered_numbers (decide_reorder company_id campaign_id s tier_ids) ts t refl (rw lem at e)
        (rw lem at h) listed
