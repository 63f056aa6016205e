-- ===== src/Progress/Tiers/Laws.antt =====
-- What the loop of `_calculate_tiers` finds on tiers in ascending order.
use one_loyal.Prelude.{
  ℕ, ◌+◌, ◌≤◌, ◌<◌, ◌≡◌, ◌⊎◌, inl, inr, refl, Option, none, some, List, [], ◌∷◌, All, arith, leb,
  Bool-cases, leb→le, leb→lt, All-map,
}
use one_loyal.Models.Campaign.{GiftTier}
use one_loyal.Db.Keyed.{Has, All-Has}
use one_loyal.Progress.Tiers.{walk_tiers, tier_result, calculate_tiers}

-- ORDER BY required_amount_minor ASC
abbrev pub IsAscending : List GiftTier → Type 0
IsAscending [] = Unit
IsAscending (t ∷ ts) =
    All (λ u. t.required_amount_minor ≤ u.required_amount_minor) ts × IsAscending ts

-- The tier is the highest that the total reaches, or there is none.
abbrev pub IsCurrent : ℕ → List GiftTier → Option GiftTier → Type 0
IsCurrent total tiers none = All (λ t. total < t.required_amount_minor) tiers
IsCurrent total tiers (some c) =
    Has c tiers
    × (c.required_amount_minor ≤ total)
    × All (λ t. t.required_amount_minor ≤ total → t.required_amount_minor ≤ c.required_amount_minor)
        tiers

-- The tier is the lowest that the total has not reached, or there is none.
abbrev pub IsNext : ℕ → List GiftTier → Option GiftTier → Type 0
IsNext total tiers none = All (λ t. t.required_amount_minor ≤ total) tiers
IsNext total tiers (some n) =
    Has n tiers
    × (total < n.required_amount_minor)
    × All (λ t. total < t.required_amount_minor → n.required_amount_minor ≤ t.required_amount_minor)
        tiers

abbrev required : GiftTier → ℕ
required t = t.required_amount_minor

module _ (total : ℕ) where
  abbrev Ahead : GiftTier → Type 0
  Ahead t = total < required t

  abbrev Reached : GiftTier → Type 0
  Reached t = required t ≤ total

  -- `current` before the loop is reached, and no tier that the loop will see asks for less.
  abbrev Starts : Option GiftTier → List GiftTier → Type 0
  Starts none ts = Unit
  Starts (some c) ts = Reached c × All (λ t. required c ≤ required t) ts

  abbrev IsCurrentFrom : Option GiftTier → List GiftTier → Option GiftTier → Type 0
  IsCurrentFrom current ts none = (current ≡ none) × All Ahead ts
  IsCurrentFrom current ts (some c) =
      (Has c ts ⊎ (current ≡ some c))
      × Reached c
      × All (λ t. Reached t → required t ≤ required c) ts

  -- From the first tier that is not reached on, all are ahead.
  All-Ahead :
      (t : GiftTier) (ts : List GiftTier)
      → total < required t
      → All (λ u. required t ≤ required u) ts
      → All Ahead ts
  All-Ahead t ts h a = All-map (λ u. required t ≤ required u) Ahead ts (λ u k. omega arith) a

  stop-IsCurrentFrom :
      (current : Option GiftTier) (ts : List GiftTier)
      → Starts current ts
      → All Ahead ts
      → IsCurrentFrom current ts current
  stop-IsCurrentFrom none ts s a = (refl, a)
  stop-IsCurrentFrom (some c) ts s a = (
    inr refl,
    s.0,
    All-map Ahead (λ t. Reached t → required t ≤ required c) ts (λ t k r. omega arith) a,
  )

  step-IsCurrentFrom :
      (current : Option GiftTier) (t : GiftTier) (ts : List GiftTier) (c : Option GiftTier)
      → All (λ u. required t ≤ required u) ts
      → IsCurrentFrom (some t) ts c
      → IsCurrentFrom current (t ∷ ts) c
  step-IsCurrentFrom current t ts none a h = cc
  step-IsCurrentFrom current t ts (some c) a h = elim h.0 [
    | inl there ↦
        (inl (inr there), h.1, ((λ _. All-Has (λ u. required t ≤ required u) c ts a there), h.2))
    | inr e ↦ let same : t ≡ c = cc in (inl (inl same), h.1, ((λ _. rw same (omega arith)), h.2))
  ]

  step-IsNext :
      (t : GiftTier) (ts : List GiftTier) (n : Option GiftTier)
      → Reached t
      → IsNext total ts n
      → IsNext total (t ∷ ts) n
  step-IsNext t ts none r h = (r, h)
  step-IsNext t ts (some n) r h = (inr h.0, h.1, ((λ k. absurd (omega arith)), h.2))

  stop-IsNext :
      (t : GiftTier) (ts : List GiftTier)
      → Ahead t
      → All (λ u. required t ≤ required u) ts
      → IsNext total (t ∷ ts) (some t)
  stop-IsNext t ts h a = (
    inl refl,
    h,
    (
      (λ _. omega arith),
      All-map (λ u. required t ≤ required u) (λ u. Ahead u → required t ≤ required u) ts
          (λ u k _. k) a,
    ),
  )

  walk_tiers_lem :
      (ts : List GiftTier) (current : Option GiftTier)
      → IsAscending ts
      → Starts current ts
      → IsCurrentFrom current ts (walk_tiers total ts current none).0
        × IsNext total ts (walk_tiers total ts current none).1
  unfolding walk_tiers
  walk_tiers_lem [] current asc s = (stop-IsCurrentFrom current [] s tt, tt)
  walk_tiers_lem (t ∷ ts) current asc s = elim (Bool-cases (leb (required t) total)) [
    | inl reached ↦
        let at_t : required t ≤ total = leb→le _ _ reached in
        let ih = walk_tiers_lem ts (some t) asc.1 (at_t, asc.0) in
        rw (reached, walk_tiers)
          (step-IsCurrentFrom current t ts _ asc.0 ih.0, step-IsNext t ts _ at_t ih.1)
    | inr ahead ↦
        let not_yet : total < required t = leb→lt _ _ ahead in
        rw (ahead, walk_tiers)
          (
            stop-IsCurrentFrom current (t ∷ ts) s (not_yet, All-Ahead t ts not_yet asc.0),
            stop-IsNext t ts not_yet asc.0,
          )
  ]

  IsCurrent-of_start :
      (ts : List GiftTier) (c : Option GiftTier) → IsCurrentFrom none ts c → IsCurrent total ts c
  IsCurrent-of_start ts none h = h.1
  IsCurrent-of_start ts (some c) h = elim h.0 [ inl there ↦ (there, h.1, h.2) | inr e ↦ cc ]

  tier_result_tiers :
      (first : GiftTier) (rest : List GiftTier) (c n : Option GiftTier)
      → IsAscending (first ∷ rest)
      → IsCurrent total (first ∷ rest) c
      → IsNext total (first ∷ rest) n
      → IsCurrent total (first ∷ rest) (tier_result total first (c, n)).current_tier
        × IsNext total (first ∷ rest) (tier_result total first (c, n)).next_tier
  tier_result_tiers first rest none n asc hc hn = (hc, stop-IsNext first rest hc.0 asc.0)
  tier_result_tiers first rest (some c) none asc hc hn = (hc, hn)
  tier_result_tiers first rest (some c) (some n) asc hc hn = (hc, hn)

-- On tiers in ascending order of their required amounts the current tier is the highest that the
-- total reaches, or none if it reaches none, and the next tier is the lowest that it does not
-- reach, or none if it reaches all.
pub calculate_tiers_finds :
    (total : ℕ) (tiers : List GiftTier)
    → IsAscending tiers
    → IsCurrent total tiers (calculate_tiers total tiers).current_tier
      × IsNext total tiers (calculate_tiers total tiers).next_tier
unfolding calculate_tiers
calculate_tiers_finds total [] asc = (tt, tt)
calculate_tiers_finds total (first ∷ rest) asc =
    let found = walk_tiers_lem total (first ∷ rest) none asc tt in
    tier_result_tiers total first rest _ _ asc (IsCurrent-of_start total (first ∷ rest) _ found.0)
      found.1

-- The amount that is missing at the next tier.
abbrev pub IsLeft : ℕ → Option GiftTier → ℕ → Type 0
IsLeft total none left = left ≡ 0
IsLeft total (some n) left = total + left ≡ required n

tier_result-IsLeft :
    (total : ℕ) (first : GiftTier) (rest : List GiftTier) (c n : Option GiftTier)
    → IsCurrent total (first ∷ rest) c
    → IsNext total (first ∷ rest) n
    → IsLeft total
        (tier_result total first (c, n)).next_tier
        (tier_result total first (c, n)).amount_left_minor
tier_result-IsLeft total first rest none n hc hn = omega arith
tier_result-IsLeft total first rest (some c) none hc hn = refl
tier_result-IsLeft total first rest (some c) (some n) hc hn = omega arith

-- On ascending tiers the amount that is left brings the total exactly to the next tier, and is 0
-- if there is none.
pub calculate_tiers-IsLeft :
    (total : ℕ) (tiers : List GiftTier)
    → IsAscending tiers
    → let r = calculate_tiers total tiers in IsLeft total r.next_tier r.amount_left_minor
unfolding calculate_tiers
calculate_tiers-IsLeft total [] asc = refl
calculate_tiers-IsLeft total (first ∷ rest) asc =
    let found = walk_tiers_lem total (first ∷ rest) none asc tt in
    tier_result-IsLeft total first rest _ _ (IsCurrent-of_start total (first ∷ rest) _ found.0)
      found.1
