-- ===== src/Notifications/Delivery/Distinct.antt =====
-- Rows with different keys, through a query's filter, order and limit.
use one_loyal.Prelude.{
  ℕ, zero, suc, ◌+◌, ◌≤◌, ◌≡◌, ◌≢◌, refl, sym, Bool, true, inl, inr, List, [], ◌∷◌, All, All-map,
  select, length, leb, min, arith, Bool-cases,
}
use one_loyal.Db.Query.{insert_asc, order_by_asc}
use one_loyal.Db.Keyed.{IsKeyed, Has}
use one_loyal.Notifications.Delivery.{limited}

module _ {A : Type 0} where
  module _ {κ} (P : A → Type κ) where
    All-select : (p : A → Bool) (xs : List A) → All P xs → All P (select p xs)
    All-select p [] h = tt
    All-select p (x ∷ xs) h = elim (Bool-cases (p x)) [
      | inl passes ↦ rw passes (h.0, All-select p xs h.1)
      | inr fails ↦ rw fails (All-select p xs h.1)
    ]

    All-insert : (by : A → ℕ) (x : A) (xs : List A) → P x → All P xs → All P (insert_asc by x xs)
    unfolding insert_asc
    All-insert by x [] p h = (p, tt)
    All-insert by x (y ∷ ys) p h = elim (Bool-cases (leb (by x) (by y))) [
      | inl first ↦ rw first (p, h)
      | inr later ↦ rw later (h.0, All-insert by x ys p h.1)
    ]

    pub All-order : (by : A → ℕ) (xs : List A) → All P xs → All P (order_by_asc by xs)
    unfolding order_by_asc
    All-order by [] h = tt
    All-order by (x ∷ xs) h = All-insert by x (order_by_asc by xs) h.0 (All-order by xs h.1)

    pub All-limited : (n : ℕ) (xs : List A) → All P xs → All P (limited n xs)
    All-limited zero xs h = tt
    All-limited (suc n) [] h = tt
    All-limited (suc n) (x ∷ xs) h = (h.0, All-limited n xs h.1)

  pub All-passes : (p : A → Bool) (xs : List A) → All (λ x. Has x xs × (p x ≡ true)) (select p xs)
  All-passes p [] = tt
  All-passes p (x ∷ xs) =
      let rest : All (λ y. Has y (x ∷ xs) × (p y ≡ true)) (select p xs) =
        All-map (λ y. Has y xs × (p y ≡ true)) _ (select p xs) (λ y h. (inr h.0, h.1))
          (All-passes p xs) in
      elim (Bool-cases (p x)) [
        | inl passes ↦ rw passes ((inl refl, passes), rest)
        | inr fails ↦ rw fails rest
      ]

  length-insert : (by : A → ℕ) (x : A) (xs : List A) → length (insert_asc by x xs) ≡ length xs + 1
  unfolding insert_asc
  length-insert by x [] = refl
  length-insert by x (y ∷ ys) = ground (arith, length-insert by x ys)

  pub length-order : (by : A → ℕ) (xs : List A) → length (order_by_asc by xs) ≡ length xs
  unfolding order_by_asc
  length-order by [] = refl
  length-order by (x ∷ xs) =
      omega (arith, length-insert by x (order_by_asc by xs), length-order by xs)

  pub length-limited : (n : ℕ) (xs : List A) → length (limited n xs) ≡ min n (length xs)
  length-limited zero xs = omega arith
  length-limited (suc n) [] = omega arith
  length-limited (suc n) (x ∷ xs) = omega (arith, length-limited n xs)

  module _ (key : A → ℕ) where
    -- No row has this key.
    abbrev pub Lacks : ℕ → List A → Type 0
    Lacks k xs = All (λ x. key x ≢ k) xs

    abbrev pub DistinctRows : List A → Type 0
    DistinctRows [] = Unit
    DistinctRows (x ∷ xs) = Lacks (key x) xs × DistinctRows xs

    keyed-Lacks : (n k : ℕ) (xs : List A) → IsKeyed key n xs → n ≤ k → Lacks k xs
    keyed-Lacks n k [] v h = tt
    keyed-Lacks n k (x ∷ xs) v h =
        (omega (arith, v.0), keyed-Lacks (key x) k xs v.1 (omega (arith, v.0)))

    pub select-DistinctRows :
        (p : A → Bool) (n : ℕ) (xs : List A) → IsKeyed key n xs → DistinctRows (select p xs)
    select-DistinctRows p n [] v = tt
    select-DistinctRows p n (x ∷ xs) v = elim (Bool-cases (p x)) [
      | inl passes ↦ rw passes (
        All-select (λ y. key y ≢ key x) p xs (keyed-Lacks (key x) (key x) xs v.1 (omega arith)),
        select-DistinctRows p (key x) xs v.1,
      )
      | inr fails ↦ rw fails (select-DistinctRows p (key x) xs v.1)
    ]

    insert-DistinctRows :
        (by : A → ℕ) (x : A) (xs : List A)
        → Lacks (key x) xs
        → DistinctRows xs
        → DistinctRows (insert_asc by x xs)
    unfolding insert_asc
    insert-DistinctRows by x [] l d = (tt, tt)
    insert-DistinctRows by x (y ∷ ys) l d = elim (Bool-cases (leb (by x) (by y))) [
      | inl first ↦ rw first (l, d)
      | inr later ↦ rw later (
        All-insert (λ z. key z ≢ key y) by x ys (λ e. l.0 (sym e)) d.0,
        insert-DistinctRows by x ys l.1 d.1,
      )
    ]

    pub order-DistinctRows :
        (by : A → ℕ) (xs : List A) → DistinctRows xs → DistinctRows (order_by_asc by xs)
    unfolding order_by_asc
    order-DistinctRows by [] d = tt
    order-DistinctRows by (x ∷ xs) d =
        insert-DistinctRows by x (order_by_asc by xs) (All-order (λ y. key y ≢ key x) by xs d.0)
          (order-DistinctRows by xs d.1)

    pub limited-DistinctRows : (n : ℕ) (xs : List A) → DistinctRows xs → DistinctRows (limited n xs)
    limited-DistinctRows zero xs d = tt
    limited-DistinctRows (suc n) [] d = tt
    limited-DistinctRows (suc n) (x ∷ xs) d =
        (All-limited (λ y. key y ≢ key x) n xs d.0, limited-DistinctRows n xs d.1)
