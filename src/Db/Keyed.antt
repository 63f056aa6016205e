-- ===== src/Db/Keyed.antt =====
-- Tables with a primary key, what a query's row is, and what a write to one row does.
use one_loyal.Prelude.{
  sym, subst, ℕ, ◌+◌, ◌<◌, ◌≤◌, ◌==◌, ◌≡◌, ◌&&◌, ap, refl, not, Bool, true, false, length, Option,
  none, some, List, [], ◌∷◌, ◌++◌, ◌⊎◌, inl, inr, select, count_if, bit, All, arith, Bool-cases,
  ==_iff,
}
use one_loyal.Core.{Result, ok, err, Error, multiple_results_found}
use one_loyal.Db.Query.{scalar_one_or_none, put}

module _ {A : Type 0} where
  -- The keys fall along the table and lie below `n`: no two rows share one.
  abbrev pub IsKeyed : (A → ℕ) → ℕ → List A → Type 0
  IsKeyed key n [] = Unit
  IsKeyed key n (x ∷ xs) = (key x < n) × IsKeyed key (key x) xs

  -- The row stands in the table.
  abbrev pub Has : A → List A → Type 0
  Has c [] = ⊥
  Has c (x ∷ xs) = (x ≡ c) ⊎ Has c xs

  pub Has-append : (c : A) (xs ys : List A) → Has c (xs ++ ys) → Has c xs ⊎ Has c ys
  Has-append c [] ys h = inr h
  Has-append c (x ∷ xs) ys h = elim h [
    | inl q ↦ inl (inl q)
    | inr t ↦ elim (Has-append c xs ys t) [ inl there ↦ inl (inr there) | inr later ↦ inr later ]
  ]

  pub Has-select :
      (p : A → Bool) (c : A) (xs : List A) → Has c (select p xs) → Has c xs × (p c ≡ true)
  Has-select p c [] h = absurd h
  Has-select p c (x ∷ xs) h = ground (arith, Has-select p c xs)

  pub Has-scalar_one_or_none :
      (xs : List A) (c : A) → scalar_one_or_none xs ≡ ok (some c) → Has c xs
  Has-scalar_one_or_none [] c h = cc
  Has-scalar_one_or_none (x ∷ []) c h = ground arith
  Has-scalar_one_or_none (x ∷ y ∷ xs) c h = cc

  -- What a query hands back is a row of the table that passes its test.
  pub found_row :
      (p : A → Bool) (xs : List A) (c : A)
      → scalar_one_or_none (select p xs) ≡ ok (some c)
      → Has c xs × (p c ≡ true)
  found_row p xs c h = Has-select p c xs (Has-scalar_one_or_none (select p xs) c h)

  -- No row is found exactly when none passes the test.
  pub no_row :
      (p : A → Bool) (xs : List A) → scalar_one_or_none (select p xs) ≡ ok none → count_if p xs ≡ 0
  no_row p [] h = refl
  no_row p (x ∷ xs) h = ground (arith, no_row p xs)

  pub Scalar-cases :
      (r : Result (Option A))
      → (r ≡ ok none) ⊎ ((c : A) × (r ≡ ok (some c))) ⊎ ((e : Error) × (r ≡ err e))
  Scalar-cases (ok none) = inl refl
  Scalar-cases (ok (some c)) = inr (inl (c, refl))
  Scalar-cases (err e) = inr (inr (e, refl))

  none_counted : (p : A → Bool) (xs : List A) → count_if p xs ≡ 0 → select p xs ≡ []
  none_counted p [] h = refl
  none_counted p (x ∷ xs) h = ground (arith, none_counted p xs)

  -- A row that passes is the one row selected, where at most one passes.
  pub select_one :
      (p : A → Bool) (c : A) (xs : List A)
      → count_if p xs ≤ 1
      → Has c xs
      → p c ≡ true
      → select p xs ≡ c ∷ []
  select_one p c [] n h t = absurd h
  select_one p c (x ∷ xs) n h t = elim h [
    | inl q ↦
        let passes : p x ≡ true = rw q t in
        let rest : select p xs ≡ [] = none_counted p xs (ground (arith, n, passes)) in
        rw (passes, rest, q) refl
    | inr there ↦ elim (Bool-cases (p x)) [
      | inl passes ↦
          let rest : select p xs ≡ [] = none_counted p xs (ground (arith, n, passes)) in
          let none_left : select p xs ≡ c ∷ [] =
            select_one p c xs (ground (arith, n, passes)) there t in
          absurd (cc (rest, none_left))
      | inr fails ↦ rw fails (select_one p c xs (ground (arith, n, fails)) there t)
    ]
  ]

  -- The one error of the query: two rows or more.
  pub scalar-err :
      (xs : List A) (e : Error)
      → scalar_one_or_none xs ≡ err e
      → (2 ≤ length xs) × (e ≡ multiple_results_found)
  scalar-err [] e h = cc
  scalar-err (x ∷ []) e h = cc
  scalar-err (x ∷ y ∷ xs) e h = ground arith

  pub scalar-zero :
      (p : A → Bool) (xs : List A) → count_if p xs ≡ 0 → scalar_one_or_none (select p xs) ≡ ok none
  scalar-zero p [] h = refl
  scalar-zero p (x ∷ xs) h = ground (arith, scalar-zero p xs)

  pub scalar-none : (xs : List A) → scalar_one_or_none xs ≡ ok none → xs ≡ []
  scalar-none [] h = refl
  scalar-none (x ∷ []) h = cc
  scalar-none (x ∷ y ∷ xs) h = cc

  single :
      (x : A) (xs : List A) (c : A)
      → scalar_one_or_none (x ∷ xs) ≡ ok (some c)
      → (x ≡ c) × (xs ≡ [])
  single x [] c h = (cc, refl)
  single x (y ∷ xs) c h = cc

  pub All-Has {κ} : (P : A → Type κ) (c : A) (xs : List A) → All P xs → Has c xs → P c
  All-Has P c [] a h = absurd h
  All-Has P c (x ∷ xs) a h = elim h [ inl e ↦ rw (← e) a.0 | inr t ↦ All-Has P c xs a.1 t ]

  pub All-put {κ} :
      (P : A → Type κ) (key : A → ℕ) (r : A) (xs : List A) → All P xs → P r → All P (put key r xs)
  All-put P key r [] a h = tt
  All-put P key r (x ∷ xs) a h = elim (Bool-cases (key x == key r)) [
    | inl same ↦ rw same (h, All-put P key r xs a.1 h)
    | inr other ↦ rw other (a.0, All-put P key r xs a.1 h)
  ]

  module _ (key : A → ℕ) where
    pub Has-key-lt : (n : ℕ) (c : A) (xs : List A) → IsKeyed key n xs → Has c xs → key c < n
    Has-key-lt n c [] k h = absurd h
    Has-key-lt n c (x ∷ xs) k h = elim h [
      | inl e ↦ rw e at (k.0)
      | inr t ↦ omega (arith, Has-key-lt (key x) c xs k.1 t)
    ]

    pub put-above : (n : ℕ) (r : A) (xs : List A) → IsKeyed key n xs → n ≤ key r → put key r xs ≡ xs
    put-above n r [] k h = refl
    put-above n r (x ∷ xs) k h = ground (arith, put-above (key x) r xs)

    pub put-IsKeyed :
        (n : ℕ) (r : A) (xs : List A) → IsKeyed key n xs → IsKeyed key n (put key r xs)
    put-IsKeyed n r [] k = tt
    put-IsKeyed n r (x ∷ xs) k = elim (Bool-cases (key x == key r)) [
      | inl same ↦
          let e : key x ≡ key r = (==_iff _ _).0 same in
          rw (same, ← e) (k.0, put-IsKeyed (key x) r xs k.1)
      | inr other ↦ rw other (k.0, put-IsKeyed (key x) r xs k.1)
    ]

    pub IsKeyed-le : (n m : ℕ) (xs : List A) → n ≤ m → IsKeyed key n xs → IsKeyed key m xs
    IsKeyed-le n m [] h k = tt
    IsKeyed-le n m (x ∷ xs) h k = (omega arith, k.1)

    -- A write to the row of `c` moves a count by what the row counted before and counts now.
    pub count_if-put :
        (p : A → Bool) (n : ℕ) (c r : A) (xs : List A)
        → IsKeyed key n xs
        → Has c xs
        → key r ≡ key c
        → count_if p (put key r xs) + bit (p c) ≡ count_if p xs + bit (p r)
    count_if-put p n c r [] k h e = absurd h
    count_if-put p n c r (x ∷ xs) k h e = elim h [
      | inl q ↦
          let above : put key r xs ≡ xs = put-above (key x) r xs k.1 (rw (q, e) (omega arith)) in
          let same : (key x == key r) ≡ true = (==_iff _ _).1 (cc) in
          rw (same, above, q) (omega arith)
      | inr t ↦
          let below : key c < key x = Has-key-lt (key x) c xs k.1 t in
          ground (arith, count_if-put p (key x) c r xs k.1 t e)
    ]

    -- If one row passes a test, and the write keeps its key and passes too, it is the one row.
    pub select-put :
        (p : A → Bool) (n : ℕ) (c r : A) (xs : List A)
        → IsKeyed key n xs
        → scalar_one_or_none (select p xs) ≡ ok (some c)
        → key r ≡ key c
        → p r ≡ true
        → select p (put key r xs) ≡ r ∷ []
    select-put p n c r [] k h e t = cc
    select-put p n c r (x ∷ xs) k h e t = elim (Bool-cases (p x)) [
      | inl passes ↦
          let one = single x (select p xs) c (rw passes at h) in
          let above : put key r xs ≡ xs =
            put-above (key x) r xs k.1 (rw (one.0, e) (omega arith)) in
          let same : (key x == key r) ≡ true = (==_iff _ _).1 (cc (one.0)) in
          rw (same, above) (rw t (cc (one.1)))
      | inr fails ↦
          let rest : scalar_one_or_none (select p xs) ≡ ok (some c) = rw fails at h in
          let below : key c < key x = Has-key-lt (key x) c xs k.1 (found_row p xs c rest).0 in
          ground (arith, select-put p (key x) c r xs k.1 rest e t)
    ]

    -- A write that no test sees, neither before nor after, leaves what the test selects.
    pub select-put_unseen :
        (p : A → Bool) (n : ℕ) (c r : A) (xs : List A)
        → IsKeyed key n xs
        → Has c xs
        → key r ≡ key c
        → p c ≡ false
        → p r ≡ false
        → select p (put key r xs) ≡ select p xs
    select-put_unseen p n c r [] k h e f g = absurd h
    select-put_unseen p n c r (x ∷ xs) k h e f g = elim h [
      | inl q ↦
          let above : put key r xs ≡ xs = put-above (key x) r xs k.1 (rw (q, e) (omega arith)) in
          let same : (key x == key r) ≡ true = (==_iff _ _).1 (cc) in
          rw (same, above, q) (rw (f, g) refl)
      | inr t ↦
          let below : key c < key x = Has-key-lt (key x) c xs k.1 t in
          ground (arith, select-put_unseen p (key x) c r xs k.1 t e f g)
    ]

    -- A write to another row keeps the row; a write to the row itself puts the new one there.
    pub Has-put :
        (c r : A) (xs : List A)
        → Has c xs
        → Has c (put key r xs) ⊎ ((key c ≡ key r) × Has r (put key r xs))
    Has-put c r [] h = absurd h
    Has-put c r (x ∷ xs) h = elim (Bool-cases (key x == key r)) [
      | inl same ↦
          let e : key x ≡ key r = (==_iff _ _).0 same in
          elim h [
            | inl q ↦ rw same (inr (rw (← q) e, inl refl))
            | inr t ↦ rw same (elim (Has-put c r xs t) [
              | inl there ↦ inl (inr there)
              | inr new ↦ inr (new.0, inr new.1)
            ])
          ]
      | inr other ↦ elim h [
        | inl q ↦ rw other (inl (inl q))
        | inr t ↦ rw other (elim (Has-put c r xs t) [
          | inl there ↦ inl (inr there)
          | inr new ↦ inr (new.0, inr new.1)
        ])
      ]
    ]

    -- Two rows of one key are one row.
    pub Has-unique :
        (n : ℕ) (a b : A) (xs : List A)
        → IsKeyed key n xs
        → Has a xs
        → Has b xs
        → key a ≡ key b
        → a ≡ b
    Has-unique n a b [] k h g e = absurd h
    Has-unique n a b (x ∷ xs) k h g e = elim h [
      | inl q ↦ elim g [
        | inl r ↦ cc
        | inr r ↦ let below = Has-key-lt (key x) b xs k.1 r in absurd (ground (arith, q))
      ]
      | inr q ↦
          let below = Has-key-lt (key x) a xs k.1 q in
          elim g [
            | inl r ↦ absurd (ground (arith, r))
            | inr r ↦ Has-unique (key x) a b xs k.1 q r e
          ]
    ]

    count_if-above :
        (p : A → Bool) (n k : ℕ) (xs : List A)
        → IsKeyed key n xs
        → n ≤ k
        → count_if (λ x. p x && not (key x == k)) xs ≡ count_if p xs
    count_if-above p n k [] v h = refl
    count_if-above p n k (x ∷ xs) v h = ground (arith, count_if-above p (key x) k xs)

    -- A count is the count of the other rows and the row's own part.
    pub count_if-except :
        (p : A → Bool) (n : ℕ) (c : A) (xs : List A)
        → IsKeyed key n xs
        → Has c xs
        → count_if p xs ≡ count_if (λ x. p x && not (key x == key c)) xs + bit (p c)
    count_if-except p n c [] v h = absurd h
    count_if-except p n c (x ∷ xs) v h = elim h [
      | inl q ↦
          let same : (key x == key c) ≡ true = (==_iff _ _).1 (ap key q) in
          let above = count_if-above p (key x) (key c) xs v.1 (rw q (omega arith)) in
          rw (same, above, q) (ground arith)
      | inr t ↦
          let below : key c < key x = Has-key-lt (key x) c xs v.1 t in
          ground (arith, count_if-except p (key x) c xs v.1 t)
    ]

    -- After a write the one row of its key is the row that was written.
    pub put_row : (c r : A) (xs : List A) → Has c (put key r xs) → key c ≡ key r → c ≡ r
    put_row c r [] h e = absurd h
    put_row c r (x ∷ xs) h e = elim (Bool-cases (key x == key r)) [
      | inl same ↦ elim (rw same at h) [ inl q ↦ sym q | inr there ↦ put_row c r xs there e ]
      | inr other ↦ elim (rw other at h) [
        | inl q ↦ absurd (ground (arith, other, ap key q, e))
        | inr there ↦ put_row c r xs there e
      ]
    ]

    -- After a write the row that was written is there.
    pub Has-put_self : (c r : A) (xs : List A) → Has c xs → key c ≡ key r → Has r (put key r xs)
    Has-put_self c r xs h e = elim (Has-put c r xs h) [
      | inl kept ↦ subst (λ x. Has x (put key r xs)) (put_row c r xs kept e) kept
      | inr (_, new) ↦ new
    ]

    none_above :
        (p : A → Bool) (n k : ℕ) (xs : List A)
        → IsKeyed key n xs
        → n ≤ k
        → ((x : A) → p x ≡ true → key x ≡ k)
        → select p xs ≡ []
    none_above p n k [] v h f = refl
    none_above p n k (x ∷ xs) v h f = ground (arith, f x, none_above p (key x) k xs v.1 _ f)

    -- A test that only the key of one row passes selects that row alone.
    pub select_key :
        (p : A → Bool) (n : ℕ) (c : A) (xs : List A)
        → IsKeyed key n xs
        → Has c xs
        → p c ≡ true
        → ((x : A) → p x ≡ true → key x ≡ key c)
        → select p xs ≡ c ∷ []
    select_key p n c [] v h t f = absurd h
    select_key p n c (x ∷ xs) v h t f = elim h [
      | inl q ↦
          let rest : select p xs ≡ [] =
            none_above p (key x) (key c) xs v.1 (rw q (omega arith)) f in
          rw (q, t, rest) refl
      | inr there ↦
          let below : key c < key x = Has-key-lt (key x) c xs v.1 there in
          ground (arith, f x, select_key p (key x) c xs v.1 there t f)
    ]

    -- A test that only the key of one row could pass, and that row does not, selects nothing.
    pub select_off :
        (p : A → Bool) (n : ℕ) (c : A) (xs : List A)
        → IsKeyed key n xs
        → Has c xs
        → p c ≡ false
        → ((x : A) → p x ≡ true → key x ≡ key c)
        → select p xs ≡ []
    select_off p n c [] v h t f = absurd h
    select_off p n c (x ∷ xs) v h t f = elim h [
      | inl q ↦
          let rest : select p xs ≡ [] =
            none_above p (key x) (key c) xs v.1 (rw q (omega arith)) f in
          rw (q, t, rest) refl
      | inr there ↦
          let below : key c < key x = Has-key-lt (key x) c xs v.1 there in
          ground (arith, f x, select_off p (key x) c xs v.1 there t f)
    ]
