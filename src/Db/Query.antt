-- ===== src/Db/Query.antt =====
-- Queries over one table, and the write of a changed object back to its row.
use one_loyal.Prelude.{
  ℕ, ◌==◌, Bool, true, false, Option, none, some, List, [], ◌∷◌, if◌then◌else◌, leb,
}
use one_loyal.Core.{Result, ok, err, multiple_results_found}

module _ {A : Type 0} where
  -- `result.scalar_one_or_none()`
  abbrev pub scalar_one_or_none : List A → Result (Option A)
  scalar_one_or_none [] = ok none
  scalar_one_or_none (x ∷ []) = ok (some x)
  scalar_one_or_none (x ∷ y ∷ rest) = err multiple_results_found

  -- the flush of a changed object: the row with its primary key gets the new values
  abbrev pub put : (A → ℕ) → A → List A → List A
  put key r [] = []
  put key r (x ∷ xs) = (if key x == key r then r else x) ∷ put key r xs

  -- ORDER BY key ASC
  unfoldable pub insert_asc : (A → ℕ) → A → List A → List A
  insert_asc key r [] = r ∷ []
  insert_asc key r (x ∷ xs) =
      let rest = insert_asc key r xs in if leb (key r) (key x) then r ∷ x ∷ xs else x ∷ rest

  unfoldable pub order_by_asc : (A → ℕ) → List A → List A
  unfolding insert_asc
  order_by_asc key [] = []
  order_by_asc key (x ∷ xs) = insert_asc key x (order_by_asc key xs)

-- `deleted_at IS NULL`
abbrev pub is_null {ℓ} : {A : Type ℓ} → Option A → Bool
is_null none = true
is_null (some _) = false

-- `column == value`, where the column may be null
abbrev pub eq_nullable : Option ℕ → ℕ → Bool
eq_nullable none i = false
eq_nullable (some j) i = j == i

-- equality of two columns that may be null, as Python compares them
abbrev pub eq_id : Option ℕ → Option ℕ → Bool
eq_id none none = true
eq_id (some a) (some b) = a == b
eq_id _ _ = false
