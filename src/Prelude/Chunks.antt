-- ===== src/Prelude/Chunks.antt =====
-- A list cut into chunks: `[xs[i : i + k] for i in range(0, len(xs), k)]`.
use Prim.Native.Nat.{ℕ, zero, suc, ◌-◌, ◌≤◌, ◌<◌}
use mathlib.Core.Path.{◌≡◌, refl}
use mathlib.Core.List.{List, [], ◌∷◌, ◌++◌}
use native.Mathlib.Omega.{arith}
use one_loyal.Prelude.Lists.{length}

module _ {ℓ} {A : Type ℓ} where
  abbrev pub take : ℕ → List A → List A
  take zero xs = []
  take (suc n) [] = []
  take (suc n) (x ∷ xs) = x ∷ take n xs

  abbrev pub drop : ℕ → List A → List A
  drop zero xs = xs
  drop (suc n) [] = []
  drop (suc n) (x ∷ xs) = drop n xs

  pub take-append-drop : (n : ℕ) (xs : List A) → take n xs ++ drop n xs ≡ xs
  take-append-drop zero xs = refl
  take-append-drop (suc n) [] = refl
  take-append-drop (suc n) (x ∷ xs) = rw (take-append-drop n xs)

  pub length-drop : (n : ℕ) (xs : List A) → length (drop n xs) ≡ length xs - n
  length-drop zero xs = omega arith
  length-drop (suc n) [] = omega arith
  length-drop (suc n) (x ∷ xs) = omega (arith, length-drop n xs)

  abbrev pub concat : List (List A) → List A
  concat [] = []
  concat (xs ∷ xss) = xs ++ concat xss

  -- The chunks from an offset on; the first argument bounds their number.
  unfoldable pub chunks : ℕ → ℕ → List A → List (List A)
  chunks zero k xs = []
  chunks (suc fuel) k [] = []
  chunks (suc fuel) k (x ∷ xs) = take k (x ∷ xs) ∷ chunks fuel k (drop k (x ∷ xs))

  -- With a positive chunk size and the length for a bound, nothing is lost and nothing repeated.
  pub concat-chunks :
      (fuel k : ℕ) (xs : List A) → 0 < k → length xs ≤ fuel → concat (chunks fuel k xs) ≡ xs
  unfolding chunks
  concat-chunks zero k [] h e = refl
  concat-chunks zero k (x ∷ xs) h e = absurd (omega arith)
  concat-chunks (suc fuel) k [] h e = refl
  concat-chunks (suc fuel) k (x ∷ xs) h e =
      rw (concat-chunks fuel k (drop k (x ∷ xs)) h (omega (arith, length-drop k (x ∷ xs))))
        (take-append-drop k (x ∷ xs))
