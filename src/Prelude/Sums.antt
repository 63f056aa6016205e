-- ===== src/Prelude/Sums.antt =====
-- Sums of integers over a list, and what a permutation of the list leaves alone.
use mathlib.Core.Path.{◌≡◌, ap, ◌∙◌}
use mathlib.Core.Bool.{Bool}
use mathlib.Core.List.{List, [], ◌∷◌, Permᴰ}
use native.Mathlib.Omega.{arith}
use one_loyal.Prelude.Int.{ℤ, pos, ◌+ℤ◌, +ℤ_left_comm}
use one_loyal.Prelude.Lists.{bit, count_if}

module _ {ℓ} {A : Type ℓ} where
  abbrev pub sum_of : (A → ℤ) → List A → ℤ
  sum_of f [] = pos 0
  sum_of f (x ∷ xs) = f x +ℤ sum_of f xs

  pub sum_of-perm : (f : A → ℤ) {xs ys : List A} → Permᴰ xs ys → sum_of f xs ≡ sum_of f ys
  sum_of-perm f Permᴰ.nil = λ i. pos 0
  sum_of-perm f (Permᴰ.cons e p) = cc (e, sum_of-perm f p)
  sum_of-perm f (Permᴰ.swap {a} {b} {l = l} e e') =
      +ℤ_left_comm (f a) (f b) (sum_of f l) ∙ cc (e, e')
  sum_of-perm f (Permᴰ.trans p q) = sum_of-perm f p ∙ sum_of-perm f q

  pub count_if-perm : (p : A → Bool) {xs ys : List A} → Permᴰ xs ys → count_if p xs ≡ count_if p ys
  count_if-perm t Permᴰ.nil = λ i. 0
  count_if-perm t (Permᴰ.cons e p) = cc (e, count_if-perm t p)
  count_if-perm t (Permᴰ.swap {a} {b} {l = l} e e') =
      omega (arith, ap (λ z. bit (t z)) e, ap (λ z. bit (t z)) e')
  count_if-perm t (Permᴰ.trans p q) = count_if-perm t p ∙ count_if-perm t q
