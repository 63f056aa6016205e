-- ===== src/Core/Results.antt =====
-- Chains of results, where the first error is the result.
use one_loyal.Prelude.{ap, ◌≡◌, refl, Bool, true, not, Option, none, some, arith, if◌then◌else◌}
use one_loyal.Core.{Error, Result, ok, err}

infixl 5 ◌>>=◌ ◌>>◌
abbrev pub ◌>>=◌ : {A B : Type 0} → Result A → (A → Result B) → Result B
ok a >>= f = f a
err e >>= f = err e

abbrev pub ◌>>◌ : {A B : Type 0} → Result A → Result B → Result B
m >> k = m >>= λ _. k

-- A block that returns has passed its first step.
pub returned :
    {A B : Type 0} (r : Result A) (f : A → Result B) (b : B)
    → (r >>= f) ≡ ok b
    → (a : A) × (r ≡ ok a) × (f a ≡ ok b)
returned (ok a) f b h = (a, refl, h)
returned (err e) f b h = cc

abbrev pub refuse_if : Bool → Error → Result (Unit {0})
refuse_if c e = if c then err e else ok tt

-- What a lookup that must find one row finds among the rows that pass.
abbrev pub required_row : {A : Type 0} → Result (Option A) → Error → Result A
required_row (ok none) e = err e
required_row (ok (some a)) e = ok a
required_row (err e) _ = err e

pub required_row-ok :
    {A : Type 0} (r : Result (Option A)) (e : Error) (a : A)
    → required_row r e ≡ ok a
    → r ≡ ok (some a)
required_row-ok r e a h = ground arith

-- What a passed guard says.
pub passed_guard : (c : Bool) (e : Error) (u : Unit {0}) → refuse_if (not c) e ≡ ok u → c ≡ true
passed_guard c e u h = ground arith

abbrev value_or : {A : Type 0} → A → Result A → A
value_or d (ok a) = a
value_or d (err e) = d

pub ok_injective : {A : Type 0} (a b : A) → ok a ≡ ok b → a ≡ b
ok_injective a b h = ap (value_or a) h
