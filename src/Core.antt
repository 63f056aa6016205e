-- ===== src/Core.antt =====
-- backend/app/core/errors.py: the exceptions of the services, and their results.
pub mod Results
use one_loyal.Prelude.{String, ◌≡◌, refl, ◌⊎◌, inl, inr}

-- The application errors with their messages, and the exceptions that the database layer and the
-- language raise beneath them. The `details` of an application error are left out.
pub data Error : Type 0 where
  validation not_found conflict unauthorized forbidden : String → Error
  multiple_results_found integrity_error type_error : Error

pub data Result (A : Type 0) : Type 0 where
  ok : A → Result A
  err : Error → Result A

pub Result-cases :
    {A : Type 0} (r : Result A) → ((a : A) × (r ≡ ok a)) ⊎ ((e : Error) × (r ≡ err e))
Result-cases (ok a) = inl (a, refl)
Result-cases (err e) = inr (e, refl)
