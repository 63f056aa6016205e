-- ===== src/Sync/Counting.antt =====
-- The counts of a run are one dictionary that every step of it changes; what an error leaves of
-- them stays. A step reads and writes the session and the counts, and nothing else of the run.
use one_loyal.Prelude.{ℕ, ◌+◌, String, List, [], ◌∷◌}
use one_loyal.Core.{
  Error, Result, ok, err, validation, not_found, conflict, unauthorized, forbidden,
  multiple_results_found, integrity_error, type_error,
}
use one_loyal.Models.Sync.{SyncStats}
use one_loyal.Db.Exec.{Session, Exec}

pub record Running : Type 0 where
  pub session : Session
  pub stats : SyncStats
  pub affected_customer_ids : List ℕ

abbrev pub Task : Type 0 → Type 0
Task A = Running → Result A × Running

module _ {A : Type 0} where
  abbrev pub done : A → Task A
  done a r = (ok a, r)

  abbrev pub fails : Result A → Task A
  fails result r = (result, r)

  -- A step on the session alone
  abbrev pub on_session : Exec A → Task A
  on_session m r = let (result, s) = m r.session in (result, record r { session = s })

  -- `try:`, with what was raised as a value
  abbrev pub attempt : Task A → Task (Result A)
  attempt m r = let (result, r') = m r in (ok result, r')

abbrev pub count : (SyncStats → SyncStats) → Task (Unit {0})
count f r = (ok tt, record r { stats = f r.stats })

infixl 5 ◌>>=◌ ◌>>◌
abbrev pub ◌>>=◌ : {A B : Type 0} → Task A → (A → Task B) → Task B
◌>>=◌ m f r = let (result, r') = m r in elim result [ ok a ↦ f a r' | err e ↦ (err e, r') ]

abbrev pub ◌>>◌ : {A B : Type 0} → Task A → Task B → Task B
m >> k = m >>= λ _. k

-- `for x in xs:`
unfoldable pub for_each : {A : Type 0} → (A → Task (Unit {0})) → List A → Task (Unit {0})
for_each f [] = done tt
for_each f (x ∷ xs) = f x >> for_each f xs

abbrev pub failed_more : ℕ → SyncStats → SyncStats
failed_more n st = record st { failed_records = st.failed_records + n }

-- `exc.code`, or the name of the class; the errors of this application carry a message, and what
-- the others say is left as their class.
abbrev pub error_code : Error → String
error_code (validation _) = "validation_error"
error_code (not_found _) = "not_found"
error_code (conflict _) = "conflicterror"
error_code (unauthorized _) = "unauthorizederror"
error_code (forbidden _) = "forbiddenerror"
error_code multiple_results_found = "multipleresultsfound"
error_code integrity_error = "integrityerror"
error_code type_error = "typeerror"

abbrev pub error_message : Error → String
error_message (validation message) = message
error_message (not_found message) = message
error_message (conflict message) = message
error_message (unauthorized message) = message
error_message (forbidden message) = message
error_message multiple_results_found = "MultipleResultsFound"
error_message integrity_error = "IntegrityError"
error_message type_error = "TypeError"
