-- ===== src/Sync/Frame.antt =====
-- What the steps of a run leave alone: the tables of the integrations and of the runs, which only
-- the run's start and its end write.
pub mod Writes
pub mod Steps
use one_loyal.Prelude.{
  ℕ, zero, suc, ◌==◌, ◌≡◌, refl, sym, ◌∙◌, Bool, true, false, inl, inr, Option, none, some, List,
  [], ◌∷◌, select, arith, Bool-cases, Option-cases, if◌then◌else◌,
}
use one_loyal.Core.{Error, Result, ok, err, Result-cases}
use one_loyal.Common.Json.{Fields, Json}
use one_loyal.Models.Campaign.{Campaign}
use one_loyal.Models.Customer.{Customer}
use one_loyal.Models.Progress.{CustomerCampaignProgress, Stats}
use one_loyal.Models.Event.{AuditContext}
use one_loyal.Models.Sync.{Integration, SyncRun, ErpCustomerDto, ErpSaleDto, ProviderFetchResult}
use one_loyal.Db.Exec.{Session, Exec, ◌>>=◌, ◌>>◌}
use one_loyal.Sync.Counting.{Running, Task, for_each}

-- Both tables are as they were.
abbrev pub IsKept : Session → Session → Type 0
IsKept s s' = (s'.integrations ≡ s.integrations) × (s'.sync_runs ≡ s.sync_runs)

abbrev pub Keeps : {A : Type 0} → Exec A → Type 0
Keeps m = (s : Session) → IsKept s (m s).1

abbrev pub KeepsTask : {A : Type 0} → Task A → Type 0
KeepsTask m = (r : Running) → IsKept r.session (m r).1.session

pub keep_bind :
    {A B : Type 0} (m : Exec A) (f : A → Exec B)
    → Keeps m
    → ((a : A) → Keeps (f a))
    → Keeps (m >>= f)
keep_bind m f k g s = elim (Result-cases (m s).0) [
  | inl (a, e) ↦ rw (◌>>=◌, e) (((g a (m s).1).0 ∙ (k s).0, (g a (m s).1).1 ∙ (k s).1))
  | inr (x, e) ↦ rw (◌>>=◌, e) (k s)
]

pub keep_step :
    {A B : Type 0} (m : Task A) (f : A → Task B)
    → KeepsTask m
    → ((a : A) → KeepsTask (f a))
    → KeepsTask (one_loyal.Sync.Counting.◌>>=◌ m f)
keep_step m f k g r = elim (Result-cases (m r).0) [
  | inl (a, e) ↦
      rw (one_loyal.Sync.Counting.◌>>=◌, e) (((g a (m r).1).0 ∙ (k r).0, (g a (m r).1).1 ∙ (k r).1))
  | inr (x, e) ↦ rw (one_loyal.Sync.Counting.◌>>=◌, e) (k r)
]

pub keep_each :
    {A : Type 0} (f : A → Task (Unit {0})) (xs : List A)
    → ((a : A) → KeepsTask (f a))
    → KeepsTask (for_each f xs)
unfolding for_each
keep_each f [] k r = (refl, refl)
keep_each f (x ∷ xs) k r = keep_step (f x) (λ _. for_each f xs) (k x) (λ _. keep_each f xs k) r
