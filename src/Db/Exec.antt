-- ===== src/Db/Exec.antt =====
-- An action on the session may raise. What it wrote before stays in the session until the
-- request ends, so the session comes back beside an error too; `request` is what a route makes
-- of an action: commit at the end, or nothing at all.
use one_loyal.Prelude.{◌≡◌, ℕ, suc, Bool, Option, none, some, List, if◌then◌else◌}
use one_loyal.Core.{Error, Result, ok, err}
use one_loyal.Models.Customer.{Customer, CustomerExternalRef, CustomerAssignment}
use one_loyal.Models.Campaign.{Campaign, GiftTier}
use one_loyal.Models.Sale.{SaleRecord}
use one_loyal.Models.Progress.{CustomerCampaignProgress}
use one_loyal.Models.Claim.{RewardClaim}
use one_loyal.Models.Event.{DomainEvent}
use one_loyal.Models.Portal.{MagicLinkToken}
use one_loyal.Models.Sync.{Integration, SyncRun, SyncError}
use one_loyal.Models.Notification.{NotificationEvent}
use one_loyal.Models.User.{Company, User, UserSession}

-- `next_id` is the next fresh identifier, and `now` is what `utc_now()` reads: the clock stands
-- still within one request. A new row goes to the front of its table.
pub record Session : Type 0 where
  pub customers : List Customer
  pub campaigns : List Campaign
  pub gift_tiers : List GiftTier
  pub sale_records : List SaleRecord
  pub progress : List CustomerCampaignProgress
  pub claims : List RewardClaim
  pub events : List DomainEvent
  pub magic_links : List MagicLinkToken
  pub companies : List Company
  pub users : List User
  pub user_sessions : List UserSession
  pub external_refs : List CustomerExternalRef
  pub assignments : List CustomerAssignment
  pub integrations : List Integration
  pub sync_runs : List SyncRun
  pub sync_errors : List SyncError
  pub notifications : List NotificationEvent
  pub next_id : ℕ
  pub now : ℕ

abbrev pub Exec : Type 0 → Type 0
Exec A = Session → Result A × Session

module _ {A : Type 0} where
  abbrev pub pure : A → Exec A
  pure a s = (ok a, s)

  abbrev pub raise : Error → Exec A
  raise e s = (err e, s)

  abbrev pub lift : Result A → Exec A
  lift r s = (r, s)

  abbrev pub gets : (Session → A) → Exec A
  gets f s = (ok (f s), s)

  -- `if x is None: raise e`
  abbrev pub or_raise : Option A → Error → Exec A
  or_raise none e = raise e
  or_raise (some a) e = pure a

infixl 5 ◌>>=◌ ◌>>◌
abbrev pub ◌>>=◌ : {A B : Type 0} → Exec A → (A → Exec B) → Exec B
◌>>=◌ m f s = let (r, s') = m s in elim r [ ok a ↦ f a s' | err e ↦ raise e s' ]

abbrev pub ◌>>◌ : {A B : Type 0} → Exec A → Exec B → Exec B
m >> k = m >>= λ _. k

-- `if c: raise e`
abbrev pub raise_if : Bool → Error → Exec (Unit {0})
raise_if c e s = (if c then err e else ok tt, s)

abbrev pub modify : (Session → Session) → Exec (Unit {0})
modify f s = (ok tt, f s)

abbrev pub utc_now : Exec ℕ
utc_now = gets (λ s. s.now)

-- `uuid4()`, the default of a primary key
abbrev pub fresh_id : Exec ℕ
fresh_id s = (ok s.next_id, record s { next_id = suc s.next_id })

abbrev pub committed : {A : Type 0} → Session → Result A × Session → Result A × Session
committed s (ok a, s') = (ok a, s')
committed s (err e, s') = (err e, s)

-- One request: its session is committed if the action returns, and dropped if it raises.
abbrev pub request : {A : Type 0} → Exec A → Exec A
request m s = committed s (m s)

-- A block whose first action returned, or raised.
module _ {A B : Type 0} (m : Exec A) (f : A → Exec B) (s : Session) where
  pub bind-ok : {a : A} → (m s).0 ≡ ok a → (m >>= f) s ≡ f a (m s).1
  bind-ok e = rw (e, ◌>>=◌)

  pub bind-err : {e : Error} → (m s).0 ≡ err e → (m >>= f) s ≡ (err e, (m s).1)
  bind-err e = rw (e, ◌>>=◌)
