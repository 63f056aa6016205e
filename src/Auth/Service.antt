-- ===== src/Auth/Service.antt =====
-- `AuthService`, with `create_access_token` of backend/app/core/security.py. Each call is one
-- request: a call that raises leaves nothing behind. `raw_token` is what `generate_secure_token`
-- draws.
pub mod Decisions
pub mod Moves
pub mod Calls
pub mod Access
pub mod Tokens
pub mod Liveness
use one_loyal.Prelude.{
  ℕ, ◌+◌, ◌*◌, ◌==◌, ◌&&◌, ◌||◌, String, Bool, true, false, not, Option, none, some, List, [], ◌∷◌,
  ◌++◌, select, leb, str_eq, if◌then◌else◌,
}
use one_loyal.Core.{Error, Result, ok, err, unauthorized, validation, integrity_error, type_error}
use one_loyal.Common.Json.{Fields, str, uuid, iso, end, field}
use one_loyal.Common.Text.{strip, lowered}
use one_loyal.Models.User.{
  Company, User, UserRole, UserSession, is_platform_admin, is_active_user, role_value,
}
use one_loyal.Db.Exec.{
  Session, Exec, pure, lift, gets, raise_if, or_raise, modify, utc_now, fresh_id, ◌>>=◌, ◌>>◌,
}
use one_loyal.Db.Query.{scalar_one_or_none, put, is_null, eq_nullable}

-- What stands outside: the keyed hash of a refresh token, the check of a password against its
-- hash, the library for signed tokens, whose tokens are of a type of their own, and the settings.
pub record Environment (Token : Type 0) : Type 0 where
  pub hash_refresh_token : String → String
  pub verify_password : String → String → Bool
  pub jwt_encode : Fields → Token
  pub access_token_expire_minutes : ℕ
  pub refresh_token_expire_days : ℕ

pub record LoginRequest : Type 0 where
  pub email : String
  pub password : String
  pub company_slug : Option String

pub record PlatformLoginRequest : Type 0 where
  pub email : String
  pub password : String

pub record AuthTokenResponse (Token : Type 0) : Type 0 where
  pub access_token : Token
  pub refresh_token : String
  pub expires_in : ℕ
  pub user : User
  pub company : Option Company

-- The agent and the address of the client
pub record Client : Type 0 where
  pub user_agent : Option String
  pub ip_address : Option String

abbrev pub first_row : {A : Type 0} → List A → Option A
first_row [] = none
first_row (x ∷ xs) = some x

-- `user.company`
unfoldable pub company_of : User → Session → Option Company
company_of user s = first_row (select (λ c. eq_nullable user.company_id c.id) s.companies)

-- `user_session.user`, the row that the foreign key names
unfoldable pub user_of : UserSession → Exec User
user_of user_session = do
  rows ← gets (λ s. select (λ u. u.id == user_session.user_id) s.users)
  found ← lift (scalar_one_or_none rows)
  or_raise found type_error

-- The rows of one user, joined with the companies that are his.
abbrev pub pairs : String → User → List Company → List User
pairs email u [] = []
pairs email u (c ∷ companies) =
    let rest = pairs email u companies in if str_eq u.email email then u ∷ rest else rest

-- The users of an e-mail, joined with the companies of a slug.
unfoldable pub joined : String → String → List Company → List User → List User
joined email slug companies [] = []
joined email slug companies (u ∷ users) =
    pairs email u (select (λ c. eq_nullable u.company_id c.id && str_eq c.slug slug) companies)
    ++ joined email slug companies users

abbrev pub one_of_many : List User → Result (Option User)
one_of_many [] = ok none
one_of_many (u ∷ []) = ok (some u)
one_of_many (u ∷ v ∷ rest) = err (validation "Company slug is required for this email.")

abbrev pub named : Option String → String → Session → Result (Option User)
named (some slug) email s = scalar_one_or_none (joined email slug s.companies s.users)
named none email s = one_of_many (select (λ u. str_eq u.email email) s.users)

-- The user that a login names.
unfoldable pub login_user : LoginRequest → Session → Result (Option User)
login_user request s = named request.company_slug (lowered (strip request.email)) s

unfoldable pub platform_user : PlatformLoginRequest → Session → Result (Option User)
platform_user request s = scalar_one_or_none (
    select
      (λ u.
        str_eq u.email (lowered (strip request.email))
        && is_null u.company_id
        && is_platform_admin u.role)
      s.users)

abbrev pub save_user : User → Session → Session
save_user u s = record s { users = put (λ x. x.id) u s.users }

abbrev pub save_session : UserSession → Session → Session
save_session u s = record s { user_sessions = put (λ x. x.id) u s.user_sessions }

-- `user.last_login_at = utc_now()`
abbrev pub seen : User → ℕ → User
seen user now = record user { last_login_at = some now }

abbrev pub revoked : UserSession → ℕ → UserSession
revoked u now = record u { revoked_at = some now }

-- `user_session.revoked_at is not None or user_session.expires_at <= utc_now()`
unfoldable pub is_over : UserSession → ℕ → Bool
is_over u now = not (is_null u.revoked_at) || leb u.expires_at now

-- A row that can be refreshed.
abbrev pub usable : Option UserSession → ℕ → Option UserSession
usable none now = none
usable (some u) now = if is_over u now then none else some u

abbrev pub close : Option UserSession → ℕ → Session → Session
close none now s = s
close (some u) now s = if is_null u.revoked_at then save_session (revoked u now) s else s

abbrev pub company_claims : Option ℕ → Option Company → Fields
company_claims (some id) (some c) =
    field "company_id" (uuid id) (field "company_slug" (str c.slug) end)
company_claims (some id) none = field "company_id" (uuid id) end
company_claims none (some c) = field "company_slug" (str c.slug) end
company_claims none none = end

module _ {Token : Type 0} (env : Environment Token) where
  abbrev pub has_token : String → UserSession → Bool
  has_token raw_token u = str_eq u.refresh_token_hash (env.hash_refresh_token raw_token)

  abbrev pub new_session : ℕ → ℕ → User → Client → String → UserSession
  new_session id now user client raw_token = record {
    id = id;
    user_id = user.id;
    refresh_token_hash = env.hash_refresh_token raw_token;
    expires_at = now + 86400 * env.refresh_token_expire_days;
    revoked_at = none;
    user_agent = client.user_agent;
    ip_address = client.ip_address;
  }

  -- The unique constraint on the hash refuses a token that is there.
  unfoldable pub create_refresh_session : User → Client → String → Exec UserSession
  create_refresh_session user client raw_token = do
    now ← utc_now
    taken ← gets (λ s. select (has_token raw_token) s.user_sessions)
    found ← lift (scalar_one_or_none taken)
    raise_if (not (is_null found)) integrity_error
    new_id ← fresh_id
    modify (λ s. record s {
      user_sessions = new_session new_id now user client raw_token ∷ s.user_sessions;
    })
    pure (new_session new_id now user client raw_token)

  unfoldable pub access_claims : User → Option Company → String → ℕ → Fields
  access_claims user company scope now = field "sub" (uuid user.id) (
      field "iat" (iso now) (
        field "exp" (iso (now + 60 * env.access_token_expire_minutes)) (
          field "token_type" (str "access") (
            field "role" (str (role_value user.role))
              (field "scope" (str scope) (company_claims user.company_id company))))))

  unfoldable pub token_response :
      User → Option Company → String → String → ℕ → AuthTokenResponse Token
  unfolding access_claims
  token_response user company raw_token scope now = record {
    access_token = env.jwt_encode (access_claims user company scope now);
    refresh_token = raw_token;
    expires_in = env.access_token_expire_minutes * 60;
    user = user;
    company = company;
  }

  abbrev pub verified : String → Option User → Option User
  verified password none = none
  verified password (some u) = if env.verify_password password u.password_hash then some u else none

  unfoldable pub login : LoginRequest → Client → String → Exec (AuthTokenResponse Token)
  login request client raw_token = do
    found ← gets (login_user request)
    candidate ← lift found
    user ←
        or_raise (verified request.password candidate) (unauthorized "Invalid email or password.")
    raise_if (not (is_active_user user.status)) (unauthorized "User account is not active.")
    raise_if (is_platform_admin user.role) (unauthorized "Platform admin must use platform login.")
    raise_if (is_null user.company_id) (unauthorized "Tenant login requires a company account.")
    now ← utc_now
    modify (save_user (seen user now))
    create_refresh_session (seen user now) client raw_token
    company ← gets (company_of user)
    pure (token_response (seen user now) company raw_token "tenant" now)

  unfoldable pub platform_login :
      PlatformLoginRequest → Client → String → Exec (AuthTokenResponse Token)
  platform_login request client raw_token = do
    found ← gets (platform_user request)
    candidate ← lift found
    user ←
        or_raise (verified request.password candidate)
          (unauthorized "Invalid platform credentials.")
    raise_if (not (is_active_user user.status)) (unauthorized "User account is not active.")
    now ← utc_now
    modify (save_user (seen user now))
    create_refresh_session (seen user now) client raw_token
    pure (token_response (seen user now) none raw_token "platform" now)

  unfoldable pub refresh : String → Client → String → Exec (AuthTokenResponse Token)
  refresh refresh_token client raw_token = do
    rows ← gets (λ s. select (has_token refresh_token) s.user_sessions)
    found ← lift (scalar_one_or_none rows)
    now ← utc_now
    user_session ← or_raise (usable found now) (unauthorized "Invalid refresh token.")
    user ← user_of user_session
    raise_if (not (is_active_user user.status)) (unauthorized "User account is not active.")
    modify (save_session (revoked user_session now))
    create_refresh_session user client raw_token
    company ← gets (company_of user)
    pure (
        token_response user company raw_token
          (if is_platform_admin user.role then "platform" else "tenant") now)

  unfoldable pub logout : String → Exec (Unit {0})
  logout refresh_token = do
    rows ← gets (λ s. select (has_token refresh_token) s.user_sessions)
    found ← lift (scalar_one_or_none rows)
    now ← utc_now
    modify (close found now)
