-- ===== src/Tests/Auth.antt =====
-- Runs of the auth service.
use one_loyal.Prelude.{◌≡◌, refl, inl, none, some, [], ◌∷◌, str_eq, arith}
use one_loyal.Core.{ok, err, unauthorized}
use one_loyal.Common.Json.{Fields, end}
use one_loyal.Models.User.{Company, CompanyStatus, User, UserRole, UserStatus, UserSession}
use one_loyal.Db.Exec.{Session, request}
use one_loyal.Auth.Service.{
  Environment, LoginRequest, AuthTokenResponse, Client, seen, company_of, token_response, login,
  refresh, logout,
}
use one_loyal.Auth.Service.Decisions.{entered}
use one_loyal.Auth.Service.Calls.{log_in, rotate, wait, run, IsLogin}
use one_loyal.Auth.Service.Access.{IsAnswer, login_lets_in_only}
use one_loyal.Auth.Service.Tokens.{IsOpenTable, refresh_token_works_once, logout_closes_session}
use one_loyal.Auth.Service.Liveness.{KeepsAlive, login_then_refresh}
use one_loyal.Tests.World.{start}

-- A password is its own hash, and a token the claims that it carries.
abbrev env : Environment Fields
env = record {
  hash_refresh_token = λ raw. raw;
  verify_password = λ password hash. str_eq password hash;
  jwt_encode = λ claims. claims;
  access_token_expire_minutes = 15;
  refresh_token_expire_days = 30;
}

abbrev shop : Company
shop = record {
  id = 1;
  name = "Shop";
  name_i18n = end;
  slug = "shop";
  status = CompanyStatus.active;
  base_currency = "UZS";
  timezone = "Asia/Tashkent";
}

abbrev bob : User
bob = record {
  id = 80;
  company_id = some 1;
  email = "bob@shop.uz";
  full_name = "Bob";
  password_hash = "secret";
  role = UserRole.owner;
  status = UserStatus.active;
  last_login_at = none;
}

abbrev old_session : UserSession
old_session = record {
  id = 81;
  user_id = 80;
  refresh_token_hash = "old";
  expires_at = 9000;
  revoked_at = none;
  user_agent = none;
  ip_address = none;
}

abbrev office : Session
office = record start { companies = shop ∷ []; users = bob ∷ []; user_sessions = old_session ∷ [] }

abbrev browser : Client
browser = record { user_agent = none; ip_address = none }

abbrev bobs_login : LoginRequest
bobs_login = record { email = "bob@shop.uz"; password = "secret"; company_slug = none }

office-IsOpenTable : IsOpenTable env office
office-IsOpenTable = record { keyed = (omega arith, tt); unique = λ hash. ground arith }

-- What Bob is told at 160.
abbrev login_answer : AuthTokenResponse Fields
login_answer =
    token_response env (seen bob 160) (company_of bob (entered env browser "new" office bob)) "new"
      "tenant" 160

bob_logs_in : (request (login env bobs_login browser "new") office).0 ≡ ok login_answer
unfolding login one_loyal.Auth.Service.login_user native.Mathlib.Decide.dec_lt
    one_loyal.Auth.Service.create_refresh_session
bob_logs_in = refl

abbrev refresh_answer : AuthTokenResponse Fields
refresh_answer = token_response env bob (some shop) "new" "tenant" 160

bob_refreshes : (request (refresh env "old" browser "new") office).0 ≡ ok refresh_answer
unfolding refresh one_loyal.Auth.Service.is_over one_loyal.Auth.Service.user_of
    one_loyal.Auth.Service.create_refresh_session company_of
bob_refreshes = refl

login_lets_in_only_example :
    (user : User) × IsLogin env browser "new" office bobs_login user
    × IsAnswer env browser "new" office
        (seen user 160)
        (company_of user (entered env browser "new" office user))
        "tenant"
        login_answer
login_lets_in_only_example =
    login_lets_in_only env browser "new" office bobs_login login_answer bob_logs_in

refresh_token_works_once_example :
    (request (refresh env "old" browser "newest") (
      run env
        (wait 60 ∷ log_in bobs_login browser "third" ∷ [])
        (request (refresh env "old" browser "new") office).1)).0
    ≡ err (unauthorized "Invalid refresh token.")
refresh_token_works_once_example =
    refresh_token_works_once env "old" browser browser "new" "newest" office refresh_answer
      (wait 60 ∷ log_in bobs_login browser "third" ∷ []) office-IsOpenTable bob_refreshes

logout_closes_session_example :
    (request (refresh env "old" browser "new") (
      run env
        (wait 60 ∷ rotate "old" browser "second" ∷ [])
        (request (logout env "old") office).1)).0
    ≡ err (unauthorized "Invalid refresh token.")
logout_closes_session_example =
    logout_closes_session env "old" browser "new" office old_session
      (wait 60 ∷ rotate "old" browser "second" ∷ []) office-IsOpenTable (inl refl) refl

login_then_refresh_example :
    KeepsAlive env browser browser "new" "newest" office 5000 login_answer
      (request (login env bobs_login browser "new") office).1
unfolding login one_loyal.Auth.Service.login_user native.Mathlib.Decide.dec_lt
    one_loyal.Auth.Service.create_refresh_session
login_then_refresh_example =
    login_then_refresh env browser browser "new" "newest" office 5000 bobs_login login_answer
      office-IsOpenTable (omega arith, tt) bob_logs_in (omega arith) refl
