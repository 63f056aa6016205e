-- ===== src/Auth/Service/Access.antt =====
-- Whom the logins and a refresh let in.
use one_loyal.Prelude.{sym, ◌≡◌, refl, true, String, Option, if◌then◌else◌}
use one_loyal.Core.{Result, ok, err}
use one_loyal.Core.Results.{ok_injective}
use one_loyal.Models.User.{Company, User, UserSession, is_platform_admin, is_active_user}
use one_loyal.Db.Exec.{Session, request}
use one_loyal.Auth.Service.{
  Environment, LoginRequest, AuthTokenResponse, Client, seen, company_of, token_response, login,
  refresh,
}
use one_loyal.Auth.Service.Decisions.{
  decide_login, entered, logged_in, login_decides, decide_refresh, rotated, refreshed,
  refresh_decides,
}
use one_loyal.Auth.Service.Calls.{
  IsLogin, decide_login-IsLogin, IsRefresh, decide_refresh-IsRefresh,
}

module _ {Token : Type 0} (env : Environment Token) (client : Client) (raw : String)
    (s : Session) where
  -- What an answer is given for: the user, and what was checked.
  pub record IsAnswer (user : User) (company : Option Company) (scope : String)
      (answer : AuthTokenResponse Token) : Type 0 where
    pub active : is_active_user user.status ≡ true
    pub response : answer ≡ token_response env user company raw scope s.now

  logged_in-IsAnswer :
      (login_request : LoginRequest) (d : Result User) (answer : AuthTokenResponse Token)
      → ((user : User) → d ≡ ok user → IsLogin env client raw s login_request user)
      → (logged_in env client raw s d).0 ≡ ok answer
      → (user : User) × IsLogin env client raw s login_request user
        × IsAnswer
            (seen user s.now)
            (company_of user (entered env client raw s user))
            "tenant"
            answer
  logged_in-IsAnswer login_request (ok user) answer f h =
      let l = f user refl in
      (user, l, record { active = l.admission.active; response = sym (ok_injective _ answer h) })
  logged_in-IsAnswer login_request (err e) answer f h = cc

  -- A tenant login that returns has found the one user that the e-mail and the company's slug name,
  -- his password passes its check, he is active, not a platform admin and of a company, and the
  -- answer is the token response for him with the scope "tenant".
  pub login_lets_in_only :
      (login_request : LoginRequest) (answer : AuthTokenResponse Token)
      → (request (login env login_request client raw) s).0 ≡ ok answer
      → (user : User) × IsLogin env client raw s login_request user
        × IsAnswer
            (seen user s.now)
            (company_of user (entered env client raw s user))
            "tenant"
            answer
  login_lets_in_only login_request answer h =
      logged_in-IsAnswer login_request (decide_login env client raw s login_request) answer
        (decide_login-IsLogin env client raw s login_request)
        (rw (login_decides env client raw s login_request) at h)

  refreshed-IsAnswer :
      (token : String) (d : Result (UserSession × User)) (answer : AuthTokenResponse Token)
      → ((u : UserSession) (user : User)
          → d ≡ ok (u, user)
          → IsRefresh env client raw s token u user)
      → (refreshed env client raw s d).0 ≡ ok answer
      → (u : UserSession) × (user : User) × IsRefresh env client raw s token u user
        × IsAnswer user
            (company_of user (rotated env client raw s u user))
            (if is_platform_admin user.role then "platform" else "tenant")
            answer
  refreshed-IsAnswer token (ok (u, user)) answer f h =
      let r = f u user refl in
      (u, user, r, record { active = r.active; response = sym (ok_injective _ answer h) })
  refreshed-IsAnswer token (err e) answer f h = cc

  -- A refresh that returns has found the one session of its token, not revoked and not expired, its
  -- user is active, and the answer is the token response for him, with the scope of his role.
  pub refresh_lets_in_only :
      (token : String) (answer : AuthTokenResponse Token)
      → (request (refresh env token client raw) s).0 ≡ ok answer
      → (u : UserSession) × (user : User) × IsRefresh env client raw s token u user
        × IsAnswer user
            (company_of user (rotated env client raw s u user))
            (if is_platform_admin user.role then "platform" else "tenant")
            answer
  refresh_lets_in_only token answer h =
      refreshed-IsAnswer token (decide_refresh env client raw s token) answer
        (decide_refresh-IsRefresh env client raw s token)
        (rw (refresh_decides env client raw s token) at h)
