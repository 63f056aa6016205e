-- ===== src/Auth/Service/Decisions.antt =====
-- The calls of `AuthService` as decisions, read from the session.
use one_loyal.Prelude.{
  suc, ◌==◌, ◌≡◌, refl, Bool, true, false, not, inl, inr, Option-cases, String, Option, none, some,
  List, ◌∷◌, select, arith, if◌then◌else◌,
}
use one_loyal.Core.{Error, Result, ok, err, Result-cases, unauthorized, integrity_error, type_error}
use one_loyal.Core.Results.{◌>>=◌, ◌>>◌, refuse_if, required_row}
use one_loyal.Models.User.{User, UserSession, is_platform_admin, is_active_user}
use one_loyal.Db.Exec.{Session, request}
use one_loyal.Db.Query.{scalar_one_or_none, put, is_null}
use one_loyal.Db.Keyed.{Scalar-cases}
use one_loyal.Auth.Service.{
  Environment, LoginRequest, PlatformLoginRequest, AuthTokenResponse, Client, company_of, user_of,
  login_user, platform_user, save_user, save_session, seen, revoked, usable, has_token, new_session,
  create_refresh_session, token_response, verified, login, platform_login, refresh,
}

-- `if x is None: raise e`
abbrev pub or_refused : {A : Type 0} → Option A → Error → Result A
or_refused none e = err e
or_refused (some a) e = ok a

unfoldable pub user_in : UserSession → List User → Result User
user_in u users =
    required_row (scalar_one_or_none (select (λ x. x.id == u.user_id) users)) type_error

user_of_lem : (u : UserSession) (s : Session) → user_of u s ≡ (user_in u s.users, s)
unfolding user_of user_in
user_of_lem u s = ground arith

module _ {Token : Type 0} (env : Environment Token) (client : Client) (raw_token : String) where
  -- The hash of the new token is not there.
  unfoldable pub untaken : List UserSession → Result (Unit {0})
  untaken sessions = do
    found ← scalar_one_or_none (select (has_token env raw_token) sessions)
    refuse_if (not (is_null found)) integrity_error

  abbrev pub added : User → Session → Result (Unit {0}) → Result UserSession × Session
  added user s (ok u) = (
    ok (new_session env s.next_id s.now user client raw_token),
    record s {
      user_sessions = new_session env s.next_id s.now user client raw_token ∷ s.user_sessions;
      next_id = suc s.next_id;
    },
  )
  added user s (err e) = (err e, s)

  create_refresh_session_lem :
      (user : User) (s : Session)
      → create_refresh_session env user client raw_token s ≡ added user s (untaken s.user_sessions)
  unfolding create_refresh_session untaken
  create_refresh_session_lem user s =
      elim (Scalar-cases (scalar_one_or_none (select (has_token env raw_token) s.user_sessions))) [
        | inl h ↦ rw h refl
        | inr (inl (c, h)) ↦ rw h refl
        | inr (inr (e, h)) ↦ rw h refl
      ]

  module _ (s : Session) where
    -- Both logins, from the user that is found
    unfoldable pub admitted : Bool → Option User → Result User
    admitted tenant candidate = do
      user ← or_refused candidate (
          unauthorized
            (if tenant then "Invalid email or password." else "Invalid platform credentials."))
      refuse_if (not (is_active_user user.status)) (unauthorized "User account is not active.")
      refuse_if (if tenant then is_platform_admin user.role else false)
          (unauthorized "Platform admin must use platform login.")
      refuse_if (if tenant then is_null user.company_id else false)
          (unauthorized "Tenant login requires a company account.")
      untaken s.user_sessions
      ok user

    unfoldable pub decide_login : LoginRequest → Result User
    decide_login login_request = do
      candidate ← login_user login_request s
      admitted true (verified env login_request.password candidate)

    abbrev pub entered : User → Session
    entered user = record (save_user (seen user s.now) s) {
      user_sessions =
          new_session env s.next_id s.now (seen user s.now) client raw_token ∷ s.user_sessions;
      next_id = suc s.next_id;
    }

    abbrev pub logged_in : Result User → Result (AuthTokenResponse Token) × Session
    logged_in (ok user) = (
      ok (
          token_response env (seen user s.now) (company_of user (entered user)) raw_token "tenant"
            s.now),
      entered user,
    )
    logged_in (err e) = (err e, s)

    created :
        (user : User)
        → create_refresh_session env
            (seen user s.now)
            client
            raw_token
            (save_user (seen user s.now) s)
          ≡ added (seen user s.now) (save_user (seen user s.now) s) (untaken s.user_sessions)
    created user = create_refresh_session_lem (seen user s.now) (save_user (seen user s.now) s)

    pub login_decides :
        (login_request : LoginRequest)
        → request (login env login_request client raw_token) s
          ≡ logged_in (decide_login login_request)
    unfolding login decide_login admitted
    login_decides login_request = elim (Result-cases (login_user login_request s)) [
      | inl (c, h) ↦ elim (Option-cases (verified env login_request.password c)) [
        | inl v ↦ ground (arith, h, v)
        | inr (user, v) ↦ elim (Result-cases (untaken s.user_sessions)) [
          | inl (u, free) ↦ ground (arith, h, v, created user, free)
          | inr (e, taken) ↦ ground (arith, h, v, created user, taken)
        ]
      ]
      | inr (e, h) ↦ rw h refl
    ]

    unfoldable pub decide_platform_login : PlatformLoginRequest → Result User
    decide_platform_login login_request = do
      candidate ← platform_user login_request s
      admitted false (verified env login_request.password candidate)

    abbrev pub platform_logged_in : Result User → Result (AuthTokenResponse Token) × Session
    platform_logged_in (ok user) =
        (ok (token_response env (seen user s.now) none raw_token "platform" s.now), entered user)
    platform_logged_in (err e) = (err e, s)

    pub platform_login_decides :
        (login_request : PlatformLoginRequest)
        → request (platform_login env login_request client raw_token) s
          ≡ platform_logged_in (decide_platform_login login_request)
    unfolding platform_login decide_platform_login admitted
    platform_login_decides login_request = elim (Result-cases (platform_user login_request s)) [
      | inl (c, h) ↦ elim (Option-cases (verified env login_request.password c)) [
        | inl v ↦ ground (arith, h, v)
        | inr (user, v) ↦ elim (Result-cases (untaken s.user_sessions)) [
          | inl (u, free) ↦ ground (arith, h, v, created user, free)
          | inr (e, taken) ↦ ground (arith, h, v, created user, taken)
        ]
      ]
      | inr (e, h) ↦ rw h refl
    ]

    unfoldable pub decide_refresh : String → Result (UserSession × User)
    decide_refresh refresh_token = do
      found ← scalar_one_or_none (select (has_token env refresh_token) s.user_sessions)
      u ← or_refused (usable found s.now) (unauthorized "Invalid refresh token.")
      user ← user_in u s.users
      refuse_if (not (is_active_user user.status)) (unauthorized "User account is not active.")
      untaken (save_session (revoked u s.now) s).user_sessions
      ok (u, user)

    abbrev pub rotated : UserSession → User → Session
    rotated u user = record (save_session (revoked u s.now) s) {
      user_sessions =
          new_session env s.next_id s.now user client raw_token
          ∷ put (λ x. x.id) (revoked u s.now) s.user_sessions;
      next_id = suc s.next_id;
    }

    abbrev pub refreshed : Result (UserSession × User) → Result (AuthTokenResponse Token) × Session
    refreshed (ok (u, user)) = (
      ok (
          token_response env user (company_of user (rotated u user)) raw_token
            (if is_platform_admin user.role then "platform" else "tenant") s.now),
      rotated u user,
    )
    refreshed (err e) = (err e, s)

    pub refresh_decides :
        (refresh_token : String)
        → request (refresh env refresh_token client raw_token) s
          ≡ refreshed (decide_refresh refresh_token)
    unfolding refresh decide_refresh
    refresh_decides refresh_token =
        let rows = select (has_token env refresh_token) s.user_sessions in
        elim (Result-cases (scalar_one_or_none rows)) [
          | inl (found, h) ↦ elim (Option-cases (usable found s.now)) [
            | inl over ↦ ground (arith, h, over)
            | inr (u, alive) ↦ elim (Result-cases (user_in u s.users)) [
              | inl (user, owner) ↦
                  let closed = save_session (revoked u s.now) s in
                  elim (Result-cases (untaken closed.user_sessions)) [
                    | inl (v, free) ↦ ground (
                      arith,
                      h,
                      alive,
                      user_of_lem u s,
                      owner,
                      create_refresh_session_lem user closed,
                      free,
                    )
                    | inr (e, taken) ↦ ground (
                      arith,
                      h,
                      alive,
                      user_of_lem u s,
                      owner,
                      create_refresh_session_lem user closed,
                      taken,
                    )
                  ]
              | inr (e, nobody) ↦ ground (arith, h, alive, user_of_lem u s, nobody)
            ]
          ]
          | inr (e, h) ↦ rw h refl
        ]
