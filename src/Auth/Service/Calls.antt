-- ===== src/Auth/Service/Calls.antt =====
-- The calls of `AuthService` as moves of the table of user sessions.
use one_loyal.Prelude.{
  ◌∙◌, ℕ, ◌+◌, ◌<◌, ◌≡◌, refl, Bool, true, false, not, inl, inr, String, Option, Option-cases,
  some-injective, none, some, List, [], ◌∷◌, select, ap, arith, if◌then◌else◌, Bool-cases,
}
use one_loyal.Core.{ok, unauthorized}
use one_loyal.Core.Results.{refuse_if, returned, ok_injective}
use one_loyal.Models.User.{User, UserSession, is_platform_admin, is_active_user}
use one_loyal.Db.Exec.{Session, request}
use one_loyal.Db.Query.{scalar_one_or_none, put, is_null}
use one_loyal.Db.Keyed.{no_row}
use one_loyal.Auth.Service.{
  Environment, LoginRequest, PlatformLoginRequest, Client, save_session, revoked, usable, is_over,
  has_token, new_session, verified, login_user, platform_user, login, platform_login, refresh,
  logout,
}
use one_loyal.Auth.Service.Decisions.{
  or_refused, user_in, untaken, admitted, decide_login, decide_platform_login, decide_refresh,
}
use one_loyal.Auth.Service.Moves.{IsNew, TableMove}

-- A call, or time that passes.
pub data AuthCall : Type 0 where
  log_in : LoginRequest → Client → String → AuthCall
  platform_log_in : PlatformLoginRequest → Client → String → AuthCall
  rotate : String → Client → String → AuthCall
  log_out : String → AuthCall
  wait : ℕ → AuthCall

module _ {Token : Type 0} (env : Environment Token) where
  abbrev pub perform : AuthCall → Session → Session
  perform (log_in login_request client raw) s = (request (login env login_request client raw) s).1
  perform (platform_log_in login_request client raw) s =
      (request (platform_login env login_request client raw) s).1
  perform (rotate token client raw) s = (request (refresh env token client raw) s).1
  perform (log_out token) s = (request (logout env token) s).1
  perform (wait n) s = record s { now = s.now + n }

  abbrev pub run : List AuthCall → Session → Session
  run [] s = s
  run (call ∷ calls) s = run calls (perform call s)

  abbrev pub Moved : Session → Session → Type 0
  Moved s s' = TableMove s.now s.next_id s.user_sessions s'.next_id s'.user_sessions

  module _ (client : Client) (raw_token : String) where
    untaken-IsNew :
        (next now : ℕ) (user : User) (sessions : List UserSession) (u : Unit {0})
        → untaken env client raw_token sessions ≡ ok u
        → IsNew next sessions (new_session env next now user client raw_token)
    unfolding untaken
    untaken-IsNew next now user sessions u h =
        let test = has_token env raw_token in
        let (found, was, h1) = returned (scalar_one_or_none (select test sessions)) _ u h in
        record {
          key = refl;
          free = no_row test sessions (elim (Option-cases found) [
            | inl nothing ↦ was ∙ ap ok nothing
            | inr (x, there) ↦ absurd (ground (arith, h1, there))
          ]);
          unrevoked = refl;
        }

    module _ (s : Session) where
      -- What an admission has checked.
      pub record IsAdmitted (tenant : Bool) (user : User) : Type 0 where
        pub active : is_active_user user.status ≡ true
        pub role : (if tenant then is_platform_admin user.role else false) ≡ false
        pub company : (if tenant then is_null user.company_id else false) ≡ false
        pub new :
            (now : ℕ) (u : User)
            → IsNew s.next_id s.user_sessions (new_session env s.next_id now u client raw_token)

      pub admitted-IsAdmitted :
          (tenant : Bool) (candidate : Option User) (user : User)
          → admitted env client raw_token s tenant candidate ≡ ok user
          → (candidate ≡ some user) × IsAdmitted tenant user
      unfolding admitted
      admitted-IsAdmitted tenant none user h = cc
      admitted-IsAdmitted tenant (some c) user h =
          let (_, active, h2) = returned (refuse_if (not (is_active_user c.status)) _) _ user h in
          let (_, role, h3) =
            returned (refuse_if (if tenant then is_platform_admin c.role else false) _) _ user h2 in
          let (_, company, h4) =
            returned (refuse_if (if tenant then is_null c.company_id else false) _) _ user h3 in
          let (u, free, h5) = returned (untaken env client raw_token s.user_sessions) _ user h4 in
          let one = ok_injective c user h5 in
          rw (← one) (
            refl,
            record {
              active = ground (arith, active);
              role = ground (arith, role);
              company = ground (arith, company);
              new = λ now v. untaken-IsNew s.next_id now v s.user_sessions u free;
            },
          )

      verified_lem :
          (password : String) (candidate : Option User) (user : User)
          → verified env password candidate ≡ some user
          → (candidate ≡ some user) × (env.verify_password password user.password_hash ≡ true)
      verified_lem password none user h = cc
      verified_lem password (some c) user h =
          elim (Bool-cases (env.verify_password password c.password_hash)) [
            | inl right ↦
                let one : some c ≡ some user = rw right at h in
                (one, rw (← some-injective c user one) right)
            | inr wrong ↦ absurd (ground (arith, rw wrong at h))
          ]

      -- What a tenant login that returns has checked.
      pub record IsLogin (login_request : LoginRequest) (user : User) : Type 0 where
        pub found : login_user login_request s ≡ ok (some user)
        pub password : env.verify_password login_request.password user.password_hash ≡ true
        pub admission : IsAdmitted true user

      pub decide_login-IsLogin :
          (login_request : LoginRequest) (user : User)
          → decide_login env client raw_token s login_request ≡ ok user
          → IsLogin login_request user
      unfolding decide_login
      decide_login-IsLogin login_request user h =
          let (candidate, was, h1) = returned (login_user login_request s) _ user h in
          let (here, admission) =
            admitted-IsAdmitted true (verified env login_request.password candidate) user h1 in
          let (one, right) = verified_lem login_request.password candidate user here in
          record { found = was ∙ ap ok one; password = right; admission = admission }

      pub record IsPlatformLogin (login_request : PlatformLoginRequest) (user : User) : Type 0 where
        pub found : platform_user login_request s ≡ ok (some user)
        pub password : env.verify_password login_request.password user.password_hash ≡ true
        pub admission : IsAdmitted false user

      pub decide_platform_login-IsPlatformLogin :
          (login_request : PlatformLoginRequest) (user : User)
          → decide_platform_login env client raw_token s login_request ≡ ok user
          → IsPlatformLogin login_request user
      unfolding decide_platform_login
      decide_platform_login-IsPlatformLogin login_request user h =
          let (candidate, was, h1) = returned (platform_user login_request s) _ user h in
          let (here, admission) =
            admitted-IsAdmitted false (verified env login_request.password candidate) user h1 in
          let (one, right) = verified_lem login_request.password candidate user here in
          record { found = was ∙ ap ok one; password = right; admission = admission }

      -- What a refresh that returns has checked.
      pub record IsRefresh (token : String) (u : UserSession) (user : User) : Type 0 where
        pub found : scalar_one_or_none (select (has_token env token) s.user_sessions) ≡ ok (some u)
        pub unrevoked : u.revoked_at ≡ none
        pub young : s.now < u.expires_at
        pub owner : user_in u s.users ≡ ok user
        pub active : is_active_user user.status ≡ true
        pub new :
            IsNew s.next_id
              (put (λ x. x.id) (revoked u s.now) s.user_sessions)
              (new_session env s.next_id s.now user client raw_token)

      usable_lem :
          (found : Option UserSession) (u : UserSession)
          → or_refused (usable found s.now) (unauthorized "Invalid refresh token.") ≡ ok u
          → (found ≡ some u) × (u.revoked_at ≡ none) × (s.now < u.expires_at)
      unfolding is_over
      usable_lem none u h = cc
      usable_lem (some x) u h = elim (Bool-cases (is_over x s.now)) [
        | inl over ↦ absurd (ground (arith, rw over at h))
        | inr alive ↦
            let one : x ≡ u = ok_injective x u (rw alive at h) in
            let fields : (x.revoked_at ≡ none) × (s.now < x.expires_at) = ground (arith, alive) in
            rw (← one) (refl, fields.0, fields.1)
      ]

      pub decide_refresh-IsRefresh :
          (token : String) (u : UserSession) (user : User)
          → decide_refresh env client raw_token s token ≡ ok (u, user)
          → IsRefresh token u user
      unfolding decide_refresh
      decide_refresh-IsRefresh token u user h =
          let rows = select (has_token env token) s.user_sessions in
          let (found, was, h1) = returned (scalar_one_or_none rows) _ (u, user) h in
          let (x, alive, h2) =
            returned (or_refused (usable found s.now) (unauthorized "Invalid refresh token.")) _
              (u, user) h1 in
          let (y, owner, h3) = returned (user_in x s.users) _ (u, user) h2 in
          let (_, active, h4) =
            returned (refuse_if (not (is_active_user y.status)) _) _ (u, user) h3 in
          let (v, free, h5) =
            returned (untaken env client raw_token (save_session (revoked x s.now) s).user_sessions)
              _ (u, user) h4 in
          let same = ok_injective (x, y) (u, user) h5 in
          let is_u : x ≡ u = ap (λ p. p.0) same in
          let is_user : y ≡ user = ap (λ p. p.1) same in
          let (one, unrevoked, young) = usable_lem found x alive in
          rw (← is_u, ← is_user)
            (record {
              found = was ∙ ap ok one;
              unrevoked = unrevoked;
              young = young;
              owner = owner;
              active = ground (arith, active);
              new = untaken-IsNew s.next_id s.now y _ v free;
            })
