-- ===== src/Auth/Service/Tokens.antt =====
-- What holds of refresh tokens along any calls of `AuthService`.
use one_loyal.Prelude.{
  ℕ, ◌≡◌, refl, true, false, inl, inr, String, Option, Option-cases, none, some, List, [], ◌∷◌,
  select,
}
use one_loyal.Core.{Result, ok, err, Result-cases, unauthorized}
use one_loyal.Models.User.{User, UserSession}
use one_loyal.Db.Exec.{Session, request}
use one_loyal.Db.Query.{scalar_one_or_none}
use one_loyal.Db.Keyed.{Has, found_row, select_one, Has-put_self}
use one_loyal.Auth.Service.{
  Environment, AuthTokenResponse, Client, seen, revoked, is_over, has_token, refresh, close, logout,
}
use one_loyal.Auth.Service.Decisions.{
  logged_in, login_decides, platform_logged_in, platform_login_decides, decide_refresh, refreshed,
  refresh_decides,
}
use one_loyal.Auth.Service.Moves.{
  IsSessionTable, keeps, opens, closes, rotates, move-IsSessionTable, move_keeps_revoked,
}
use one_loyal.Auth.Service.Calls.{
  AuthCall, log_in, platform_log_in, rotate, log_out, wait, perform, run, Moved, IsAdmitted,
  decide_login-IsLogin, decide_platform_login-IsPlatformLogin, IsRefresh, decide_refresh-IsRefresh,
}

module _ {Token : Type 0} (env : Environment Token) where
  module _ (client : Client) (raw : String) (s : Session) where
    logged_in-Moved :
        (d : Result User)
        → ((user : User) → d ≡ ok user → IsAdmitted env client raw s true user)
        → Moved env s (logged_in env client raw s d).1
    logged_in-Moved (ok user) f = opens _ ((f user refl).new s.now (seen user s.now))
    logged_in-Moved (err e) f = keeps

    platform_logged_in-Moved :
        (d : Result User)
        → ((user : User) → d ≡ ok user → IsAdmitted env client raw s false user)
        → Moved env s (platform_logged_in env client raw s d).1
    platform_logged_in-Moved (ok user) f = opens _ ((f user refl).new s.now (seen user s.now))
    platform_logged_in-Moved (err e) f = keeps

    refreshed-Moved :
        (token : String) (d : Result (UserSession × User))
        → ((u : UserSession) (user : User)
            → d ≡ ok (u, user)
            → IsRefresh env client raw s token u user)
        → Moved env s (refreshed env client raw s d).1
    refreshed-Moved token (ok (u, user)) f =
        let r = f u user refl in
        rotates u _ (found_row (has_token env token) s.user_sessions u r.found).0 r.unrevoked
          r.young r.new
    refreshed-Moved token (err e) f = keeps

  logged_out : Result (Option UserSession) → Session → Result (Unit {0}) × Session
  logged_out (ok found) s = (ok tt, close found s.now s)
  logged_out (err e) s = (err e, s)

  logout_lem :
      (token : String) (s : Session)
      → request (logout env token) s
        ≡ logged_out (scalar_one_or_none (select (has_token env token) s.user_sessions)) s
  unfolding logout logged_out
  logout_lem token s =
      let rows = select (has_token env token) s.user_sessions in
      elim (Result-cases (scalar_one_or_none rows)) [
        | inl (found, h) ↦ rw h refl
        | inr (e, h) ↦ rw h refl
      ]

  logged_out-Moved :
      (token : String) (s : Session) (r : Result (Option UserSession))
      → scalar_one_or_none (select (has_token env token) s.user_sessions) ≡ r
      → Moved env s (logged_out r s).1
  unfolding logged_out
  logged_out-Moved token s (ok none) h = keeps
  logged_out-Moved token s (ok (some u)) h = elim (Option-cases u.revoked_at) [
    | inl never ↦ rw never (closes u (found_row (has_token env token) s.user_sessions u h).0 never)
    | inr (t, before) ↦ rw before keeps
  ]
  logged_out-Moved token s (err e) h = keeps

  -- A call of the service keeps the table of user sessions as it is, opens a session under a new
  -- key and a hash that is not there, closes one that was not revoked, or does both at once; time
  -- that passes keeps it.
  pub perform-Moved : (call : AuthCall) (s : Session) → Moved env s (perform env call s)
  perform-Moved (log_in login_request client raw) s =
      rw (perform, login_decides env client raw s login_request)
        (logged_in-Moved client raw s _
          (λ user h. (decide_login-IsLogin env client raw s login_request user h).admission))
  perform-Moved (platform_log_in login_request client raw) s =
      rw (perform, platform_login_decides env client raw s login_request)
        (platform_logged_in-Moved client raw s _ (λ user h.
          (decide_platform_login-IsPlatformLogin env client raw s login_request user h).admission))
  perform-Moved (rotate token client raw) s =
      rw (perform, refresh_decides env client raw s token)
        (refreshed-Moved client raw s token _ (decide_refresh-IsRefresh env client raw s token))
  perform-Moved (log_out token) s =
      rw (perform, logout_lem token s) (logged_out-Moved token s _ refl)
  perform-Moved (wait n) s = keeps

  abbrev pub IsOpenTable : Session → Type 0
  IsOpenTable s = IsSessionTable s.next_id s.user_sessions

  -- Any calls keep the keys of the user sessions apart, and no hash of a token is there twice.
  pub run-IsOpenTable :
      (calls : List AuthCall) (s : Session) → IsOpenTable s → IsOpenTable (run env calls s)
  run-IsOpenTable [] s v = v
  run-IsOpenTable (call ∷ calls) s v =
      run-IsOpenTable calls (perform env call s)
        (move-IsSessionTable s.now s.next_id s.user_sessions (perform-Moved call s) v)

  -- A session that is revoked stays in the table as it is, through any calls.
  pub run_keeps_revoked :
      (calls : List AuthCall) (s : Session) (u : UserSession) (t : ℕ)
      → IsOpenTable s
      → Has u s.user_sessions
      → u.revoked_at ≡ some t
      → Has u (run env calls s).user_sessions
  run_keeps_revoked [] s u t v h r = h
  run_keeps_revoked (call ∷ calls) s u t v h r =
      let move = perform-Moved call s in
      run_keeps_revoked calls (perform env call s) u t
        (move-IsSessionTable s.now s.next_id s.user_sessions move v)
        (move_keeps_revoked s.now s.next_id t u s.user_sessions v move h r) r

  -- The token of a revoked session is refused.
  revoked_is_refused :
      (token : String) (client : Client) (raw : String) (s : Session) (u : UserSession) (t : ℕ)
      → IsOpenTable s
      → Has u s.user_sessions
      → has_token env token u ≡ true
      → u.revoked_at ≡ some t
      → (request (refresh env token client raw) s).0 ≡ err (unauthorized "Invalid refresh token.")
  unfolding decide_refresh is_over
  revoked_is_refused token client raw s u t v h mine r =
      let one : select (has_token env token) s.user_sessions ≡ u ∷ [] =
        select_one (has_token env token) u s.user_sessions (v.unique (env.hash_refresh_token token))
          h mine in
      rw (refresh_decides env client raw s token, one, r) refl

  -- The session of a token that was closed.
  record IsClosed (token : String) (t : ℕ) (s : Session) : Type 0 where
    row : UserSession
    there : Has row s.user_sessions
    mine : has_token env token row ≡ true
    closed_at : row.revoked_at ≡ some t

  refreshed-IsClosed :
      (token : String) (client : Client) (raw : String) (s : Session)
      (d : Result (UserSession × User)) (answer : AuthTokenResponse Token)
      → ((u : UserSession) (user : User)
          → d ≡ ok (u, user)
          → IsRefresh env client raw s token u user)
      → (refreshed env client raw s d).0 ≡ ok answer
      → IsClosed token s.now (refreshed env client raw s d).1
  refreshed-IsClosed token client raw s (ok (u, user)) answer f h =
      let r = f u user refl in
      let (there, mine) = found_row (has_token env token) s.user_sessions u r.found in
      record {
        row = revoked u s.now;
        there = inr (Has-put_self (λ x. x.id) u (revoked u s.now) s.user_sessions there refl);
        mine = mine;
        closed_at = refl;
      }
  refreshed-IsClosed token client raw s (err e) answer f h = cc

  closed_stays_closed :
      (token : String) (client : Client) (raw : String) (s : Session) (t : ℕ)
      (calls : List AuthCall)
      → IsOpenTable s
      → IsClosed token t s
      → (request (refresh env token client raw) (run env calls s)).0
        ≡ err (unauthorized "Invalid refresh token.")
  closed_stays_closed token client raw s t calls v c =
      revoked_is_refused token client raw (run env calls s) c.row t (run-IsOpenTable calls s v)
        (run_keeps_revoked calls s c.row t v c.there c.closed_at) c.mine c.closed_at

  -- A refresh token works once: if a refresh with it returned, then after any further calls and any
  -- time a refresh with it raises "Invalid refresh token.", where the keys of the user sessions and
  -- their hashes differ.
  pub refresh_token_works_once :
      (token : String) (client later_client : Client) (raw later_raw : String) (s : Session)
      (answer : AuthTokenResponse Token) (calls : List AuthCall)
      → IsOpenTable s
      → (request (refresh env token client raw) s).0 ≡ ok answer
      → (request
          (refresh env token later_client later_raw)
          (run env calls (request (refresh env token client raw) s).1)).0
        ≡ err (unauthorized "Invalid refresh token.")
  refresh_token_works_once token client later_client raw later_raw s answer calls v h =
      let decided = refresh_decides env client raw s token in
      let closed =
        refreshed-IsClosed token client raw s (decide_refresh env client raw s token) answer
          (decide_refresh-IsRefresh env client raw s token) (rw decided at h) in
      closed_stays_closed token later_client later_raw (request (refresh env token client raw) s).1
        s.now calls (run-IsOpenTable (rotate token client raw ∷ []) s v) (rw decided closed)

  logged_out-IsClosed :
      (token : String) (s : Session) (u : UserSession)
      → Has u s.user_sessions
      → has_token env token u ≡ true
      → (t : ℕ) × IsClosed token t (logged_out (ok (some u)) s).1
  unfolding logged_out
  logged_out-IsClosed token s u h mine = elim (Option-cases u.revoked_at) [
    | inl never ↦ (
      s.now,
      rw never (record {
        row = revoked u s.now;
        there = Has-put_self (λ x. x.id) u (revoked u s.now) s.user_sessions h refl;
        mine = mine;
        closed_at = refl;
      }),
    )
    | inr (t, before) ↦
        (t, rw before (record { row = u; there = h; mine = mine; closed_at = before }))
  ]

  -- A logout closes the session: if a refresh token is that of a session in the table, then after a
  -- logout with it, and after any further calls and any time, a refresh with it raises "Invalid
  -- refresh token.", where the keys of the user sessions and their hashes differ.
  pub logout_closes_session :
      (token : String) (client : Client) (raw : String) (s : Session) (u : UserSession)
      (calls : List AuthCall)
      → IsOpenTable s
      → Has u s.user_sessions
      → has_token env token u ≡ true
      → (request (refresh env token client raw) (run env calls (request (logout env token) s).1)).0
        ≡ err (unauthorized "Invalid refresh token.")
  logout_closes_session token client raw s u calls v h mine =
      let one : select (has_token env token) s.user_sessions ≡ u ∷ [] =
        select_one (has_token env token) u s.user_sessions (v.unique (env.hash_refresh_token token))
          h mine in
      let step = logout_lem token s in
      let closed = logged_out-IsClosed token s u h mine in
      closed_stays_closed token client raw (request (logout env token) s).1 closed.0 calls
        (run-IsOpenTable (log_out token ∷ []) s v) (rw (step, one) (closed.1))
