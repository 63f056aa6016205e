-- ===== src/Auth/Service/Liveness.antt =====
-- A login can be kept alive: its refresh token is taken until its time is over.
use one_loyal.Prelude.{
  leb, ==_iff, ◌*◌, sym, ◌∙◌, ℕ, ◌+◌, ◌<◌, ◌==◌, ◌≡◌, refl, Bool, true, false, inl, inr, String,
  Option, some-injective, none, some, List, [], ◌∷◌, select, count_if, str_eq, eq_iff, arith,
  if◌then◌else◌, Bool-cases,
}
use one_loyal.Core.{Result, ok, err}
use one_loyal.Core.Results.{ok_injective}
use one_loyal.Models.User.{Company, User, UserSession, is_platform_admin, is_active_user}
use one_loyal.Db.Exec.{Session, request}
use one_loyal.Db.Query.{scalar_one_or_none, put}
use one_loyal.Db.Keyed.{
  IsKeyed, Has, scalar-zero, select_one, select_key, select-put, Has-append, Has-select,
  Has-scalar_one_or_none,
}
use one_loyal.Auth.Service.{
  Environment, LoginRequest, AuthTokenResponse, Client, seen, company_of, joined, pairs,
  one_of_many, named, revoked, token_response, is_over, has_token, new_session, login_user, login,
  refresh,
}
use one_loyal.Auth.Service.Decisions.{
  user_in, untaken, decide_login, entered, logged_in, login_decides, decide_refresh, rotated,
  refresh_decides,
}
use one_loyal.Auth.Service.Calls.{IsLogin, decide_login-IsLogin}
use one_loyal.Auth.Service.Moves.{same_hashes, opened-IsSessionTable}
use one_loyal.Auth.Service.Tokens.{IsOpenTable}

module _ {Token : Type 0} (env : Environment Token) where
  -- What a refresh needs: its session open and young, the user active, the new hash not taken.
  pub record CanRefresh (token raw : String) (s : Session) (u : UserSession) (user : User)
      : Type 0 where
    pub there : Has u s.user_sessions
    pub mine : has_token env token u ≡ true
    pub unrevoked : u.revoked_at ≡ none
    pub young : s.now < u.expires_at
    pub owner : user_in u s.users ≡ ok user
    pub active : is_active_user user.status ≡ true
    pub free : count_if (has_token env raw) s.user_sessions ≡ 0

  module _ (token : String) (client : Client) (raw : String) (s : Session) (u : UserSession)
      (user : User) where
    not_over : CanRefresh token raw s u user → is_over u s.now ≡ false
    unfolding is_over
    not_over c =
        let young : leb u.expires_at s.now ≡ false = ground (arith, c.young) in
        rw (c.unrevoked, young) refl

    decide_refresh-ok :
        IsOpenTable env s
        → CanRefresh token raw s u user
        → decide_refresh env client raw s token ≡ ok (u, user)
    unfolding decide_refresh untaken
    decide_refresh-ok v c =
        let one : select (has_token env token) s.user_sessions ≡ u ∷ [] =
          select_one (has_token env token) u s.user_sessions
            (v.unique (env.hash_refresh_token token)) c.there c.mine in
        let closed = put (λ x. x.id) (revoked u s.now) s.user_sessions in
        let still : count_if (has_token env raw) closed ≡ 0 =
          same_hashes (env.hash_refresh_token raw) s.next_id s.now u s.user_sessions v.keyed c.there
          ∙ c.free in
        let none_there : scalar_one_or_none (select (has_token env raw) closed) ≡ ok none =
          scalar-zero (has_token env raw) closed still in
        rw (one, not_over c, c.owner, c.active, none_there) refl

    pub refresh_returns :
        IsOpenTable env s
        → CanRefresh token raw s u user
        → (answer : AuthTokenResponse Token) × ((request (refresh env token client raw) s).0
            ≡ ok answer)
          × (answer.user ≡ user)
          × (answer.refresh_token ≡ raw)
    unfolding token_response
    refresh_returns v c =
        let decided = refresh_decides env client raw s token in
        let answer =
          token_response env user (company_of user (rotated env client raw s u user)) raw
            (if is_platform_admin user.role then "platform" else "tenant") s.now in
        (answer, rw (decided, decide_refresh-ok v c) refl, refl, refl)

  module _ (email slug : String) where
    Has-pairs : (u x : User) (companies : List Company) → Has x (pairs email u companies) → x ≡ u
    Has-pairs u x [] h = absurd h
    Has-pairs u x (c ∷ companies) h = elim (Bool-cases (str_eq u.email email)) [
      | inl same ↦ elim (rw same at h) [ inl q ↦ sym q | inr there ↦ Has-pairs u x companies there ]
      | inr other ↦ Has-pairs u x companies (rw other at h)
    ]

    Has-joined :
        (companies : List Company) (users : List User) (x : User)
        → Has x (joined email slug companies users)
        → Has x users
    unfolding joined
    Has-joined companies [] x h = absurd h
    Has-joined companies (u ∷ users) x h =
        elim (Has-append x (pairs email u _) (joined email slug companies users) h) [
          | inl here ↦ inl (sym (Has-pairs u x _ here))
          | inr later ↦ inr (Has-joined companies users x later)
        ]

  one_of_many-Has : (users : List User) (u : User) → one_of_many users ≡ ok (some u) → Has u users
  one_of_many-Has [] u h = cc
  one_of_many-Has (x ∷ []) u h = inl (some-injective x u (ok_injective (some x) (some u) h))
  one_of_many-Has (x ∷ y ∷ rest) u h = cc

  named-Has :
      (slug : Option String) (email : String) (s : Session) (user : User)
      → named slug email s ≡ ok (some user)
      → Has user s.users
  named-Has (some slug) email s user h =
      Has-joined email slug s.companies s.users user
        (Has-scalar_one_or_none (joined email slug s.companies s.users) user h)
  named-Has none email s user h =
      let mine : User → Bool = λ u. str_eq u.email email in
      (Has-select mine user s.users (one_of_many-Has (select mine s.users) user h)).0

  login_user-Has :
      (login_request : LoginRequest) (s : Session) (user : User)
      → login_user login_request s ≡ ok (some user)
      → Has user s.users
  unfolding login_user
  login_user-Has login_request s user h = named-Has login_request.company_slug _ s user h

  -- After his last login is noted, the user is still the one row of his key.
  seen_user :
      (next now : ℕ) (user : User) (u : UserSession) (users : List User)
      → IsKeyed (λ x. x.id) next users
      → Has user users
      → u.user_id ≡ user.id
      → user_in u (put (λ x. x.id) (seen user now) users) ≡ ok (seen user now)
  unfolding user_in
  seen_user next now user u users k h e =
      let mine : User → Bool = λ x. x.id == u.user_id in
      let own : mine user ≡ true = (==_iff _ _).1 (sym e) in
      let before : select mine users ≡ user ∷ [] =
        select_key (λ x. x.id) mine next user users k h own
          (λ x t. (==_iff x.id u.user_id).0 t ∙ e) in
      let after : select mine (put (λ x. x.id) (seen user now) users) ≡ seen user now ∷ [] =
        select-put (λ x. x.id) mine next user (seen user now) users k (rw before refl) refl own in
      rw after refl

  module _ (client later_client : Client) (raw later_raw : String) (s : Session) (later : ℕ) where
    -- The same session at another time
    abbrev pub at_time : Session → Session
    at_time s' = record s' { now = later }

    abbrev pub KeepsAlive : AuthTokenResponse Token → Session → Type 0
    KeepsAlive answer s' =
        (next : AuthTokenResponse Token) × ((request
            (refresh env answer.refresh_token later_client later_raw) (at_time s')).0
          ≡ ok next)
        × (next.user ≡ answer.user)
        × (next.refresh_token ≡ later_raw)

    logged_in-KeepsAlive :
        (login_request : LoginRequest) (d : Result User) (answer : AuthTokenResponse Token)
        → ((user : User) → d ≡ ok user → IsLogin env client raw s login_request user)
        → IsOpenTable env s
        → IsKeyed (λ x. x.id) s.next_id s.users
        → (logged_in env client raw s d).0 ≡ ok answer
        → later < s.now + 86400 * env.refresh_token_expire_days
        → count_if (has_token env later_raw) (logged_in env client raw s d).1.user_sessions ≡ 0
        → KeepsAlive answer (logged_in env client raw s d).1
    unfolding token_response
    logged_in-KeepsAlive login_request (ok user) answer f v k h young free =
        let l = f user refl in
        let same = ok_injective _ answer h in
        let new = new_session env s.next_id s.now (seen user s.now) client raw in
        let s' = at_time (entered env client raw s user) in
        let open' : IsOpenTable env s' =
          opened-IsSessionTable s.next_id new s.user_sessions v
            (l.admission.new s.now (seen user s.now)) in
        let owner =
          seen_user s.next_id s.now user new s.users k (login_user-Has login_request s user l.found)
            refl in
        rw (← same) (
          refresh_returns raw later_client later_raw s' new (seen user s.now) open' (record {
            there = inl refl;
            mine = (eq_iff (env.hash_refresh_token raw) (env.hash_refresh_token raw)).1 refl;
            unrevoked = refl;
            young = young;
            owner = owner;
            active = l.admission.active;
            free = free;
          }))
    logged_in-KeepsAlive login_request (err e) answer f v k h young free = cc

    -- A login can be kept alive: the refresh token that a tenant login hands out is accepted at any
    -- time before its expiry, whatever the clock reads, and the answer is for the same user with the
    -- new refresh token, where the keys of users and sessions and the hashes of the tokens differ and
    -- the hash of the new token is not there yet.
    pub login_then_refresh :
        (login_request : LoginRequest) (answer : AuthTokenResponse Token)
        → IsOpenTable env s
        → IsKeyed (λ x. x.id) s.next_id s.users
        → (request (login env login_request client raw) s).0 ≡ ok answer
        → later < s.now + 86400 * env.refresh_token_expire_days
        → count_if
            (has_token env later_raw)
            (request (login env login_request client raw) s).1.user_sessions
          ≡ 0
        → KeepsAlive answer (request (login env login_request client raw) s).1
    login_then_refresh login_request answer v k h young free =
        let decided = login_decides env client raw s login_request in
        rw decided (
          logged_in-KeepsAlive login_request (decide_login env client raw s login_request) answer
            (decide_login-IsLogin env client raw s login_request) v k (rw decided at h) young
            (rw decided at free))
