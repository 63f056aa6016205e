-- ===== src/Auth/Service/Moves.antt =====
-- What the calls of `AuthService` do to the table of user sessions, one after another.
use one_loyal.Prelude.{
  ℕ, suc, ◌<◌, ◌≤◌, ◌≡◌, refl, Bool, inl, inr, String, none, some, List, ◌∷◌, count_if, str_eq,
  eq_iff, ap, arith, Bool-cases,
}
use one_loyal.Models.User.{UserSession}
use one_loyal.Db.Query.{put}
use one_loyal.Db.Keyed.{IsKeyed, Has, Has-put, Has-unique, put-IsKeyed, count_if-put}
use one_loyal.Auth.Service.{revoked}

abbrev pub has_hash : String → UserSession → Bool
has_hash hash u = str_eq u.refresh_token_hash hash

-- The keys differ, and no hash of a token is there twice.
pub record IsSessionTable (next : ℕ) (sessions : List UserSession) : Type 0 where
  pub keyed : IsKeyed (λ u. u.id) next sessions
  pub unique : (hash : String) → count_if (has_hash hash) sessions ≤ 1

pub record IsNew (next : ℕ) (sessions : List UserSession) (new : UserSession) : Type 0 where
  pub key : new.id ≡ next
  pub free : count_if (has_hash new.refresh_token_hash) sessions ≡ 0
  pub unrevoked : new.revoked_at ≡ none

-- What a call makes of the table: nothing, a new session, a session closed, or both at once.
pub data TableMove (now next : ℕ) (sessions : List UserSession)
    : ℕ → List UserSession → Type 0 where
  keeps : TableMove now next sessions next sessions
  opens :
      (new : UserSession)
      → IsNew next sessions new
      → TableMove now next sessions (suc next) (new ∷ sessions)
  closes :
      (u : UserSession)
      → Has u sessions
      → u.revoked_at ≡ none
      → TableMove now next sessions next (put (λ x. x.id) (revoked u now) sessions)
  rotates :
      (u new : UserSession)
      → Has u sessions
      → u.revoked_at ≡ none
      → now < u.expires_at
      → IsNew next (put (λ x. x.id) (revoked u now) sessions) new
      → TableMove now next sessions (suc next) (new ∷ put (λ x. x.id) (revoked u now) sessions)

pub same_hashes :
    (hash : String) (next now : ℕ) (u : UserSession) (sessions : List UserSession)
    → IsKeyed (λ x. x.id) next sessions
    → Has u sessions
    → count_if (has_hash hash) (put (λ x. x.id) (revoked u now) sessions)
      ≡ count_if (has_hash hash) sessions
same_hashes hash next now u sessions k h =
    omega (arith, count_if-put (λ x. x.id) (has_hash hash) next u (revoked u now) sessions k h refl)

closed-IsSessionTable :
    (next now : ℕ) (u : UserSession) (sessions : List UserSession)
    → IsSessionTable next sessions
    → Has u sessions
    → IsSessionTable next (put (λ x. x.id) (revoked u now) sessions)
closed-IsSessionTable next now u sessions v h = record {
  keyed = put-IsKeyed (λ x. x.id) next (revoked u now) sessions v.keyed;
  unique = λ hash. omega (arith, same_hashes hash next now u sessions v.keyed h, v.unique hash);
}

pub opened-IsSessionTable :
    (next : ℕ) (new : UserSession) (sessions : List UserSession)
    → IsSessionTable next sessions
    → IsNew next sessions new
    → IsSessionTable (suc next) (new ∷ sessions)
opened-IsSessionTable next new sessions v n = record {
  keyed = (omega (arith, n.key), rw (n.key) (v.keyed));
  unique = λ hash. elim (Bool-cases (has_hash hash new)) [
    | inl same ↦
        let e : new.refresh_token_hash ≡ hash =
          ground (arith, eq_iff new.refresh_token_hash hash, same) in
        let free : count_if (has_hash hash) sessions ≡ 0 = rw (← e) (n.free) in
        rw (same, free) (omega arith)
    | inr differs ↦ rw differs (omega (arith, v.unique hash))
  ];
}

pub move-IsSessionTable :
    (now next : ℕ) (sessions : List UserSession) {next' : ℕ} {sessions' : List UserSession}
    → TableMove now next sessions next' sessions'
    → IsSessionTable next sessions
    → IsSessionTable next' sessions'
move-IsSessionTable now next sessions keeps v = v
move-IsSessionTable now next sessions (opens new n) v = opened-IsSessionTable next new sessions v n
move-IsSessionTable now next sessions (closes u h _) v =
    closed-IsSessionTable next now u sessions v h
move-IsSessionTable now next sessions (rotates u new h _ _ n) v =
    opened-IsSessionTable next new _ (closed-IsSessionTable next now u sessions v h) n

-- A session that is revoked is no row that a call closes.
stays_put :
    (next now t : ℕ) (u old : UserSession) (sessions : List UserSession)
    → IsSessionTable next sessions
    → Has old sessions
    → old.revoked_at ≡ some t
    → Has u sessions
    → u.revoked_at ≡ none
    → Has old (put (λ x. x.id) (revoked u now) sessions)
stays_put next now t u old sessions v h r g n =
    elim (Has-put (λ x. x.id) old (revoked u now) sessions h) [
      | inl kept ↦ kept
      | inr (e, _) ↦
          let one : old ≡ u = Has-unique (λ x. x.id) next old u sessions v.keyed h g e in
          absurd (ground (arith, ap (λ x. x.revoked_at) one, r, n))
    ]

pub move_keeps_revoked :
    (now next t : ℕ) (old : UserSession) (sessions : List UserSession) {next' : ℕ}
    {sessions' : List UserSession}
    → IsSessionTable next sessions
    → TableMove now next sessions next' sessions'
    → Has old sessions
    → old.revoked_at ≡ some t
    → Has old sessions'
move_keeps_revoked now next t old sessions v keeps h r = h
move_keeps_revoked now next t old sessions v (opens new n) h r = inr h
move_keeps_revoked now next t old sessions v (closes u g n) h r =
    stays_put next now t u old sessions v h r g n
move_keeps_revoked now next t old sessions v (rotates u new g n _ _) h r =
    inr (stays_put next now t u old sessions v h r g n)
