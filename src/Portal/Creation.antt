-- ===== src/Portal/Creation.antt =====
-- A new magic link.
use one_loyal.Prelude.{
  ℕ, suc, ◌+◌, ◌*◌, ◌≡◌, ap, refl, sym, ◌∙◌, String, true, not, inl, inr, Option, none, some, [],
  ◌∷◌, select, str_eq, eq_iff, arith,
}
use one_loyal.Core.{Result, ok, err, integrity_error, Result-cases}
use one_loyal.Core.Results.{◌>>=◌, ◌>>◌, refuse_if, returned, ok_injective}
use one_loyal.Models.Portal.{MagicLinkToken}
use one_loyal.Db.Exec.{Session}
use one_loyal.Db.Query.{scalar_one_or_none, is_null}
use one_loyal.Db.Keyed.{scalar-none}
use one_loyal.Progress.Service.Plan.{customer_in, get_customer_lem}
use one_loyal.Portal.Service.{Environment, MagicLinkCreateResponse, has_hash, create_magic_link}

module _ {Token : Type 0} (env : Environment Token) (company_id customer_id user_id : ℕ)
    (raw_token : String) (s : Session) where
  abbrev expiry : ℕ
  expiry = s.now + 86400 * env.magic_link_default_expire_days

  abbrev new_link : MagicLinkToken
  new_link = record {
    id = s.next_id;
    company_id = company_id;
    customer_id = customer_id;
    token_hash = env.hash_magic_token raw_token;
    expires_at = expiry;
    used_at = none;
    revoked_at = none;
    created_by_user_id = some user_id;
    last_used_at = none;
    use_count = 0;
  }

  abbrev taken : Result (Option MagicLinkToken)
  taken = scalar_one_or_none (select (has_hash env raw_token) s.magic_links)

  unfoldable decide_link : Result MagicLinkToken
  decide_link = do
    customer_in company_id customer_id s.customers
    found ← taken
    refuse_if (not (is_null found)) integrity_error
    ok new_link

  abbrev added : Result MagicLinkToken → Result MagicLinkCreateResponse × Session
  added (ok l) = (
    ok (record { token_id = l.id; raw_token = raw_token; expires_at = l.expires_at }),
    record s { magic_links = l ∷ s.magic_links; next_id = suc s.next_id },
  )
  added (err e) = (err e, s)

  create_magic_link_decides :
      create_magic_link env company_id customer_id user_id raw_token s ≡ added decide_link
  unfolding create_magic_link decide_link
  create_magic_link_decides = elim (Result-cases (customer_in company_id customer_id s.customers)) [
    | inl (c, h) ↦ ground (arith, get_customer_lem company_id customer_id s, h)
    | inr (e, h) ↦ ground (arith, get_customer_lem company_id customer_id s, h)
  ]

  decide_link_lem :
      (l : MagicLinkToken)
      → decide_link ≡ ok l
      → (new_link ≡ l) × (select (has_hash env raw_token) s.magic_links ≡ [])
  unfolding decide_link
  decide_link_lem l h =
      let (_, _, h1) = returned (customer_in company_id customer_id s.customers) _ l h in
      let (found, was, h2) = returned taken _ l h1 in
      let (u, passed, h3) = returned (refuse_if (not (is_null found)) integrity_error) _ l h2 in
      let free : found ≡ none = ground (arith, passed) in
      (ok_injective new_link l h3, scalar-none _ (was ∙ ap ok free))

  -- The raw token of a link that was created finds that link alone, unused and not revoked, for the
  -- customer it was made for, until the time that the response names.
  pub create_magic_link_is_found :
      (r : MagicLinkCreateResponse)
      → (create_magic_link env company_id customer_id user_id raw_token s).0 ≡ ok r
      → (l : MagicLinkToken) × (scalar_one_or_none (
            select
              (has_hash env raw_token)
              (create_magic_link env company_id customer_id user_id raw_token s).1.magic_links)
          ≡ ok (some l))
        × (l.id ≡ r.token_id)
        × (l.company_id ≡ company_id)
        × (l.customer_id ≡ customer_id)
        × (l.expires_at ≡ r.expires_at)
        × (l.revoked_at ≡ none)
        × (l.use_count ≡ 0)
  create_magic_link_is_found r h =
      rw create_magic_link_decides (found decide_link r refl (rw create_magic_link_decides at h))
    where
      same_text : (t : String) → str_eq t t ≡ true
      same_text t = (eq_iff t t).1 refl

      found :
          (d : Result MagicLinkToken) (r : MagicLinkCreateResponse)
          → d ≡ decide_link
          → (added d).0 ≡ ok r
          → (l : MagicLinkToken) × (scalar_one_or_none
                (select (has_hash env raw_token) (added d).1.magic_links)
              ≡ ok (some l))
            × (l.id ≡ r.token_id)
            × (l.company_id ≡ company_id)
            × (l.customer_id ≡ customer_id)
            × (l.expires_at ≡ r.expires_at)
            × (l.revoked_at ≡ none)
            × (l.use_count ≡ 0)
      found (ok l) r d h =
          let (made, free) = decide_link_lem l (sym d) in
          let says = ok_injective _ r h in
          let own : has_hash env raw_token l ≡ true = rw (← made) (same_text _) in
          (
            l,
            rw (own, free) refl,
            ap (λ x. x.token_id) says,
            ap (λ x. x.company_id) (sym made),
            ap (λ x. x.customer_id) (sym made),
            ap (λ x. x.expires_at) says,
            ap (λ x. x.revoked_at) (sym made),
            ap (λ x. x.use_count) (sym made),
          )
      found (err e) r d h = cc
