-- ===== src/Portal/RoundTrip.antt =====
-- From a link over a portal session and its token to a portal context.
use one_loyal.Prelude.{
  ℕ, ◌+◌, ◌*◌, ◌<◌, ◌≤◌, ◌≡◌, false, str_eq, ap, refl, sym, ◌∙◌, String, true, inl, inr, Option,
  some, [], ◌∷◌, select, arith,
}
use one_loyal.Core.{Result, ok, err, unauthorized}
use one_loyal.Core.Results.{◌>>=◌, ◌>>◌, required_row, returned, ok_injective}
use one_loyal.Common.Json.{Fields, get}
use one_loyal.Models.Customer.{Customer}
use one_loyal.Models.Portal.{MagicLinkToken}
use one_loyal.Db.Exec.{Session}
use one_loyal.Db.Query.{scalar_one_or_none, put}
use one_loyal.Db.Keyed.{IsKeyed, Has, found_row, select_key, select-put, Scalar-cases}
use one_loyal.Portal.Service.{
  Environment, PortalContext, PortalSession, company_of, valid, portal_claims, has_hash,
  load_magic_link_by_raw_token, create_portal_access_token, used, create_portal_session,
  get_portal_context, save_link,
}
use one_loyal.Portal.Access.{
  live_in, owner_in, validate_magic_link_lem, ensure_available_lem, IsLive, live_in-IsLive, is_link,
  decide_context, get_portal_context_decides,
}

-- What the library for signed tokens does with the claims of a portal token, which are texts but for
-- the times of issue and of expiry, and have neither "nbf" nor "aud": from the first time to the
-- second, the latter excluded, the token decodes. The two times come back in another form, and the
-- texts as they were.
abbrev pub DecodesInTime : {Token : Type 0} → Environment Token → Type 0
DecodesInTime env =
    (l : MagicLinkToken) (issued now exp : ℕ)
    → issued ≤ now
    → now < exp
    → (payload : Fields) × (env.jwt_decode now (env.jwt_encode (portal_claims l issued exp))
        ≡ valid payload)
      × ((key : String)
          → str_eq key "iat" ≡ false
          → str_eq key "exp" ≡ false
          → get key payload ≡ get key (portal_claims l issued exp))

module _ {Token : Type 0} (env : Environment Token) (raw_token : String) (s : Session) where
  abbrev rows : Result (Option MagicLinkToken)
  rows = scalar_one_or_none (select (has_hash env raw_token) s.magic_links)

  unfoldable decide_session : Result (MagicLinkToken × Customer)
  decide_session = do
    l ← required_row rows (unauthorized "Invalid portal token.")
    live_in s.now l
    c ← owner_in l s.customers
    ok (l, c)

  abbrev token_of : MagicLinkToken → Token
  token_of l =
      env.jwt_encode
        (portal_claims (used l s.now) s.now (s.now + 3600 * env.portal_access_token_expire_hours))

  -- What is returned with a link and its customer.
  abbrev session_of : MagicLinkToken → Customer → PortalSession Token
  session_of l c = record {
    portal_access_token = token_of l;
    expires_in = 3600 * env.portal_access_token_expire_hours;
    customer = c;
    company = company_of l s;
  }

  abbrev opened : Result (MagicLinkToken × Customer) → Result (PortalSession Token) × Session
  opened (ok (l, c)) = (ok (session_of l c), save_link (used l s.now) s)
  opened (err e) = (err e, s)

  create_portal_session_decides : create_portal_session env raw_token s ≡ opened decide_session
  unfolding create_portal_session load_magic_link_by_raw_token create_portal_access_token
      decide_session
  create_portal_session_decides = elim (Scalar-cases rows) [
    | inl g ↦ ground (arith, g)
    | inr (inl (l, g)) ↦ ground (arith, g, validate_magic_link_lem l s, ensure_available_lem l s)
    | inr (inr (e, g)) ↦ ground (arith, g)
  ]

  -- The row of the link after the session is the used link.
  link_after :
      (l : MagicLinkToken)
      → IsKeyed (λ x. x.id) s.next_id s.magic_links
      → Has l s.magic_links
      → select
          (is_link l.id l.company_id l.customer_id)
          (put (λ x. x.id) (used l s.now) s.magic_links)
        ≡ used l s.now ∷ []
  link_after l v h =
      let test = is_link l.id l.company_id l.customer_id in
      let own : test l ≡ true = ground arith in
      let alone : select test s.magic_links ≡ l ∷ [] =
        select_key (λ x. x.id) test s.next_id l s.magic_links v h own (λ x t. ground (arith, t)) in
      select-put (λ x. x.id) test s.next_id l (used l s.now) s.magic_links v (rw alone refl) refl
        own

  still_live :
      (l : MagicLinkToken) (later : ℕ)
      → IsLive s.now l
      → later < l.expires_at
      → live_in later (used l s.now) ≡ ok tt
  unfolding live_in
  still_live l later v h = ground (arith, v.unrevoked)

  abbrev context_of : MagicLinkToken → Customer → PortalContext
  context_of l c = record {
    company_id = l.company_id;
    customer_id = l.customer_id;
    token_id = l.id;
    customer = c;
    company = company_of l s;
    magic_link_token = used l s.now;
  }

  module _ (l : MagicLinkToken) (later : ℕ) where
    abbrev after : Session
    after = record (save_link (used l s.now) s) { now = later }

    context_later :
        (c : Customer)
        → DecodesInTime env
        → IsKeyed (λ x. x.id) s.next_id s.magic_links
        → Has l s.magic_links
        → IsLive s.now l
        → owner_in l s.customers ≡ ok c
        → s.now ≤ later
        → later < l.expires_at
        → later < s.now + 3600 * env.portal_access_token_expire_hours
        → decide_context env (token_of l) after ≡ ok (context_of l c)
    unfolding decide_context owner_in
    context_later c codec v h live owner since young fresh =
        let exp = s.now + 3600 * env.portal_access_token_expire_hours in
        let (payload, decoded, kept) = codec (used l s.now) s.now later exp since fresh in
        rw
          (
            decoded,
            kept "token_type" refl refl,
            kept "token_id" refl refl,
            kept "company_id" refl refl,
            kept "sub" refl refl,
            link_after l v h,
            still_live l later live young,
            owner,
          )
          refl

    -- What a session that was opened has found.
    decide_session_lem :
        (pair : MagicLinkToken × Customer)
        → rows ≡ ok (some l)
        → decide_session ≡ ok pair
        → (pair.0 ≡ l) × IsLive s.now l × (owner_in l s.customers ≡ ok pair.1)
    unfolding decide_session
    decide_session_lem pair r h =
        let h0 : (live_in s.now l >> (owner_in l s.customers >>= λ d. ok (l, d))) ≡ ok pair =
          rw r at h in
        let (u, live, h1) = returned (live_in s.now l) _ pair h0 in
        let (d, owner, h2) = returned (owner_in l s.customers) _ pair h1 in
        let same : (l, d) ≡ pair = ok_injective (l, d) pair h2 in
        rw (← same) (refl, live_in-IsLive s.now l u live, owner)

    opened_lem :
        (d : Result (MagicLinkToken × Customer)) (o : PortalSession Token)
        → d ≡ decide_session
        → rows ≡ ok (some l)
        → (opened d).0 ≡ ok o
        → (token_of l ≡ o.portal_access_token)
          × IsLive s.now l
          × (owner_in l s.customers ≡ ok o.customer)
          × ((opened d).1 ≡ save_link (used l s.now) s)
    opened_lem (ok (m, e)) o d r h =
        let found = decide_session_lem (m, e) r (sym d) in
        let same : session_of m e ≡ o = ok_injective (session_of m e) o h in
        let is_l : m ≡ l = found.0 in
        let is_c : e ≡ o.customer = ap (λ p. p.customer) same in
        (
          ap token_of (sym is_l) ∙ ap (λ p. p.portal_access_token) same,
          found.1,
          rw (← is_c) (found.2),
          ap (λ x. save_link (used x s.now) s) is_l,
        )
    opened_lem (err e) o d r h = cc

    -- Where the keys of the links differ and a portal token decodes in its time: if the raw token
    -- finds the link `l`, and a session opened with it returns `o`, then from that moment on, as
    -- long as neither the link nor the token has expired, the context of the token in `o` is that
    -- of the link, with its company and the customer in `o`.
    pub create_portal_session_lets_in :
        (o : PortalSession Token)
        → DecodesInTime env
        → IsKeyed (λ x. x.id) s.next_id s.magic_links
        → rows ≡ ok (some l)
        → (create_portal_session env raw_token s).0 ≡ ok o
        → s.now ≤ later
        → later < l.expires_at
        → later < s.now + 3600 * env.portal_access_token_expire_hours
        → (get_portal_context env o.portal_access_token
            (record (create_portal_session env raw_token s).1 { now = later })).0
          ≡ ok (context_of l o.customer)
    create_portal_session_lets_in o codec v r h since young fresh =
        let decided = create_portal_session_decides in
        let p = opened_lem decide_session o refl r (rw decided at h) in
        let there = (found_row (has_hash env raw_token) s.magic_links l r).0 in
        let context = context_later o.customer codec v there p.1 p.2 since young fresh in
        rw (decided, p.3, ← p.0, get_portal_context_decides env (token_of l) after) context
