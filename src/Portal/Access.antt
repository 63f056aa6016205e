-- ===== src/Portal/Access.antt =====
-- Who gets into the portal, and what a revocation does to that.
use one_loyal.Prelude.{
  ℕ, ◌<◌, ◌==◌, ◌&&◌, ◌≡◌, ◌≢◌, sym, ◌∙◌, Bool, true, false, not, inl, inr, some, List, select, leb,
  arith, if◌then◌else◌,
}
use one_loyal.Core.{Result, ok, err, unauthorized, not_found, type_error, Result-cases}
use one_loyal.Core.Results.{
  ◌>>=◌, ◌>>◌, refuse_if, required_row, returned, required_row-ok, passed_guard, ok_injective,
}
use one_loyal.Common.Json.{get}
use one_loyal.Models.Customer.{Customer}
use one_loyal.Models.Portal.{MagicLinkToken}
use one_loyal.Db.Exec.{Session}
use one_loyal.Db.Query.{scalar_one_or_none, put, is_null}
use one_loyal.Db.Keyed.{Has, found_row, put_row, Scalar-cases}
use one_loyal.Progress.Service.Plan.{customer_in, get_customer_lem}
use one_loyal.Portal.Service.{
  company_of, Environment, PortalContext, decoded_payload, is_token_type, uuid_of,
  validate_magic_link, customer_of, ensure_available, get_portal_context, revoke_magic_link,
  save_link,
}

unfoldable pub live_in : ℕ → MagicLinkToken → Result (Unit {0})
live_in now l = do
  refuse_if (not (is_null l.revoked_at)) (unauthorized "Portal token has been revoked.")
  refuse_if (leb l.expires_at now) (unauthorized "Portal token has expired.")

unfoldable pub owner_in : MagicLinkToken → List Customer → Result Customer
owner_in l customers = do
  c ← required_row (scalar_one_or_none (select (λ c. c.id == l.customer_id) customers)) type_error
  refuse_if (not (is_null c.deleted_at)) (unauthorized "Portal customer is not available.")
  ok c

pub validate_magic_link_lem :
    (l : MagicLinkToken) (s : Session) → validate_magic_link l s ≡ (live_in s.now l, s)
unfolding validate_magic_link live_in
validate_magic_link_lem l s = ground arith

pub ensure_available_lem :
    (l : MagicLinkToken) (s : Session) → ensure_available l s ≡ (owner_in l s.customers, s)
unfolding ensure_available customer_of owner_in
ensure_available_lem l s = ground arith

-- The link is neither revoked nor expired.
pub record IsLive (now : ℕ) (l : MagicLinkToken) : Type 0 where
  pub unrevoked : is_null l.revoked_at ≡ true
  pub young : now < l.expires_at

pub live_in-IsLive :
    (now : ℕ) (l : MagicLinkToken) (u : Unit {0}) → live_in now l ≡ ok u → IsLive now l
unfolding live_in
live_in-IsLive now l u h = ground arith

pub owner_found :
    (l : MagicLinkToken) (customers : List Customer) (c : Customer)
    → owner_in l customers ≡ ok c
    → Has c customers × (c.id ≡ l.customer_id) × (is_null c.deleted_at ≡ true)
unfolding owner_in
owner_found l customers c h =
    let rows = scalar_one_or_none (select (λ x. x.id == l.customer_id) customers) in
    let (d, found, h1) = returned (required_row rows type_error) _ c h in
    let (u, passed, h2) = returned (refuse_if (not (is_null d.deleted_at)) _) _ c h1 in
    let row = found_row (λ x. x.id == l.customer_id) customers d (required_row-ok rows _ d found) in
    let same : d ≡ c = cc (h2) in
    let owner : d.id ≡ l.customer_id = ground (arith, row.1) in
    (
      rw (← same) (row.0),
      rw (← same) owner,
      rw (← same) (passed_guard (is_null d.deleted_at) _ u passed),
    )

abbrev pub is_link : ℕ → ℕ → ℕ → MagicLinkToken → Bool
is_link token_id company_id customer_id l =
    l.id == token_id && l.company_id == company_id && l.customer_id == customer_id

module _ {Token : Type 0} (env : Environment Token) (token : Token) (s : Session) where
  unfoldable pub decide_context : Result PortalContext
  decide_context = do
    payload ← decoded_payload (env.jwt_decode s.now token)
    refuse_if (not (is_token_type (get "token_type" payload) "portal_access"))
        (unauthorized "Invalid portal token type.")
    token_id ← uuid_of (get "token_id" payload)
    company_id ← uuid_of (get "company_id" payload)
    customer_id ← uuid_of (get "sub" payload)
    magic_link ←
        required_row
          (scalar_one_or_none (select (is_link token_id company_id customer_id) s.magic_links))
          (unauthorized "Portal token is no longer valid.")
    live_in s.now magic_link
    customer ← owner_in magic_link s.customers
    ok (record {
      company_id = company_id;
      customer_id = customer_id;
      token_id = token_id;
      customer = customer;
      company = company_of magic_link s;
      magic_link_token = magic_link;
    })

  pub get_portal_context_decides : get_portal_context env token s ≡ (decide_context, s)
  unfolding get_portal_context decide_context
  get_portal_context_decides = elim (Result-cases (decoded_payload (env.jwt_decode s.now token))) [
    | inl (p, h) ↦ elim (Result-cases (uuid_of (get "token_id" p))) [
      | inl (t, h1) ↦ elim (Result-cases (uuid_of (get "company_id" p))) [
        | inl (k, h2) ↦ elim (Result-cases (uuid_of (get "sub" p))) [
          | inl (u, h3) ↦
              elim (Scalar-cases (scalar_one_or_none (select (is_link t k u) s.magic_links))) [
                | inl g ↦ ground (arith, h, h1, h2, h3, g)
                | inr (inl (l, g)) ↦
                    ground (
                      arith,
                      h,
                      h1,
                      h2,
                      h3,
                      g,
                      validate_magic_link_lem l s,
                      ensure_available_lem l s,
                    )
                | inr (inr (e, g)) ↦ ground (arith, h, h1, h2, h3, g)
              ]
          | inr (e, h3) ↦ ground (arith, h, h1, h2, h3)
        ]
        | inr (e, h2) ↦ ground (arith, h, h1, h2)
      ]
      | inr (e, h1) ↦ ground (arith, h, h1)
    ]
    | inr (e, h) ↦ ground (arith, h)
  ]

-- What a context of the portal says.
pub record IsAllowed (s : Session) (c : PortalContext) : Type 0 where
  pub there : Has c.magic_link_token s.magic_links
  pub token : c.magic_link_token.id ≡ c.token_id
  pub company : c.magic_link_token.company_id ≡ c.company_id
  pub owner : c.magic_link_token.customer_id ≡ c.customer_id
  pub live : IsLive s.now c.magic_link_token
  pub customer_there : Has c.customer s.customers
  pub is_customer : c.customer.id ≡ c.customer_id
  pub not_deleted : is_null c.customer.deleted_at ≡ true

module _ {Token : Type 0} (env : Environment Token) (token : Token) (s : Session)
    (c : PortalContext) where
  decide_context-IsAllowed : decide_context env token s ≡ ok c → IsAllowed s c
  unfolding decide_context
  decide_context-IsAllowed h =
      let (p, _, h1) = returned (decoded_payload (env.jwt_decode s.now token)) _ c h in
      let (_, _, h2) =
        returned (refuse_if (not (is_token_type (get "token_type" p) "portal_access")) _) _ c h1 in
      let (t, _, h3) = returned (uuid_of (get "token_id" p)) _ c h2 in
      let (k, _, h4) = returned (uuid_of (get "company_id" p)) _ c h3 in
      let (u, _, h5) = returned (uuid_of (get "sub" p)) _ c h4 in
      let rows = scalar_one_or_none (select (is_link t k u) s.magic_links) in
      let (l, found, h6) = returned (required_row rows _) _ c h5 in
      let (v, live, h7) = returned (live_in s.now l) _ c h6 in
      let (cu, owner, h8) = returned (owner_in l s.customers) _ c h7 in
      let row = found_row (is_link t k u) s.magic_links l (required_row-ok rows _ l found) in
      let of_link : (l.id ≡ t) × (l.company_id ≡ k) × (l.customer_id ≡ u) = ground (arith, row.1) in
      let of_owner = owner_found l s.customers cu owner in
      let made : record {
        company_id = k;
        customer_id = u;
        token_id = t;
        customer = cu;
        company = company_of l s;
        magic_link_token = l;
      }
          ≡ c =
        ok_injective _ c h8 in
      rw (← made) (record {
        there = row.0;
        token = of_link.0;
        company = of_link.1;
        owner = of_link.2;
        live = live_in-IsLive s.now l v live;
        customer_there = of_owner.0;
        is_customer = of_owner.1 ∙ of_link.2;
        not_deleted = of_owner.2;
      })

  -- A portal context is given only for a link of the table with the context's company and customer
  -- that is neither revoked nor expired, and for a customer of the table that is not deleted.
  pub get_portal_context-IsAllowed : (get_portal_context env token s).0 ≡ ok c → IsAllowed s c
  get_portal_context-IsAllowed h =
      decide_context-IsAllowed (rw (get_portal_context_decides env token s) at h)

-- `if magic_link.revoked_at is None: magic_link.revoked_at = now`
abbrev revoked : ℕ → MagicLinkToken → MagicLinkToken
revoked now l = if is_null l.revoked_at then record l { revoked_at = some now } else l

revoked_lem :
    (now : ℕ) (l : MagicLinkToken)
    → ((revoked now l).id ≡ l.id) × (is_null (revoked now l).revoked_at ≡ false)
revoked_lem now l = ground arith

module _ (company_id customer_id token_id : ℕ) (s : Session) where
  unfoldable decide_revoke : Result MagicLinkToken
  decide_revoke = do
    customer_in company_id customer_id s.customers
    l ←
        required_row
          (scalar_one_or_none (select (is_link token_id company_id customer_id) s.magic_links))
          (not_found "Magic link token not found.")
    ok (revoked s.now l)

  abbrev saved : Result MagicLinkToken → Result MagicLinkToken × Session
  saved (ok l) = (ok l, save_link l s)
  saved (err e) = (err e, s)

  revoke_magic_link_decides :
      revoke_magic_link company_id customer_id token_id s ≡ saved decide_revoke
  unfolding revoke_magic_link decide_revoke
  revoke_magic_link_decides = elim (Result-cases (customer_in company_id customer_id s.customers)) [
    | inl (c, h) ↦
        elim (Scalar-cases
          (scalar_one_or_none (select (is_link token_id company_id customer_id) s.magic_links))) [
            | inl g ↦ ground (arith, get_customer_lem company_id customer_id s, h, g)
            | inr (inl (l, g)) ↦ ground (arith, get_customer_lem company_id customer_id s, h, g)
            | inr (inr (e, g)) ↦ ground (arith, get_customer_lem company_id customer_id s, h, g)
          ]
    | inr (e, h) ↦ ground (arith, get_customer_lem company_id customer_id s, h)
  ]

  decide_revoke_lem :
      (l : MagicLinkToken)
      → decide_revoke ≡ ok l
      → (l.id ≡ token_id) × (is_null l.revoked_at ≡ false)
  unfolding decide_revoke
  decide_revoke_lem l h =
      let (_, _, h1) = returned (customer_in company_id customer_id s.customers) _ l h in
      let rows =
        scalar_one_or_none (select (is_link token_id company_id customer_id) s.magic_links) in
      let (o, found, h2) = returned (required_row rows _) _ l h1 in
      let row =
        found_row (is_link token_id company_id customer_id) s.magic_links o
          (required_row-ok rows _ o found) in
      let made : revoked s.now o ≡ l = ok_injective _ l h2 in
      let was : o.id ≡ token_id = ground (arith, row.1) in
      rw (← made) ((revoked_lem s.now o).0 ∙ was, (revoked_lem s.now o).1)

  shut :
      (d : Result MagicLinkToken) (l : MagicLinkToken) (c : PortalContext) (later : ℕ)
      → d ≡ ok l
      → (l.id ≡ token_id) × (is_null l.revoked_at ≡ false)
      → IsAllowed (record (saved d).1 { now = later }) c
      → c.token_id ≢ token_id
  shut (err e) l c later h g a q = cc
  shut (ok l') l c later h g a q =
      let same : l' ≡ l = ok_injective l' l h in
      let there : Has c.magic_link_token (put (λ x. x.id) l s.magic_links) = rw same at (a.there) in
      let one : c.magic_link_token ≡ l =
        put_row (λ x. x.id) c.magic_link_token l s.magic_links there (a.token ∙ q ∙ sym (g.0)) in
      let unrevoked : is_null l.revoked_at ≡ true = rw one at (a.live.unrevoked) in
      cc (g.1, unrevoked)

  -- After the revocation of a link that returns, no portal token, whenever it was made, gives a
  -- context of that link at any later time.
  pub revoke_magic_link_closes :
      {Token : Type 0} (l : MagicLinkToken) (env : Environment Token) (token : Token) (later : ℕ)
      (c : PortalContext)
      → (revoke_magic_link company_id customer_id token_id s).0 ≡ ok l
      → (get_portal_context env token
          (record (revoke_magic_link company_id customer_id token_id s).1 { now = later })).0
        ≡ ok c
      → c.token_id ≢ token_id
  revoke_magic_link_closes l env token later c h g =
      let decided = rw revoke_magic_link_decides at h in
      let a = get_portal_context-IsAllowed env token _ c (rw revoke_magic_link_decides at g) in
      let d : decide_revoke ≡ ok l = was_decided decide_revoke l decided in
      shut decide_revoke l c later d (decide_revoke_lem l d) a
    where
      was_decided : (d : Result MagicLinkToken) (l : MagicLinkToken) → (saved d).0 ≡ ok l → d ≡ ok l
      was_decided (ok a) l h = h
      was_decided (err e) l h = h
