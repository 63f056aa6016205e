-- ===== src/Portal/Service.antt =====
-- `PortalService`: magic links, portal sessions and the context of a portal request. The lookup of
-- a customer is the query of the progress service, word for word. The link to the portal's page,
-- a text made of the settings and the token, is left out of the response.
use one_loyal.Prelude.{
  ℕ, ◌+◌, ◌*◌, ◌==◌, ◌&&◌, String, Bool, false, not, Option, none, some, List, [], ◌∷◌, select, leb,
  str_eq, if◌then◌else◌,
}
use one_loyal.Core.{Result, ok, err, not_found, unauthorized, integrity_error, type_error}
use one_loyal.Common.Json.{Json, Fields, str, uuid, iso, end, field, get}
use one_loyal.Models.Customer.{Customer}
use one_loyal.Models.Portal.{MagicLinkToken}
use one_loyal.Models.User.{Company}
use one_loyal.Db.Exec.{
  Session, Exec, pure, lift, gets, raise_if, or_raise, modify, utc_now, fresh_id, ◌>>=◌, ◌>>◌,
}
use one_loyal.Db.Query.{scalar_one_or_none, put, is_null}
use one_loyal.Progress.Rules.{is_text}
use one_loyal.Progress.Service.{get_customer}

-- What `jwt.decode` returns or raises.
pub data Decoded : Type 0 where
  valid : Fields → Decoded
  expired invalid : Decoded

-- What stands outside: the keyed hash of a token, the library for signed tokens, which reads the
-- clock when it decodes, and the settings. The text of a signed token is of a type of its own.
pub record Environment (Token : Type 0) : Type 0 where
  pub hash_magic_token : String → String
  pub jwt_encode : Fields → Token
  pub jwt_decode : ℕ → Token → Decoded
  pub magic_link_default_expire_days : ℕ
  pub portal_access_token_expire_hours : ℕ

-- `payload[key]` read as an identifier
abbrev pub uuid_of : Option Json → Result ℕ
uuid_of (some (uuid i)) = ok i
uuid_of _ = err (unauthorized "Invalid portal token payload.")

abbrev pub is_token_type : Option Json → String → Bool
is_token_type none text = false
is_token_type (some j) text = is_text j text

-- `decode_token`
abbrev pub decoded_payload : Decoded → Result Fields
decoded_payload (valid payload) = ok payload
decoded_payload expired = err (unauthorized "Token has expired.")
decoded_payload invalid = err (unauthorized "Invalid token.")

-- The flush of the changed object.
abbrev pub save_link : MagicLinkToken → Session → Session
save_link l s = record s { magic_links = put (λ x. x.id) l s.magic_links }

-- `_validate_magic_link`
unfoldable pub validate_magic_link : MagicLinkToken → Exec (Unit {0})
validate_magic_link magic_link = do
  now ← utc_now
  raise_if (not (is_null magic_link.revoked_at)) (unauthorized "Portal token has been revoked.")
  raise_if (leb magic_link.expires_at now) (unauthorized "Portal token has expired.")

-- `magic_link.customer`, the row that the foreign key names.
unfoldable pub customer_of : MagicLinkToken → Exec Customer
customer_of magic_link = do
  rows ← gets (λ s. select (λ c. c.id == magic_link.customer_id) s.customers)
  found ← lift (scalar_one_or_none rows)
  or_raise found type_error

unfoldable pub ensure_available : MagicLinkToken → Exec Customer
unfolding customer_of
ensure_available magic_link = do
  customer ← customer_of magic_link
  raise_if (not (is_null customer.deleted_at)) (unauthorized "Portal customer is not available.")
  pure customer

pub record MagicLinkCreateResponse : Type 0 where
  pub token_id : ℕ
  pub raw_token : String
  pub expires_at : ℕ

pub record PortalContext : Type 0 where
  pub company_id : ℕ
  pub customer_id : ℕ
  pub token_id : ℕ
  pub customer : Customer
  pub company : Option Company
  pub magic_link_token : MagicLinkToken

-- `magic_link.company`, the row that the foreign key names
abbrev pub first_row : {A : Type 0} → List A → Option A
first_row [] = none
first_row (a ∷ rest) = some a

abbrev pub company_of : MagicLinkToken → Session → Option Company
company_of magic_link s = first_row (select (λ c. c.id == magic_link.company_id) s.companies)

-- The four values that `create_portal_session` returns
pub record PortalSession (Token : Type 0) : Type 0 where
  pub portal_access_token : Token
  pub expires_in : ℕ
  pub customer : Customer
  pub company : Option Company

unfoldable pub revoke_magic_link : ℕ → ℕ → ℕ → Exec MagicLinkToken
unfolding get_customer
revoke_magic_link company_id customer_id token_id = do
  get_customer company_id customer_id
  rows ← gets (λ s.
      select (λ l. l.id == token_id && l.company_id == company_id && l.customer_id == customer_id)
        s.magic_links)
  found ← lift (scalar_one_or_none rows)
  magic_link ← or_raise found (not_found "Magic link token not found.")
  now ← utc_now
  let revoked =
      if is_null magic_link.revoked_at
      then record magic_link { revoked_at = some now }
      else magic_link
  modify (save_link revoked)
  pure revoked

-- The claims of a portal access token.
abbrev pub portal_claims : MagicLinkToken → ℕ → ℕ → Fields
portal_claims magic_link now expires_at = field "sub" (uuid magic_link.customer_id) (
    field "company_id" (uuid magic_link.company_id) (
      field "token_id" (uuid magic_link.id) (
        field "iat" (iso now)
          (field "exp" (iso expires_at) (field "token_type" (str "portal_access") end)))))

-- `if magic_link.used_at is None: magic_link.used_at = now`, and the two lines after it
abbrev pub used : MagicLinkToken → ℕ → MagicLinkToken
used magic_link now = record magic_link {
  used_at = if is_null magic_link.used_at then some now else magic_link.used_at;
  last_used_at = some now;
  use_count = magic_link.use_count + 1;
}

module _ {Token : Type 0} (env : Environment Token) where
  abbrev pub has_hash : String → MagicLinkToken → Bool
  has_hash raw_token l = str_eq l.token_hash (env.hash_magic_token raw_token)

  -- `raw_token` is what `generate_secure_token` draws; the unique constraint on the hash refuses a
  -- token that is there.
  unfoldable pub create_magic_link : ℕ → ℕ → ℕ → String → Exec MagicLinkCreateResponse
  unfolding get_customer
  create_magic_link company_id customer_id created_by_user_id raw_token = do
    get_customer company_id customer_id
    now ← utc_now
    let expires_at = now + 86400 * env.magic_link_default_expire_days
    taken ← gets (λ s. select (has_hash raw_token) s.magic_links)
    found ← lift (scalar_one_or_none taken)
    raise_if (not (is_null found)) integrity_error
    new_id ← fresh_id
    let magic_link : MagicLinkToken = record {
      id = new_id;
      company_id = company_id;
      customer_id = customer_id;
      token_hash = env.hash_magic_token raw_token;
      expires_at = expires_at;
      used_at = none;
      revoked_at = none;
      created_by_user_id = some created_by_user_id;
      last_used_at = none;
      use_count = 0;
    }
    modify (λ s. record s { magic_links = magic_link ∷ s.magic_links })
    pure (record { token_id = new_id; raw_token = raw_token; expires_at = expires_at })

  unfoldable pub load_magic_link_by_raw_token : String → Exec (MagicLinkToken × Customer)
  unfolding validate_magic_link ensure_available
  load_magic_link_by_raw_token raw_token = do
    rows ← gets (λ s. select (has_hash raw_token) s.magic_links)
    found ← lift (scalar_one_or_none rows)
    magic_link ← or_raise found (unauthorized "Invalid portal token.")
    validate_magic_link magic_link
    customer ← ensure_available magic_link
    pure (magic_link, customer)

  -- `_create_portal_access_token`: the text of the token, and its seconds
  unfoldable pub create_portal_access_token : MagicLinkToken → Exec (Token × ℕ)
  create_portal_access_token magic_link = do
    now ← utc_now
    let expires_in = 3600 * env.portal_access_token_expire_hours
    pure (env.jwt_encode (portal_claims magic_link now (now + expires_in)), expires_in)

  unfoldable pub create_portal_session : String → Exec (PortalSession Token)
  unfolding load_magic_link_by_raw_token create_portal_access_token
  create_portal_session raw_token = do
    pair ← load_magic_link_by_raw_token raw_token
    now ← utc_now
    let magic_link = used pair.0 now
    token ← create_portal_access_token magic_link
    modify (save_link magic_link)
    company ← gets (company_of magic_link)
    pure (record {
      portal_access_token = token.0;
      expires_in = token.1;
      customer = pair.1;
      company = company;
    })

  unfoldable pub get_portal_context : Token → Exec PortalContext
  unfolding validate_magic_link ensure_available
  get_portal_context portal_access_token = do
    now ← utc_now
    payload ← lift (decoded_payload (env.jwt_decode now portal_access_token))
    raise_if (not (is_token_type (get "token_type" payload) "portal_access"))
        (unauthorized "Invalid portal token type.")
    token_id ← lift (uuid_of (get "token_id" payload))
    company_id ← lift (uuid_of (get "company_id" payload))
    customer_id ← lift (uuid_of (get "sub" payload))
    rows ← gets (λ s.
        select (λ l. l.id == token_id && l.company_id == company_id && l.customer_id == customer_id)
          s.magic_links)
    found ← lift (scalar_one_or_none rows)
    magic_link ← or_raise found (unauthorized "Portal token is no longer valid.")
    validate_magic_link magic_link
    customer ← ensure_available magic_link
    company ← gets (company_of magic_link)
    pure (record {
      company_id = company_id;
      customer_id = customer_id;
      token_id = token_id;
      customer = customer;
      company = company;
      magic_link_token = magic_link;
    })
