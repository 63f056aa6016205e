-- ===== src/Tests/Portal.antt =====
-- Runs of the portal service.
use one_loyal.Prelude.{
  ℕ, ◌+◌, ◌*◌, ◌≡◌, ◌≢◌, refl, Option, none, some, [], ◌∷◌, ltb, arith, if◌then◌else◌,
}
use one_loyal.Core.{ok}
use one_loyal.Common.Json.{Json, Fields, iso, get}
use one_loyal.Models.Portal.{MagicLinkToken}
use one_loyal.Db.Exec.{Session}
use one_loyal.Portal.Service.{
  Environment, PortalContext, PortalSession, Decoded, valid, expired, invalid, portal_claims, used,
  create_portal_session, get_portal_context, revoke_magic_link,
}
use one_loyal.Portal.Access.{revoke_magic_link_closes}
use one_loyal.Portal.RoundTrip.{DecodesInTime, create_portal_session_lets_in}
use one_loyal.Tests.World.{ann, start}

-- A token is its claims, and is valid from its issue until its time is over.
abbrev decode_in_time : ℕ → Fields → Option Json → Option Json → Decoded
decode_in_time now claims (some (iso issued)) (some (iso exp)) =
    if ltb now issued then invalid else if ltb now exp then valid claims else expired
decode_in_time now claims _ _ = invalid

abbrev env : Environment Fields
env = record {
  hash_magic_token = λ raw. raw;
  jwt_encode = λ claims. claims;
  jwt_decode = λ now claims. decode_in_time now claims (get "iat" claims) (get "exp" claims);
  magic_link_default_expire_days = 30;
  portal_access_token_expire_hours = 12;
}

env-DecodesInTime : DecodesInTime env
env-DecodesInTime l issued now exp since fresh =
    (portal_claims l issued exp, ground (arith, since, fresh), (λ key i x. refl))

abbrev link : MagicLinkToken
link = record {
  id = 70;
  company_id = 1;
  customer_id = 10;
  token_hash = "key";
  expires_at = 5000;
  used_at = none;
  revoked_at = none;
  created_by_user_id = some 7;
  last_used_at = none;
  use_count = 0;
}

abbrev linked : Session
linked = record start { magic_links = link ∷ [] }

-- The token of a session opened at 160
abbrev token : Fields
token = portal_claims link 160 (160 + 3600 * 12)

abbrev opened : PortalSession Fields
opened = record {
  portal_access_token = token;
  expires_in = 3600 * 12;
  customer = ann;
  company = none;
}

create_portal_session_lets_in_example :
    (get_portal_context env token
      (record (create_portal_session env "key" linked).1 { now = 170 })).0
    ≡ ok (record {
      company_id = 1;
      customer_id = 10;
      token_id = 70;
      customer = ann;
      company = none;
      magic_link_token = used link 160;
    })
unfolding create_portal_session
create_portal_session_lets_in_example =
    create_portal_session_lets_in env "key" linked link 170 opened env-DecodesInTime (ground arith)
      refl refl (omega arith) (omega arith) (omega arith)

abbrev context : PortalContext
context = record {
  company_id = 1;
  customer_id = 10;
  token_id = 70;
  customer = ann;
  company = none;
  magic_link_token = link;
}

-- Another link of Ann's is revoked, and this one still works.
abbrev other : MagicLinkToken
other = record link { id = 71; token_hash = "other" }

abbrev both : Session
both = record start { magic_links = other ∷ link ∷ [] }

revoke_magic_link_closes_example : context.token_id ≢ 71
unfolding revoke_magic_link get_portal_context
revoke_magic_link_closes_example =
    revoke_magic_link_closes 1 10 71 both (record other { revoked_at = some 160 }) env token 170
      context refl refl
