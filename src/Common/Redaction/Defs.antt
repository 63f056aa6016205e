-- ===== src/Common/Redaction/Defs.antt =====
-- The functions of backend/app/common/redaction.py.
use one_loyal.Prelude.{String, Bool, false, ◌||◌, List, [], ◌∷◌, if◌then◌else◌}
use one_loyal.Common.Json.{
  Json, Items, Fields, null, bool, num, str, uuid, iso, arr, obj, nil, item, end, field,
}
use one_loyal.Common.Text.{codes, lower, contains}

abbrev pub sensitive_key_fragments : List String
sensitive_key_fragments =
    "password" ∷ "token" ∷ "secret" ∷ "credential" ∷ "authorization" ∷ "refresh" ∷ "access"
    ∷ "encrypted_credentials" ∷ "raw_token" ∷ []

abbrev pub redacted_value : Json
redacted_value = str "[REDACTED]"

pub any_fragment : List String → String → Bool
any_fragment [] key = false
any_fragment (f ∷ fs) key = contains (codes f) (lower (codes key)) || any_fragment fs key

-- The keys of JSON objects are texts, so `None` is no key here.
unfoldable pub is_sensitive_key : String → Bool
unfolding any_fragment
is_sensitive_key key = any_fragment sensitive_key_fragments key

unfoldable mutual
  pub redact_sensitive_data : Json → Json
  redact_sensitive_data null = null
  redact_sensitive_data (bool b) = bool b
  redact_sensitive_data (num n) = num n
  redact_sensitive_data (str s) = str s
  redact_sensitive_data (uuid i) = uuid i
  redact_sensitive_data (iso t) = iso t
  redact_sensitive_data (arr xs) = arr (redact_items xs)
  redact_sensitive_data (obj fs) = obj (redact_fields fs)

  pub redact_items : Items → Items
  redact_items nil = nil
  redact_items (item x xs) = item (redact_sensitive_data x) (redact_items xs)

  pub redact_fields : Fields → Fields
  redact_fields end = end
  redact_fields (field k v rest) =
      field k (if is_sensitive_key k then redacted_value else redact_sensitive_data v)
        (redact_fields rest)
