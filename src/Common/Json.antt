-- ===== src/Common/Json.antt =====
-- The JSON values that requests, settings and event payloads carry.
use one_loyal.Prelude.{
  ℕ, zero, String, Bool, true, false, not, Option, none, some, str_eq, if◌then◌else◌,
}
use one_loyal.Prelude.Int.{ℤ, pos}

-- `uuid` and `iso` are the texts of an identifier and of a time.
mutual
  pub data Json : Type 0 where
    null : Json
    bool : Bool → Json
    num : ℤ → Json
    str : String → Json
    uuid : ℕ → Json
    iso : ℕ → Json
    arr : Items → Json
    obj : Fields → Json

  pub data Items : Type 0 where
    nil : Items
    item : Json → Items → Items

  pub data Fields : Type 0 where
    end : Fields
    field : String → Json → Fields → Fields

-- `d[key]`; the first entry of a key is the one that counts.
abbrev pub get : String → Fields → Option Json
get key end = none
get key (field k v rest) = if str_eq k key then some v else get key rest

-- Python's truth value.
abbrev pub truthy : Json → Bool
truthy null = false
truthy (bool b) = b
truthy (num (pos zero)) = false
truthy (num _) = true
truthy (str s) = not (str_eq s "")
truthy (uuid _) = true
truthy (iso _) = true
truthy (arr nil) = false
truthy (arr (item _ _)) = true
truthy (obj end) = false
truthy (obj (field _ _ _)) = true

-- `str(x) if x else None`
abbrev pub uuid_or_null : Option ℕ → Json
uuid_or_null none = null
uuid_or_null (some i) = uuid i
