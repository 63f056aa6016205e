-- ===== src/Common/Redaction/Laws.antt =====
-- What `redact_sensitive_data` guarantees.
use one_loyal.Prelude.{◌≡◌, refl, true, Bool-cases, inl, inr}
use one_loyal.Common.Json.{
  Json, Items, Fields, null, bool, num, str, uuid, iso, arr, obj, nil, item, end, field,
}
use one_loyal.Common.Redaction.Defs.{
  is_sensitive_key, redacted_value, redact_sensitive_data, redact_items, redact_fields,
}

-- At every depth, a sensitive key holds the redaction mark and nothing else.
abbrev mutual
  pub IsRedacted : Json → Type 0
  IsRedacted null = Unit
  IsRedacted (bool b) = Unit
  IsRedacted (num n) = Unit
  IsRedacted (str s) = Unit
  IsRedacted (uuid i) = Unit
  IsRedacted (iso t) = Unit
  IsRedacted (arr xs) = ItemsRedacted xs
  IsRedacted (obj fs) = FieldsRedacted fs

  pub ItemsRedacted : Items → Type 0
  ItemsRedacted nil = Unit
  ItemsRedacted (item x xs) = IsRedacted x × ItemsRedacted xs

  pub FieldsRedacted : Fields → Type 0
  FieldsRedacted end = Unit
  FieldsRedacted (field k v rest) =
      (is_sensitive_key k ≡ true → v ≡ redacted_value) × IsRedacted v × FieldsRedacted rest

mutual
  unfolding redact_sensitive_data redact_items redact_fields

  redact-IsRedacted : (j : Json) → IsRedacted (redact_sensitive_data j)
  redact-IsRedacted null = tt
  redact-IsRedacted (bool b) = tt
  redact-IsRedacted (num n) = tt
  redact-IsRedacted (str s) = tt
  redact-IsRedacted (uuid i) = tt
  redact-IsRedacted (iso t) = tt
  redact-IsRedacted (arr xs) = redact-ItemsRedacted xs
  redact-IsRedacted (obj fs) = redact-FieldsRedacted fs

  redact-ItemsRedacted : (xs : Items) → ItemsRedacted (redact_items xs)
  redact-ItemsRedacted nil = tt
  redact-ItemsRedacted (item x xs) = (redact-IsRedacted x, redact-ItemsRedacted xs)

  redact-FieldsRedacted : (fs : Fields) → FieldsRedacted (redact_fields fs)
  redact-FieldsRedacted end = tt
  redact-FieldsRedacted (field k v rest) = elim (Bool-cases (is_sensitive_key k)) [
    | inl hidden ↦ rw hidden ((λ _. refl), tt, redact-FieldsRedacted rest)
    | inr shown ↦ rw shown ((λ e. cc), redact-IsRedacted v, redact-FieldsRedacted rest)
  ]

-- Data that is redacted already is left as it is.
mutual
  unfolding redact_sensitive_data redact_items redact_fields

  redact_fixes : (j : Json) → IsRedacted j → redact_sensitive_data j ≡ j
  redact_fixes null h = refl
  redact_fixes (bool b) h = refl
  redact_fixes (num n) h = refl
  redact_fixes (str s) h = refl
  redact_fixes (uuid i) h = refl
  redact_fixes (iso t) h = refl
  redact_fixes (arr xs) h = cc (redact_fixes_items xs h)
  redact_fixes (obj fs) h = cc (redact_fixes_fields fs h)

  redact_fixes_items : (xs : Items) → ItemsRedacted xs → redact_items xs ≡ xs
  redact_fixes_items nil h = refl
  redact_fixes_items (item x xs) h = cc (redact_fixes x h.0, redact_fixes_items xs h.1)

  redact_fixes_fields : (fs : Fields) → FieldsRedacted fs → redact_fields fs ≡ fs
  redact_fixes_fields end h = refl
  redact_fixes_fields (field k v rest) h = elim (Bool-cases (is_sensitive_key k)) [
    | inl hidden ↦ rw hidden (cc (h.0 hidden, redact_fixes_fields rest h.2))
    | inr shown ↦ rw shown (cc (redact_fixes v h.1, redact_fixes_fields rest h.2))
  ]

-- After redaction every sensitive key, at every depth of objects and lists, holds the mark
-- "[REDACTED]".
pub redact_sensitive_data-IsRedacted : (j : Json) → IsRedacted (redact_sensitive_data j)
redact_sensitive_data-IsRedacted j = redact-IsRedacted j

-- Redacting data that is redacted once more changes nothing.
pub redact_sensitive_data_idempotent :
    (j : Json) → redact_sensitive_data (redact_sensitive_data j) ≡ redact_sensitive_data j
redact_sensitive_data_idempotent j = redact_fixes (redact_sensitive_data j) (redact-IsRedacted j)
