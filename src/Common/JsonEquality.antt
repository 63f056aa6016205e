-- ===== src/Common/JsonEquality.antt =====
-- Python's `==` on JSON values: lists item by item, and dictionaries, whose keys differ, whatever
-- the order of their entries.
use one_loyal.Prelude.{ℕ, suc, ◌==◌, ◌&&◌, String, Bool, true, false, Option, none, some, str_eq}
use one_loyal.Prelude.Int.{ℤ, pos, negsuc}
use one_loyal.Common.Json.{
  Json, null, bool, num, str, uuid, iso, arr, obj, Items, nil, item, Fields, end, field, get,
}

abbrev pub eq_ℤ : ℤ → ℤ → Bool
eq_ℤ (pos a) (pos b) = a == b
eq_ℤ (negsuc a) (negsuc b) = a == b
eq_ℤ _ _ = false

abbrev pub eq_bool : Bool → Bool → Bool
eq_bool true true = true
eq_bool false false = true
eq_bool _ _ = false

abbrev pub field_count : Fields → ℕ
field_count end = 0
field_count (field _ _ rest) = suc (field_count rest)

unfoldable mutual
  pub json_eq : Json → Json → Bool
  json_eq null null = true
  json_eq (bool a) (bool b) = eq_bool a b
  json_eq (num a) (num b) = eq_ℤ a b
  json_eq (str a) (str b) = str_eq a b
  json_eq (uuid a) (uuid b) = a == b
  json_eq (iso a) (iso b) = a == b
  json_eq (arr a) (arr b) = items_eq a b
  json_eq (obj a) (obj b) = field_count a == field_count b && fields_within a b
  json_eq _ _ = false

  pub items_eq : Items → Items → Bool
  items_eq nil nil = true
  items_eq (item x xs) (item y ys) = json_eq x y && items_eq xs ys
  items_eq _ _ = false

  -- Every entry of the first is in the second, with an equal value.
  pub fields_within : Fields → Fields → Bool
  fields_within end other = true
  fields_within (field key value rest) other =
      elim (get key other) [ none ↦ false | some found ↦ json_eq value found ]
      && fields_within rest other

unfoldable pub fields_eq : Fields → Fields → Bool
unfolding json_eq
fields_eq a b = json_eq (obj a) (obj b)

-- `==` on texts that may be `None`
abbrev pub eq_text : Option String → Option String → Bool
eq_text none none = true
eq_text (some a) (some b) = str_eq a b
eq_text _ _ = false
