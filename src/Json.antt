-- ===== src/Json.antt =====
-- The values that `JSON.parse` returns, and how the host reads a property of one. The parser itself
-- is a parameter of the definitions that call it: `parse_json content` is `none` where
-- `JSON.parse(content)` throws.
use pocketclaw_telegram.Prelude.{
  ℕ, zero, suc, String, ◌==◌, Bool, true, false, not, Option, none, some, if◌then◌else◌,
}

-- Of a number the host reads only whether it is 0, so any other number is some `suc n`.
mutual
  pub data Json : Type 0 where
    null : Json
    bool : Bool → Json
    number : ℕ → Json
    text : String → Json
    arr : Items → Json
    obj : Fields → Json

  pub data Items : Type 0 where
    nil : Items
    cons : Json → Items → Items

  pub data Fields : Type 0 where
    end : Fields
    field : String → Json → Fields → Fields

abbrev pub get_field : Fields → String → Option Json
get_field end key = none
get_field (field k v fs) key = if k == key then some v else get_field fs key

-- `v.key`: a TypeError on `null`, the field of an object, `undefined` on any other value (the host
-- reads no built-in property this way).
pub data Property : Type 0 where
  type_error : Property
  undefined : Property
  value : Json → Property

abbrev pub property_of : Option Json → Property
property_of none = undefined
property_of (some v) = value v

abbrev pub get : Json → String → Property
get null key = type_error
get (obj fs) key = property_of (get_field fs key)
get _ key = undefined

abbrev pub truthy : Json → Bool
truthy null = false
truthy (bool b) = b
truthy (number zero) = false
truthy (number (suc n)) = true
truthy (text s) = not (s == "")
truthy (arr xs) = true
truthy (obj fs) = true
