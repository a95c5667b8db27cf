-- ===== src/Agent/Json.antt =====
-- Decoded JSON, as `any` and `map[string]any` hold it: a number keeps its text, and an object's fields
-- have distinct names in no particular order.
use meowth.Prelude.{Bool, Option, none, some, String, str_eq, if◌then◌else◌, Bytes}

mutual
  pub data Json : Type 0 where
    null : Json
    bool : Bool → Json
    number string : Bytes → Json
    array : Items → Json
    object : Fields → Json

  pub data Items : Type 0 where
    nil : Items
    cons : Json → Items → Items

  pub data Fields : Type 0 where
    end : Fields
    field : String → Json → Fields → Fields

-- `m[key]`
unfoldable pub get : String → Fields → Option Json
get key end = none
get key (field k v fs) = if str_eq k key then some v else get key fs

-- `m[key] = v` for a key that is there.
unfoldable pub replace : String → Json → Fields → Fields
replace key v end = end
replace key v (field k w fs) =
    let rest = replace key v fs in if str_eq k key then field k v rest else field k w rest
