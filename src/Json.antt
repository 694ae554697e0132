-- ===== src/Json.antt =====
-- The values that `json.loads` makes and `json.dumps` takes, as the stores and bundles use them.
-- A number with a fraction is kept as its literal; the program only passes such values on.
pub mod Text
pub mod Sorted
use hyper_vector.Common.{
  ℕ, suc, String, Bool, true, false, Option, none, some, str_eq, if◌then◌else◌, ◌==◌, not,
}

mutual
  pub data Json : Type 0 where
    null : Json
    bool : Bool → Json
    int : ℕ → Json
    -- -(n + 1)
    neg : ℕ → Json
    real : String → Json
    str : String → Json
    arr : Items → Json
    obj : Fields → Json

  pub data Items : Type 0 where
    nil : Items
    cons : Json → Items → Items

  -- A `dict` with string keys, in insertion order.
  pub data Fields : Type 0 where
    end : Fields
    field : String → Json → Fields → Fields

-- d.get(key)
unfoldable pub get : Fields → String → Option Json
get end k = none
get (field j v d) k = if str_eq j k then some v else get d k

-- d[key] = v
unfoldable pub put : Fields → String → Json → Fields
put end k v = field k v end
put (field j w d) k v = if str_eq j k then field j v d else field j w (put d k v)

abbrev pub is_empty : Fields → Bool
is_empty end = true
is_empty (field _ _ _) = false

-- len(items)
abbrev pub length_items : Items → ℕ
length_items nil = 0
length_items (cons _ xs) = suc (length_items xs)

-- `bool(value)`: what `value or default` tests.
unfoldable pub truthy : Json → Bool
truthy null = false
truthy (bool b) = b
truthy (int n) = not (n == 0)
truthy (neg n) = true
truthy (real s) = not (str_eq s "0.0")
truthy (str s) = not (str_eq s "")
truthy (arr nil) = false
truthy (arr (cons _ _)) = true
truthy (obj d) = not (is_empty d)
