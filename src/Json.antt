-- ===== src/Json.antt =====
-- The values that `encoding/json` decodes into an `any`: a Go map is a list of fields, of which the
-- first with a key counts. A number is the decimal fraction `mantissa / 10 ^ scale`.
use Prim.Native.String.{String}
use text.Mathlib.Text.{◌==◌ as str_eq}
use text.Mathlib.TextEquality.{eq_iff}
use llmproxy.Common.{ℕ, ◌≡◌, refl, Bool, Option, none, some, arith, if◌then◌else◌}
use llmproxy.Common.Int.{ℤ}

mutual
  pub data Value : Type 0 where
    null : Value
    bool : Bool → Value
    num : ℤ → ℕ → Value
    str : String → Value
    arr : Items → Value
    obj : Fields → Value

  pub data Fields : Type 0 where
    end : Fields
    field : String → Value → Fields → Fields

  pub data Items : Type 0 where
    nil : Items
    cons : Value → Items → Items

-- `m[k]`
unfoldable pub find : String → Fields → Option Value
find k end = none
find k (field j v m) = if str_eq j k then some v else find k m

-- `m[k] = v`
unfoldable pub assign : String → Value → Fields → Fields
assign k v end = field k v end
assign k v (field j w m) = if str_eq j k then field k v m else field j w (assign k v m)

pub find-assign :
    (k j : String) (v : Value) (m : Fields)
    → find j (assign k v m) ≡ (if str_eq k j then some v else find j m)
unfolding find assign
find-assign k j v end = refl
find-assign k j v (field i w m) =
    ground (arith, eq_iff k j, eq_iff i k, eq_iff i j, find-assign k j v m)

-- The keys of a Go map are distinct.
abbrev pub HasKeys : Fields → Type 0
HasKeys end = Unit
HasKeys (field k v m) = (find k m ≡ none) × HasKeys m
