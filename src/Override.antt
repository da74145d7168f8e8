-- ===== src/Override.antt =====
-- internal/proxy/override.go: the node's override is merged into the request body.
use Prim.Native.String.{String}
use text.Mathlib.Text.{◌==◌ as str_eq}
use text.Mathlib.TextEquality.{eq_iff}
use llmproxy.Common.{◌≡◌, refl, Option, none, some, arith, Bool-cases, inl, inr}
use llmproxy.Json.{
  Value, Fields, null, bool, num, str, arr, obj, end, field, find, assign, find-assign, HasKeys,
}

-- The loop runs over the fields of `src`; the order of a Go map is any order of the list.
unfoldable mutual
  pub deep_merge : Fields → Fields → Fields
  deep_merge dst end = dst
  deep_merge dst (field k src_val src) =
      deep_merge (assign k (merge_value (find k dst) src_val) dst) src

  -- What is stored for a key: two maps are merged, any other value overwrites.
  pub merge_value : Option Value → Value → Value
  merge_value (some (obj dst_map)) (obj src_map) = obj (deep_merge dst_map src_map)
  merge_value d v = v

unfoldable pub apply_override : Fields → Fields → Fields
apply_override body end = body
apply_override body (field k v override) = deep_merge body (field k v override)

-- What the documented rules give for one key, from its values in `dst` and in `src`.
unfoldable pub merged : Option Value → Option Value → Option Value
merged d none = d
merged none (some v) = some v
merged (some (obj dst_map)) (some (obj src_map)) = some (obj (deep_merge dst_map src_map))
merged (some d) (some v) = some v

merged-some : (d : Option Value) (v : Value) → some (merge_value d v) ≡ merged d (some v)
unfolding deep_merge merge_value merged
merged-some none v = refl
merged-some (some null) v = refl
merged-some (some (bool b)) v = refl
merged-some (some (num n k)) v = refl
merged-some (some (str t)) v = refl
merged-some (some (arr vs)) v = refl
merged-some (some (obj m)) null = refl
merged-some (some (obj m)) (bool b) = refl
merged-some (some (obj m)) (num n k) = refl
merged-some (some (obj m)) (str t) = refl
merged-some (some (obj m)) (arr vs) = refl
merged-some (some (obj m)) (obj n) = refl

merged-none : (d : Option Value) → merged d none ≡ d
unfolding merged
merged-none none = refl
merged-none (some v) = refl

deep_merge_end : (dst : Fields) → deep_merge dst end ≡ dst
unfolding deep_merge
deep_merge_end dst = refl

deep_merge_field :
    (dst : Fields) (k : String) (v : Value) (src : Fields)
    → deep_merge dst (field k v src) ≡ deep_merge (assign k (merge_value (find k dst) v) dst) src
unfolding deep_merge
deep_merge_field dst k v src = refl

-- The merge does for every key what the rules say: a key of `src` that `dst` lacks is added, two
-- maps are merged in turn, any other value of `src` overwrites, and a key that `src` lacks keeps
-- its value. `src` has no key twice, as a map has not.
pub find-deep_merge :
    (j : String) (dst src : Fields)
    → HasKeys src
    → find j (deep_merge dst src) ≡ merged (find j dst) (find j src)
unfolding merged find
find-deep_merge j dst end h = rw deep_merge_end
find-deep_merge j dst (field k v src) h =
    let dst' = assign k (merge_value (find k dst) v) dst in
    let ih = find-deep_merge j dst' src h.1 in
    let put = find-assign k j (merge_value (find k dst) v) dst in
    rw deep_merge_field (elim (Bool-cases (str_eq k j)) [
      | inl same ↦ ground (
        arith,
        ih,
        put,
        same,
        (eq_iff k j).0 same,
        h.0,
        merged-some (find j dst) v,
        merged-none (some (merge_value (find j dst) v)),
      )
      | inr other ↦ ground (arith, ih, put, other)
    ])
