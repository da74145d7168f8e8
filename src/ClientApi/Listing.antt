-- ===== src/ClientApi/Listing.antt =====
-- internal/api/openai.go: the handler that lists the models.
use Prim.Native.String.{String}
use text.Mathlib.Text.{◌==◌ as str_eq}
use llmproxy.Common.{Bool, true, List, [], ◌∷◌, ◌++◌, none, some, if◌then◌else◌}
use llmproxy.Common.Int.{pos}
use llmproxy.Common.Eq.{Bytes, Dict, lookup, insert, string_instance}
use llmproxy.Json.{Value, null, str, arr, obj, end, field, Items, nil, cons}
use llmproxy.Domain.{ModelNode}
use llmproxy.Http.{ResponseWriter}
use llmproxy.Middleware.{ApiRequest, write_json, write_error}
use llmproxy.Router.{list_enabled}

-- The loops of `listModels`.
unfoldable pub alias_loop : Dict String Bool → List String → List String × Dict String Bool
alias_loop seen [] = ([], seen)
alias_loop seen (a ∷ aliases) = elim (lookup a seen) [
  | none ↦ let rest = alias_loop (insert a true seen) aliases in (a ∷ rest.0, rest.1)
  | some _ ↦ alias_loop seen aliases
]

unfoldable pub model_loop : Dict String Bool → List ModelNode → List String
unfolding alias_loop
model_loop seen [] = []
model_loop seen (n ∷ nodes) =
    let here = alias_loop seen n.aliases in here.0 ++ model_loop here.1 nodes

abbrev model_items : List String → Items
model_items [] = nil
model_items (a ∷ ids) =
    cons
      (obj
        (field "id" (str a) (field "object" (str "model") (field "owned_by" (str "proxyllm") end))))
      (model_items ids)

-- The nil slice is encoded as null.
abbrev model_data : List String → Value
model_data [] = null
model_data (a ∷ ids) = arr (model_items (a ∷ ids))

module _ (encode : Value → Bytes) where
  unfoldable pub list_models : List ModelNode → ApiRequest → ResponseWriter → ResponseWriter
  unfolding model_loop
  list_models nodes r w =
      if str_eq r.method "GET"
      then write_json encode (pos 200)
          (obj (
            field "object" (str "list")
              (field "data" (model_data (model_loop [] (list_enabled nodes))) end)))
          w
      else write_error encode (pos 405) "method not allowed" w
