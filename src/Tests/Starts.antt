-- ===== src/Tests/Starts.antt =====
-- The start over two maps that hold a node and a key of an older configuration.
use Prim.Native.String.{String}
use mathlib.Core.List.{mem-singleton}
use mathlib.Core.Option.{some-injective}
use text.Mathlib.Text.{◌==◌ as str_eq}
use text.Mathlib.TextEquality.{eq_iff}
use llmproxy.Common.{◌+◌, ◌≡◌, refl, sym, ap, ◌∙◌, true, [], ◌∷◌, none, arith, Bool-cases, inl, inr}
use llmproxy.Common.Int.{pos}
use llmproxy.Common.Eq.{Dict, lookup, insert, string_instance}
use llmproxy.Json.{end}
use llmproxy.Domain.{ModelNode, ApiKey}
use llmproxy.Router.Refinement.{IsVisit}
use llmproxy.Startup.{start, KeyCache, key_limit_ttl, provided_nodes, provided_keys}
use llmproxy.Startup.Reconciled.{IsOrder, node_for, Started, start-Started}
use llmproxy.Startup.Limits.{answer_at}
use llmproxy.Tests.Stores.{Maps, maps, maps_view, maps-IsKeeping, maps-IsReliable, ModelNode-set}

abbrev small_node : ModelNode
small_node = record {
  id = "n1";
  name = "first";
  aliases = "m" ∷ [];
  base_url = "http://one";
  api_key = "";
  model_name = "";
  endpoint_type = "all";
  tpm = pos 0;
  rpm = pos 5;
  override = end;
  timeout_sec = pos 60;
  enabled = true;
}

abbrev key_named : String → String → ApiKey
key_named id value = record {
  id = id;
  key = value;
  name = "";
  enabled = true;
  tpm = pos 0;
  rpm = pos 3;
  allow_models = [];
  expires_at = none;
}

abbrev providers : Dict String ModelNode
providers = ("n1", record small_node { id = "" }) ∷ []

abbrev api_keys : Dict String ApiKey
api_keys = ("k1", key_named "" "sk-1") ∷ ("k2", key_named "" "") ∷ []

abbrev older : Maps
older = (
  ("n0", record small_node { id = "n0" }) ∷ [],
  ("k0", key_named "k0" "sk-0") ∷ ("k2", key_named "k2" "sk-2") ∷ [],
)

providers-IsOrder : IsOrder providers providers
unfolding lookup
providers-IsOrder = record { present = (refl, tt); complete = λ k. ground arith }

api_keys-IsOrder : IsOrder api_keys api_keys
unfolding lookup
api_keys-IsOrder = record { present = (refl, (refl, tt)); complete = λ k. ground arith }

small_node-IsVisit : IsVisit (small_node ∷ []) (node_for providers)
unfolding lookup
small_node-IsVisit n = (
  λ h. let e : n ≡ small_node = (mem-singleton ModelNode-set).0 h in rw e refl,
  λ f. elim (Bool-cases (str_eq "n1" n.id)) [
    | inl here ↦
        let same = (eq_iff "n1" n.id).0 here in
        (mem-singleton ModelNode-set).1 (
          sym (some-injective _ _ (rw (here, node_for) at f))
          ∙ ap (λ j. record small_node { id = j }) (sym same))
    | inr other ↦ cc (rw (other, node_for) at f)
  ],
)

start-Started_example :
    Started maps maps_view maps-IsKeeping maps-IsReliable providers api_keys older
      (start maps providers api_keys providers api_keys (small_node ∷ []) older)
unfolding provided_nodes provided_keys
start-Started_example =
    start-Started maps maps_view maps-IsKeeping maps-IsReliable providers api_keys providers
      api_keys providers-IsOrder api_keys-IsOrder (tt, tt) (tt, tt) (small_node ∷ [])
      small_node-IsVisit older

-- The storage never changes, and a call at 5 s finds what was kept at 2 s.
abbrev asked_once : KeyCache
asked_once = insert "k0" (answer_at maps (λ t. older) 1 "k0", 2_000_000_000 + key_limit_ttl) []
