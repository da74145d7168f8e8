-- ===== src/Tests/Nodes.antt =====
-- The router on two nodes.
use Prim.Native.String.{String}
use mathlib.Core.HLevel.{hedberg}
use mathlib.Core.List.{Mem, mem-singleton}
use mathlib.Core.Option.{some-injective}
use text.Mathlib.Text.{◌==◌ as str_eq}
use text.Mathlib.TextEquality.{eq_iff}
use llmproxy.Common.{
  ◌≡◌, refl, sym, true, false, [], ◌∷◌, none, some, Bool-cases, inl, inr, if_prove,
}
use llmproxy.Common.Int.{pos}
use llmproxy.Json.{end}
use llmproxy.Domain.{ModelNode}
use llmproxy.Router.{new_router}
use llmproxy.Router.Refinement.{
  Table, update, meaning, perform, IsVisit, begin, next, Implements, Run-Implements,
}

abbrev chat_node : ModelNode
chat_node = record {
  id = "n1";
  name = "first";
  aliases = "m" ∷ "large" ∷ [];
  base_url = "http://one";
  api_key = "";
  model_name = "model-1";
  endpoint_type = "chat";
  tpm = pos 0;
  rpm = pos 0;
  override = end;
  timeout_sec = pos 60;
  enabled = true;
}

abbrev disabled_node : ModelNode
disabled_node = record chat_node { id = "n2"; enabled = false }

String-discrete : (s t : String) → Dec (s ≡ t)
String-discrete s t = elim (Bool-cases (str_eq s t)) [
  | inl e ↦ yes ((eq_iff s t).0 e)
  | inr e ↦ no (λ f. cc ((eq_iff s t).1 f, e))
]

ModelNode-set : IsSet ModelNode
ModelNode-set = hlevel (hedberg String-discrete)

abbrev nothing : Table
nothing = λ k. none

chat_node-IsVisit : IsVisit (chat_node ∷ []) (meaning (update chat_node) nothing)
chat_node-IsVisit n = (
  λ h. let e : n ≡ chat_node = (mem-singleton ModelNode-set).0 h in rw e refl,
  if_prove (λ z. z ≡ some n → Mem n (chat_node ∷ [])) (str_eq chat_node.id n.id)
      (λ _ f. (mem-singleton ModelNode-set).1 (sym (some-injective _ _ f))) (λ _ f. cc f),
)

Run-Implements_example :
    Implements
      (perform (chat_node ∷ []) (update chat_node) new_router)
      (meaning (update chat_node) nothing)
Run-Implements_example =
    Run-Implements (next (update chat_node) (chat_node ∷ []) begin chat_node-IsVisit)
