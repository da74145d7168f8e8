-- ===== src/Router.antt =====
-- internal/router/router.go and balancer.go: the node table and the choice of a node.
-- Go visits a map in any order, so a rebuild takes the order of its visit as an argument.
-- The methods run under the lock.
pub mod Resolve
pub mod Refinement
use Prim.Native.String.{String}
use text.Mathlib.Text.{◌==◌ as str_eq}
use llmproxy.Common.{
  ℕ, suc, ◌+◌, ◌%◌, Bool, true, false, ◌&&◌, ◌||◌, not, List, [], ◌∷◌, ◌++◌, Option, none, some,
  length, get_elem?, if◌then◌else◌,
}
use llmproxy.Common.Eq.{Dict, lookup, insert, delete, string_instance}
use llmproxy.Domain.{ModelNode, EndpointType, endpoint_all}

pub record Router : Type 0 where
  pub nodes : Dict String ModelNode
  pub alias_idx : Dict String (List ModelNode)

unfoldable pub new_router : Router
new_router = record { nodes = []; alias_idx = [] }

-- `idx[alias]` of a missing key is the nil slice.
abbrev pub nodes_at : String → Dict String (List ModelNode) → List ModelNode
nodes_at alias idx = elim (lookup alias idx) [ none ↦ [] | some ns ↦ ns ]

add_aliases : ModelNode → List String → Dict String (List ModelNode) → Dict String (List ModelNode)
add_aliases n [] idx = idx
add_aliases n (a ∷ as_) idx = add_aliases n as_ (insert a (nodes_at a idx ++ n ∷ []) idx)

index_nodes : List ModelNode → Dict String (List ModelNode) → Dict String (List ModelNode)
index_nodes [] idx = idx
index_nodes (n ∷ ns) idx = index_nodes ns (add_aliases n n.aliases idx)

-- `visit` is the order in which the loop over `r.nodes` meets the nodes.
unfoldable pub rebuild_alias_idx : List ModelNode → Router → Router
unfolding index_nodes add_aliases
rebuild_alias_idx visit r = record r { alias_idx = index_nodes visit [] }

table_of : List ModelNode → Dict String ModelNode → Dict String ModelNode
table_of [] m = m
table_of (n ∷ ns) m = table_of ns (insert n.id n m)

unfoldable pub sync : List ModelNode → List ModelNode → Router → Router
unfolding table_of rebuild_alias_idx
sync visit nodes r = rebuild_alias_idx visit (record r { nodes = table_of nodes [] })

unfoldable pub add_or_update : List ModelNode → ModelNode → Router → Router
unfolding rebuild_alias_idx
add_or_update visit node r =
    rebuild_alias_idx visit (record r { nodes = insert node.id node r.nodes })

unfoldable pub remove : List ModelNode → String → Router → Router
unfolding rebuild_alias_idx
remove visit id r = rebuild_alias_idx visit (record r { nodes = delete id r.nodes })

unfoldable pub endpoint_matches : EndpointType → EndpointType → Bool
endpoint_matches node_type requested =
    if str_eq node_type endpoint_all || str_eq requested endpoint_all
    then true
    else str_eq node_type requested

unfoldable pub resolve_loop : EndpointType → List ModelNode → List ModelNode
resolve_loop et [] = []
resolve_loop et (n ∷ ns) =
    let rest = resolve_loop et ns in
    if not n.enabled
    then rest
    else if not (endpoint_matches n.endpoint_type et)
    then rest
    else n ∷ rest

unfoldable pub resolve : String → EndpointType → Router → List ModelNode
unfolding resolve_loop
resolve alias et r = resolve_loop et (nodes_at alias r.alias_idx)

unfoldable pub list_enabled : List ModelNode → List ModelNode
list_enabled [] = []
list_enabled (n ∷ ns) = let rest = list_enabled ns in if n.enabled then n ∷ rest else rest

-- `rand.Intn(k)` is below `k`: it is `draw % k` for the number `draw` that the generator yields.
unfoldable pub pick : ℕ → List ModelNode → Option ModelNode
pick draw [] = none
pick draw (n ∷ []) = some n
pick draw (n ∷ m ∷ ns) = get_elem? (n ∷ m ∷ ns) (draw % length (n ∷ m ∷ ns))

-- The counter wraps at 2 ^ 64; the new counter is returned beside the node.
unfoldable pub pick_round_robin : ℕ → List ModelNode → ℕ × Option ModelNode
pick_round_robin counter [] = (counter, none)
pick_round_robin counter (n ∷ ns) =
    let next = (counter + 1) % 18_446_744_073_709_551_616 in
    (next, get_elem? (n ∷ ns) (next % length (n ∷ ns)))
