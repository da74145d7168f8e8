-- ===== src/Router/Refinement.antt =====
-- The router implements a table of nodes by identifier, whatever order its loops visit the map in.
use mathlib.Core.List.{not-mem-nil}
use mathlib.Core.Option.{some-injective}
use Prim.Native.String.{String}
use text.Mathlib.Text.{◌==◌ as str_eq}
use text.Mathlib.TextEquality.{eq_iff}
use llmproxy.Common.{
  ◌≡◌, ◌↔◌, refl, ap, sym, ◌∙◌, true, List, [], ◌∷◌, Option, none, some, Mem, if_prove,
  if◌then◌else◌,
}
use llmproxy.Common.Eq.{Dict, lookup, insert, delete, lookup-insert, lookup-delete, string_instance}
use llmproxy.Domain.{ModelNode, EndpointType}
use llmproxy.Router.{
  Router, new_router, table_of, sync, add_or_update, remove, rebuild_alias_idx, resolve,
  resolve_loop, endpoint_matches,
}
use llmproxy.Router.Resolve.{resolve_iff}

-- The table that the router stands for.
abbrev pub Table : Type 0
Table = String → Option ModelNode

abbrev pub put : ModelNode → Table → Table
put n t k = if str_eq n.id k then some n else t k

abbrev pub put_all : List ModelNode → Table → Table
put_all [] t = t
put_all (n ∷ ns) t = put_all ns (put n t)

pub data Command : Type 0 where
  replace : List ModelNode → Command
  update : ModelNode → Command
  erase : String → Command

-- What a command does to the table, and what the method of the router does, whose last loop visits
-- the nodes in the order `visit`.
abbrev pub meaning : Command → Table → Table
meaning (replace ns) t k = put_all ns (λ j. none) k
meaning (update n) t k = put n t k
meaning (erase id) t k = if str_eq id k then none else t k

unfoldable pub perform : List ModelNode → Command → Router → Router
perform visit (replace ns) r = sync visit ns r
perform visit (update n) r = add_or_update visit n r
perform visit (erase id) r = remove visit id r

-- A loop over the map meets the entries of the table, which stand under their identifiers.
abbrev pub IsVisit : List ModelNode → Table → Type 0
IsVisit visit t = (n : ModelNode) → Mem n visit ↔ (t n.id ≡ some n)

pub data Run : Router → Table → Type 0 where
  begin : Run new_router (λ k. none)
  next :
      {r : Router} {t : Table} (c : Command) (visit : List ModelNode)
      → Run r t
      → IsVisit visit (meaning c t)
      → Run (perform visit c r) (meaning c t)

-- The map of the router is the table, every node stands under its identifier, and the router offers
-- for an alias exactly the nodes of the table that list it, are enabled and serve the endpoint.
pub record Implements (r : Router) (t : Table) : Type 0 where
  pub same : (k : String) → lookup k r.nodes ≡ t k
  pub keyed : (k : String) (n : ModelNode) → t k ≡ some n → n.id ≡ k
  pub offers :
      (alias : String) (et : EndpointType) (n : ModelNode)
      → Mem n (resolve alias et r) ↔ (
          (t n.id ≡ some n)
          × Mem alias n.aliases
          × (n.enabled ≡ true)
          × (endpoint_matches n.endpoint_type et ≡ true))

lookup-put :
    (n : ModelNode) (m : Dict String ModelNode) (t : Table)
    → ((k : String) → lookup k m ≡ t k)
    → (k : String) → lookup k (insert n.id n m) ≡ put n t k
lookup-put n m t h k =
    lookup-insert n.id k n m ∙ ap (λ z. if str_eq n.id k then some n else z) (h k)

lookup-table_of :
    (ns : List ModelNode) (m : Dict String ModelNode) (t : Table)
    → ((k : String) → lookup k m ≡ t k)
    → (k : String) → lookup k (table_of ns m) ≡ put_all ns t k
unfolding table_of
lookup-table_of [] m t h k = h k
lookup-table_of (n ∷ ns) m t h k =
    lookup-table_of ns (insert n.id n m) (put n t) (lookup-put n m t h) k

IsKeyed : Table → Type 0
IsKeyed t = (k : String) (n : ModelNode) → t k ≡ some n → n.id ≡ k

put-IsKeyed : (n : ModelNode) (t : Table) → IsKeyed t → IsKeyed (put n t)
unfolding IsKeyed
put-IsKeyed n t h k m =
    if_prove (λ z. z ≡ some m → m.id ≡ k) (str_eq n.id k)
      (λ e f. ap (λ (x : ModelNode). x.id) (sym (some-injective _ _ f)) ∙ (eq_iff n.id k).0 e)
      (λ _ f. h k m f)

put_all-IsKeyed : (ns : List ModelNode) (t : Table) → IsKeyed t → IsKeyed (put_all ns t)
put_all-IsKeyed [] t h = h
put_all-IsKeyed (n ∷ ns) t h = put_all-IsKeyed ns (put n t) (put-IsKeyed n t h)

nothing-IsKeyed : IsKeyed (λ k. none)
unfolding IsKeyed
nothing-IsKeyed k n e = cc e

meaning-IsKeyed : (c : Command) (t : Table) → IsKeyed t → IsKeyed (meaning c t)
unfolding IsKeyed
meaning-IsKeyed (replace ns) t h k n e = put_all-IsKeyed ns (λ j. none) nothing-IsKeyed k n e
meaning-IsKeyed (update n) t h k m e = put-IsKeyed n t h k m e
meaning-IsKeyed (erase id) t h k n e =
    if_prove (λ z. z ≡ some n → n.id ≡ k) (str_eq id k) (λ _ f. cc f) (λ _ f. h k n f) e

lookup-perform :
    (c : Command) (visit : List ModelNode) (r : Router) (t : Table)
    → ((k : String) → lookup k r.nodes ≡ t k)
    → (k : String) → lookup k (perform visit c r).nodes ≡ meaning c t k
unfolding perform sync add_or_update remove rebuild_alias_idx lookup
lookup-perform (replace ns) visit r t h k = lookup-table_of ns [] (λ j. none) (λ j. refl) k
lookup-perform (update n) visit r t h k = lookup-put n r.nodes t h k
lookup-perform (erase id) visit r t h k =
    lookup-delete id k r.nodes ∙ ap (λ z. if str_eq id k then none else z) (h k)

-- Every command ends with a rebuild of the alias index.
offers-perform :
    (c : Command) (visit : List ModelNode) (r : Router) (alias : String) (et : EndpointType)
    (n : ModelNode)
    → Mem n (resolve alias et (perform visit c r)) ↔ (
        Mem n visit
        × Mem alias n.aliases
        × (n.enabled ≡ true)
        × (endpoint_matches n.endpoint_type et ≡ true))
unfolding perform sync add_or_update remove
offers-perform (replace ns) visit r alias et n =
    resolve_iff alias et visit (record r { nodes = table_of ns [] }) n
offers-perform (update m) visit r alias et n =
    resolve_iff alias et visit (record r { nodes = insert m.id m r.nodes }) n
offers-perform (erase id) visit r alias et n =
    resolve_iff alias et visit (record r { nodes = delete id r.nodes }) n

-- After any sequence of Sync, AddOrUpdate and Remove, whatever order their loops visit the map in,
-- the router implements the table that the same sequence of replacements, updates and removals
-- yields: its map is the table, every node stands under its identifier, and Resolve offers for an
-- alias exactly the nodes of the table that list it, are enabled and serve the endpoint.
pub Run-Implements : {r : Router} {t : Table} → Run r t → Implements r t
unfolding new_router lookup resolve resolve_loop IsKeyed
Run-Implements begin = record {
  same = λ k. refl;
  keyed = λ k n e. cc e;
  offers = λ alias et n. (λ h. absurd (not-mem-nil h), λ h. cc h.0);
}
Run-Implements (next {r = r} {t = t} c visit earlier v) =
    let before = Run-Implements earlier in
    record {
      same = lookup-perform c visit r t before.same;
      keyed = meaning-IsKeyed c t before.keyed;
      offers = λ alias et n.
          let found = offers-perform c visit r alias et n in
          (
            λ h. let f = found.0 h in ((v n).0 f.0, f.1, f.2, f.3),
            λ h. found.1 ((v n).1 h.0, h.1, h.2, h.3),
          );
    }
