-- ===== src/Router/Resolve.antt =====
-- Which nodes `Resolve` offers after the index was rebuilt, and what the pickers choose.
use mathlib.Core.Bool.{Bool-set}
use mathlib.Core.HLevel.{×_prop}
use mathlib.Core.List.{
  Mem-prop, not-mem-nil, mem-cons_self, mem-cons_of_mem, eq-or-mem_of_mem-cons, mem-append,
}
use mathlib.Core.Logic.Or
use mathlib.Core.Logic.{∨₁_prop}
use Prim.Native.String.{String}
use text.Mathlib.Text.{◌==◌ as str_eq}
use text.Mathlib.TextEquality.{eq_iff}
use llmproxy.Common.{
  ◌≡◌, ◌↔◌, ◌∙◌, sym, true, not, List, [], ◌∷◌, ◌++◌, Mem, arith, if◌then◌else◌, Bool-cases, inl,
  inr, if_prove, append-nil, append_assoc,
}
use llmproxy.Common.Eq.{Dict, lookup, insert, lookup-insert, string_instance}
use llmproxy.Domain.{ModelNode, EndpointType}
use llmproxy.Router.{
  Router, nodes_at, add_aliases, index_nodes, rebuild_alias_idx, endpoint_matches, resolve_loop,
  resolve,
}

-- One copy of the node for each time that it lists the alias.
copies : String → ModelNode → List String → List ModelNode
copies alias n [] = []
copies alias n (a ∷ rest) =
    let more = copies alias n rest in if str_eq a alias then n ∷ more else more

listed : String → List ModelNode → List ModelNode
listed alias [] = []
listed alias (n ∷ ns) = copies alias n n.aliases ++ listed alias ns

add_aliases-copies :
    (alias : String) (n : ModelNode) (names : List String) (idx : Dict String (List ModelNode))
    → nodes_at alias (add_aliases n names idx) ≡ nodes_at alias idx ++ copies alias n names
unfolding add_aliases copies
add_aliases-copies alias n [] idx = sym (append-nil _)
add_aliases-copies alias n (a ∷ rest) idx =
    let put = lookup-insert a alias (nodes_at a idx ++ n ∷ []) idx in
    add_aliases-copies alias n rest (insert a (nodes_at a idx ++ n ∷ []) idx)
    ∙ elim (Bool-cases (str_eq a alias)) [
      | inl e ↦ ground (
        arith,
        put,
        e,
        (eq_iff a alias).0 e,
        append_assoc (nodes_at alias idx) (n ∷ []) (copies alias n rest),
      )
      | inr e ↦ ground (arith, put, e)
    ]

index_nodes-listed :
    (alias : String) (ns : List ModelNode) (idx : Dict String (List ModelNode))
    → nodes_at alias (index_nodes ns idx) ≡ nodes_at alias idx ++ listed alias ns
unfolding index_nodes listed
index_nodes-listed alias [] idx = sym (append-nil _)
index_nodes-listed alias (n ∷ ns) idx =
    index_nodes-listed alias ns (add_aliases n n.aliases idx)
    ∙ rw add_aliases-copies
        (append_assoc (nodes_at alias idx) (copies alias n n.aliases) (listed alias ns))

nodes_at-rebuild :
    (alias : String) (visit : List ModelNode) (r : Router)
    → nodes_at alias (rebuild_alias_idx visit r).alias_idx ≡ listed alias visit
unfolding rebuild_alias_idx listed lookup
nodes_at-rebuild alias visit r = index_nodes-listed alias visit []

mem-copies :
    {C : Type 0} (c : IsProp C) (alias : String) (n m : ModelNode) (names : List String)
    → (m ≡ n → Mem alias names → C)
    → Mem m (copies alias n names)
    → C
unfolding copies
mem-copies c alias n m [] k = λ h. absurd (not-mem-nil h)
mem-copies c alias n m (a ∷ rest) k = elim (Bool-cases (str_eq a alias)) [
  | inl e ↦ rw e (λ h.
      Or.elim c (eq-or-mem_of_mem-cons h) (λ same. k same (rw ((eq_iff a alias).0 e) mem-cons_self))
        (mem-copies c alias n m rest (λ same found. k same (mem-cons_of_mem a found))))
  | inr e ↦ rw e (mem-copies c alias n m rest (λ same found. k same (mem-cons_of_mem a found)))
]

copies-mem :
    (alias : String) (n : ModelNode) (names : List String)
    → Mem alias names
    → Mem n (copies alias n names)
unfolding copies
copies-mem alias n [] h = absurd (not-mem-nil h)
copies-mem alias n (a ∷ rest) h = elim (Bool-cases (str_eq a alias)) [
  | inl e ↦ rw e mem-cons_self
  | inr e ↦ rw e (
      Or.elim Mem-prop (eq-or-mem_of_mem-cons h)
        (λ same. ground (arith, e, (eq_iff a alias).1 (sym same))) (copies-mem alias n rest))
]

mem-listed :
    (alias : String) (m : ModelNode) (ns : List ModelNode)
    → Mem m (listed alias ns) ↔ (Mem m ns × Mem alias m.aliases)
unfolding listed
mem-listed alias m [] = (λ h. absurd (not-mem-nil h), λ h. h.0)
mem-listed alias m (n ∷ ns) =
    let rest = mem-listed alias m ns in
    let both : IsProp (Mem m (n ∷ ns) × Mem alias m.aliases) = ×_prop Mem-prop Mem-prop in
    (
      λ h.
          Or.elim both (mem-append.0 h)
            (mem-copies both alias n m n.aliases
              (λ same found. (rw same mem-cons_self, rw same found)))
            (λ later. (mem-cons_of_mem n (rest.0 later).0, (rest.0 later).1)),
      λ h. mem-append.1 (
          Or.elim ∨₁_prop (eq-or-mem_of_mem-cons h.0)
            (λ same. Or.inl (rw same (copies-mem alias n n.aliases (rw same at h.1))))
            (λ later. Or.inr (rest.1 (later, h.1)))),
    )

abbrev Wanted : EndpointType → ModelNode → Type 0
Wanted et m = (m.enabled ≡ true) × (endpoint_matches m.endpoint_type et ≡ true)

mem-resolve_loop :
    (et : EndpointType) (m : ModelNode) (ns : List ModelNode)
    → Mem m (resolve_loop et ns) ↔ (Mem m ns × Wanted et m)
unfolding resolve_loop
mem-resolve_loop et m [] = (λ h. absurd (not-mem-nil h), λ h. h.0)
mem-resolve_loop et m (n ∷ ns) =
    let later = mem-resolve_loop et m ns in
    let both : IsProp (Mem m (n ∷ ns) × Wanted et m) =
      ×_prop Mem-prop (×_prop (Bool-set _ _) (Bool-set _ _)) in
    let skip : (¬ (Wanted et n)) → Mem m (resolve_loop et ns) ↔ (Mem m (n ∷ ns) × Wanted et m) =
      λ unfit. (
        λ h. (mem-cons_of_mem n (later.0 h).0, (later.0 h).1),
        λ h.
            Or.elim Mem-prop (eq-or-mem_of_mem-cons h.0) (λ same. absurd (unfit (rw same at h.1)))
              (λ found. later.1 (found, h.1)),
      ) in
    let P : List ModelNode → Type 0 = λ ms. Mem m ms ↔ (Mem m (n ∷ ns) × Wanted et m) in
    if_prove P (not n.enabled) (λ off. skip (λ w. ground (arith, off, w.0)))
      (λ on.
        if_prove P (not (endpoint_matches n.endpoint_type et))
          (λ off. skip (λ w. ground (arith, off, w.1)))
          (λ fit. (
            λ h.
                Or.elim both (eq-or-mem_of_mem-cons h)
                  (λ same.
                    (rw same mem-cons_self, rw same (ground (arith, on), ground (arith, fit))))
                  (λ found. (mem-cons_of_mem n (later.0 found).0, (later.0 found).1)),
            λ h.
                Or.elim Mem-prop (eq-or-mem_of_mem-cons h.0) (λ same. rw same mem-cons_self)
                  (λ found. mem-cons_of_mem n (later.1 (found, h.1))),
          )))

-- After a rebuild that visited some nodes in some order, `Resolve` offers exactly those of them that
-- list the alias, are enabled and serve the endpoint type.
pub resolve_iff :
    (alias : String) (et : EndpointType) (visit : List ModelNode) (r : Router) (m : ModelNode)
    → Mem m (resolve alias et (rebuild_alias_idx visit r)) ↔ (
        Mem m visit
        × Mem alias m.aliases
        × (m.enabled ≡ true)
        × (endpoint_matches m.endpoint_type et ≡ true))
unfolding resolve
resolve_iff alias et visit r m =
    let offered = mem-resolve_loop et m (nodes_at alias (rebuild_alias_idx visit r).alias_idx) in
    let indexed = mem-listed alias m visit in
    let there = nodes_at-rebuild alias visit r in
    (
      λ h.
          let found = indexed.0 (rw there at (offered.0 h).0) in
          (found.0, found.1, (offered.0 h).1.0, (offered.0 h).1.1),
      λ h. offered.1 (rw there (indexed.1 (h.0, h.1)), (h.2, h.3)),
    )
