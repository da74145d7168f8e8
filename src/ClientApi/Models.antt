-- ===== src/ClientApi/Models.antt =====
-- GET /v1/models lists every alias that a node in use offers, and no alias twice.
use mathlib.Core.Path.{subst}
use Prim.Native.String.{String}
use text.Mathlib.Text.{◌==◌ as str_eq}
use text.Mathlib.TextEquality.{eq_iff}
use llmproxy.Common.{
  ℕ, ◌+◌, ◌≡◌, refl, ap, Bool, true, false, ◌&&◌, ◌||◌, List, [], ◌∷◌, Option, none, some, arith,
  count, count-append, Option-cases, inl, inr, if◌then◌else◌, if_prove,
}
use llmproxy.Common.Eq.{Dict, lookup, insert, lookup-insert, string_instance}
use llmproxy.Domain.{ModelNode}
use llmproxy.Router.{list_enabled}
use llmproxy.ClientApi.Listing.{alias_loop, model_loop}

abbrev pub listed : String → List String → Bool
listed a [] = false
listed a (x ∷ xs) = str_eq x a || listed a xs

-- An enabled node has the alias.
abbrev pub offered : String → List ModelNode → Bool
offered a [] = false
offered a (n ∷ nodes) = (n.enabled && listed a n.aliases) || offered a nodes

abbrev any_lists : String → List ModelNode → Bool
any_lists a [] = false
any_lists a (n ∷ nodes) = listed a n.aliases || any_lists a nodes

abbrev is_some : Option Bool → Bool
is_some none = false
is_some (some _) = true

abbrev bit : Bool → ℕ
bit true = 1
bit false = 0

module _ (a : String) where
  is_some-insert :
      (x : String) (seen : Dict String Bool)
      → is_some (lookup a (insert x true seen)) ≡ (str_eq x a || is_some (lookup a seen))
  is_some-insert x seen = rw (lookup-insert x a true seen) (ground arith)

  known_of_eq :
      (x : String) (seen : Dict String Bool) (b : Bool)
      → lookup x seen ≡ some b
      → str_eq x a ≡ true
      → is_some (lookup a seen) ≡ true
  known_of_eq x seen b e h =
      subst (λ k. is_some (lookup k seen) ≡ true) ((eq_iff x a).0 h) (ap is_some e)

  unknown_of_eq :
      (x : String) (seen : Dict String Bool)
      → lookup x seen ≡ none
      → str_eq x a ≡ true
      → is_some (lookup a seen) ≡ false
  unknown_of_eq x seen e h =
      subst (λ k. is_some (lookup k seen) ≡ false) ((eq_iff x a).0 h) (ap is_some e)

  -- What the loop over aliases has seen, and that it emits what it had not seen, once.
  alias_loop_known :
      (seen : Dict String Bool) (xs : List String)
      → is_some (lookup a (alias_loop seen xs).1) ≡ (is_some (lookup a seen) || listed a xs)
  unfolding alias_loop
  alias_loop_known seen [] = ground arith
  alias_loop_known seen (x ∷ xs) = elim (Option-cases (lookup x seen)) [
    | inl e ↦
        rw (e, alias_loop)
          (ground (arith, alias_loop_known (insert x true seen) xs, is_some-insert x seen))
    | inr (b, e) ↦
        rw (e, alias_loop) (ground (arith, alias_loop_known seen xs, known_of_eq x seen b e))
  ]

  count-alias_loop :
      (seen : Dict String Bool) (xs : List String)
      → count (λ x. str_eq x a) (alias_loop seen xs).0 + bit (is_some (lookup a seen))
        ≡ bit (is_some (lookup a seen) || listed a xs)
  unfolding alias_loop
  count-alias_loop seen [] = ground arith
  count-alias_loop seen (x ∷ xs) = elim (Option-cases (lookup x seen)) [
    | inl e ↦
        rw (e, alias_loop)
          (ground (
            arith,
            count-alias_loop (insert x true seen) xs,
            is_some-insert x seen,
            unknown_of_eq x seen e,
          ))
    | inr (b, e) ↦
        rw (e, alias_loop) (ground (arith, count-alias_loop seen xs, known_of_eq x seen b e))
  ]

  count-model_loop :
      (seen : Dict String Bool) (nodes : List ModelNode)
      → count (λ x. str_eq x a) (model_loop seen nodes) + bit (is_some (lookup a seen))
        ≡ bit (is_some (lookup a seen) || any_lists a nodes)
  unfolding model_loop
  count-model_loop seen [] = ground arith
  count-model_loop seen (n ∷ nodes) =
      let here = alias_loop seen n.aliases in
      ground (
        arith,
        count-append (λ x. str_eq x a) here.0 (model_loop here.1 nodes),
        count-alias_loop seen n.aliases,
        alias_loop_known seen n.aliases,
        count-model_loop here.1 nodes,
      )

  any_lists-list_enabled :
      (nodes : List ModelNode) → any_lists a (list_enabled nodes) ≡ offered a nodes
  unfolding list_enabled
  any_lists-list_enabled [] = refl
  any_lists-list_enabled (n ∷ nodes) =
      if_prove (λ ns. any_lists a ns ≡ ((n.enabled && listed a n.aliases) || offered a nodes))
        n.enabled (λ e. rw e (ap (λ z. listed a n.aliases || z) (any_lists-list_enabled nodes)))
        (λ e. rw e (any_lists-list_enabled nodes))

-- An alias is listed once if an enabled node has it, and not at all if none has.
pub model_loop_once :
    (a : String) (nodes : List ModelNode)
    → count (λ x. str_eq x a) (model_loop [] (list_enabled nodes))
      ≡ (if offered a nodes then 1 else 0)
unfolding lookup
model_loop_once a nodes =
    let counted : count (λ x. str_eq x a) (model_loop [] (list_enabled nodes)) + 0
        ≡ bit (any_lists a (list_enabled nodes)) =
      count-model_loop a [] (list_enabled nodes) in
    let same = any_lists-list_enabled a nodes in ground (arith, counted, same)
