-- ===== src/Patterns/Edges.antt =====
-- patterns.py: the nodes and the edges that the expanders make.
use cli_agentic_workflow.Prelude.{
  String, List, [], ◌∷◌, ◌++◌, Option, none, some, ◌≡◌, refl, ap, arith, map, ok, All, ◌⊎◌, inl,
  inr, >>=-eq-ok, subst, sym,
}
use mathlib.Core.Logic.{⊎_elim}
use mathlib.Core.List.{map-append, append-nil}
use cli_agentic_workflow.Patterns.{
  NodeDict, Pattern, Role, check_params, reject_declared_needs, each, at_least_one, with_needs,
  chain, fan_in, ids_of, expand,
}

-- A node dict without its `needs`.
abbrev pub less_needs : NodeDict → NodeDict
less_needs n = record n { needs = none }

abbrev present_join : Option NodeDict → List NodeDict
present_join none = []
present_join (some n) = n ∷ []

-- The nodes that the author wrote, in the order of the pattern's fields.
abbrev pub authored : Pattern → List NodeDict
authored (Pattern.pipeline steps) = steps
authored (Pattern.parallel branches join) = branches ++ present_join join
authored (Pattern.classify_and_act entry branches join) = entry ∷ (branches ++ present_join join)
authored (Pattern.generate_and_filter generators sink) = generators ++ sink ∷ []
authored (Pattern.fan_out_synthesis workers sink) = workers ++ sink ∷ []

chain-less_needs :
    (previous : Option String) (steps : List NodeDict)
    → map less_needs (chain previous steps) ≡ map less_needs steps
unfolding chain
chain-less_needs previous [] = refl
chain-less_needs none (n ∷ steps) = ap (λ l. less_needs n ∷ l) (chain-less_needs n.id steps)
chain-less_needs (some p) (n ∷ steps) = ap (λ l. less_needs n ∷ l) (chain-less_needs n.id steps)

with_needs-less_needs :
    (needs : List (Option String)) (nodes : List NodeDict)
    → map less_needs (map (with_needs needs) nodes) ≡ map less_needs nodes
with_needs-less_needs needs [] = refl
with_needs-less_needs needs (n ∷ nodes) =
    ap (λ l. less_needs n ∷ l) (with_needs-less_needs needs nodes)

-- The expansion of a pattern is the authored nodes in their order, with no key changed but `needs`.
pub expand-less_needs : (p : Pattern) → map less_needs (expand p) ≡ map less_needs (authored p)
unfolding expand
expand-less_needs (Pattern.pipeline steps) = chain-less_needs none steps
expand-less_needs (Pattern.parallel branches none) = refl
expand-less_needs (Pattern.parallel branches (some join)) = simp map-append
expand-less_needs (Pattern.classify_and_act entry branches none) =
    simp (map-append, with_needs-less_needs)
expand-less_needs (Pattern.classify_and_act entry branches (some join)) =
    simp (map-append, with_needs-less_needs)
expand-less_needs (Pattern.generate_and_filter generators sink) = simp map-append
expand-less_needs (Pattern.fan_out_synthesis workers sink) = simp map-append

-- `r` is one of the ids.
abbrev pub In : Option String → List (Option String) → Type 0
In r [] = ⊥
In r (x ∷ xs) = (r ≡ x) ⊎ In r xs

abbrev pub NeedsIn : List (Option String) → Option (List (Option String)) → Type 0
NeedsIn seen none = Unit
NeedsIn seen (some needs) = All (λ r. In r seen) needs

-- Each node needs only nodes that stand before it.
abbrev pub IsForward : List (Option String) → List NodeDict → Type 0
IsForward seen [] = Unit
IsForward seen (n ∷ nodes) = NeedsIn seen n.needs × IsForward (n.id ∷ seen) nodes

abbrev NoNeeds : List NodeDict → Type 0
NoNeeds = All (λ n. n.needs ≡ none)

rejected-NoNeeds :
    (role : Role) (nodes : List NodeDict)
    → each (reject_declared_needs role) nodes ≡ ok tt
    → NoNeeds nodes
unfolding reject_declared_needs
rejected-NoNeeds role [] h = tt
rejected-NoNeeds role (n ∷ nodes) h = (ground arith, rejected-NoNeeds role nodes (ground arith))

none-NeedsIn :
    (seen : List (Option String)) (m : Option (List (Option String))) → m ≡ none → NeedsIn seen m
none-NeedsIn seen none e = tt
none-NeedsIn seen (some needs) e = absurd (ground arith)

NoNeeds-IsForward :
    (seen : List (Option String)) (nodes : List NodeDict) → NoNeeds nodes → IsForward seen nodes
NoNeeds-IsForward seen [] h = tt
NoNeeds-IsForward seen (n ∷ nodes) h =
    (none-NeedsIn seen n.needs h.0, NoNeeds-IsForward (n.id ∷ seen) nodes h.1)

chain-IsForward :
    (seen : List (Option String)) (previous : Option String) (steps : List NodeDict)
    → In previous seen ⊎ (previous ≡ none)
    → NoNeeds steps
    → IsForward seen (chain previous steps)
unfolding chain
chain-IsForward seen previous [] i h = tt
chain-IsForward seen none (n ∷ steps) i h =
    (none-NeedsIn seen n.needs h.0, chain-IsForward (n.id ∷ seen) n.id steps (inl (inl refl)) h.1)
chain-IsForward seen (some p) (n ∷ steps) (inl i) h =
    ((i, tt), chain-IsForward (n.id ∷ seen) n.id steps (inl (inl refl)) h.1)
chain-IsForward seen (some p) (n ∷ steps) (inr e) h = absurd (ground arith)

In-All :
    (seen needs : List (Option String))
    → ((r : Option String) → In r needs → In r seen)
    → All (λ r. In r seen) needs
In-All seen [] h = tt
In-All seen (r ∷ needs) h = (h r (inl refl), In-All seen needs (λ q i. h q (inr i)))

-- A last node that needs nodes before it.
snoc-IsForward :
    (seen : List (Option String)) (nodes : List NodeDict) (needs : List (Option String))
    (m : NodeDict)
    → IsForward seen nodes
    → ((r : Option String) → In r needs → In r seen ⊎ In r (ids_of nodes))
    → IsForward seen (nodes ++ with_needs needs m ∷ [])
snoc-IsForward seen [] needs m f h =
    (In-All seen needs (λ r i. ⊎_elim (λ j. j) (λ j. absurd j) (h r i)), tt)
snoc-IsForward seen (n ∷ nodes) needs m f h = (
  f.0,
  snoc-IsForward (n.id ∷ seen) nodes needs m f.1
      λ r i. ⊎_elim (λ j. inl (inr j)) (λ j. ⊎_elim (λ e. inl (inl e)) inr j) (h r i),
)

gated-IsForward :
    (seen : List (Option String)) (p : Option String) (nodes : List NodeDict)
    → In p seen
    → IsForward seen (map (with_needs (p ∷ [])) nodes)
gated-IsForward seen p [] i = tt
gated-IsForward seen p (n ∷ nodes) i = ((i, tt), gated-IsForward (n.id ∷ seen) p nodes (inr i))

fan_in-IsForward :
    (nodes : List NodeDict) (sink : NodeDict)
    → IsForward [] nodes
    → IsForward [] (nodes ++ fan_in nodes sink ∷ [])
unfolding fan_in
fan_in-IsForward nodes sink f = snoc-IsForward [] nodes (ids_of nodes) sink f (λ r i. inr i)

joined :
    (branches : List NodeDict) (join : Option NodeDict)
    → IsForward [] branches
    → IsForward [] (expand (Pattern.parallel branches join))
unfolding expand
joined branches none f = subst (IsForward []) (sym (append-nil branches)) f
joined branches (some join) f = fan_in-IsForward branches join f

-- The classifier, its branches, and the join over them.
classified :
    (entry : NodeDict) (branches : List NodeDict) (join : Option NodeDict)
    → entry.needs ≡ none
    → IsForward [] (expand (Pattern.classify_and_act entry branches join))
unfolding expand fan_in
classified entry branches none e = (
  none-NeedsIn [] entry.needs e,
  subst (IsForward (entry.id ∷ [])) (sym (append-nil (map (with_needs (entry.id ∷ [])) branches)))
      (gated-IsForward _ entry.id branches (inl refl)),
)
classified entry branches (some join) e = (
  none-NeedsIn [] entry.needs e,
  snoc-IsForward (entry.id ∷ []) (map (with_needs (entry.id ∷ [])) branches) _ join
      (gated-IsForward _ entry.id branches (inl refl)) (λ r i. inr i),
)

-- The params of a pattern pass their checks only if the graph of its expansion is forward: every
-- edge that an expander makes leads from a node that stands before.
pub expand-IsForward : (p : Pattern) → check_params p ≡ ok tt → IsForward [] (expand p)
unfolding check_params expand
expand-IsForward (Pattern.pipeline steps) h =
    let (_, _, k) = >>=-eq-ok (at_least_one steps) _ h in
    chain-IsForward [] none steps (inr refl) (rejected-NoNeeds _ steps k)
expand-IsForward (Pattern.parallel branches join) h =
    let (_, _, h₁) = >>=-eq-ok (at_least_one branches) _ h in
    let (_, k, _) = >>=-eq-ok (each (reject_declared_needs Role.parallel_branch) branches) _ h₁ in
    joined branches join (NoNeeds-IsForward [] branches (rejected-NoNeeds _ branches k))
expand-IsForward (Pattern.classify_and_act entry branches join) h =
    classified entry branches join (ground arith)
expand-IsForward (Pattern.generate_and_filter generators sink) h =
    let (_, _, h₁) = >>=-eq-ok (at_least_one generators) _ h in
    let (_, k, _) = >>=-eq-ok (each (reject_declared_needs Role.generator) generators) _ h₁ in
    fan_in-IsForward generators sink
      (NoNeeds-IsForward [] generators (rejected-NoNeeds _ generators k))
expand-IsForward (Pattern.fan_out_synthesis workers sink) h =
    let (_, _, h₁) = >>=-eq-ok (at_least_one workers) _ h in
    let (_, k, _) = >>=-eq-ok (each (reject_declared_needs Role.worker) workers) _ h₁ in
    fan_in-IsForward workers sink (NoNeeds-IsForward [] workers (rejected-NoNeeds _ workers k))
