-- ===== src/Executor/Sound/Passes.antt =====
-- executor.py: the passes of `_launch_ready` keep the invariant.
use cli_agentic_workflow.Prelude.{
  ℕ, zero, suc, String, List, [], ◌∷◌, some, Bool, true, false, ◌||◌, has, keep, All, All-map, ◌≡◌,
  ok, raised, Result, arith, eq_iff, inl, inr, Bool-cases, ◌>>=◌,
}
use cli_agentic_workflow.Model.Node.{Node, ids}
use cli_agentic_workflow.Model.Order.{by_id}
use cli_agentic_workflow.Model.Order.Degrees.{IsDistinct}
use cli_agentic_workflow.Executor.Scheduler.{Context, Scheduler, Error, is_ready, ready_nodes}
use cli_agentic_workflow.Executor.Launch.{
  visit, Visit, launch_pass, launch_loop, launch_ready, go_on, again,
}
use cli_agentic_workflow.Executor.Sound.{IsSound, Ensures}
use cli_agentic_workflow.Executor.Sound.Launch.{
  Rest, VisitEnsures, visit-ensures, absent_ne, All-both,
}

has-keep :
    (p : Node → Bool) (x : String) (nodes : List Node)
    → has x (ids nodes) ≡ false
    → has x (ids (keep p nodes)) ≡ false
has-keep p x [] h = h
has-keep p x (n ∷ nodes) h = elim (Bool-cases (p n)) [
  | inl e ↦ rw e (ground (arith, has-keep p x nodes))
  | inr e ↦ rw e (has-keep p x nodes (ground arith))
]

keep-IsDistinct :
    (p : Node → Bool) (nodes : List Node) → IsDistinct nodes → IsDistinct (keep p nodes)
keep-IsDistinct p [] d = tt
keep-IsDistinct p (n ∷ nodes) d = elim (Bool-cases (p n)) [
  | inl e ↦ rw e (has-keep p n.id nodes d.0, keep-IsDistinct p nodes d.1)
  | inr e ↦ rw e (keep-IsDistinct p nodes d.1)
]

keep-All {κ} :
    (P : Node → Type κ) (p : Node → Bool) (nodes : List Node)
    → All P nodes
    → All (λ n. (p n ≡ true) × P n) (keep p nodes)
keep-All P p [] h = tt
keep-All P p (n ∷ nodes) h = elim (Bool-cases (p n)) [
  | inl e ↦ rw e ((e, h.0), keep-All P p nodes h.1)
  | inr e ↦ rw e (keep-All P p nodes h.1)
]

-- With distinct ids, each node is found under its id.
pub All-known : (nodes : List Node) → IsDistinct nodes → All (λ n. by_id nodes n.id ≡ some n) nodes
unfolding by_id
All-known [] d = tt
All-known (m ∷ nodes) d = (
  ground (arith, eq_iff m.id m.id),
  All-both (λ n e k. ground (arith, eq_iff m.id n.id, eq_iff n.id m.id)) nodes
      (absent_ne m.id nodes d.0) (All-known nodes d.1),
)

module _ (c : Context) (distinct : IsDistinct c.ordered) where
  ready-Rest : (s : Scheduler) → Rest c s (ready_nodes c s)
  unfolding ready_nodes
  ready-Rest s = (
    All-map (λ n h. record { known = h.1; ready = h.0 }) (keep (is_ready s) c.ordered)
        (keep-All (λ n. by_id c.ordered n.id ≡ some n) (is_ready s) c.ordered
          (All-known c.ordered distinct)),
    keep-IsDistinct (is_ready s) c.ordered distinct,
  )

  abbrev PassEnsures : Result Error (Bool × Scheduler) → Type 0
  PassEnsures (ok (b, s)) = IsSound c s
  PassEnsures (raised e) = Unit

  go_on-ensures :
      (nodes : List Node) (next : Bool → Scheduler → Result Error (Bool × Scheduler))
      (progressed : Bool)
      → ((b : Bool) (s : Scheduler) → IsSound c s → Rest c s nodes → PassEnsures (next b s))
      → (m : Result Error Visit) → VisitEnsures c nodes m
      → PassEnsures (m >>= go_on next progressed)
  go_on-ensures nodes next progressed h (ok (Visit.onward p s)) v = h (p || progressed) s v.0 v.1
  go_on-ensures nodes next progressed h (ok (Visit.stop p s)) v = v
  go_on-ensures nodes next progressed h (raised e) v = tt

  pass-ensures :
      (progressed : Bool) (nodes : List Node) (s : Scheduler)
      → IsSound c s
      → Rest c s nodes
      → PassEnsures (launch_pass c progressed nodes s)
  unfolding launch_pass
  pass-ensures progressed [] s sound rest = sound
  pass-ensures progressed (n ∷ nodes) s sound rest =
      go_on-ensures nodes (λ b s'. launch_pass c b nodes s') progressed
        (λ b s' sound' rest'. pass-ensures b nodes s' sound' rest') (visit c n s)
        (visit-ensures c distinct n nodes s sound rest)

  again-Ensures :
      (next : Scheduler → Result Error Scheduler)
      → ((s : Scheduler) → IsSound c s → Ensures (IsSound c) (next s))
      → (m : Result Error (Bool × Scheduler)) → PassEnsures m
      → Ensures (IsSound c) (m >>= again next)
  again-Ensures next h (ok (true, s)) v = h s v
  again-Ensures next h (ok (false, s)) v = v
  again-Ensures next h (raised e) v = tt

  loop-Ensures :
      (fuel : ℕ) (s : Scheduler) → IsSound c s → Ensures (IsSound c) (launch_loop c fuel s)
  unfolding launch_loop
  loop-Ensures zero s sound = tt
  loop-Ensures (suc fuel) s sound =
      again-Ensures (launch_loop c fuel) (loop-Ensures fuel)
        (launch_pass c false (ready_nodes c s) s)
        (pass-ensures false (ready_nodes c s) s sound (ready-Rest s))

  pub launch_ready-IsSound : (s : Scheduler) → IsSound c s → Ensures (IsSound c) (launch_ready c s)
  unfolding launch_ready
  launch_ready-IsSound s sound = loop-Ensures _ s sound
