-- ===== src/Executor/Ends/Passes.antt =====
-- executor.py: `_launch_ready` ends, since each pass but the last closes an open Node.
use cli_agentic_workflow.Prelude.{
  ℕ, zero, suc, ◌<◌, List, [], ◌∷◌, none, Bool, true, false, ◌||◌, length, keep, ◌≡◌, refl, ok,
  raised, Result, ◌>>=◌, arith, Bool-cases, Option-cases, inl, inr, leb,
}
use cli_agentic_workflow.State.{SkipCause}
use cli_agentic_workflow.Model.Predicate.{PredicateRef, Predicate}
use cli_agentic_workflow.Model.Predicate.Fold.{leaf_refs}
use cli_agentic_workflow.Model.Node.{Node, is_gate}
use cli_agentic_workflow.Executor.Scheduler.{
  Context, Scheduler, Error, is_open, is_ready, ready_nodes, output_of,
}
use cli_agentic_workflow.Executor.Skips.{skip_with_cause}
use cli_agentic_workflow.Executor.Launch.{
  Visit, go_on, again, outputs_present, evaluate_when, gate_open, park_gate, launch, visit,
  launch_pass, launch_loop, launch_ready,
}
use cli_agentic_workflow.Executor.Ends.{ends, ends-bind}
use cli_agentic_workflow.Executor.Ends.Walk.{skip_with_cause-ends}
use cli_agentic_workflow.Executor.Ends.Tally.{
  tally, tally-length, tally_mono, tally-less, keep_head,
}
use cli_agentic_workflow.Executor.Ends.Narrowing.{
  Closes, VisitCloses, PassNarrows, visit-Closes, launch_pass-Narrows,
}

module _ (c : Context) where
  abbrev open_nodes : Scheduler → ℕ
  open_nodes s = tally (is_open s) c.ordered

  abbrev PassLess : Scheduler → Result Error (Bool × Scheduler) → Type 0
  PassLess s (ok (true, s')) = open_nodes s' < open_nodes s
  PassLess s (ok (false, s')) = Unit
  PassLess s (raised e) = Unit

  ready-open : (s : Scheduler) (n : Node) → is_ready s n ≡ true → is_open s n.id ≡ true
  unfolding is_ready
  ready-open s n h = ground arith

  closing :
      (s s' : Scheduler) (n : Node) (ready : List Node)
      → keep (is_ready s) c.ordered ≡ n ∷ ready
      → Closes n.id s s'
      → open_nodes s' < open_nodes s
  closing s s' n ready e (w, h) =
      let o = ready-open s n (keep_head (is_ready s) c.ordered n ready e) in
      tally-less (is_open s') (is_open s) (is_ready s) c.ordered n ready w e o (h o)

  narrowed :
      (s s' : Scheduler) (m : Result Error (Bool × Scheduler))
      → open_nodes s' < open_nodes s
      → PassNarrows c s' m
      → PassLess s m
  narrowed s s' (ok (true, t)) l w = omega (arith, tally_mono (is_open t) (is_open s') c.ordered w)
  narrowed s s' (ok (false, t)) l w = tt
  narrowed s s' (raised e) l w = tt

  go_on-less :
      (s : Scheduler) (n : Node) (ready : List Node)
      → keep (is_ready s) c.ordered ≡ n ∷ ready
      → (m : Result Error Visit) → VisitCloses c n.id s m
      → PassLess s (m >>= go_on (λ b s'. launch_pass c b ready s') false)
  go_on-less s n ready e (ok (Visit.onward p s')) v =
      narrowed s s' _ (closing s s' n ready e v) (launch_pass-Narrows c (p || false) ready s')
  go_on-less s n ready e (ok (Visit.stop true s')) v = closing s s' n ready e v
  go_on-less s n ready e (ok (Visit.stop false s')) v = tt
  go_on-less s n ready e (raised x) v = tt

  first_pass :
      (s : Scheduler) (ready : List Node)
      → keep (is_ready s) c.ordered ≡ ready
      → PassLess s (launch_pass c false ready s)
  unfolding launch_pass
  first_pass s [] e = tt
  first_pass s (n ∷ ready) e = go_on-less s n ready e (visit c n s) (visit-Closes c n s)

  outputs_present-ends :
      (s : Scheduler) (refs : List PredicateRef) → ends (outputs_present c s refs) ≡ true
  unfolding output_of
  outputs_present-ends s [] = refl
  outputs_present-ends s (r ∷ refs) =
      ends-bind (output_of c s r.node) _ (ground arith) (λ o h. outputs_present-ends s refs)

  evaluate_when-ends : (s : Scheduler) (p : Predicate) → ends (evaluate_when c s p) ≡ true
  unfolding evaluate_when
  evaluate_when-ends s p = elim (Option-cases (leaf_refs p)) [
    | inl e ↦ rw (e, evaluate_when) refl
    | inr (refs, e) ↦
        rw (e, evaluate_when)
          (ends-bind (outputs_present c s refs) _ (outputs_present-ends s refs)
            (λ u h. ground arith))
  ]

  gate_open-ends : (s : Scheduler) (n : Node) → ends (gate_open c s n) ≡ true
  unfolding gate_open
  gate_open-ends s n = elim (Option-cases n.when) [
    | inl e ↦ rw (e, gate_open) refl
    | inr (p, e) ↦ rw (e, gate_open) (evaluate_when-ends s p)
  ]

  park_gate-ends : (n : Node) (s : Scheduler) → ends (park_gate c n s) ≡ true
  unfolding park_gate
  park_gate-ends n s = ground arith

  launch-ends : (n : Node) (s : Scheduler) → ends (launch c n s) ≡ true
  unfolding launch
  launch-ends n s = ground arith

  skip-ends :
      (n : Node) (s : Scheduler)
      → ends (skip_with_cause c n.id SkipCause.when_false none s >>= λ s'. ok (Visit.stop true s'))
        ≡ true
  skip-ends n s =
      ends-bind (skip_with_cause c n.id SkipCause.when_false none s) _
        (skip_with_cause-ends c n.id SkipCause.when_false none s) (λ s' h. refl)

  visit-ends : (n : Node) (s : Scheduler) → ends (visit c n s) ≡ true
  unfolding visit
  visit-ends n s = elim (Bool-cases (is_gate n)) [
    | inl g ↦ rw g (
        ends-bind (gate_open c s n) _ (gate_open-ends s n) (elim [
          | true ↦ λ _. ends-bind (park_gate c n s) _ (park_gate-ends n s) (λ s' h. refl)
          | false ↦ λ _. skip-ends n s
        ]))
    | inr g ↦ rw g (elim (Bool-cases (leb c.concurrency (length s.in_flight))) [
      | inl f ↦ rw f refl
      | inr f ↦ rw f (
          ends-bind (gate_open c s n) _ (gate_open-ends s n) (elim [
            | true ↦ λ _. ends-bind (launch c n s) _ (launch-ends n s) (λ s' h. refl)
            | false ↦ λ _. skip-ends n s
          ]))
    ])
  ]

  launch_pass-ends :
      (progressed : Bool) (nodes : List Node) (s : Scheduler)
      → ends (launch_pass c progressed nodes s) ≡ true
  unfolding launch_pass
  launch_pass-ends progressed [] s = refl
  launch_pass-ends progressed (n ∷ nodes) s = ends-bind (visit c n s) _ (visit-ends n s) (elim [
    | Visit.onward p s' ↦ λ _. launch_pass-ends (p || progressed) nodes s'
    | Visit.stop p s' ↦ λ _. refl
  ])

  again-ends :
      (fuel : ℕ) (s : Scheduler)
      → open_nodes s < suc fuel
      → ((s' : Scheduler) → open_nodes s' < fuel → ends (launch_loop c fuel s') ≡ true)
      → (m : Result Error (Bool × Scheduler)) → PassLess s m
      → ends m ≡ true
      → ends (m >>= again (launch_loop c fuel)) ≡ true
  again-ends fuel s l h (ok (true, s')) v e = h s' (omega arith)
  again-ends fuel s l h (ok (false, s')) v e = refl
  again-ends fuel s l h (raised x) v e =
      ends-bind (raised x) (again (launch_loop c fuel)) e (λ a k. absurd (ground arith))

  launch_loop-ends :
      (fuel : ℕ) (s : Scheduler) → open_nodes s < fuel → ends (launch_loop c fuel s) ≡ true
  unfolding launch_loop ready_nodes
  launch_loop-ends zero s l = absurd (omega arith)
  launch_loop-ends (suc fuel) s l =
      again-ends fuel s l (launch_loop-ends fuel) (launch_pass c false (ready_nodes c s) s)
        (first_pass s (ready_nodes c s) refl) (launch_pass-ends false (ready_nodes c s) s)

  pub launch_ready-ends : (s : Scheduler) → ends (launch_ready c s) ≡ true
  unfolding launch_ready
  launch_ready-ends s = launch_loop-ends _ s (omega (arith, tally-length (is_open s) c.ordered))
