-- ===== src/Executor/Retries/Launches.antt =====
-- executor.py: a skip leaves the numbers of Attempts alone, and a launch starts at the first.
use cli_agentic_workflow.Prelude.{
  ℕ, zero, suc, String, List, [], ◌∷◌, ◌++◌, Option, none, Bool, true, false, ◌||◌, length, get,
  put, get-put, leb, ◌≡◌, refl, ok, raised, Result, ◌>>=◌, arith, Bool-cases, Option-cases,
  ==_cases, inl, inr,
}
use cli_agentic_workflow.State.{SkipCause}
use cli_agentic_workflow.Model.Node.{Node, is_gate}
use cli_agentic_workflow.Executor.Scheduler.{
  Context, Scheduler, Error, is_terminal, release_dependents, ready_nodes,
}
use cli_agentic_workflow.Executor.Skips.{
  record_skip, judge, skip_in_walk, walk_skips, enqueue, Queue, propagate_skips, skip_with_cause,
  skip_failed_dependents,
}
use cli_agentic_workflow.Executor.Launch.{
  Visit, go_on, again, gate_open, park_gate, launch, visit, launch_pass, launch_loop, launch_ready,
  attempt_of,
}
use cli_agentic_workflow.Executor.Sound.{Ensures, Ensures-bind, Ensures-ok}
use cli_agentic_workflow.Executor.Sound.Skips.{VerdictCases, Verdict-cases}
use cli_agentic_workflow.Executor.Sound.Skip.{skipped_release}
use cli_agentic_workflow.Executor.Retries.{Bounded, same-Bounded}

module _ (c : Context) where
  attempt-skip_in_walk :
      (id : String) (cause : SkipCause) (blocker : Option String) (s s' : Scheduler)
      → skip_in_walk c id cause blocker s ≡ ok s'
      → s'.attempt ≡ s.attempt
  unfolding skip_in_walk record_skip release_dependents
  attempt-skip_in_walk id cause blocker s s' h = ground arith

  walk-Bounded :
      (fuel : ℕ) (b : Bool) (origin : String) (queue : Queue c) (s : Scheduler)
      → Bounded c s
      → Ensures (Bounded c) (walk_skips c fuel b origin queue s)
  unfolding walk_skips
  walk-Bounded fuel b origin [] s t = t
  walk-Bounded zero b origin (e ∷ queue) s t = tt
  walk-Bounded (suc fuel) b origin ((id, o) ∷ queue) s t =
      elim (Verdict-cases (judge c b origin id o s)) [
        | VerdictCases.pass e ↦ rw (e, walk_skips) (walk-Bounded fuel b origin queue s t)
        | VerdictCases.missing e ↦ rw (e, walk_skips) tt
        | VerdictCases.skip cause blocker e ↦
            rw (e, walk_skips)
              (Ensures-bind (Bounded c) (skip_in_walk c id cause blocker s) _ λ s' h.
                walk-Bounded fuel b origin (queue ++ enqueue c id) s'
                  (same-Bounded c s s' (attempt-skip_in_walk id cause blocker s s' h) t))
      ]

  pub skip_failed-Bounded :
      (id : String) (s : Scheduler)
      → Bounded c s
      → Ensures (Bounded c) (skip_failed_dependents c id s)
  unfolding skip_failed_dependents propagate_skips
  skip_failed-Bounded id s t = walk-Bounded _ false id (enqueue c id) s t

  skip_with_cause-Bounded :
      (id : String) (cause : SkipCause) (blocker : Option String) (s : Scheduler)
      → Bounded c s
      → Ensures (Bounded c) (skip_with_cause c id cause blocker s)
  unfolding skip_with_cause propagate_skips
  skip_with_cause-Bounded id cause blocker s t = elim (Bool-cases (is_terminal s id)) [
    | inl e ↦ rw (e, skip_with_cause) t
    | inr e ↦
        rw (e, skip_with_cause)
          (Ensures-bind (Bounded c) (record_skip c id cause blocker s) _ λ s₁ h.
            let s' = release_dependents c id s₁ in
            walk-Bounded _ true id (enqueue c id) s' (
              same-Bounded c s s'
                (attempt-skip_in_walk id cause blocker s s'
                  (skipped_release c id cause blocker s s₁ h))
                t))
  ]

  attempt-launch :
      (n : Node) (s s' : Scheduler)
      → launch c n s ≡ ok s'
      → s'.attempt ≡ put n.id (attempt_of c n.id s) s.attempt
  unfolding launch
  attempt-launch n s s' h = ground arith

  launch-Bounded : (n : Node) (s s' : Scheduler) → Bounded c s → launch c n s ≡ ok s' → Bounded c s'
  launch-Bounded n s s' t h = λ id m k f g. elim (==_cases n.id id) [
    | inl (e, q) ↦ elim (Option-cases (get id s.attempt)) [
      | inl u ↦
          ground
            (arith, q, attempt-launch n s s' h, get-put n.id id (attempt_of c n.id s) s.attempt)
      | inr (j, u) ↦ ground (
        arith,
        q,
        attempt-launch n s s' h,
        get-put n.id id (attempt_of c n.id s) s.attempt,
        t id m j f u,
      )
    ]
    | inr (e, q) ↦ ground (
      arith,
      attempt-launch n s s' h,
      get-put n.id id (attempt_of c n.id s) s.attempt,
      t id m k f,
    )
  ]

  park_gate-Bounded :
      (n : Node) (s s' : Scheduler) → Bounded c s → park_gate c n s ≡ ok s' → Bounded c s'
  unfolding park_gate
  park_gate-Bounded n s s' t h = same-Bounded c s s' (ground arith) t

  abbrev VisitBounded : Result Error Visit → Type 0
  VisitBounded (ok (Visit.onward p s)) = Bounded c s
  VisitBounded (ok (Visit.stop p s)) = Bounded c s
  VisitBounded (raised e) = Unit

  VisitBounded-bind {κ} :
      {A : Type κ} (m : Result Error A) (f : A → Result Error Visit)
      → ((a : A) → m ≡ ok a → VisitBounded (f a))
      → VisitBounded (m >>= f)
  VisitBounded-bind (ok a) f h = h a refl
  VisitBounded-bind (raised e) f h = tt

  skip-Bounded :
      (n : Node) (s : Scheduler)
      → Bounded c s
      → VisitBounded
          (skip_with_cause c n.id SkipCause.when_false none s >>= λ s'. ok (Visit.stop true s'))
  skip-Bounded n s t =
      VisitBounded-bind (skip_with_cause c n.id SkipCause.when_false none s) _ λ s' h.
        Ensures-ok (Bounded c) _ s' h (skip_with_cause-Bounded n.id SkipCause.when_false none s t)

  visit-Bounded : (n : Node) (s : Scheduler) → Bounded c s → VisitBounded (visit c n s)
  unfolding visit
  visit-Bounded n s t = elim (Bool-cases (is_gate n)) [
    | inl g ↦ rw g (
        VisitBounded-bind (gate_open c s n) _ (elim [
          | true ↦ λ _. VisitBounded-bind (park_gate c n s) _ (λ s' h. park_gate-Bounded n s s' t h)
          | false ↦ λ _. skip-Bounded n s t
        ]))
    | inr g ↦ rw g (elim (Bool-cases (leb c.concurrency (length s.in_flight))) [
      | inl f ↦ rw f t
      | inr f ↦ rw f (
          VisitBounded-bind (gate_open c s n) _ (elim [
            | true ↦ λ _. VisitBounded-bind (launch c n s) _ (λ s' h. launch-Bounded n s s' t h)
            | false ↦ λ _. skip-Bounded n s t
          ]))
    ])
  ]

  abbrev PassBounded : Result Error (Bool × Scheduler) → Type 0
  PassBounded (ok (b, s)) = Bounded c s
  PassBounded (raised e) = Unit

  go_on-Bounded :
      (next : Bool → Scheduler → Result Error (Bool × Scheduler)) (progressed : Bool)
      → ((b : Bool) (s : Scheduler) → Bounded c s → PassBounded (next b s))
      → (m : Result Error Visit) → VisitBounded m
      → PassBounded (m >>= go_on next progressed)
  go_on-Bounded next progressed h (ok (Visit.onward p s)) v = h (p || progressed) s v
  go_on-Bounded next progressed h (ok (Visit.stop p s)) v = v
  go_on-Bounded next progressed h (raised e) v = tt

  pass-Bounded :
      (progressed : Bool) (nodes : List Node) (s : Scheduler)
      → Bounded c s
      → PassBounded (launch_pass c progressed nodes s)
  unfolding launch_pass
  pass-Bounded progressed [] s t = t
  pass-Bounded progressed (n ∷ nodes) s t =
      go_on-Bounded (λ b s'. launch_pass c b nodes s') progressed
        (λ b s' t'. pass-Bounded b nodes s' t') (visit c n s) (visit-Bounded n s t)

  again-Bounded :
      (next : Scheduler → Result Error Scheduler)
      → ((s : Scheduler) → Bounded c s → Ensures (Bounded c) (next s))
      → (m : Result Error (Bool × Scheduler)) → PassBounded m
      → Ensures (Bounded c) (m >>= again next)
  again-Bounded next h (ok (true, s)) v = h s v
  again-Bounded next h (ok (false, s)) v = v
  again-Bounded next h (raised e) v = tt

  loop-Bounded :
      (fuel : ℕ) (s : Scheduler) → Bounded c s → Ensures (Bounded c) (launch_loop c fuel s)
  unfolding launch_loop
  loop-Bounded zero s t = tt
  loop-Bounded (suc fuel) s t =
      again-Bounded (launch_loop c fuel) (loop-Bounded fuel)
        (launch_pass c false (ready_nodes c s) s) (pass-Bounded false (ready_nodes c s) s t)

  pub launch_ready-Bounded : (s : Scheduler) → Bounded c s → Ensures (Bounded c) (launch_ready c s)
  unfolding launch_ready
  launch_ready-Bounded s t = loop-Bounded _ s t
