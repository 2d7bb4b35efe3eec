-- ===== src/Executor/Ends/Narrowing.antt =====
-- executor.py: what a skip, a launch and a park do to the open Nodes: none is opened, one is closed.
use cli_agentic_workflow.Prelude.{
  ℕ, zero, suc, String, List, [], ◌∷◌, ◌++◌, Option, none, Bool, true, false, ◌||◌, has, has-concat,
  length, ◌≡◌, refl, ok, raised, Result, ◌>>=◌, arith, eq_iff, Bool-cases, inl, inr, leb, subst,
}
use cli_agentic_workflow.State.{SkipCause}
use cli_agentic_workflow.Model.Node.{Node, is_gate}
use cli_agentic_workflow.Executor.Scheduler.{
  Context, Scheduler, Error, is_open, is_terminal, release_dependents,
}
use cli_agentic_workflow.Executor.Skips.{
  record_skip, judge, skip_in_walk, walk_skips, enqueue, Queue, propagate_skips, skip_with_cause,
}
use cli_agentic_workflow.Executor.Launch.{
  Visit, go_on, gate_open, park_gate, launch, visit, launch_pass,
}
use cli_agentic_workflow.Executor.Sound.Skip.{skip_in_walk-Skipped, skipped_release}
use cli_agentic_workflow.Executor.Sound.Skips.{VerdictCases, Verdict-cases}
use cli_agentic_workflow.Executor.Sound.{Ensures, Ensures-bind, Ensures-ok}
use cli_agentic_workflow.Executor.Sound.Let.{
  launch-Let, in_flight-launch, park_gate-Let, awaiting-park_gate,
}
use cli_agentic_workflow.Executor.Ends.Tally.{Implies}

-- No Node is opened.
abbrev pub Narrows : Scheduler → Scheduler → Type 0
Narrows s s' = Implies (is_open s') (is_open s)

-- And one, if it was open, is closed.
abbrev pub Closes : String → Scheduler → Scheduler → Type 0
Closes id s s' = Narrows s s' × (is_open s id ≡ true → is_open s' id ≡ false)

stays_shut :
    (s s' : Scheduler) (id : String) → Narrows s s' → is_open s id ≡ false → is_open s' id ≡ false
stays_shut s s' id w h = elim (Bool-cases (is_open s' id)) [
  | inl e ↦ absurd (ground (arith, w id e))
  | inr e ↦ e
]

terminal-closed :
    (s : Scheduler) (id : String)
    → is_terminal s id ≡ true
    → is_open s id ≡ true
    → is_open s id ≡ false
unfolding is_open is_terminal
terminal-closed s id e o = absurd (ground arith)

Ensures-mono :
    (P Q : Scheduler → Type 0) (f : (s : Scheduler) → P s → Q s) (m : Result Error Scheduler)
    → Ensures P m
    → Ensures Q m
Ensures-mono P Q f (ok s) h = f s h
Ensures-mono P Q f (raised e) h = tt

module _ (c : Context) where
  skip_in_walk-Narrows :
      (id : String) (cause : SkipCause) (blocker : Option String) (s s' : Scheduler)
      → skip_in_walk c id cause blocker s ≡ ok s'
      → Narrows s s' × (is_open s' id ≡ false)
  unfolding is_open
  skip_in_walk-Narrows id cause blocker s s' h =
      let k = skip_in_walk-Skipped c id cause blocker s s' h in
      (
        λ y o. ground (
          arith,
          k.in_flight,
          k.results,
          k.awaiting,
          k.satisfied,
          k.skipped,
          has-concat y id s.skipped,
        ),
        ground (arith, k.skipped, has-concat id id s.skipped, eq_iff id id),
      )

  walk-Narrows :
      (fuel : ℕ) (b : Bool) (origin : String) (queue : Queue c) (s : Scheduler)
      → Ensures (Narrows s) (walk_skips c fuel b origin queue s)
  unfolding walk_skips
  walk-Narrows fuel b origin [] s = λ y o. o
  walk-Narrows zero b origin (e ∷ queue) s = tt
  walk-Narrows (suc fuel) b origin ((id, o) ∷ queue) s =
      elim (Verdict-cases (judge c b origin id o s)) [
        | VerdictCases.pass e ↦ rw (e, walk_skips) (walk-Narrows fuel b origin queue s)
        | VerdictCases.missing e ↦ rw (e, walk_skips) tt
        | VerdictCases.skip cause blocker e ↦
            rw (e, walk_skips)
              (Ensures-bind (Narrows s) (skip_in_walk c id cause blocker s) _ λ s' h.
                Ensures-mono (Narrows s') (Narrows s)
                  (λ s'' w y i. (skip_in_walk-Narrows id cause blocker s s' h).0 y (w y i)) _
                  (walk-Narrows fuel b origin (queue ++ enqueue c id) s'))
      ]

  skip_with_cause-Closes :
      (id : String) (cause : SkipCause) (blocker : Option String) (s : Scheduler)
      → Ensures (Closes id s) (skip_with_cause c id cause blocker s)
  unfolding skip_with_cause propagate_skips
  skip_with_cause-Closes id cause blocker s = elim (Bool-cases (is_terminal s id)) [
    | inl e ↦ rw (e, skip_with_cause) (λ y o. o, terminal-closed s id e)
    | inr e ↦
        rw (e, skip_with_cause)
          (Ensures-bind (Closes id s) (record_skip c id cause blocker s) _ λ s₁ h.
            let (w, shut) =
              skip_in_walk-Narrows id cause blocker s (release_dependents c id s₁)
                (skipped_release c id cause blocker s s₁ h) in
            Ensures-mono (Narrows (release_dependents c id s₁)) (Closes id s)
              (λ s'' v. (λ y i. w y (v y i), λ _. stays_shut _ s'' id v shut)) _
              (walk-Narrows _ true id (enqueue c id) (release_dependents c id s₁)))
  ]

  launch-Closes : (n : Node) (s s' : Scheduler) → launch c n s ≡ ok s' → Closes n.id s s'
  unfolding is_open
  launch-Closes n s s' h =
      let k = launch-Let c n s s' h in
      let (f, a) = in_flight-launch c n s s' h in
      (
        λ y o.
            ground (arith, k.results, k.satisfied, k.skipped, f, a, has-concat y n.id s.in_flight),
        λ _. ground (arith, f, has-concat n.id n.id s.in_flight, eq_iff n.id n.id),
      )

  park_gate_parked :
      (n : Node) (s s' : Scheduler) → has n.id s.awaiting ≡ true → park_gate c n s ≡ ok s' → s ≡ s'
  unfolding park_gate
  park_gate_parked n s s' e h = ground arith

  parked-closed : (n : Node) (s : Scheduler) → has n.id s.awaiting ≡ true → is_open s n.id ≡ false
  unfolding is_open
  parked-closed n s e = ground arith

  park_gate-Closes : (n : Node) (s s' : Scheduler) → park_gate c n s ≡ ok s' → Closes n.id s s'
  unfolding is_open
  park_gate-Closes n s s' h = elim (Bool-cases (has n.id s.awaiting)) [
    | inl e ↦
        subst (Closes n.id s) (park_gate_parked n s s' e h) (λ y o. o, λ _. parked-closed n s e)
    | inr e ↦
        let k = park_gate-Let c n s s' h in
        let (a, f) = awaiting-park_gate c n s s' e h in
        (
          λ y o. ground (arith, k.results, k.satisfied, k.skipped, f, a),
          λ _. ground (arith, a, eq_iff n.id n.id),
        )
  ]

  -- What a visit comes to: with progress, its Node is closed.
  abbrev pub VisitCloses : String → Scheduler → Result Error Visit → Type 0
  VisitCloses id s (ok (Visit.onward p s')) = Closes id s s'
  VisitCloses id s (ok (Visit.stop true s')) = Closes id s s'
  VisitCloses id s (ok (Visit.stop false s')) = Narrows s s'
  VisitCloses id s (raised e) = Unit

  VisitCloses-bind {κ} :
      {A : Type κ} (id : String) (s : Scheduler) (m : Result Error A) (f : A → Result Error Visit)
      → ((a : A) → m ≡ ok a → VisitCloses id s (f a))
      → VisitCloses id s (m >>= f)
  VisitCloses-bind id s (ok a) f h = h a refl
  VisitCloses-bind id s (raised e) f h = tt

  skip-visit :
      (n : Node) (s : Scheduler)
      → VisitCloses n.id s
          (skip_with_cause c n.id SkipCause.when_false none s >>= λ s'. ok (Visit.stop true s'))
  skip-visit n s =
      VisitCloses-bind n.id s (skip_with_cause c n.id SkipCause.when_false none s) _ λ s' h.
        Ensures-ok (Closes n.id s) _ s' h (skip_with_cause-Closes n.id SkipCause.when_false none s)

  pub visit-Closes : (n : Node) (s : Scheduler) → VisitCloses n.id s (visit c n s)
  unfolding visit
  visit-Closes n s = elim (Bool-cases (is_gate n)) [
    | inl g ↦ rw g (
        VisitCloses-bind n.id s (gate_open c s n) _ (elim [
          | true ↦ λ _. VisitCloses-bind n.id s (park_gate c n s) _ (park_gate-Closes n s)
          | false ↦ λ _. skip-visit n s
        ]))
    | inr g ↦ rw g (elim (Bool-cases (leb c.concurrency (length s.in_flight))) [
      | inl f ↦ rw f (λ y o. o)
      | inr f ↦ rw f (
          VisitCloses-bind n.id s (gate_open c s n) _ (elim [
            | true ↦ λ _. VisitCloses-bind n.id s (launch c n s) _ (launch-Closes n s)
            | false ↦ λ _. skip-visit n s
          ]))
    ])
  ]

  abbrev pub PassNarrows : Scheduler → Result Error (Bool × Scheduler) → Type 0
  PassNarrows s (ok (b, s')) = Narrows s s'
  PassNarrows s (raised e) = Unit

  PassNarrows-trans :
      (s s' : Scheduler) (m : Result Error (Bool × Scheduler))
      → Narrows s s'
      → PassNarrows s' m
      → PassNarrows s m
  PassNarrows-trans s s' (ok (b, t)) v w = λ y o. v y (w y o)
  PassNarrows-trans s s' (raised e) v w = tt

  go_on-Narrows :
      (next : Bool → Scheduler → Result Error (Bool × Scheduler)) (progressed : Bool) (id : String)
      (s : Scheduler)
      → ((b : Bool) (s' : Scheduler) → PassNarrows s' (next b s'))
      → (m : Result Error Visit) → VisitCloses id s m
      → PassNarrows s (m >>= go_on next progressed)
  go_on-Narrows next progressed id s h (ok (Visit.onward p s')) v =
      PassNarrows-trans s s' (next (p || progressed) s') v.0 (h (p || progressed) s')
  go_on-Narrows next progressed id s h (ok (Visit.stop true s')) v = v.0
  go_on-Narrows next progressed id s h (ok (Visit.stop false s')) v = v
  go_on-Narrows next progressed id s h (raised e) v = tt

  pub launch_pass-Narrows :
      (progressed : Bool) (nodes : List Node) (s : Scheduler)
      → PassNarrows s (launch_pass c progressed nodes s)
  unfolding launch_pass
  launch_pass-Narrows progressed [] s = λ y o. o
  launch_pass-Narrows progressed (n ∷ nodes) s =
      go_on-Narrows (λ b s'. launch_pass c b nodes s') progressed n.id s
        (λ b s'. launch_pass-Narrows b nodes s') (visit c n s) (visit-Closes n s)
