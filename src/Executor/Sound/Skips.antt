-- ===== src/Executor/Sound/Skips.antt =====
-- executor.py: the walk that skips dependents keeps the invariant.
use cli_agentic_workflow.Prelude.{
  ℕ, zero, suc, String, List, [], ◌∷◌, ◌++◌, Option, Bool, true, false, All, All-map, All-append,
  has-All, map, ◌≡◌, refl, ◌∙◌, ok, arith, inl, inr, Bool-cases,
}
use cli_agentic_workflow.State.{SkipCause}
use cli_agentic_workflow.Model.Order.{dependents}
use cli_agentic_workflow.Model.Order.Degrees.{IsDistinct, dependent_needs, pending-has}
use cli_agentic_workflow.Executor.Scheduler.{Context, Scheduler, is_terminal, release_dependents}
use cli_agentic_workflow.Executor.Skips.{
  record_skip, Verdict, judge, skip_in_walk, walk_skips, enqueue, propagate_skips,
  skip_failed_dependents, skip_with_cause,
}
use cli_agentic_workflow.Executor.Sound.{IsSound, Ensures, Ensures-bind, resolved, launched}
use cli_agentic_workflow.Executor.Sound.Skip.{
  skip_in_walk-Skipped, launched-skip, Skipped-IsSound, unresolved_of_open, skipped_release,
}

-- Every entry of a queue names a Node that was not let past its needs.
abbrev Waiting : Scheduler → List (String × String) → Type 0
Waiting s = All (λ e. launched s e.0 ≡ false)

pair-All {κ} :
    (P : String → Type κ) (o : String) (xs : List String)
    → All P xs
    → All (λ e. P e.0) (map {B = String × String} (λ d. (d, o)) xs)
pair-All P o [] h = tt
pair-All P o (x ∷ xs) h = (h.0, pair-All P o xs h.1)

pub data VerdictCases (v : Verdict) : Type 0 where
  pass : v ≡ Verdict.pass → VerdictCases v
  missing : v ≡ Verdict.missing → VerdictCases v
  skip :
      (cause : SkipCause) (blocker : Option String)
      → v ≡ Verdict.skip cause blocker
      → VerdictCases v

pub Verdict-cases : (v : Verdict) → VerdictCases v
Verdict-cases Verdict.pass = VerdictCases.pass refl
Verdict-cases Verdict.missing = VerdictCases.missing refl
Verdict-cases (Verdict.skip cause blocker) = VerdictCases.skip cause blocker refl

module _ (c : Context) (distinct : IsDistinct c.ordered) where
  -- The dependents of a Node that is not resolved were not let past it.
  dependents_wait :
      (s : Scheduler) (id : String) → IsSound c s → resolved s id ≡ false → Waiting s (enqueue c id)
  dependents_wait s id sound u =
      pair-All (λ d. launched s d ≡ false) id (dependents c.ordered id)
        (has-All (dependents c.ordered id) λ d m.
          let (n, e, i) = dependent_needs c.ordered d id distinct m in
          ground (arith, sound.let_past d n e, pending-has (resolved s) id n.needs i))

  judge-open :
      (join_aware : Bool) (origin id o : String) (cause : SkipCause) (blocker : Option String)
      (s : Scheduler)
      → judge c join_aware origin id o s ≡ Verdict.skip cause blocker
      → is_terminal s id ≡ false
  unfolding judge
  judge-open join_aware origin id o cause blocker s e = ground arith

  module _ (id : String) (cause : SkipCause) (blocker : Option String) (s s' : Scheduler)
      (sound : IsSound c s) (h : skip_in_walk c id cause blocker s ≡ ok s')
      (open_id : is_terminal s id ≡ false) (unlaunched : launched s id ≡ false) where
    pub skip-IsSound : IsSound c s'
    skip-IsSound =
        Skipped-IsSound c distinct id cause blocker s s' sound
          (skip_in_walk-Skipped c id cause blocker s s' h) open_id unlaunched

    Waiting-skip : (queue : List (String × String)) → Waiting s queue → Waiting s' queue
    Waiting-skip queue w =
        All-map
          (λ q l.
            launched-skip c distinct id cause blocker s s' sound
              (skip_in_walk-Skipped c id cause blocker s s' h) open_id unlaunched q.0
            ∙ l)
          queue w

  walk-IsSound :
      (fuel : ℕ) (join_aware : Bool) (origin : String) (queue : List (String × String))
      (s : Scheduler)
      → IsSound c s
      → Waiting s queue
      → Ensures (IsSound c) (walk_skips c fuel join_aware origin queue s)
  unfolding walk_skips
  walk-IsSound fuel join_aware origin [] s sound w = sound
  walk-IsSound zero join_aware origin (e ∷ queue) s sound w = tt
  walk-IsSound (suc fuel) join_aware origin ((id, o) ∷ queue) s sound w =
      elim (Verdict-cases (judge c join_aware origin id o s)) [
        | VerdictCases.pass e ↦
            rw (e, walk_skips) (walk-IsSound fuel join_aware origin queue s sound w.1)
        | VerdictCases.missing e ↦ rw (e, walk_skips) tt
        | VerdictCases.skip cause blocker e ↦
            rw (e, walk_skips)
              (Ensures-bind (IsSound c) (skip_in_walk c id cause blocker s) _ λ s' h.
                walk-IsSound fuel join_aware origin (queue ++ enqueue c id) s'
                  (skip-IsSound id cause blocker s s' sound h
                    (judge-open join_aware origin id o cause blocker s e) w.0)
                  (All-append (λ q. launched s' q.0 ≡ false) queue (enqueue c id)
                    (Waiting-skip id cause blocker s s' sound h
                      (judge-open join_aware origin id o cause blocker s e) w.0 queue w.1)
                    (Waiting-skip id cause blocker s s' sound h
                      (judge-open join_aware origin id o cause blocker s e) w.0 (enqueue c id)
                      (dependents_wait s id sound (
                        unresolved_of_open s id
                          (judge-open join_aware origin id o cause blocker s e))))))
      ]

  pub propagate-IsSound :
      (origin : String) (join_aware : Bool) (s : Scheduler)
      → IsSound c s
      → Waiting s (enqueue c origin)
      → Ensures (IsSound c) (propagate_skips c origin join_aware s)
  unfolding propagate_skips
  propagate-IsSound origin join_aware s sound w =
      walk-IsSound _ join_aware origin (enqueue c origin) s sound w

  -- A failed Node is not resolved, so none of its dependents was let past it.
  pub skip_failed-IsSound :
      (id : String) (s : Scheduler)
      → IsSound c s
      → resolved s id ≡ false
      → Ensures (IsSound c) (skip_failed_dependents c id s)
  unfolding skip_failed_dependents
  skip_failed-IsSound id s sound u =
      propagate-IsSound id false s sound (dependents_wait s id sound u)

  pub skip_with_cause-IsSound :
      (id : String) (cause : SkipCause) (blocker : Option String) (s : Scheduler)
      → IsSound c s
      → launched s id ≡ false
      → Ensures (IsSound c) (skip_with_cause c id cause blocker s)
  unfolding skip_with_cause
  skip_with_cause-IsSound id cause blocker s sound unlaunched =
      elim (Bool-cases (is_terminal s id)) [
        | inl e ↦ rw (e, skip_with_cause) sound
        | inr e ↦
            rw (e, skip_with_cause)
              (Ensures-bind (IsSound c) (record_skip c id cause blocker s) _ λ s₁ h.
                let s' = release_dependents c id s₁ in
                let k = skipped_release c id cause blocker s s₁ h in
                propagate-IsSound id true s'
                  (skip-IsSound id cause blocker s s' sound k e unlaunched)
                  (Waiting-skip id cause blocker s s' sound k e unlaunched (enqueue c id)
                    (dependents_wait s id sound (unresolved_of_open s id e))))
      ]
