-- ===== src/Executor/Ends/Walk.antt =====
-- executor.py: the walk over dependents pops each edge of a skipped Node once.
use cli_agentic_workflow.Prelude.{
  ℕ, zero, suc, ◌+◌, ◌≤◌, String, List, [], ◌∷◌, ◌++◌, Option, some, Bool, true, false, has,
  has-concat, length, length-append, map, ◌≡◌, refl, ok, arith, eq_iff, ap, if◌then◌else◌,
  Bool-cases, Option-cases, subst, sym, inl, inr, ==_cases,
}
use cli_agentic_workflow.State.{SkipCause}
use cli_agentic_workflow.Model.Node.{Node}
use cli_agentic_workflow.Model.Order.{by_id, dependents}
use cli_agentic_workflow.Executor.Scheduler.{Context, Scheduler, is_terminal, release_dependents}
use cli_agentic_workflow.Executor.Skips.{
  record_skip, Verdict, judge, skip_in_walk, walk_skips, edges, enqueue, Queue, propagate_skips,
  skip_failed_dependents, skip_with_cause,
}
use cli_agentic_workflow.Executor.Sound.Skips.{VerdictCases, Verdict-cases}
use cli_agentic_workflow.Executor.Ends.{ends, ends-bind}

length-map {ℓ κ} :
    {A : Type ℓ} {B : Type κ} (f : A → B) (xs : List A) → length (map f xs) ≡ length xs
length-map f [] = refl
length-map f (x ∷ xs) = ap suc (length-map f xs)

module _ (c : Context) where
  -- The edges of the Nodes that are not skipped yet.
  abbrev left : List Node → List String → ℕ
  left [] skipped = 0
  left (n ∷ nodes) skipped =
      (if has n.id skipped then 0 else length (dependents c.ordered n.id)) + left nodes skipped

  left-edges : (nodes : List Node) (skipped : List String) → left nodes skipped ≤ edges c nodes
  left-edges [] skipped = omega arith
  left-edges (n ∷ nodes) skipped = elim (Bool-cases (has n.id skipped)) [
    | inl e ↦ rw e (omega (arith, left-edges nodes skipped))
    | inr e ↦ rw e (omega (arith, left-edges nodes skipped))
  ]

  left_mono :
      (nodes : List Node) (id : String) (skipped : List String)
      → left nodes (skipped ++ id ∷ []) ≤ left nodes skipped
  left_mono [] id skipped = omega arith
  left_mono (n ∷ nodes) id skipped =
      ground (arith, has-concat n.id id skipped, left_mono nodes id skipped)

  left-skip :
      (nodes : List Node) (id : String) (n : Node) (skipped : List String)
      → by_id nodes id ≡ some n
      → has id skipped ≡ false
      → length (dependents c.ordered id) + left nodes (skipped ++ id ∷ []) ≤ left nodes skipped
  unfolding by_id
  left-skip [] id n skipped e h = absurd (ground arith)
  left-skip (m ∷ nodes) id n skipped e h = elim (==_cases m.id id) [
    | inl (t, q) ↦ ground (
      arith,
      q,
      has-concat m.id id skipped,
      left_mono nodes id skipped,
      ap (λ x. length (dependents c.ordered x)) q,
    )
    | inr (t, q) ↦
        ground (arith, has-concat m.id id skipped, left-skip nodes id n skipped, eq_iff m.id id)
  ]

  length-enqueue : (id : String) → length (enqueue c id) ≡ length (dependents c.ordered id)
  length-enqueue id = length-map (λ d. (d, id)) (dependents c.ordered id)

  record_skip-ends :
      (id : String) (cause : SkipCause) (blocker : Option String) (s : Scheduler)
      → ends (record_skip c id cause blocker s) ≡ true
  unfolding record_skip
  record_skip-ends id cause blocker s = ground arith

  skip_in_walk-ends :
      (id : String) (cause : SkipCause) (blocker : Option String) (s : Scheduler)
      → ends (skip_in_walk c id cause blocker s) ≡ true
  unfolding skip_in_walk
  skip_in_walk-ends id cause blocker s =
      ends-bind (record_skip c id cause blocker s) _ (record_skip-ends id cause blocker s)
        (λ s' h. refl)

  skipped-skip_in_walk :
      (id : String) (cause : SkipCause) (blocker : Option String) (s s' : Scheduler)
      → skip_in_walk c id cause blocker s ≡ ok s'
      → s'.skipped ≡ s.skipped ++ id ∷ []
  unfolding skip_in_walk record_skip release_dependents
  skipped-skip_in_walk id cause blocker s s' h = ground arith

  -- A verdict to skip is given on a Node of the graph that is not skipped.
  judge-skip :
      (b : Bool) (origin id orphaning : String) (s : Scheduler) (cause : SkipCause)
      (blocker : Option String)
      → judge c b origin id orphaning s ≡ Verdict.skip cause blocker
      → (has id s.skipped ≡ false) × ((n : Node) × (by_id c.ordered id ≡ some n))
  unfolding judge is_terminal
  judge-skip b origin id orphaning s cause blocker h = elim (Option-cases (by_id c.ordered id)) [
    | inl e ↦ absurd (ground arith)
    | inr (n, e) ↦ (ground arith, (n, e))
  ]

  walk_skips-ends :
      (fuel : ℕ) (b : Bool) (origin : String) (queue : Queue c) (s : Scheduler)
      → length queue + left c.ordered s.skipped ≤ fuel
      → ends (walk_skips c fuel b origin queue s) ≡ true
  unfolding walk_skips
  walk_skips-ends fuel b origin [] s h = refl
  walk_skips-ends zero b origin (e ∷ queue) s h = absurd (omega arith)
  walk_skips-ends (suc fuel) b origin ((id, o) ∷ queue) s h =
      elim (Verdict-cases (judge c b origin id o s)) [
        | VerdictCases.pass e ↦
            rw (e, walk_skips) (walk_skips-ends fuel b origin queue s (omega arith))
        | VerdictCases.missing e ↦ rw (e, walk_skips) refl
        | VerdictCases.skip cause blocker e ↦
            rw (e, walk_skips)
              (ends-bind (skip_in_walk c id cause blocker s) _
                (skip_in_walk-ends id cause blocker s)
                λ s' k.
                  let (u, (n, f)) = judge-skip b origin id o s cause blocker e in
                  walk_skips-ends fuel b origin (queue ++ enqueue c id) s' (
                    subst
                      (λ skipped. length (queue ++ enqueue c id) + left c.ordered skipped ≤ fuel)
                      (sym (skipped-skip_in_walk id cause blocker s s' k))
                      (omega (
                        arith,
                        length-append queue (enqueue c id),
                        length-enqueue id,
                        left-skip c.ordered id n s.skipped f u,
                      ))))
      ]

  pub propagate_skips-ends :
      (origin : String) (b : Bool) (s : Scheduler) → ends (propagate_skips c origin b s) ≡ true
  unfolding propagate_skips
  propagate_skips-ends origin b s =
      walk_skips-ends _ b origin (enqueue c origin) s
        (omega (arith, left-edges c.ordered s.skipped))

  pub skip_failed_dependents-ends :
      (id : String) (s : Scheduler) → ends (skip_failed_dependents c id s) ≡ true
  unfolding skip_failed_dependents
  skip_failed_dependents-ends id s = propagate_skips-ends id false s

  pub skip_with_cause-ends :
      (id : String) (cause : SkipCause) (blocker : Option String) (s : Scheduler)
      → ends (skip_with_cause c id cause blocker s) ≡ true
  unfolding skip_with_cause
  skip_with_cause-ends id cause blocker s = elim (Bool-cases (is_terminal s id)) [
    | inl e ↦ rw (e, skip_with_cause) refl
    | inr e ↦
        rw (e, skip_with_cause)
          (ends-bind (record_skip c id cause blocker s) _ (record_skip-ends id cause blocker s)
            (λ s' k. propagate_skips-ends id true (release_dependents c id s')))
  ]
