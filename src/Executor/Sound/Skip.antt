-- ===== src/Executor/Sound/Skip.antt =====
-- executor.py: one skip keeps the invariant.
use cli_agentic_workflow.Prelude.{
  ◌+◌, String, List, [], ◌∷◌, ◌++◌, Option, none, some, true, false, ◌||◌, ◌==◌, has, get, put,
  get-put, pos, is_some, has-concat, map, ◌≡◌, ok, arith, eq_iff, inl, inr, Option-cases,
}
use cli_agentic_workflow.State.{SkipCause}
use cli_agentic_workflow.Model.Node.{Node}
use cli_agentic_workflow.Model.Order.{by_id, dependents, count, decrement_all}
use cli_agentic_workflow.Model.Order.Degrees.{
  IsDistinct, pending-resolve, get-decrement_all, count-dependents, minus_pos,
}
use cli_agentic_workflow.Executor.Outcome.{NodeResult}
use cli_agentic_workflow.Executor.Scheduler.{Context, Scheduler, is_terminal, release_dependents}
use cli_agentic_workflow.Executor.Skips.{record_skip, skip_in_walk}
use cli_agentic_workflow.Executor.Sound.{
  IsSound, resolved, launched, unresolved, succeeded_in, cause_is_blocked,
}

-- What one skip does to the fields that the invariant reads.
pub record Skipped (c : Context) (id : String) (cause : SkipCause) (blocker : Option String)
    (s s' : Scheduler) : Type 0 where
  pub in_flight : s'.in_flight ≡ s.in_flight
  pub results : s'.results ≡ s.results
  pub awaiting : s'.awaiting ≡ s.awaiting
  pub satisfied : s'.satisfied ≡ s.satisfied
  pub skipped : s'.skipped ≡ s.skipped ++ id ∷ []
  pub causes : s'.skipped_causes ≡ put id cause s.skipped_causes
  pub blockers :
      s'.skipped_blockers
      ≡ elim blocker [ none ↦ s.skipped_blockers | some b ↦ put id b s.skipped_blockers ]
  pub indegree : s'.indegree ≡ decrement_all (dependents c.ordered id) s.indegree
  pub paired : cause_is_blocked (some cause) ≡ is_some blocker

pub skip_in_walk-Skipped :
    (c : Context) (id : String) (cause : SkipCause) (blocker : Option String) (s s' : Scheduler)
    → skip_in_walk c id cause blocker s ≡ ok s'
    → Skipped c id cause blocker s s'
unfolding skip_in_walk record_skip release_dependents
skip_in_walk-Skipped c id cause blocker s s' h = record {
  in_flight = ground arith;
  results = ground arith;
  awaiting = ground arith;
  satisfied = ground arith;
  skipped = ground arith;
  causes = ground arith;
  blockers = ground arith;
  indegree = ground arith;
  paired = ground arith;
}

succeeded_in-has :
    (x : String) (rs : List NodeResult)
    → succeeded_in x rs ≡ true
    → has x (map (λ r. r.node_id) rs) ≡ true
succeeded_in-has x [] h = h
succeeded_in-has x (r ∷ rs) h = ground (arith, succeeded_in-has x rs)

module _ (c : Context) (distinct : IsDistinct c.ordered) (id : String) (cause : SkipCause)
    (blocker : Option String) (s s' : Scheduler) (sound : IsSound c s)
    (k : Skipped c id cause blocker s s') (open_id : is_terminal s id ≡ false)
    (unlaunched : launched s id ≡ false) where
  resolved-skip : (y : String) → resolved s' y ≡ (resolved s y || id == y)
  resolved-skip y =
      ground (arith, k.results, k.skipped, has-concat y id s.skipped, eq_iff id y, eq_iff y id)

  unresolved_id : resolved s id ≡ false
  unfolding is_terminal
  unresolved_id = ground (arith, succeeded_in-has id s.results)

  pub launched-skip : (y : String) → launched s' y ≡ launched s y
  launched-skip y = ground (arith, k.in_flight, k.results, k.awaiting)

  unresolved-skip : (n : Node) → unresolved s n ≡ count id n.needs + unresolved s' n
  unresolved-skip n =
      pending-resolve (resolved s) (resolved s') id unresolved_id resolved-skip n.needs

  counted-skip :
      (i : String) (n : Node)
      → by_id c.ordered i ≡ some n
      → get i s'.indegree ≡ some (pos (unresolved s' n))
  counted-skip i n e = ground (
    arith,
    k.indegree,
    get-decrement_all i (dependents c.ordered id) s.indegree,
    count-dependents c.ordered i id n distinct e,
    sound.counted i n e,
    unresolved-skip n,
    minus_pos (count id n.needs) (unresolved s n),
  )

  blockers-skip :
      (i : String)
      → cause_is_blocked (get i s'.skipped_causes) ≡ is_some (get i s'.skipped_blockers)
  unfolding is_terminal
  blockers-skip i = elim (Option-cases blocker) [
    | inl e ↦ ground (
      arith,
      k.causes,
      k.blockers,
      k.paired,
      sound.blockers i,
      sound.causes i,
      get-put id i cause s.skipped_causes,
      eq_iff i id,
      eq_iff id i,
    )
    | inr (b, e) ↦ ground (
      arith,
      k.causes,
      k.blockers,
      k.paired,
      sound.blockers i,
      get-put id i cause s.skipped_causes,
      get-put id i b s.skipped_blockers,
    )
  ]

  pub Skipped-IsSound : IsSound c s'
  unfolding is_terminal
  Skipped-IsSound = record {
    fresh = ground (arith, k.satisfied, sound.fresh);
    counted = counted-skip;
    let_past = λ i n e h. ground (arith, launched-skip i, sound.let_past i n e, unresolved-skip n);
    apart = λ i h. ground (
      arith,
      k.in_flight,
      k.results,
      k.skipped,
      has-concat i id s.skipped,
      sound.apart i,
      eq_iff i id,
    );
    exclusive = λ i h.
        ground
          (arith, k.results, k.skipped, has-concat i id s.skipped, sound.exclusive i, eq_iff i id);
    causes = λ i. ground (
      arith,
      k.causes,
      k.skipped,
      has-concat i id s.skipped,
      sound.causes i,
      get-put id i cause s.skipped_causes,
      eq_iff i id,
      eq_iff id i,
    );
    blockers = λ i. blockers-skip i;
    bounded = ground (arith, k.in_flight, sound.bounded);
  }

pub unresolved_of_open :
    (s : Scheduler) (id : String) → is_terminal s id ≡ false → resolved s id ≡ false
unfolding is_terminal
unresolved_of_open s id h = ground (arith, succeeded_in-has id s.results)

pub skipped_release :
    (c : Context) (id : String) (cause : SkipCause) (blocker : Option String) (s s₁ : Scheduler)
    → record_skip c id cause blocker s ≡ ok s₁
    → skip_in_walk c id cause blocker s ≡ ok (release_dependents c id s₁)
unfolding skip_in_walk
skipped_release c id cause blocker s s₁ h = rw (h, skip_in_walk)
