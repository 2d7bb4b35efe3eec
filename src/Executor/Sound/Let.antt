-- ===== src/Executor/Sound/Let.antt =====
-- executor.py: one more Node let past its needs keeps the invariant.
use cli_agentic_workflow.Prelude.{
  ◌≤◌, String, [], ◌∷◌, ◌++◌, some, true, false, ◌||◌, ◌==◌, has, length, fun_ext, ◌≡◌, ◌∙◌, ap, ok,
  arith, eq_iff, ==_cases, inl, inr,
}
use cli_agentic_workflow.Model.Node.{Node}
use cli_agentic_workflow.Model.Order.{by_id}
use cli_agentic_workflow.Model.Order.Degrees.{pending}
use cli_agentic_workflow.Executor.Scheduler.{Context, Scheduler, is_terminal, is_ready}
use cli_agentic_workflow.Executor.Launch.{park_gate, launch}
use cli_agentic_workflow.Executor.Sound.{IsSound, resolved, launched, unresolved}

-- The fields that launching and parking leave alone.
pub record Let (s s' : Scheduler) : Type 0 where
  pub indegree : s'.indegree ≡ s.indegree
  pub results : s'.results ≡ s.results
  pub satisfied : s'.satisfied ≡ s.satisfied
  pub skipped : s'.skipped ≡ s.skipped
  pub causes : s'.skipped_causes ≡ s.skipped_causes
  pub blockers : s'.skipped_blockers ≡ s.skipped_blockers

module _ (c : Context) (n : Node) (s s' : Scheduler) where
  pub launch-Let : launch c n s ≡ ok s' → Let s s'
  unfolding launch
  launch-Let h = record {
    indegree = ground arith;
    results = ground arith;
    satisfied = ground arith;
    skipped = ground arith;
    causes = ground arith;
    blockers = ground arith;
  }

  pub in_flight-launch :
      launch c n s ≡ ok s' → (s'.in_flight ≡ s.in_flight ++ n.id ∷ []) × (s'.awaiting ≡ s.awaiting)
  unfolding launch
  in_flight-launch h = (ground arith, ground arith)

  pub park_gate-Let : park_gate c n s ≡ ok s' → Let s s'
  unfolding park_gate
  park_gate-Let h = record {
    indegree = ground arith;
    results = ground arith;
    satisfied = ground arith;
    skipped = ground arith;
    causes = ground arith;
    blockers = ground arith;
  }

  pub awaiting-park_gate :
      has n.id s.awaiting ≡ false
      → park_gate c n s ≡ ok s'
      → (s'.awaiting ≡ n.id ∷ s.awaiting) × (s'.in_flight ≡ s.in_flight)
  unfolding park_gate
  awaiting-park_gate e h = (ground arith, ground arith)

-- A Node of the graph that is ready.
pub record IsReady (c : Context) (s : Scheduler) (n : Node) : Type 0 where
  pub known : by_id c.ordered n.id ≡ some n
  pub ready : is_ready s n ≡ true

module _ (c : Context) (n : Node) (s : Scheduler) (sound : IsSound c s) (r : IsReady c s n) where
  pub unresolved-zero : unresolved s n ≡ 0
  unfolding is_ready
  unresolved-zero = ground (arith, r.ready, r.known, sound.counted n.id n)

  pub unlaunched : launched s n.id ≡ false
  unfolding is_ready
  unlaunched = ground (arith, r.ready)

  pub nonterminal : is_terminal s n.id ≡ false
  unfolding is_ready is_terminal
  nonterminal = ground (arith, r.ready)

module _ (c : Context) (n : Node) (s s' : Scheduler) (sound : IsSound c s) (r : IsReady c s n)
    (k : Let s s') where
  resolved-let : (y : String) → resolved s' y ≡ resolved s y
  resolved-let y = ground (arith, k.results, k.skipped)

  pub unresolved-let : (m : Node) → unresolved s' m ≡ unresolved s m
  unresolved-let m = ap (λ p. pending p m.needs) (fun_ext resolved-let)

  past-let :
      ((y : String) → launched s' y ≡ (launched s y || y == n.id))
      → (i : String) (m : Node) → by_id c.ordered i ≡ some m
      → launched s' i ≡ true
      → unresolved s' m ≡ 0
  past-let l i m e h = elim (==_cases i n.id) [
    | inl (t, q) ↦
        let same : m ≡ n = cc (ap (by_id c.ordered) q, r.known) in
        unresolved-let m ∙ ap (unresolved s) same ∙ unresolved-zero c n s sound r
    | inr (t, q) ↦ ground (arith, l i, unresolved-let m, sound.let_past i m e)
  ]

  -- One more Node let past its needs, in flight or parked.
  pub Let-IsSound :
      ((y : String) → launched s' y ≡ (launched s y || y == n.id))
      → ((y : String) → has y s'.in_flight ≡ true → (has y s.in_flight || y == n.id) ≡ true)
      → length s'.in_flight ≤ c.concurrency
      → IsSound c s'
  unfolding is_terminal
  Let-IsSound l f b = record {
    fresh = ground (arith, k.satisfied, sound.fresh);
    counted = λ i m e. ground (arith, k.indegree, sound.counted i m e, unresolved-let m);
    let_past = λ i m e h. past-let l i m e h;
    apart = λ i h.
        ground (
          arith,
          f i,
          k.results,
          k.skipped,
          sound.apart i,
          eq_iff i n.id,
          nonterminal c n s sound r,
        );
    exclusive = λ i h. ground (arith, k.results, k.skipped, sound.exclusive i);
    causes = λ i. ground (arith, k.causes, k.skipped, sound.causes i);
    blockers = λ i. ground (arith, k.causes, k.blockers, sound.blockers i);
    bounded = b;
  }
