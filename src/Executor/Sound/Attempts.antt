-- ===== src/Executor/Sound/Attempts.antt =====
-- executor.py: a finished Attempt keeps the invariant.
use cli_agentic_workflow.Prelude.{
  ℕ, ◌+◌, String, List, [], ◌∷◌, ◌++◌, some, true, false, ◌&&◌, ◌||◌, ◌==◌, has, map, get, pos, ◌≡◌,
  ◌∙◌, sym, ap, subst, fun_ext, if◌then◌else◌, ok, arith, eq_iff, ==_cases, inl, inr, Bool-cases,
  Option-cases,
}
use cli_agentic_workflow.State.{StateStore}
use cli_agentic_workflow.Model.Node.{Node}
use cli_agentic_workflow.Model.Order.{by_id, dependents, count}
use cli_agentic_workflow.Model.Order.Degrees.{
  IsDistinct, pending, pending-resolve, get-decrement_all, count-dependents, minus_pos,
}
use cli_agentic_workflow.Executor.Outcome.{NodeResult, succeeded, retryable}
use cli_agentic_workflow.Executor.Scheduler.{
  Context, Scheduler, Event, is_terminal, release_dependents,
}
use cli_agentic_workflow.Executor.Attempts.{
  record_attempt_of, finish_node, add_result, on_succeeded, on_retry, on_failed, handle_result,
  retries_remaining,
}
use cli_agentic_workflow.Executor.Sound.{
  IsSound, Ensures, Ensures-bind, resolved, launched, unresolved, succeeded_in,
}
use cli_agentic_workflow.Executor.Sound.Skip.{unresolved_of_open}
use cli_agentic_workflow.Executor.Sound.Skips.{skip_failed-IsSound}

-- State, the Events and the Attempt numbers are none of the invariant's fields.
pub record-IsSound :
    (c : Context) (s : Scheduler) (db : StateStore) (events : List Event)
    (attempt : List (String × ℕ))
    → IsSound c s
    → IsSound c (record s { state = db; events = events; attempt = attempt })
unfolding is_terminal
record-IsSound c s db events attempt sound = record {
  fresh = sound.fresh;
  counted = sound.counted;
  let_past = sound.let_past;
  apart = sound.apart;
  exclusive = sound.exclusive;
  causes = sound.causes;
  blockers = sound.blockers;
  bounded = sound.bounded;
}

succeeded_in-concat :
    (y : String) (rs : List NodeResult) (r : NodeResult)
    → succeeded_in y (rs ++ r ∷ []) ≡ (succeeded_in y rs || y == r.node_id && succeeded r)
succeeded_in-concat y [] r = ground arith
succeeded_in-concat y (q ∷ rs) r = ground (arith, succeeded_in-concat y rs r)

has-result :
    (y : String) (rs : List NodeResult) (r : NodeResult)
    → has y (map (λ q. q.node_id) (rs ++ r ∷ []))
      ≡ (has y (map (λ q. q.node_id) rs) || y == r.node_id)
has-result y [] r = ground arith
has-result y (q ∷ rs) r = ground (arith, has-result y rs r)

-- A Node whose Attempt finished and whose needs were all resolved.
pub record Finished (c : Context) (s : Scheduler) (n : Node) : Type 0 where
  pub known : by_id c.ordered n.id ≡ some n
  pub past : unresolved s n ≡ 0
  pub nonterminal : is_terminal s n.id ≡ false
  pub landed : has n.id s.in_flight ≡ false

module _ (c : Context) (distinct : IsDistinct c.ordered) (n : Node) (r : NodeResult) (s : Scheduler)
    (sound : IsSound c s) (f : Finished c s n) (own : r.node_id ≡ n.id) where
  resolved-failed : succeeded r ≡ false → (y : String) → resolved (add_result r s) y ≡ resolved s y
  resolved-failed e y = ground (arith, succeeded_in-concat y s.results r)

  launched-add : (y : String) → launched (add_result r s) y ≡ (launched s y || y == n.id)
  launched-add y = ground (arith, has-result y s.results r, own)

  unresolved-failed :
      succeeded r ≡ false → (m : Node) → unresolved (add_result r s) m ≡ unresolved s m
  unresolved-failed e m = ap (λ p. pending p m.needs) (fun_ext (resolved-failed e))

  past-add :
      (i : String) (m : Node)
      → by_id c.ordered i ≡ some m
      → launched (add_result r s) i ≡ true
      → unresolved s m ≡ 0
  past-add i m k h = elim (==_cases i n.id) [
    | inl (t, q) ↦
        let same : m ≡ n = cc (ap (by_id c.ordered) q, f.known) in ap (unresolved s) same ∙ f.past
    | inr (t, q) ↦ ground (arith, launched-add i, sound.let_past i m k)
  ]

  failed-IsSound : succeeded r ≡ false → IsSound c (add_result r s)
  unfolding is_terminal
  failed-IsSound e = record {
    fresh = sound.fresh;
    counted = λ i m k. sound.counted i m k ∙ ap (λ u. some (pos u)) (sym (unresolved-failed e m));
    let_past = λ i m k h. unresolved-failed e m ∙ past-add i m k h;
    apart = λ i h.
        ground (arith, sound.apart i, has-result i s.results r, own, eq_iff i n.id, f.landed);
    exclusive = λ i h.
        ground
          (arith, sound.exclusive i, has-result i s.results r, own, eq_iff i n.id, f.nonterminal);
    causes = sound.causes;
    blockers = sound.blockers;
    bounded = sound.bounded;
  }

  -- A success resolves its Node, and takes it off the in-degrees of its dependents.
  resolved-success :
      succeeded r ≡ true → (y : String) → resolved (add_result r s) y ≡ (resolved s y || n.id == y)
  resolved-success e y =
      ground (arith, succeeded_in-concat y s.results r, own, eq_iff y n.id, eq_iff n.id y)

  unresolved-success :
      succeeded r ≡ true
      → (m : Node) → unresolved s m ≡ count n.id m.needs + unresolved (add_result r s) m
  unresolved-success e m =
      pending-resolve (resolved s) (resolved (add_result r s)) n.id
        (unresolved_of_open s n.id f.nonterminal) (resolved-success e) m.needs

  counted-success :
      succeeded r ≡ true
      → (i : String) (m : Node) → by_id c.ordered i ≡ some m
      → get i (release_dependents c n.id (add_result r s)).indegree
        ≡ some (pos (unresolved (add_result r s) m))
  unfolding release_dependents
  counted-success e i m k = ground (
    arith,
    get-decrement_all i (dependents c.ordered n.id) s.indegree,
    count-dependents c.ordered i n.id m distinct k,
    sound.counted i m k,
    unresolved-success e m,
    minus_pos (count n.id m.needs) (unresolved s m),
  )

  success-IsSound : succeeded r ≡ true → IsSound c (release_dependents c n.id (add_result r s))
  unfolding is_terminal release_dependents
  success-IsSound e = record {
    fresh = sound.fresh;
    counted = counted-success e;
    let_past = λ i m k h. ground (arith, unresolved-success e m, past-add i m k h);
    apart = λ i h.
        ground (arith, sound.apart i, has-result i s.results r, own, eq_iff i n.id, f.landed);
    exclusive = λ i h.
        ground
          (arith, sound.exclusive i, has-result i s.results r, own, eq_iff i n.id, f.nonterminal);
    causes = sound.causes;
    blockers = sound.blockers;
    bounded = sound.bounded;
  }

module _ (c : Context) (n : Node) (s : Scheduler) (db : StateStore) (events : List Event)
    (attempt : List (String × ℕ)) where
  record-Finished :
      Finished c s n → Finished c (record s { state = db; events = events; attempt = attempt }) n
  unfolding is_terminal
  record-Finished f = record {
    known = f.known;
    past = f.past;
    nonterminal = f.nonterminal;
    landed = f.landed;
  }

record_attempt_of_fields :
    (c : Context) (id : String) (k : ℕ) (r : NodeResult) (s s' : Scheduler)
    → record_attempt_of c id k r s ≡ ok s'
    → s' ≡ record s { state = s'.state; events = s'.events; attempt = s.attempt }
unfolding record_attempt_of
record_attempt_of_fields c id k r s s' h = ground arith

module _ (c : Context) (distinct : IsDistinct c.ordered) (n : Node) where
  ends :
      (k : ℕ) (r : NodeResult) (s : Scheduler)
      → IsSound c s
      → Finished c s n
      → r.node_id ≡ n.id
      → Ensures (IsSound c) (
          if succeeded r
          then on_succeeded c n r s
          else if retryable r && retries_remaining c n k
          then on_retry c n k r s
          else on_failed c n r s)
  unfolding on_succeeded on_retry on_failed
  ends k r s sound f own =
      let db = (finish_node c n.id r s).state in
      let sound' = record-IsSound c s db s.events s.attempt sound in
      let f' = record-Finished c n s db s.events s.attempt f in
      elim (Bool-cases (succeeded r)) [
        | inl e ↦ rw e (success-IsSound c distinct n r (finish_node c n.id r s) sound' f' own e)
        | inr e ↦ rw e (elim (Bool-cases (retryable r && retries_remaining c n k)) [
          | inl t ↦ rw t (record-IsSound c s s.state _ _ sound)
          | inr t ↦ rw t (
              skip_failed-IsSound c distinct n.id _
                (failed-IsSound c distinct n r (finish_node c n.id r s) sound' f' own e)
                (resolved-failed c distinct n r (finish_node c n.id r s) sound' f' own e n.id
                  ∙ unresolved_of_open (finish_node c n.id r s) n.id f'.nonterminal))
        ])
      ]

  pub handle_result-IsSound :
      (r : NodeResult) (s : Scheduler)
      → IsSound c s
      → Finished c s n
      → r.node_id ≡ n.id
      → Ensures (IsSound c) (handle_result c n r s)
  unfolding handle_result
  handle_result-IsSound r s sound f own = elim (Option-cases (get n.id s.attempt)) [
    | inl e ↦ rw (e, handle_result) tt
    | inr (k, e) ↦
        rw (e, handle_result)
          (Ensures-bind (IsSound c) (record_attempt_of c n.id k r s) _ λ s' h.
            let q = record_attempt_of_fields c n.id k r s s' h in
            ends k (record r { attempt = k }) s'
              (subst (IsSound c) (sym q) (record-IsSound c s s'.state s'.events s.attempt sound))
              (subst (λ t. Finished c t n) (sym q)
                (record-Finished c n s s'.state s'.events s.attempt f))
              own)
  ]
