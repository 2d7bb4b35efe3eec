-- ===== src/Executor/Sound/Rounds.antt =====
-- executor.py: the invariant of a fresh Run, from its start through every schedule.
use cli_agentic_workflow.Prelude.{
  suc, ◌≤◌, String, List, [], ◌∷◌, Option, some, none, true, false, not, ◌&&◌, ◌==◌, has, length,
  get, pos, ◌≡◌, refl, ◌∙◌, sym, ap, ok, raised, Result, arith, eq_iff, ==_cases, inl, inr,
  Bool-cases, Option-cases, ◌>>=◌,
}
use cli_agentic_workflow.Model.Node.{Node}
use cli_agentic_workflow.Model.Order.{by_id}
use cli_agentic_workflow.Model.Order.Degrees.{IsDistinct, pending}
use cli_agentic_workflow.State.{StateStore}
use cli_agentic_workflow.Executor.Outcome.{NodeResult}
use cli_agentic_workflow.Executor.Scheduler.{
  Context, Scheduler, Error, Event, is_terminal, init, needs_counts,
}
use cli_agentic_workflow.Executor.Launch.{launch_ready}
use cli_agentic_workflow.Executor.Loop.{
  Done, remove, pop_task, handle_finished, handle_batch, launch_or_raise, round, rounds, run,
}
use cli_agentic_workflow.Executor.Sound.{IsSound, Ensures, Ensures-ok, launched}
use cli_agentic_workflow.Executor.Sound.Passes.{launch_ready-IsSound}
use cli_agentic_workflow.Executor.Sound.Attempts.{Finished, handle_result-IsSound}

has-remove : (y id : String) (xs : List String) → has y (remove id xs) ≡ (has y xs && not (y == id))
has-remove y id [] = refl
has-remove y id (x ∷ xs) = ground (arith, has-remove y id xs, eq_iff y x, eq_iff x id, eq_iff y id)

length-remove : (id : String) (xs : List String) → length (remove id xs) ≤ length xs
length-remove id [] = omega arith
length-remove id (x ∷ xs) = ground (arith, length-remove id xs)

pub by_id-id : (nodes : List Node) (id : String) (n : Node) → by_id nodes id ≡ some n → n.id ≡ id
unfolding by_id
by_id-id [] id n e = absurd (ground arith)
by_id-id (m ∷ nodes) id n e = elim (==_cases m.id id) [
  | inl (t, q) ↦ ground (arith)
  | inr (t, q) ↦ by_id-id nodes id n (ground arith)
]

module _ (c : Context) (id : String) (s : Scheduler) (sound : IsSound c s) where
  launched-pop : (y : String) → launched (pop_task c id s) y ≡ true → launched s y ≡ true
  launched-pop y h = ground (arith, has-remove y id s.in_flight)

  pop-IsSound : IsSound c (pop_task c id s)
  unfolding is_terminal
  pop-IsSound = record {
    fresh = sound.fresh;
    counted = sound.counted;
    let_past = λ i m k h. sound.let_past i m k (launched-pop i h);
    apart = λ i h. ground (arith, has-remove i id s.in_flight, sound.apart i);
    exclusive = sound.exclusive;
    causes = sound.causes;
    blockers = sound.blockers;
    bounded = omega (arith, length-remove id s.in_flight, sound.bounded);
  }

  pop-Finished :
      (n : Node)
      → has id s.in_flight ≡ true
      → by_id c.ordered id ≡ some n
      → Finished c (pop_task c id s) n
  unfolding is_terminal
  pop-Finished n h k =
      let q = by_id-id c.ordered id n k in
      record {
        known = ground (arith, q, k);
        past = sound.let_past id n k (ground arith);
        nonterminal = ground (arith, q, sound.apart id);
        landed = ground (arith, q, has-remove n.id id s.in_flight, eq_iff n.id id);
      }

module _ (c : Context) (distinct : IsDistinct c.ordered) where
  finished-IsSound :
      (r : NodeResult) (s : Scheduler) → IsSound c s → Ensures (IsSound c) (handle_finished c r s)
  unfolding handle_finished
  finished-IsSound r s sound = elim (Bool-cases (has r.node_id s.in_flight)) [
    | inl h ↦ rw h (elim (Option-cases (by_id c.ordered r.node_id)) [
      | inl e ↦ rw (e, handle_finished) tt
      | inr (n, e) ↦
          rw (e, handle_finished)
            (handle_result-IsSound c distinct n r (pop_task c r.node_id s)
              (pop-IsSound c r.node_id s sound) (pop-Finished c r.node_id s sound n h e)
              (sym (by_id-id c.ordered r.node_id n e)))
    ])
    | inr h ↦ rw h tt
  ]

  abbrev BatchEnsures : Result Error (Option String × Scheduler) → Type 0
  BatchEnsures (ok (crash, s)) = IsSound c s
  BatchEnsures (raised e) = Unit

  batch_bind :
      (m : Result Error Scheduler) (f : Scheduler → Result Error (Option String × Scheduler))
      → Ensures (IsSound c) m
      → ((s : Scheduler) → IsSound c s → BatchEnsures (f s))
      → BatchEnsures (m >>= f)
  batch_bind (ok s) f e h = h s e
  batch_bind (raised e) f _ h = tt

  batch-IsSound :
      (crash : Option String) (batch : List Done) (s : Scheduler)
      → IsSound c s
      → BatchEnsures (handle_batch c crash batch s)
  unfolding handle_batch
  batch-IsSound crash [] s sound = sound
  batch-IsSound crash (Done.crashed id error ∷ batch) s sound = batch-IsSound _ batch s sound
  batch-IsSound crash (Done.finished r ∷ batch) s sound =
      batch_bind (handle_finished c r s) (handle_batch c crash batch) (finished-IsSound r s sound)
        (batch-IsSound crash batch)

  launch_or_raise-IsSound :
      (m : Result Error (Option String × Scheduler))
      → BatchEnsures m
      → Ensures (IsSound c) (m >>= launch_or_raise c)
  launch_or_raise-IsSound (ok (none, s)) sound = launch_ready-IsSound c distinct s sound
  launch_or_raise-IsSound (ok (some error, s)) sound = tt
  launch_or_raise-IsSound (raised e) sound = tt

  bind-IsSound :
      (m : Result Error Scheduler) (f : Scheduler → Result Error Scheduler)
      → Ensures (IsSound c) m
      → ((s : Scheduler) → IsSound c s → Ensures (IsSound c) (f s))
      → Ensures (IsSound c) (m >>= f)
  bind-IsSound (ok s) f e h = h s e
  bind-IsSound (raised e) f _ h = tt

  rounds-IsSound :
      (batches : List (List Done)) (s : Scheduler)
      → IsSound c s
      → Ensures (IsSound c) (rounds c batches s)
  unfolding rounds round
  rounds-IsSound [] s sound = sound
  rounds-IsSound (batch ∷ batches) s sound =
      bind-IsSound (round c batch s) (rounds c batches)
        (launch_or_raise-IsSound (handle_batch c none batch s) (batch-IsSound none batch s sound))
        (rounds-IsSound batches)

  run-IsSound :
      (batches : List (List Done)) (s : Scheduler)
      → IsSound c s
      → Ensures (IsSound c) (run c batches s)
  unfolding run
  run-IsSound batches s sound =
      bind-IsSound (launch_ready c s) (rounds c batches) (launch_ready-IsSound c distinct s sound)
        (rounds-IsSound batches)

counted_needs :
    (nodes : List Node) (id : String) (n : Node)
    → by_id nodes id ≡ some n
    → get id (needs_counts nodes) ≡ some (pos (length n.needs))
unfolding by_id
counted_needs [] id n e = absurd (ground arith)
counted_needs (m ∷ nodes) id n e = elim (==_cases m.id id) [
  | inl (t, q) ↦ ground arith
  | inr (t, q) ↦ ground (arith, counted_needs nodes id n)
]

pending_none : (needs : List String) → pending (λ x. false) needs ≡ length needs
pending_none [] = refl
pending_none (r ∷ needs) = ap suc (pending_none needs)

-- The scheduler of a fresh Run, before its first launch.
abbrev pub fresh : Context → StateStore → List Event → Scheduler
fresh c db events = init c db events [] [] [] []

fresh-IsSound :
    (c : Context) (db : StateStore) (events : List Event) → IsSound c (fresh c db events)
unfolding init is_terminal
fresh-IsSound c db events = record {
  fresh = refl;
  counted =
      λ i n e. counted_needs c.ordered i n e ∙ ap (λ u. some (pos u)) (sym (pending_none n.needs));
  let_past = λ i n e h. absurd (ground arith);
  apart = λ i h. absurd (ground arith);
  exclusive = λ i h. refl;
  causes = λ i. refl;
  blockers = λ i. refl;
  bounded = omega arith;
}

-- Every state that a fresh Run reaches, under any schedule, has the invariant.
pub reached-IsSound :
    (c : Context) (db : StateStore) (events : List Event) (batches : List (List Done))
    (s : Scheduler)
    → IsDistinct c.ordered
    → run c batches (fresh c db events) ≡ ok s
    → IsSound c s
reached-IsSound c db events batches s distinct e =
    Ensures-ok (IsSound c) (run c batches (fresh c db events)) s e
      (run-IsSound c distinct batches (fresh c db events) (fresh-IsSound c db events))
