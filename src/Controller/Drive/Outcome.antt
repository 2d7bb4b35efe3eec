-- ===== src/Controller/Drive/Outcome.antt =====
-- controller.py: what a Run Group's result says of its iterations, and what group.json holds.
use cli_agentic_workflow.Prelude.{
  ℕ, zero, suc, ◌+◌, ◌≤◌, String, List, [], ◌∷◌, ◌++◌, Option, none, some, Bool, true, false, every,
  Dict, length, length-append, ltb, ◌≡◌, refl, subst, Result, ok, raised, ◌>>=◌, >>=-eq-ok, arith,
  Bool-cases, inl, inr, ap, map,
}
use cli_agentic_workflow.Value.{Value, Fields}
use cli_agentic_workflow.State.{StateStore}
use cli_agentic_workflow.Evaluate.{Output}
use cli_agentic_workflow.Executor.Outcome.{RunResult, run_succeeded, status}
use cli_agentic_workflow.Controller.Materialize.{ControllerError, feedback_substitution}
use cli_agentic_workflow.Controller.Group.{
  GroupStatus, IterationResult, GroupResult, World, Runner, evaluate_node_output, next_feedback,
  persist_group_state, GroupEntry, GroupState,
}
use cli_agentic_workflow.Controller.Drive.{
  Policy, Step, entry, run_iteration, iteration_verdict, drive_round, drive_loop, drive, run_group,
  finish,
}

-- The iterations are numbered in their order.
abbrev pub Numbered : ℕ → List IterationResult → Type 0
Numbered i [] = Unit
Numbered i (it ∷ iterations) = (it.iteration_index ≡ i) × Numbered (suc i) iterations

abbrev pub all_succeeded : List IterationResult → Bool
all_succeeded = every (λ it. it.succeeded)

-- Why a group stopped: at its cap, at an iteration that failed, or by a verdict on the output that
-- the last iteration's State holds.
pub data IsEnded (p : Policy) (dirs : Dict StateStore)
    : GroupStatus → List IterationResult → Type 0 where
  capped :
      (iterations : List IterationResult)
      → length iterations ≡ p.cap
      → all_succeeded iterations ≡ true
      → IsEnded p dirs p.cap_status iterations
  broken :
      (before : List IterationResult) (last : IterationResult)
      → all_succeeded before ≡ true
      → last.succeeded ≡ false
      → IsEnded p dirs GroupStatus.failed (before ++ last ∷ [])
  judged :
      (before : List IterationResult) (last : IterationResult) (output : Option Output)
      (status : GroupStatus)
      → all_succeeded before ≡ true
      → last.succeeded ≡ true
      → evaluate_node_output dirs last.run_id p.node ≡ ok output
      → p.judge output ≡ ok (some status)
      → IsEnded p dirs status (before ++ last ∷ [])

abbrev unpromoted : IterationResult → GroupEntry
unpromoted it = record { iteration = it; promoted = none }

-- group.json says a status and iterations, and names no winner.
abbrev pub HasRecord : World → GroupStatus → List IterationResult → Type 0
HasRecord w status iterations =
    (g : GroupState) × (w.group ≡ some g)
    × (g.status ≡ status)
    × (map (λ e. e.iteration) g.iterations ≡ iterations)
    × (g.winner ≡ none)

persist_group_state-HasRecord :
    (iterations : List IterationResult) (status : GroupStatus) (w : World)
    → HasRecord (persist_group_state iterations status w) status iterations
unfolding persist_group_state
persist_group_state-HasRecord iterations status w = (_, refl, refl, entries iterations, refl)
  where
    entries : (its : List IterationResult) → map (λ e. e.iteration) (map unpromoted its) ≡ its
    entries [] = refl
    entries (it ∷ its) = ap (λ l. it ∷ l) (entries its)

pub record IsOutcome (p : Policy) (result : GroupResult) (w : World) : Type 0 where
  pub ended : IsEnded p w.dirs result.status result.iterations
  pub numbered : Numbered 0 result.iterations
  pub bounded : length result.iterations ≤ p.cap
  -- group.json agrees with the result.
  pub persisted : HasRecord w result.status result.iterations
  pub no_winner : result.winner ≡ none

abbrev pub Leads : (GroupResult × World → Type 0) → Step → Type 0
Leads P (ok x) = P x
Leads P (raised e) = Unit

pub Leads-bind {κ} :
    {A : Type κ} (P : GroupResult × World → Type 0) (m : Result ControllerError A) (f : A → Step)
    → ((a : A) → m ≡ ok a → Leads P (f a))
    → Leads P (m >>= f)
Leads-bind P (ok a) f h = h a refl
Leads-bind P (raised e) f h = tt

pub Leads-map :
    (P Q : GroupResult × World → Type 0)
    → ((x : GroupResult × World) → P x → Q x)
    → (m : Step) → Leads P m
    → Leads Q m
Leads-map P Q f (ok x) h = f x h
Leads-map P Q f (raised e) h = tt

Numbered-append :
    (i : ℕ) (its : List IterationResult) (it : IterationResult)
    → Numbered i its
    → it.iteration_index ≡ i + length its
    → Numbered i (its ++ it ∷ [])
Numbered-append i [] it h e = (omega (arith, e), tt)
Numbered-append i (x ∷ its) it h e = (h.0, Numbered-append (suc i) its it h.1 (omega (arith, e)))

pub all_succeeded-append :
    (its : List IterationResult) (it : IterationResult)
    → all_succeeded its ≡ true
    → it.succeeded ≡ true
    → all_succeeded (its ++ it ∷ []) ≡ true
all_succeeded-append [] it h e = ground arith
all_succeeded-append (x ∷ its) it h e = ground (arith, all_succeeded-append its it)

module _ (r : Runner) (group_id : String) (p : Policy) (base : Fields) where
  abbrev Good : GroupResult × World → Type 0
  Good x = IsOutcome p x.0 x.1

  verdict_none :
      (result : RunResult) (dirs : Dict StateStore)
      → iteration_verdict r group_id p base result dirs ≡ ok none
      → run_succeeded result ≡ true
  unfolding iteration_verdict
  verdict_none result dirs h = ground arith

  IsEnded-at :
      (before : List IterationResult) (index : ℕ) (result : RunResult) (dirs : Dict StateStore)
      (status : GroupStatus)
      → all_succeeded before ≡ true
      → iteration_verdict r group_id p base result dirs ≡ ok (some status)
      → IsEnded p dirs status (before ++ entry index result ∷ [])
  unfolding iteration_verdict
  IsEnded-at before index result dirs status a h = elim (Bool-cases (run_succeeded result)) [
    | inl e ↦
        let (o, f, g) =
          >>=-eq-ok (evaluate_node_output dirs result.run_id p.node) p.judge (ground arith) in
        IsEnded.judged before (entry index result) o status a e f g
    | inr e ↦
        let same : GroupStatus.failed ≡ status = ground arith in
        subst (λ t. IsEnded p dirs t (before ++ entry index result ∷ [])) same
          (IsEnded.broken before (entry index result) a e)
  ]

  stopped :
      (completed : List IterationResult) (w : World)
      → Numbered 0 completed
      → all_succeeded completed ≡ true
      → length completed ≡ p.cap
      → Leads Good (finish completed p.cap_status w)
  unfolding persist_group_state
  stopped completed w n a e = record {
    ended = IsEnded.capped completed e a;
    numbered = n;
    bounded = omega (arith, e);
    persisted = persist_group_state-HasRecord completed p.cap_status w;
    no_winner = refl;
  }

  drive_loop-IsOutcome :
      (fuel : ℕ) (completed : List IterationResult) (feedback : Option Value) (w : World)
      → Numbered 0 completed
      → all_succeeded completed ≡ true
      → length completed ≤ p.cap
      → Leads Good (drive_loop r group_id p base fuel completed feedback w)
  unfolding drive_loop drive_round persist_group_state
  drive_loop-IsOutcome zero completed feedback w n a b =
      elim (Bool-cases (ltb (length completed) p.cap)) [
        | inl e ↦ rw (e, drive_loop) tt
        | inr e ↦ rw (e, drive_loop) (stopped completed w n a (ground arith))
      ]
  drive_loop-IsOutcome (suc fuel) completed feedback w n a b =
      elim (Bool-cases (ltb (length completed) p.cap)) [
        | inr e ↦ rw (e, drive_loop) (stopped completed w n a (ground arith))
        | inl e ↦
            rw (e, drive_loop)
              (Leads-bind Good
                (run_iteration r group_id p.node base (feedback_substitution p.feedback feedback)
                  (length completed) w.dirs)
                _
                λ ran _.
                  let it = entry (length completed) ran.0 in
                  let more : length (completed ++ it ∷ []) ≤ p.cap =
                    ground (arith, length-append completed (it ∷ [])) in
                  Leads-bind Good (iteration_verdict r group_id p base ran.0 ran.1) _ (elim [
                    | some status ↦ λ v. record {
                      ended = IsEnded-at completed (length completed) ran.0 ran.1 status a v;
                      numbered = Numbered-append 0 completed it n (omega arith);
                      bounded = more;
                      persisted =
                          persist_group_state-HasRecord (completed ++ it ∷ []) status
                            (record w { dirs = ran.1 });
                      no_winner = refl;
                    }
                    | none ↦ λ v.
                        Leads-bind Good (next_feedback p.feedback p.node ran.1 ran.0.run_id) _
                          λ f _.
                            drive_loop-IsOutcome fuel (completed ++ it ∷ []) f _
                              (Numbered-append 0 completed it n (omega arith))
                              (all_succeeded-append completed it a (verdict_none ran.0 ran.1 v))
                              more
                  ]))
      ]

-- A Run Group that loop-until-done or adversarial verification runs to its end has at most as many
-- iterations as its cap, numbered in order, of which all but the last succeeded, and group.json
-- agrees with the result. It stopped at the cap, with all of them succeeded, or at a last one that
-- failed, or by the verdict of its judge on the output that the last one's State holds.
pub run_group-IsOutcome :
    (r : Runner) (group_id : String) (p : Policy) (base : Fields) (w w' : World)
    (result : GroupResult)
    → run_group r group_id p base w ≡ ok (result, w')
    → IsOutcome p result w'
unfolding run_group drive
run_group-IsOutcome r group_id p base w w' result e =
    subst (Leads (Good r group_id p base)) e
      (drive_loop-IsOutcome r group_id p base p.cap [] none w tt refl (omega arith))
