-- ===== src/Executor/Sound/Launch.antt =====
-- executor.py: launching, skipping and parking the ready Nodes keep the invariant.
use cli_agentic_workflow.Prelude.{
  ◌<◌, String, List, [], ◌∷◌, none, true, false, ◌||◌, ◌==◌, has, length, length-append, has-concat,
  All, ◌≡◌, refl, ap, ok, raised, Result, arith, eq_iff, inl, inr, Bool-cases, ◌>>=◌, leb,
}
use cli_agentic_workflow.Model.Node.{Node, ids, is_gate}
use cli_agentic_workflow.Model.Order.Degrees.{IsDistinct}
use cli_agentic_workflow.Executor.Scheduler.{Context, Scheduler, Error, is_ready}
use cli_agentic_workflow.Executor.Skips.{skip_with_cause}
use cli_agentic_workflow.Executor.Launch.{gate_open, park_gate, launch, visit, Visit}
use cli_agentic_workflow.State.{SkipCause}
use cli_agentic_workflow.Executor.Sound.{IsSound, Ensures-ok, launched}
use cli_agentic_workflow.Executor.Sound.Skips.{skip_with_cause-IsSound}
use cli_agentic_workflow.Executor.Sound.Let.{
  launch-Let, unlaunched, Let-IsSound, IsReady, Let, in_flight-launch, park_gate-Let,
  awaiting-park_gate,
}

module _ (c : Context) (n : Node) (s s' : Scheduler) (sound : IsSound c s) (r : IsReady c s n) where
  launched-launch :
      launch c n s ≡ ok s' → (y : String) → launched s' y ≡ (launched s y || y == n.id)
  launched-launch h y =
      let k = launch-Let c n s s' h in
      let (f, a) = in_flight-launch c n s s' h in
      ground (arith, k.results, f, a, has-concat y n.id s.in_flight)

  launch-IsSound : length s.in_flight < c.concurrency → launch c n s ≡ ok s' → IsSound c s'
  launch-IsSound room h =
      let (f, a) = in_flight-launch c n s s' h in
      Let-IsSound c n s s' sound r (launch-Let c n s s' h) (launched-launch h)
        (λ y m. ground (arith, f, has-concat y n.id s.in_flight))
        (omega (arith, length-append {0} s.in_flight (n.id ∷ []), ap length f))

  launched-park :
      park_gate c n s ≡ ok s' → (y : String) → launched s' y ≡ (launched s y || y == n.id)
  launched-park h y =
      let k = park_gate-Let c n s s' h in
      let (a, f) = awaiting-park_gate c n s s' (awaiting-open) h in ground (arith, k.results, f, a)
    where
      awaiting-open : has n.id s.awaiting ≡ false
      awaiting-open = ground (arith, unlaunched c n s sound r)

  park-IsSound : park_gate c n s ≡ ok s' → IsSound c s'
  park-IsSound h =
      let (a, f) = awaiting-park_gate c n s s' (awaiting-open) h in
      Let-IsSound c n s s' sound r (park_gate-Let c n s s' h) (launched-park h)
        (λ y m. ground (arith, f)) (omega (arith, ap length f, sound.bounded))
    where
      awaiting-open : has n.id s.awaiting ≡ false
      awaiting-open = ground (arith, unlaunched c n s sound r)

  -- The other ready Nodes stay ready.
  IsReady-Let :
      Let s s'
      → ((y : String) → launched s' y ≡ (launched s y || y == n.id))
      → (m : Node) → (m.id == n.id) ≡ false
      → IsReady c s m
      → IsReady c s' m
  unfolding is_ready
  IsReady-Let k l m e q = record {
    known = q.known;
    ready = ground (arith, l m.id, k.indegree, k.satisfied, k.skipped, k.results, q.ready);
  }

-- The rest of a pass: Nodes of the graph that are ready, with distinct ids.
abbrev pub Rest : Context → Scheduler → List Node → Type 0
Rest c s nodes = All (IsReady c s) nodes × IsDistinct nodes

pub absent_ne :
    (x : String) (nodes : List Node)
    → has x (ids nodes) ≡ false
    → All (λ m. (m.id == x) ≡ false) nodes
absent_ne x [] h = tt
absent_ne x (m ∷ nodes) h =
    (ground (arith, eq_iff x m.id, eq_iff m.id x), absent_ne x nodes (ground arith))

pub All-both {κ μ ν} :
    {P : Node → Type κ} {Q : Node → Type μ} {R : Node → Type ν} (f : (m : Node) → P m → Q m → R m)
    (nodes : List Node)
    → All P nodes
    → All Q nodes
    → All R nodes
All-both f [] p q = tt
All-both f (m ∷ nodes) p q = (f m p.0 q.0, All-both f nodes p.1 q.1)

module _ (c : Context) (n : Node) (nodes : List Node) (s s' : Scheduler) where
  Rest-Let :
      Rest c s (n ∷ nodes)
      → IsSound c s
      → Let s s'
      → ((y : String) → launched s' y ≡ (launched s y || y == n.id))
      → Rest c s' nodes
  Rest-Let (rs, d) sound k l = (
    All-both (λ m e q. IsReady-Let c n s s' sound rs.0 k l m e q) nodes (absent_ne n.id nodes d.0)
        rs.1,
    d.1,
  )

abbrev pub VisitEnsures : Context → List Node → Result Error Visit → Type 0
VisitEnsures c nodes (ok (Visit.onward p s')) = IsSound c s' × Rest c s' nodes
VisitEnsures c nodes (ok (Visit.stop p s')) = IsSound c s'
VisitEnsures c nodes (raised e) = Unit

VisitEnsures-bind {κ} :
    {A : Type κ} (c : Context) (nodes : List Node) (m : Result Error A) (f : A → Result Error Visit)
    → ((a : A) → m ≡ ok a → VisitEnsures c nodes (f a))
    → VisitEnsures c nodes (m >>= f)
VisitEnsures-bind c nodes (ok a) f h = h a refl
VisitEnsures-bind c nodes (raised e) f h = tt

module _ (c : Context) (distinct : IsDistinct c.ordered) (n : Node) (nodes : List Node)
    (s : Scheduler) (sound : IsSound c s) (rest : Rest c s (n ∷ nodes)) where
  skip-visit :
      VisitEnsures c nodes
        (skip_with_cause c n.id SkipCause.when_false none s >>= λ s'. ok (Visit.stop true s'))
  skip-visit =
      VisitEnsures-bind c nodes (skip_with_cause c n.id SkipCause.when_false none s) _ λ s' h.
        Ensures-ok (IsSound c) _ s' h (
          skip_with_cause-IsSound c distinct n.id SkipCause.when_false none s sound
            (unlaunched c n s sound rest.0.0))

  launch-visit :
      length s.in_flight < c.concurrency
      → VisitEnsures c nodes (launch c n s >>= λ s'. ok (Visit.onward true s'))
  launch-visit room = VisitEnsures-bind c nodes (launch c n s) _ λ s' h. (
    launch-IsSound c n s s' sound rest.0.0 room h,
    Rest-Let c n nodes s s' rest sound (launch-Let c n s s' h)
        (launched-launch c n s s' sound rest.0.0 h),
  )

  park-visit : VisitEnsures c nodes (park_gate c n s >>= λ s'. ok (Visit.onward true s'))
  park-visit = VisitEnsures-bind c nodes (park_gate c n s) _ λ s' h. (
    park-IsSound c n s s' sound rest.0.0 h,
    Rest-Let c n nodes s s' rest sound (park_gate-Let c n s s' h)
        (launched-park c n s s' sound rest.0.0 h),
  )

  pub visit-ensures : VisitEnsures c nodes (visit c n s)
  unfolding visit
  visit-ensures = elim (Bool-cases (is_gate n)) [
    | inl g ↦ rw g (
        VisitEnsures-bind c nodes (gate_open c s n) _
          (elim [ true ↦ λ _. park-visit | false ↦ λ _. skip-visit ]))
    | inr g ↦ rw g (elim (Bool-cases (leb c.concurrency (length s.in_flight))) [
      | inl f ↦ rw f sound
      | inr f ↦ rw f (
          VisitEnsures-bind c nodes (gate_open c s n) _
            (elim [ true ↦ λ _. launch-visit (ground arith) | false ↦ λ _. skip-visit ]))
    ])
  ]
