-- ===== src/AgentRuntime/Balance.antt =====
-- The gauge of active tasks.
use model_fleet_operator.Prelude.{
  ℕ, ◌+◌, String, ◌≡◌, refl, Bool, true, false, Option, none, some, List, [], ◌∷◌, ◌++◌, arith,
  ◌==◌, if◌then◌else◌,
}
use model_fleet_operator.Python.Value.{Value, Fields}
use model_fleet_operator.Python.Library.{Library}
use model_fleet_operator.Tracing.{Tracer, trace, log, status_of}
use model_fleet_operator.Kube.{
  State, Action, Metric, ◌>>=◌, lift, attempt, finally, count_metric, active, latency,
}
use model_fleet_operator.Kube.Moves as Moves
use model_fleet_operator.Kube.Moves.{Order, Moves}
use model_fleet_operator.AgentRuntime.{
  Agent, Handlers, RpcTask, process, run_skill, run_handler, handler_failed, handler_of, skill_of,
}

-- Whether a metric is a step of the gauge in the given direction.
abbrev steps : Bool → Metric → ℕ
steps true (active agent true) = 1
steps false (active agent false) = 1
steps up m = 0

abbrev total : Bool → List Metric → ℕ
total up [] = 0
total up (m ∷ ms) = steps up m + total up ms

total-append : (up : Bool) (xs ys : List Metric) → total up (xs ++ ys) ≡ total up xs + total up ys
total-append up [] ys = omega arith
total-append up (x ∷ xs) ys = ground (arith, total-append up xs ys)

-- As many tasks are begun as are ended between two states.
pub record Balanced (s t : State) : Type 0 where
  pub level :
      total true t.metrics + total false s.metrics ≡ total true s.metrics + total false t.metrics

pub Balanced-trans : {s t u : State} → Balanced s t → Balanced t u → Balanced s u
Balanced-trans {s} {t} {u} a b =
    let p = a.level in let q = b.level in record { level = omega arith }

abbrev pub balanced : Order
balanced = record { Step = Balanced; stay = λ s. record { level = refl }; then_ = Balanced-trans }

-- A metric that is no step of the gauge.
other_metric : (m : Metric) → steps true m ≡ 0 → steps false m ≡ 0 → Moves balanced (count_metric m)
unfolding count_metric
other_metric m up down = record {
  from = λ s.
      let a = total-append true s.metrics (m ∷ []) in
      let b = total-append false s.metrics (m ∷ []) in record { level = omega arith };
}

pub trace-Moves :
    {A : Type 0} (o : Order) (tracer : Tracer) (task_id agent skill : String) (m : Action A)
    → ((status : String) → Moves o (tracer.mlflow task_id agent skill status))
    → Moves o m
    → Moves o (trace tracer task_id agent skill m)
unfolding trace log
trace-Moves o tracer task_id agent skill m telemetry h =
    Moves.bind o _ _ (Moves.attempt o m h) λ outcome.
      Moves.bind o _ _
        (Moves.branch o _ _ _
          (λ _. Moves.try o _ _ (telemetry (status_of outcome)) (λ e. Moves.pure o tt))
          (λ _. Moves.pure o tt))
        (λ _. Moves.lift o outcome)

-- A step of the gauge up, and one down after what runs in between.
enclosed :
    {A : Type 0} (agent skill : String) (m : Action A)
    → Moves balanced m
    → Moves balanced (
        count_metric (active agent true) >>= λ _.
        finally m (count_metric (active agent false) >>= λ _. count_metric (latency agent skill)))
unfolding count_metric finally attempt ◌>>=◌ lift
enclosed agent skill m h = record {
  from = λ s.
      let s1 = record s { metrics = s.metrics ++ active agent true ∷ [] } in
      let s2 = (m s1).1 in
      let l = (h.from s1).level in
      let u1 = total-append true s.metrics (active agent true ∷ []) in
      let u2 = total-append false s.metrics (active agent true ∷ []) in
      let d1 = total-append true s2.metrics (active agent false ∷ []) in
      let d2 = total-append false s2.metrics (active agent false ∷ []) in
      let e1 =
        total-append true (s2.metrics ++ active agent false ∷ []) (latency agent skill ∷ []) in
      let e2 =
        total-append false (s2.metrics ++ active agent false ∷ []) (latency agent skill ∷ []) in
      record { level = omega arith };
}

-- Every handler that is registered.
abbrev pub AllHandlers : (Action Value → Type 0) → Handlers → Type 0
AllHandlers P [] = Unit
AllHandlers P ((name, handler) ∷ handlers) =
    ((params : Fields) → P (handler params)) × AllHandlers P handlers

abbrev pub Held : (Action Value → Type 0) → Option (Fields → Action Value) → Type 0
Held P none = Unit
Held P (some handler) = (params : Fields) → P (handler params)

Held-branch :
    (P : Action Value → Type 0) (b : Bool) (x y : Option (Fields → Action Value))
    → Held P x
    → Held P y
    → Held P (if b then x else y)
Held-branch P true x y hx hy = hx
Held-branch P false x y hx hy = hy

pub handler_of-Held :
    (P : Action Value → Type 0) (skill : String) (handlers : Handlers)
    → AllHandlers P handlers
    → Held P (handler_of skill handlers)
handler_of-Held P skill [] h = tt
handler_of-Held P skill ((name, f) ∷ more) h =
    Held-branch P (name == skill) (some f) (handler_of skill more) h.0
      (handler_of-Held P skill more h.1)

run_skill-Moves :
    (agent : Agent) (task : RpcTask) (skill : String) (found : Option (Fields → Action Value))
    → ((id skill status : String) → Moves balanced (agent.tracer.mlflow id agent.name skill status))
    → Held (λ m. Moves balanced m) found
    → Moves balanced (run_skill agent task skill found)
unfolding run_skill run_handler handler_failed
run_skill-Moves agent task skill none telemetry h = Moves.pure balanced _
run_skill-Moves agent task skill (some handler) telemetry h = enclosed agent.name skill _ (
    Moves.try balanced _ _
      (Moves.bind balanced _ _
        (trace-Moves balanced agent.tracer task.id agent.name skill _ (telemetry task.id skill)
          (h task.params))
        (λ v. Moves.bind balanced _ _ (other_metric _ refl refl) (λ _. Moves.pure balanced _)))
      (λ e. Moves.bind balanced _ _ (other_metric _ refl refl) (λ _. Moves.pure balanced _)))

-- However a task ends, with a result, with an exception of its handler or with a message that cannot be
-- decoded, the gauge of active tasks stands where it stood before, if neither the handlers nor MLflow
-- move it by themselves.
pub process-IsBalanced :
    (lib : Library) (agent : Agent) (payload : Value)
    → ((id skill status : String) → Moves balanced (agent.tracer.mlflow id agent.name skill status))
    → AllHandlers (λ m. Moves balanced m) agent.handlers
    → Moves balanced (process lib agent payload)
unfolding process
process-IsBalanced lib agent payload telemetry h =
    Moves.bind_lift balanced (agent.decode payload) _ λ task _.
      run_skill-Moves agent task (skill_of lib task) _ telemetry
        (handler_of-Held (λ m. Moves balanced m) (skill_of lib task) agent.handlers h)
