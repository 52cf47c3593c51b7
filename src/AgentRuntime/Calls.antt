-- ===== src/AgentRuntime/Calls.antt =====
-- The calls that a task leads to.
use model_fleet_operator.Prelude.{String, ◌≡◌, Option, none, some}
use model_fleet_operator.Python.Value.{Value, Fields}
use model_fleet_operator.Python.Library.{Library}
use model_fleet_operator.Python.Result.{ok}
use model_fleet_operator.Kube.{Call, Action, finally}
use model_fleet_operator.Kube.Moves as Moves
use model_fleet_operator.Kube.Moves.{adds, Moves}
use model_fleet_operator.AgentRuntime.{
  Agent, RpcTask, process, run_skill, run_handler, handler_failed, skill_of, handler_of,
}
use model_fleet_operator.AgentRuntime.Balance.{trace-Moves}

-- What a task runs of the handler that is found, with its parameters.
abbrev pub Runs : (Action Value → Type 0) → Fields → Option (Fields → Action Value) → Type 0
Runs Q params none = Unit
Runs Q params (some handler) = Q (handler params)

module _ (P : Call → Type 0) (agent : Agent) where
  run_skill-Moves :
      (task : RpcTask) (skill : String) (found : Option (Fields → Action Value))
      → ((id skill status : String)
          → Moves (adds P) (agent.tracer.mlflow id agent.name skill status))
      → Runs (λ m. Moves (adds P) m) task.params found
      → Moves (adds P) (run_skill agent task skill found)
  unfolding run_skill run_handler handler_failed finally
  run_skill-Moves task skill none telemetry h = Moves.pure _ _
  run_skill-Moves task skill (some handler) telemetry h =
      Moves.bind _ _ _ (Moves.count_metric _) λ _.
        Moves.bind _ _ _
          (Moves.attempt _ _ (
            Moves.try _ _ _
              (Moves.bind _ _ _
                (trace-Moves _ agent.tracer task.id agent.name skill _ (telemetry task.id skill) h)
                (λ v. Moves.bind _ _ _ (Moves.count_metric _) (λ _. Moves.pure _ _)))
              (λ e. Moves.bind _ _ _ (Moves.count_metric _) (λ _. Moves.pure _ _))))
          λ outcome.
            Moves.bind _ _ _ (Moves.bind _ _ _ (Moves.count_metric _) (λ _. Moves.count_metric _))
              (λ _. Moves.lift _ _)

  -- What the handlers and MLflow do is all that a task does.
  pub process-Moves :
      (lib : Library) (payload : Value)
      → ((id skill status : String)
          → Moves (adds P) (agent.tracer.mlflow id agent.name skill status))
      → ((task : RpcTask)
          → agent.decode payload ≡ ok task
          → Runs
              (λ m. Moves (adds P) m)
              task.params
              (handler_of (skill_of lib task) agent.handlers))
      → Moves (adds P) (process lib agent payload)
  unfolding process
  process-Moves lib payload telemetry h =
      Moves.bind_lift _ (agent.decode payload) _
        λ task e. run_skill-Moves task (skill_of lib task) _ telemetry (h task e)
