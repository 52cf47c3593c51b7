-- ===== src/Supervisor/Submit.antt =====
-- supervisor.py: how a task is handed to its agent, and how its result is recorded.
use model_fleet_operator.Prelude.{String, Option, List, [], ◌∷◌, if◌then◌else◌}
use model_fleet_operator.Python.Value.{Value, str, dict, truthy}
use model_fleet_operator.Python.Library.{Library, show}
use model_fleet_operator.Python.Object.{item, get_or, iterate}
use model_fleet_operator.Python.Result.{
  Result, ok, err, type_error, runtime_error, require, ◌>>=◌ as bind,
}
use model_fleet_operator.Kube.{
  Oracle, Action, ◌>>=◌, pure, lift, call, create, patch, flush, count_metric, task,
}
use model_fleet_operator.Tracing.{Tracer, trace}
use model_fleet_operator.Supervisor.{Selection, TaskSubmission, Routing, card_of, select}

abbrev pub agent_tasks : String
agent_tasks = "fleet.sqe.io/v1alpha1/agenttasks"

abbrev pub agent_task_status : String
agent_task_status = "fleet.sqe.io/v1alpha1/agenttasks/status"

abbrev pub task_message : (task_id : String) → TaskSubmission → Selection → Value
task_message task_id submission selection = dict (
    ("jsonrpc", str "2.0")
    ∷ ("id", str task_id)
    ∷ ("method", str "tasks.execute")
    ∷ (
      "params",
      dict (
          ("user_id", str submission.user_id)
          ∷ ("prompt", str submission.prompt)
          ∷ ("context", submission.context)
          ∷ ("skill", str selection.skill)
          ∷ []),
    )
    ∷ [])

abbrev pub pending_task : (task_id : String) → Selection → Value
pending_task task_id selection = dict (
    ("apiVersion", str "fleet.sqe.io/v1alpha1")
    ∷ ("kind", str "AgentTask")
    ∷ ("metadata", dict (("name", str task_id) ∷ []))
    ∷ ("spec", dict (("agent", str selection.agent) ∷ ("skill", str selection.skill) ∷ []))
    ∷ ("status", dict (("phase", str "pending") ∷ []))
    ∷ [])

abbrev pub phase_status : List (String × Value) → Value
phase_status fs = dict (("status", dict fs) ∷ [])

-- `next(card for card in cards if card["id"] == selection.agent)`; an exhausted generator in an `async`
-- function ends as a `RuntimeError`.
abbrev pub chosen_card : Option Value → Result Value
chosen_card card = require card (runtime_error "coroutine raised StopIteration")

-- The topic of a message is a text for the producer.
abbrev pub topic_text : Value → Result String
topic_text (str s) = ok s
topic_text v = err type_error

-- The body of the `with` block of `submit`. The source asks for no delivery report.
unfoldable pub hand_over :
    Oracle
    → (namespace : Value) → (task_id : String) → TaskSubmission
    → Selection
    → Value
    → Action (Unit {0})
hand_over oracle namespace task_id submission selection card = do
  created ← call oracle (create agent_tasks namespace (pending_task task_id selection))
  listed ← lift (item card "kafka_topic")
  topic ← lift (topic_text listed)
  sent ← call oracle (flush topic (task_message task_id submission selection) task_id)
  patched ← call oracle (
      patch agent_task_status namespace (str task_id) (phase_status (("phase", str "routed") ∷ [])))
  pure tt

unfoldable pub submit :
    Oracle
    → Tracer
    → Routing
    → (namespace : Value) → (task_id : String) → TaskSubmission
    → Action Value
unfolding select card_of hand_over trace
submit oracle tracer routing namespace task_id submission = do
  answer ← routing.cards
  cards ← lift (iterate answer)
  selection ← select routing submission cards
  found ← lift (card_of selection.agent cards)
  card ← lift (chosen_card found)
  handed ←
      trace tracer task_id selection.agent selection.skill
        (hand_over oracle namespace task_id submission selection card)
  counted ← count_metric (task "routed")
  pure (
      dict (
        ("id", str task_id)
        ∷ ("agent", str selection.agent)
        ∷ ("skill", str selection.skill)
        ∷ ("status", str "routed")
        ∷ []))

-- `apply_result`; `decoded` is the identity and the error of the pydantic `JsonRpcResult`.
unfoldable pub apply_result :
    Library → Oracle → (namespace : Value) → (decoded : Result (String × Value)) → Action String
unfolding truthy show get_or
apply_result lib oracle namespace decoded = do
  (id, error) ← lift decoded
  let phase = if truthy error then "failed" else "completed"
  message ← lift (
      if truthy error
      then bind (get_or error "message" (str "agent task failed")) (λ m. ok (show lib m))
      else ok "result published to Kafka")
  patched ← call oracle (
      patch agent_task_status namespace (str id)
        (phase_status (("phase", str phase) ∷ ("message", str message) ∷ [])))
  counted ← count_metric (task phase)
  pure id
