-- ===== src/AgentRuntime.antt =====
-- agent_runtime.py: how an agent answers a task, and what its worker does with one message of its
-- topic. JsonRpcTask and JsonRpcResult are those of protocol.py.
pub mod Answers
pub mod Balance
pub mod Calls
pub mod Delivery
use model_fleet_operator.Prelude.{
  ℕ, String, Bool, true, false, Option, none, some, List, [], ◌∷◌, ◌==◌, negsuc, if◌then◌else◌,
}
use model_fleet_operator.Python.Value.{Value, Fields, null, int, str, dict, find_or}
use model_fleet_operator.Python.Text.{prefix}
use model_fleet_operator.Python.Library.{Library, show}
use model_fleet_operator.Python.Result.{Exception, Result}
use model_fleet_operator.ControlAuth.{require_control_token}
use model_fleet_operator.Tracing.{Tracer, trace}
use model_fleet_operator.Kube.{
  Oracle, Action, ◌>>=◌, ◌>>◌, pure, lift, try, finally, call, count_metric, flush, commit,
  agent_task, active, latency,
}

pub record RpcTask : Type 0 where
  pub id : String
  pub params : Fields

pub record RpcResult : Type 0 where
  pub id : String
  pub result : Value
  pub error : Value

-- The callables of a worker by the skill that they serve.
abbrev pub Handlers : Type 0
Handlers = List (String × (Fields → Action Value))

abbrev pub handler_of : String → Handlers → Option (Fields → Action Value)
handler_of skill [] = none
handler_of skill ((name, handler) ∷ handlers) =
    if name == skill then some handler else handler_of skill handlers

-- What a worker is made of: its card's name and result topic, the handlers, the tracer,
-- pydantic's decoder and encoder of messages, and `str` of an error.
pub record Agent : Type 0 where
  pub name : String
  pub result_topic : String
  pub handlers : Handlers
  pub tracer : Tracer
  pub decode : Value → Result RpcTask
  pub encode : RpcResult → Value
  pub describe : Exception → String

abbrev pub error_body : (code : ℕ) → (message : String) → Value
error_body code message = dict (("code", int (negsuc code)) ∷ ("message", str message) ∷ [])

-- The error codes are -32601 and -32000.
abbrev pub unknown_skill : RpcTask → RpcResult
unknown_skill task = record {
  id = task.id;
  result = null;
  error = error_body 32600 "unknown skill";
}

abbrev pub failed_result : Agent → RpcTask → Exception → RpcResult
failed_result agent task e = record {
  id = task.id;
  result = null;
  error = error_body 31999 (prefix 300 (agent.describe e));
}

abbrev pub completed_result : RpcTask → Value → RpcResult
completed_result task v = record { id = task.id; result = v; error = null }

unfoldable pub run_handler :
    Agent → RpcTask → (skill : String) → (Fields → Action Value) → Action RpcResult
unfolding trace
run_handler agent task skill handler = do
  v ← trace agent.tracer task.id agent.name skill (handler task.params)
  counted ← count_metric (agent_task agent.name skill "completed")
  pure (completed_result task v)

unfoldable pub handler_failed : Agent → RpcTask → (skill : String) → Exception → Action RpcResult
unfolding prefix
handler_failed agent task skill e = do
  counted ← count_metric (agent_task agent.name skill "failed")
  pure (failed_result agent task e)

unfoldable pub run_skill :
    Agent → RpcTask → (skill : String) → Option (Fields → Action Value) → Action RpcResult
unfolding run_handler handler_failed
run_skill agent task skill none = pure (unknown_skill task)
run_skill agent task skill (some handler) = do
  started ← count_metric (active agent.name true)
  finally (try (run_handler agent task skill handler) (handler_failed agent task skill))
      (count_metric (active agent.name false) >> count_metric (latency agent.name skill))

-- `str(task.params.get("skill", ""))`
abbrev pub skill_of : Library → RpcTask → String
skill_of lib task = show lib (find_or "skill" (str "") task.params)

unfoldable pub process : Library → Agent → (payload : Value) → Action RpcResult
unfolding run_skill show find_or
process lib agent payload = do
  task ← lift (agent.decode payload)
  run_skill agent task (skill_of lib task) (handler_of (skill_of lib task) agent.handlers)

-- The endpoint `/v1/tasks:execute`: a task that holds for pydantic is encoded again and processed.
unfoldable pub execute :
    Library → Agent → (expected authorization : String) → (payload : Value) → Action RpcResult
unfolding process require_control_token
execute lib agent expected authorization payload = do
  authenticated ← lift (require_control_token expected authorization)
  process lib agent payload

-- One message of the agent's topic. A message that is not flushed in time is an error of the call; the
-- source asks for no delivery report.
unfoldable pub serve : Oracle → Library → Agent → (payload : Value) → Action (Unit {0})
unfolding process
serve oracle lib agent payload = do
  result ← process lib agent payload
  sent ← call oracle (flush agent.result_topic (agent.encode result) result.id)
  committed ← call oracle commit
  pure tt
