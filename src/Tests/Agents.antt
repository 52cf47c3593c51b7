-- ===== src/Tests/Agents.antt =====
-- agent_runtime.py, fleet_agent.py and tracing.py: the theorems at concrete inputs.
use model_fleet_operator.Kube.{count_metric, finally, lift, try}
use model_fleet_operator.Python.Library.{show}
use model_fleet_operator.Python.Value.{find_or}
use model_fleet_operator.Prelude.{String, ◌≡◌, refl, true, some, List, [], ◌∷◌}
use model_fleet_operator.Python.Value.{Value, Fields, null, bool, str, obj, dict, fields}
use model_fleet_operator.Python.Result.{ok, runtime_error}
use model_fleet_operator.Kube.{Call, Oracle, State, Action, initial, pure, raise}
use model_fleet_operator.Kube.Moves as Moves
use model_fleet_operator.Kube.Moves.{Moves}
use model_fleet_operator.Kube.Runs.{called}
use model_fleet_operator.Tracing.{Tracer, trace, trace-transparent}
use model_fleet_operator.AgentRuntime.{Agent, RpcTask, process, serve}
use model_fleet_operator.AgentRuntime.Answers.{Answers, process-Answers}
use model_fleet_operator.AgentRuntime.Balance.{balanced, process-IsBalanced}
use model_fleet_operator.AgentRuntime.Delivery.{Flushed, serve-Flushed}
use model_fleet_operator.Slack.Command.{Command}
use model_fleet_operator.Slack.Fleet.{intent, intent_patch}
use model_fleet_operator.FleetAgent.{handlers, requested, control, register, registration_post}
use model_fleet_operator.FleetAgent.Control.{accepted, control-applies}
use model_fleet_operator.FleetAgent.Register.{Attempted, register-Attempted}
use model_fleet_operator.Tests.Samples.{plain_library, empty_cluster}

abbrev tracer : Tracer
tracer = record {
  tracking_uri = "http://mlflow";
  mlflow = λ id agent skill status. raise (runtime_error "no server");
}

abbrev run_params : List (String × Value)
run_params = ("namespace", str "models") ∷ ("name", str "run") ∷ ("action", str "cancel") ∷ []

abbrev unconfirmed : Fields
unconfirmed = fields (("skill", str "fleet.training.control") ∷ run_params)

abbrev confirmed : Fields
confirmed = fields (("confirmed", bool true) ∷ run_params)

abbrev rpc_task : RpcTask
rpc_task = record { id = "t1"; params = unconfirmed }

abbrev fleet_agent : Agent
fleet_agent = record {
  name = "model-fleet-operations";
  result_topic = "results.model-fleet-operations";
  handlers = handlers empty_cluster plain_library "now" "aws";
  tracer = tracer;
  decode = λ payload. ok rpc_task;
  encode = λ result. dict (("id", str result.id) ∷ ("error", result.error) ∷ []);
  describe = λ e. "failed";
}

trace-transparent_example :
    (trace {A = String} tracer "t1" "a" "s" (pure "done") initial).0
    ≡ (pure {A = String} "done" initial).0
trace-transparent_example = trace-transparent {A = String} tracer "t1" "a" "s" (pure "done") initial

-- To cancel a run without a confirmation is an error of the task.
process-Answers_example :
    Answers fleet_agent rpc_task "fleet.training.control"
      (process plain_library fleet_agent null)
      initial
unfolding show find_or
process-Answers_example = process-Answers plain_library fleet_agent null rpc_task initial refl

abbrev quiet_agent : Agent
quiet_agent = record fleet_agent { handlers = ("echo", λ params. pure (obj params)) ∷ [] }

process-IsBalanced_example : Moves balanced (process plain_library quiet_agent null)
process-IsBalanced_example =
    process-IsBalanced plain_library quiet_agent null (λ id skill status. Moves.raise balanced _)
      ((λ params. Moves.pure balanced (obj params)), tt)

abbrev after_serve : State
after_serve = (serve empty_cluster plain_library fleet_agent null initial).1

serve-Flushed_example : Flushed empty_cluster plain_library fleet_agent null initial after_serve
unfolding serve model_fleet_operator.Kube.◌>>=◌ lift count_metric finally try raise pure control
    model_fleet_operator.Kube.call
serve-Flushed_example =
    serve-Flushed empty_cluster plain_library fleet_agent null initial after_serve refl

abbrev silent_agent : Agent
silent_agent = record fleet_agent {
  tracer = record { tracking_uri = ""; mlflow = λ id agent skill status. pure tt };
}

abbrev cancel_run : Command
cancel_run = record {
  verb = "cancel";
  kind = "training";
  namespace = some "models";
  name = some "run";
  confirmed = true;
}

-- A cluster that accepts every call.
abbrev willing : Oracle
willing before made = ok null

control-applies_example :
    (plural : String) × (fs : Value) × (intent cancel_run ≡ ok (plural, fs))
    × (control willing plain_library "now" "training" confirmed initial ≡ (
      ok (accepted cancel_run),
      called (intent_patch "now" cancel_run "agent-supervisor" "" plural fs) initial,
    ))
unfolding requested
control-applies_example =
    control-applies willing plain_library "now" "training" confirmed cancel_run initial refl
      (λ patched. (null, refl))

register-Attempted_example :
    Attempted empty_cluster
      (registration_post "http://registry/" "key" null)
      5
      (register empty_cluster "http://registry/" "key" null)
      initial
register-Attempted_example = register-Attempted empty_cluster "http://registry/" "key" null initial
