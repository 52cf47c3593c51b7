-- ===== src/FleetAgent/Card.antt =====
-- fleet_agent.py: the card of the agent, and what it promises.
use model_fleet_operator.Prelude.{
  String, ◌≡◌, refl, Bool, true, false, ◌||◌, Option, none, some, List, [], ◌∷◌, any, map, ◌==◌,
  if◌then◌else◌,
}
use model_fleet_operator.Python.Value.{Value, Fields, str, dict, list, fields}
use model_fleet_operator.Python.Library.{Library}
use model_fleet_operator.Kube.{Oracle, Action}
use model_fleet_operator.Registry.{AgentCard, Skill}
use model_fleet_operator.AgentRuntime.{handler_of}
use model_fleet_operator.FleetAgent.{handlers}

-- `{"type": "object", "required": [...], "properties": {"action": {"enum": actions}}}`
abbrev control_schema : List String → Fields
control_schema actions = fields (
    ("type", str "object")
    ∷ ("required", list (str "namespace" ∷ str "name" ∷ str "action" ∷ []))
    ∷ ("properties", dict (("action", dict (("enum", list (map str actions)) ∷ [])) ∷ []))
    ∷ [])

abbrev status_schema : Fields
status_schema = fields (
    ("type", str "object")
    ∷ ("properties", dict (("namespace", dict (("type", str "string") ∷ [])) ∷ []))
    ∷ [])

abbrev skills : List Skill
skills =
    record {
      id = "fleet.status";
      name = "Fleet status";
      description = "List datasets, inference, training, and GPU capacity state.";
      input_schema = status_schema;
    }
    ∷ record {
      id = "fleet.inference.control";
      name = "Inference control";
      description = "Wake, sleep, or return an InferenceService to automatic scaling.";
      input_schema = control_schema ("wake" ∷ "auto" ∷ "sleep" ∷ []);
    }
    ∷ record {
      id = "fleet.training.control";
      name = "Training control";
      description = "Pause, resume, or cancel a TrainingRun.";
      input_schema = control_schema ("pause" ∷ "resume" ∷ "cancel" ∷ []);
    }
    ∷ record {
      id = "fleet.agent.control";
      name = "Agent control";
      description = "Start or stop a managed AgentRegistration runtime.";
      input_schema = control_schema ("wake" ∷ "sleep" ∷ []);
    }
    ∷ []

-- `CARD`; its endpoint comes from the environment.
abbrev pub card : (endpoint : String) → AgentCard
card endpoint = record {
  name = "model-fleet-operations";
  description = "Inspects datasets and changes inference, training, and GPU capacity intent.";
  version = "0.1.0";
  endpoint = endpoint;
  kafka_topic = "tasks.model-fleet-operations";
  kafka_result_topic = "results.model-fleet-operations";
  max_concurrent_tasks = 1;
  timeout_seconds = 60;
  skills = skills;
  transports =
      record { protocol = "kafka"; endpoint = "tasks.model-fleet-operations" }
      ∷ record { protocol = "http"; endpoint = "/v1/tasks:execute" }
      ∷ record { protocol = "grpc"; endpoint = "modelfleet.agent.v1.AgentService" }
      ∷ [];
}

abbrev pub is_handled : Option (Fields → Action Value) → Bool
is_handled none = false
is_handled (some handler) = true

handled_next :
    (b : Bool) (f : Fields → Action Value) (rest : Option (Fields → Action Value)) (more : Bool)
    → is_handled rest ≡ more
    → is_handled (if b then some f else rest) ≡ (b || more)
handled_next true f rest more h = refl
handled_next false f rest more h = h

-- The agent has a handler for exactly the skills that its card offers to the registry.
pub card-IsHandled :
    (oracle : Oracle) (lib : Library) (now profile endpoint skill : String)
    → is_handled (handler_of skill (handlers oracle lib now profile))
      ≡ any (λ offered. offered.id == skill) (card endpoint).skills
card-IsHandled oracle lib now profile endpoint skill =
    handled_next ("fleet.status" == skill) _ _ _ (
      handled_next ("fleet.inference.control" == skill) _ _ _ (
        handled_next ("fleet.training.control" == skill) _ _ _
          (handled_next ("fleet.agent.control" == skill) _ none false refl)))
