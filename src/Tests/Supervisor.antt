-- ===== src/Tests/Supervisor.antt =====
-- supervisor.py: the theorems at concrete inputs.
use model_fleet_operator.Kube.{call, count_metric, lift}
use model_fleet_operator.Python.Object.{item}
use model_fleet_operator.Prelude.{String, ◌≡◌, refl, List, [], ◌∷◌, some, none}
use model_fleet_operator.Python.Value.{Value, null, str, dict, list}
use model_fleet_operator.Python.Object.{iterate}
use model_fleet_operator.Python.Result.{ok, runtime_error}
use model_fleet_operator.Kube.{State, Action, initial, pure, raise}
use model_fleet_operator.Tracing.{Tracer}
use model_fleet_operator.Supervisor.{Selection, TaskSubmission, Routing, select}
use model_fleet_operator.Supervisor.Submit.{submit}
use model_fleet_operator.Supervisor.Routes.{IsOffered, select-IsOffered}
use model_fleet_operator.Supervisor.Handover.{Routed, submit-Routed}
use model_fleet_operator.Tests.Samples.{empty_cluster}

abbrev card : String → Value
card agent = dict (
    ("id", str agent)
    ∷ ("kafka_topic", str "tasks")
    ∷ ("skills", list (dict (("id", str "search") ∷ []) ∷ []))
    ∷ [])

abbrev cards : List Value
cards = card "zeta" ∷ card "alpha" ∷ []

abbrev routing : Routing
routing = record {
  cards = pure (list cards);
  post = λ body. pure null;
  decode = λ raw. none;
  problem = "";
  dumps = λ v. "{}";
  gateway_model = "router";
}

abbrev tracer : Tracer
tracer = record {
  tracking_uri = "http://mlflow";
  mlflow = λ id agent skill status. raise (runtime_error "no server");
}

abbrev submission : TaskSubmission
submission = record { user_id = "U1"; prompt = "find it"; context = null; skill = some "search" }

-- Of two agents with the skill the first by name is selected.
abbrev chosen : Selection
chosen = record { agent = "alpha"; skill = "search" }

select-IsOffered_example : IsOffered cards chosen
unfolding select lift item iterate
select-IsOffered_example = select-IsOffered routing submission cards chosen initial initial refl

abbrev after_submit : State
after_submit = (submit empty_cluster tracer routing (str "fleet") "t1" submission initial).1

abbrev reply : Value
reply = dict (
    ("id", str "t1")
    ∷ ("agent", str "alpha")
    ∷ ("skill", str "search")
    ∷ ("status", str "routed")
    ∷ [])

submit-Routed_example :
    (answer : Value) × (found : List Value) × (selection : Selection) × ((routing.cards initial).0
      ≡ ok answer)
    × (iterate answer ≡ ok found)
    × IsOffered found selection
    × Routed empty_cluster (str "fleet") "t1" submission selection found after_submit
unfolding submit model_fleet_operator.Kube.◌>>=◌ pure lift iterate item call count_metric raise
    model_fleet_operator.Kube.attempt model_fleet_operator.Kube.try
submit-Routed_example =
    submit-Routed empty_cluster tracer routing (str "fleet") "t1" submission reply initial
      after_submit (λ id agent skill status s. refl) refl
