-- ===== src/Tests/Worker.antt =====
-- kafka.py and command_worker.py: the theorems at concrete inputs.
use model_fleet_operator.Kafka.Config.{Environment, KafkaConfig, from_env, producer_config}
use model_fleet_operator.Kafka.Config.Valid.{IsValid, from_env-IsValid}
use model_fleet_operator.Slack.Fleet.{intent}
use model_fleet_operator.Kube.{lift, pure}
use model_fleet_operator.Python.Text.{decimal, prefix}
use model_fleet_operator.Prelude.{
  if◌then◌else◌, ◌==◌, some, none, ◌≤◌, ◌+◌, String, ◌≡◌, refl, [], ◌∷◌, pos, false, true, length,
}
use model_fleet_operator.Python.Value.{Value, str, fields, Fields, null, bool, int, obj, dict}
use model_fleet_operator.Python.Object.{get}
use model_fleet_operator.Python.Text.{length_of}
use model_fleet_operator.Python.Result.{ok, err, api_error, key_error}
use model_fleet_operator.Kube.{Call, Oracle, State, Action, initial}
use model_fleet_operator.Slack.Command.{Command}
use model_fleet_operator.Slack.Parse.{parse_command, fleet}
use model_fleet_operator.Kafka.{new_command, command_params, validate_command}
use model_fleet_operator.Kafka.Commands.{IsCommand, validate_command-IsCommand}
use model_fleet_operator.Kafka.Sent.{targeted, parsed_command-IsSent}
use model_fleet_operator.Worker.{Settings, command_of, process, retry, handle_message}
use model_fleet_operator.Worker.Retries.{retry-late_success, retry-bounded}
use model_fleet_operator.Worker.Progress.{Applied, handle_message-Applied}
use model_fleet_operator.Worker.Poison.{handle_message-poison}
use model_fleet_operator.Tests.Samples.{plain_library, empty_cluster}

-- The defaults, but for the servers.
abbrev environment : Environment
environment name =
    if name == "KAFKA_ENABLED"
    then some "True"
    else if name == "KAFKA_BOOTSTRAP_SERVERS"
    then some " kafka:9092 "
    else if name == "KAFKA_MAX_ATTEMPTS"
    then some "0"
    else none

abbrev default_config : KafkaConfig
default_config = record {
  enabled = true;
  bootstrap_servers = "kafka:9092";
  command_topic = "model-fleet.commands.v1";
  event_topic = "model-fleet.events.v1";
  dlq_topic = "model-fleet.commands.dlq.v1";
  consumer_group = "model-fleet-controller-v1";
  max_attempts = 1;
}

configured : from_env environment ≡ ok default_config
unfolding from_env
configured = refl

from_env-IsValid_example : IsValid default_config
from_env-IsValid_example = from_env-IsValid environment default_config configured

anonymous_producer :
    producer_config environment default_config
    ≡ fields (
        ("bootstrap.servers", str "kafka:9092")
        ∷ ("acks", str "all")
        ∷ ("enable.idempotence", bool true)
        ∷ ("client.id", str "model-fleet")
        ∷ [])
unfolding producer_config
anonymous_producer = refl

abbrev event_id : String
event_id = "0123456789abcdef0123456789abcdef"

abbrev wake_chat : Command
wake_chat = targeted "wake" "inference" "models" "chat" false

abbrev message : Value
message = new_command event_id "now" wake_chat "U1"

abbrev params : Fields
params = command_params event_id "now" wake_chat "U1"

valid : validate_command message ≡ ok params
unfolding validate_command new_command length_of prefix
valid = refl

validate_command-IsCommand_example : (get message "params" ≡ ok (obj params)) × IsCommand params
validate_command-IsCommand_example = validate_command-IsCommand message params valid

parsed : parse_command "wake models/chat" "default" ≡ ok (fleet wake_chat)
unfolding parse_command
parsed = refl

parsed_command-IsSent_example :
    (validate_command message ≡ ok params) × (command_of params ≡ ok wake_chat)
unfolding length_of
parsed_command-IsSent_example =
    parsed_command-IsSent "wake models/chat" "default" event_id "now" "U1" wake_chat parsed refl
      refl refl refl

abbrev settings : Settings
settings = record {
  event_topic = "events";
  dlq_topic = "dlq";
  max_attempts = 3;
  now = "now";
  clock = int (pos 0);
  describe = λ e. "";
}

abbrev end_state : State
end_state = (handle_message plain_library empty_cluster settings (ok message) initial).1

-- The API server fails at the first call.
abbrev shaky_cluster : Oracle
shaky_cluster [] c = err (api_error 503 "Service Unavailable" "")
shaky_cluster (c ∷ before) d = ok null

abbrev after_one : State
after_one = (process shaky_cluster "now" message initial).1

abbrev after_two : State
after_two = (process shaky_cluster "now" message after_one).1

retry-late_success_example :
    retry shaky_cluster "now" message params 3 "" initial
    ≡ (ok (params, "Kubernetes HTTP 503: Service Unavailable"), after_two)
unfolding process model_fleet_operator.Kube.◌>>=◌ lift new_command length_of prefix
    model_fleet_operator.Kube.call pure decimal
retry-late_success_example =
    retry-late_success shaky_cluster "now" message params params 1 503 "Service Unavailable" ""
      initial after_one after_two refl refl refl

retry-bounded_example :
    length (retry shaky_cluster "now" message params 3 "" initial).1.calls
    ≤ length initial.calls + 3
retry-bounded_example = retry-bounded shaky_cluster "now" message params 3 "" initial

handle_message-poison_example :
    handle_message plain_library empty_cluster settings
      (ok (new_command event_id "now" (targeted "wake" "training" "models" "run" false) "U1"))
      initial
    ≡ (err (key_error "wake"), initial)
unfolding length_of
handle_message-poison_example =
    handle_message-poison plain_library empty_cluster settings 2 event_id "now" "U1" "wake" "models"
      "run" false initial refl refl refl refl refl refl refl

-- A cluster and a Kafka that accept every call.
abbrev accepting : Oracle
accepting before made = ok null

abbrev wake_fields : Value
wake_fields = dict (("suspend", bool false) ∷ ("forceActive", bool true) ∷ [])

handle_message-Applied_example :
    (t : State) × (handle_message plain_library accepting settings (ok message) initial
      ≡ (ok tt, t))
    × Applied accepting settings params wake_chat initial t
unfolding command_of intent
handle_message-Applied_example =
    handle_message-Applied plain_library accepting settings 2 message params wake_chat
      "fleet.sqe.io/v1alpha1/inferenceservices" wake_fields initial refl valid refl refl
      (λ before made. (null, refl))
