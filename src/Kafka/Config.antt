-- ===== src/Kafka/Config.antt =====
-- kafka.py: KafkaConfig and what `Publisher` gives to its producer. `env` answers `os.getenv`.
pub mod Valid
use model_fleet_operator.Prelude.{
  ℕ, String, Bool, true, false, not, ◌&&◌, ◌||◌, Option, none, some, List, [], ◌∷◌, ◌==◌, ℤ, pos,
  negsuc, eqb, leb, any, length, if◌then◌else◌,
}
use model_fleet_operator.Python.Value.{Fields, bool, str, fields, put}
use model_fleet_operator.Python.Text.{distinct, lower, strip}
use model_fleet_operator.Python.Number.{parse_int}
use model_fleet_operator.Python.Result.{Result, ok, runtime_error, raise_if, ◌>>=◌, ◌>>◌}
use model_fleet_operator.Kube.{update}

abbrev pub Environment : Type 0
Environment = String → Option String

pub record KafkaConfig : Type 0 where
  pub enabled : Bool
  pub bootstrap_servers : String
  pub command_topic : String
  pub event_topic : String
  pub dlq_topic : String
  pub consumer_group : String
  pub max_attempts : ℕ

abbrev some_or : String → Option String → String
some_or default none = default
some_or default (some value) = value

-- `os.getenv(name, default)`: the default stands for a missing variable, not for an empty one.
abbrev pub getenv : Environment → (name default : String) → String
getenv env name default = some_or default (env name)

-- `max(1, n)`
abbrev pub at_least_one : ℤ → ℕ
at_least_one (pos n) = if leb n 1 then 1 else n
at_least_one (negsuc n) = 1

abbrev pub is_invalid : KafkaConfig → Bool
is_invalid config =
    config.enabled
    && (config.bootstrap_servers == ""
        || config.consumer_group == ""
        || not (
            eqb
              (length
                (distinct (config.command_topic ∷ config.event_topic ∷ config.dlq_topic ∷ [])))
              3))

unfoldable pub config_of : Environment → (max_attempts : ℤ) → KafkaConfig
unfolding lower strip
config_of env max_attempts = record {
  enabled = lower (getenv env "KAFKA_ENABLED" "false") == "true";
  bootstrap_servers = strip (getenv env "KAFKA_BOOTSTRAP_SERVERS" "");
  command_topic = strip (getenv env "KAFKA_COMMAND_TOPIC" "model-fleet.commands.v1");
  event_topic = strip (getenv env "KAFKA_EVENT_TOPIC" "model-fleet.events.v1");
  dlq_topic = strip (getenv env "KAFKA_DLQ_TOPIC" "model-fleet.commands.dlq.v1");
  consumer_group = strip (getenv env "KAFKA_CONSUMER_GROUP" "model-fleet-controller-v1");
  max_attempts = at_least_one max_attempts;
}

unfoldable pub from_env : Environment → Result KafkaConfig
unfolding parse_int config_of
from_env env = do
  attempts ← parse_int (getenv env "KAFKA_MAX_ATTEMPTS" "3")
  raise_if (is_invalid (config_of env attempts))
      (runtime_error "invalid Model Fleet Kafka configuration")
  ok (config_of env attempts)

abbrev optional : List (String × String)
optional =
    ("security.protocol", "KAFKA_SECURITY_PROTOCOL")
    ∷ ("sasl.mechanism", "KAFKA_SASL_MECHANISM")
    ∷ ("sasl.username", "KAFKA_SASL_USERNAME")
    ∷ ("sasl.password", "KAFKA_SASL_PASSWORD")
    ∷ ("ssl.ca.location", "KAFKA_SSL_CA_LOCATION")
    ∷ []

-- A variable that is missing or empty sets nothing.
abbrev add_optional : (key value : String) → Fields → Fields
add_optional key value result = if value == "" then result else put key (str value) result

abbrev add_all : Environment → List (String × String) → Fields → Fields
add_all env [] result = result
add_all env ((key, name) ∷ more) result =
    add_all env more (add_optional key (getenv env name "") result)

unfoldable pub client_config : Environment → KafkaConfig → Fields
unfolding put
client_config env config =
    add_all env optional (fields (("bootstrap.servers", str config.bootstrap_servers) ∷ []))

-- What `Publisher` makes its producer with.
unfoldable pub producer_config : Environment → KafkaConfig → Fields
unfolding client_config put
producer_config env config =
    update
      (fields (
        ("acks", str "all")
        ∷ ("enable.idempotence", bool true)
        ∷ ("client.id", str "model-fleet")
        ∷ []))
      (client_config env config)
