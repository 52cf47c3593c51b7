-- ===== src/Kafka.antt =====
-- kafka.py: the messages of the durable control commands, and the part of `Publisher` that sends
-- them. The producer answers a `produce` call with an exception where a delivery fails.
pub mod Commands
pub mod Config
pub mod Sent
use Prim.Native.Char.{Char}
use Prim.Native.String
use model_fleet_operator.Prelude.{
  ℕ, suc, String, Bool, true, false, not, ◌&&◌, ◌||◌, Option, none, some, List, [], ◌∷◌, pos, eqb,
  ◌==◌, if◌then◌else◌, ◌++◌,
}
use model_fleet_operator.Python.Value.{
  Value, Fields, null, bool, int, str, arr, obj, fields, dict, find_or, truthy, is_text, end, field,
  put,
}
use model_fleet_operator.Python.Text.{◌⧺◌, prefix, length_of}
use model_fleet_operator.Python.Result.{
  Result, ok, err, ◌>>=◌, ◌>>◌, raise_if, value_error, type_error, attribute_error, key_error,
}
use model_fleet_operator.Python.Equality.{same}
use model_fleet_operator.Python.Object.{item, get}
use model_fleet_operator.Slack.Command.{Command, one_of, or_none}
use model_fleet_operator.Kube as K
use model_fleet_operator.Kube.{Oracle, Action, update, lift, call, produce}

abbrev pub method : String
method = "model-fleet.command.requested"

abbrev pub valid_verbs : List String
valid_verbs = "wake" ∷ "auto" ∷ "sleep" ∷ "pause" ∷ "resume" ∷ "cancel" ∷ []

abbrev pub valid_kinds : List String
valid_kinds = "agent" ∷ "inference" ∷ "training" ∷ []

abbrev pub or_none_value : Option String → Value
or_none_value none = null
or_none_value (some s) = str s

abbrev pub command_params : (event_id now : String) → Command → (actor : String) → Fields
command_params event_id now command actor = fields (
    ("schema_version", int (pos 1))
    ∷ ("event_id", str event_id)
    ∷ ("created_at", str now)
    ∷ ("actor", str (prefix 80 actor))
    ∷ ("verb", str command.verb)
    ∷ ("kind", str command.kind)
    ∷ ("namespace", or_none_value command.namespace)
    ∷ ("name", or_none_value command.name)
    ∷ ("confirmed", bool command.confirmed)
    ∷ [])

-- `event_id` is the `uuid4().hex`, `now` the time.
unfoldable pub new_command : (event_id now : String) → Command → (actor : String) → Value
new_command event_id now command actor = dict (
    ("jsonrpc", str "2.0")
    ∷ ("method", str method)
    ∷ ("id", str event_id)
    ∷ ("params", obj (command_params event_id now command actor))
    ∷ [])

-- `v in {...}` for a set of texts: a list or a dict is not hashable.
unfoldable pub in_set : Value → List String → Result Bool
in_set (str s) l = ok (one_of s l)
in_set (arr xs) l = err type_error
in_set (obj fs) l = err type_error
in_set v l = ok false

-- `a() or b()`
abbrev either : Result Bool → Result Bool → Result Bool
either a b = do x ← a; if x then ok true else b

abbrev negate : Result Bool → Result Bool
negate a = do x ← a; ok (not x)

-- `isinstance(v, str) and len(v) == 32`
abbrev pub is_event_id : Value → Bool
is_event_id (str s) = eqb (length_of s) 32
is_event_id v = false

-- `isinstance(v, str) and v`
abbrev pub is_nonempty_text : Value → Bool
is_nonempty_text (str s) = not (s == "")
is_nonempty_text v = false

unfoldable pub validate_params : Value → Value → Result Fields
unfolding same find_or truthy in_set
validate_params payload (obj params) = do
  let event_id = find_or "event_id" null params
  id ← get payload "id"
  raise_if (not (same id event_id) || not (is_event_id event_id))
      (value_error "invalid command identity")
  raise_if (not (same (find_or "schema_version" null params) (int (pos 1))))
      (value_error "unsupported command schema")
  wrong ←
      either (negate (in_set (find_or "verb" null params) valid_verbs))
        (negate (in_set (find_or "kind" null params) valid_kinds))
  raise_if wrong (value_error "invalid command action")
  raise_if
      (not (
        is_nonempty_text (find_or "actor" null params)
        && is_nonempty_text (find_or "namespace" null params)
        && is_nonempty_text (find_or "name" null params)))
      (value_error "command target and actor are required")
  raise_if
      ((is_text (find_or "verb" null params) "sleep"
          || is_text (find_or "verb" null params) "cancel")
        && not (truthy (find_or "confirmed" null params)))
      (value_error "destructive command is not confirmed")
  ok params
validate_params payload params = err (value_error "command params must be an object")

unfoldable pub validate_command : Value → Result Fields
unfolding validate_params get
validate_command payload = do
  params ← get payload "params"
  jsonrpc ← get payload "jsonrpc"
  name ← get payload "method"
  raise_if (not (is_text jsonrpc "2.0") || not (is_text name method))
      (value_error "unsupported JSON-RPC command")
  validate_params payload params

-- `{**params, ...}` puts the new keys over the old ones.
unfoldable pub event_payload : (now : String) → Fields → (state error : String) → Result Value
unfolding item
event_payload now params state error = do
  event_id ← item (obj params) "event_id"
  ok (
      dict (
        ("jsonrpc", str "2.0")
        ∷ ("method", str ("model-fleet.command." ⧺ state))
        ∷ ("id", event_id)
        ∷ (
          "params",
          obj (
              update
                (fields (
                  ("state", str state)
                  ∷ ("occurred_at", str now)
                  ∷ (if error == "" then [] else ("error", str (prefix 300 error)) ∷ [])))
                params),
        )
        ∷ []))

-- `Publisher.enqueue`
unfoldable pub enqueue :
    Oracle → (topic event_id now : String) → Command → (actor : String) → Action String
enqueue oracle topic event_id now command actor =
    K.◌>>=◌ (lift (validate_command (new_command event_id now command actor))) (λ params.
      K.◌>>=◌
        (call oracle (
          produce topic (new_command event_id now command actor)
            (command.kind ⧺ "/" ⧺ or_none command.namespace ⧺ "/" ⧺ or_none command.name)))
        (λ sent. K.pure event_id))
