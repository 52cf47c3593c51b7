-- ===== src/Worker.antt =====
-- command_worker.py: `process`, and what `main` does with one message of the command topic. The
-- pauses between attempts change no state and are left out, as is the logging.
pub mod Commits
pub mod Poison
pub mod Progress
pub mod Retries
use model_fleet_operator.Prelude.{
  ℕ, zero, suc, String, Bool, true, false, not, ◌&&◌, ◌||◌, Option, none, some, List, [], ◌∷◌, eqb,
  ◌==◌, if◌then◌else◌,
}
use model_fleet_operator.Python.Value.{
  Value, Fields, null, str, obj, end, dict, find, find_or, truthy,
}
use model_fleet_operator.Python.Text.{◌⧺◌, decimal, prefix}
use model_fleet_operator.Python.Library.{Library, show}
use model_fleet_operator.Python.Object.{item, get_or}
use model_fleet_operator.Python.Result.{
  Exception, Result, ok, err, value_error, type_error, api_error, key_error, ◌>>=◌ as bind,
}
use model_fleet_operator.Kafka.{validate_command, event_payload}
use model_fleet_operator.Slack.Command.{Command}
use model_fleet_operator.Slack.Fleet.{apply}
use model_fleet_operator.Kube.{
  Oracle, Action, Metric, ◌>>=◌, ◌>>◌, pure, raise, lift, attempt, call, count_metric, produce,
  commit, command,
}

-- `KafkaConfig` as far as the worker reads it, and what the clock and `str` of an error answer: `now` is the
-- text of `datetime.now`, `clock` the number of `time.time()`.
pub record Settings : Type 0 where
  pub event_topic : String
  pub dlq_topic : String
  pub max_attempts : ℕ
  pub now : String
  pub clock : Value
  pub describe : Exception → String

abbrev pub as_text : String → Option Value → Result String
as_text k none = err (key_error k)
as_text k (some (str s)) = ok s
as_text k (some v) = err type_error

-- `str(error)`: `describe` gives the texts that Python makes itself.
abbrev pub error_text : Settings → Exception → String
error_text settings (value_error message) = message
error_text settings e = settings.describe e

-- `params[k]` where a text is expected; a validated command holds no other.
unfoldable pub text_item : Fields → String → Result String
text_item params k = as_text k (find k params)

unfoldable pub command_of : Fields → Result Command
unfolding text_item find_or truthy
command_of params = bind (text_item params "verb") λ verb. bind (text_item params "kind") λ kind.
    bind (text_item params "namespace") λ namespace. bind (text_item params "name") λ name.
      ok (record {
        verb = verb;
        kind = kind;
        namespace = some namespace;
        name = some name;
        confirmed = truthy (find_or "confirmed" null params);
      })

unfoldable pub process : Oracle → (now : String) → (payload : Value) → Action Fields
unfolding validate_command command_of text_item apply
process oracle now payload = do
  params ← lift (validate_command payload)
  requested ← lift (command_of params)
  actor ← lift (text_item params "actor")
  event_id ← lift (text_item params "event_id")
  reply ← apply oracle now requested actor event_id
  pure params

-- The statuses that are not tried again.
abbrev pub is_final : ℕ → Bool
is_final status = eqb status 400 || eqb status 403 || eqb status 404 || eqb status 422

abbrev pub describe_api : ℕ → String → String
describe_api status reason = "Kubernetes HTTP " ⧺ decimal status ⧺ ": " ⧺ reason

-- After an attempt: `again` is the rest of the loop, from the new `terminal_error`.
unfoldable pub after :
    (params : Fields) (is_last : Bool) (terminal_error : String)
    (again : String → Action (Fields × String))
    → Result Fields
    → Action (Fields × String)
unfolding decimal
after params is_last terminal_error again (ok processed) = pure (processed, terminal_error)
after params is_last terminal_error again (err (api_error status reason body)) =
    if is_final status || is_last
    then pure (params, describe_api status reason)
    else again (describe_api status reason)
after params is_last terminal_error again (err e) = raise e

-- `for attempt in range(1, config.max_attempts + 1)`: `left` attempts remain. It returns `params`
-- and `terminal_error` as the loop leaves them.
unfoldable pub retry :
    Oracle
    → (now : String) → (payload : Value) → Fields
    → (left : ℕ) → (terminal_error : String) → Action (Fields × String)
unfolding process after
retry oracle now payload params zero terminal_error = pure (params, terminal_error)
retry oracle now payload params (suc left) terminal_error = do
  outcome ← attempt (process oracle now payload)
  after params (eqb left 0) terminal_error (retry oracle now payload params left) outcome

-- The message that goes to the dead-letter topic.
abbrev pub dead_letter : (clock payload : Value) → (error : String) → Value
dead_letter clock payload error =
    dict
      (("command", payload) ∷ ("error", str (prefix 300 error)) ∷ ("dead_lettered_at", clock) ∷ [])

module _ (lib : Library) (oracle : Oracle) (settings : Settings) where
  abbrev pub key_of : Value → Result String
  key_of payload =
      bind (get_or (if truthy payload then payload else obj end) "id" (str "invalid"))
        (λ id. ok (show lib id))

  -- An invalid message: `payload` is `None` where it is not even JSON.
  unfoldable pub reject : (payload : Value) → Exception → Action (Unit {0})
  unfolding show get_or truthy
  reject payload e = do
    key ← lift (key_of payload)
    sent ← call oracle (
        produce settings.dlq_topic (dead_letter settings.clock payload (error_text settings e)) key)
    count_metric (command "invalid")
    committed ← call oracle commit
    pure tt

  -- The outcome of the attempts, published and committed.
  unfoldable pub settle : (payload : Value) → Fields → (terminal_error : String) → Action (Unit {0})
  unfolding show item event_payload
  settle payload params terminal_error =
      if not (terminal_error == "")
      then (do
        event_id ← lift (item (obj params) "event_id")
        sent ← call oracle (
            produce settings.dlq_topic (dead_letter settings.clock payload terminal_error)
              (show lib event_id))
        count_metric (command "rejected")
        committed ← call oracle commit
        pure tt)
      else (do
        event ← lift (event_payload settings.now params "applied" "")
        event_id ← lift (item (obj params) "event_id")
        sent ← call oracle (produce settings.event_topic event (show lib event_id))
        count_metric (command "applied")
        committed ← call oracle commit
        pure tt)

  unfoldable pub accept : (payload : Value) → Fields → Action (Unit {0})
  unfolding settle retry
  accept payload params = do
    (last, terminal_error) ← retry oracle settings.now payload params settings.max_attempts ""
    settle payload last terminal_error

  -- `except (ValueError, TypeError, json.JSONDecodeError)`
  unfoldable pub checked : (payload : Value) → Result Fields → Action (Unit {0})
  unfolding reject accept
  checked payload (ok params) = accept payload params
  checked payload (err (value_error message)) = reject payload (value_error message)
  checked payload (err type_error) = reject payload type_error
  checked payload (err e) = raise e

  -- One message: `loaded` is `json.loads(message.value())`.
  unfoldable pub handle_message : (loaded : Result Value) → Action (Unit {0})
  unfolding checked validate_command
  handle_message (err e) = checked null (err e)
  handle_message (ok payload) = checked payload (validate_command payload)
