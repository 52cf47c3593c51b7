-- ===== src/Worker/Commits.antt =====
-- When a message is committed.
use model_fleet_operator.Prelude.{String, ◌≡◌, List, [], ◌∷◌, ◌++◌, ◌==◌, false, some}
use model_fleet_operator.Python.Value.{Value, Fields, obj, str, dict, find, find_or, truthy, at}
use model_fleet_operator.Python.Text.{prefix}
use model_fleet_operator.Python.Library.{Library, show}
use model_fleet_operator.Python.Result.{Exception, Result, ok, err, ◌>>=◌ as bind}
use model_fleet_operator.Kube.{Call, Oracle, State, ◌>>=◌, produce, commit}
use model_fleet_operator.Worker.{Settings, retry, error_text}

-- The `id` of a payload that is a dictionary; `invalid` where it has none or is nothing.
abbrev pub HasKey : Library → (payload : Value) → (key : String) → Type 0
HasKey lib (obj fs) key = key ≡ show lib (find_or "id" (str "invalid") fs)
HasKey lib payload key = (truthy payload ≡ false) × (key ≡ "invalid")

-- What goes to the dead-letter topic: the payload itself and the beginning of the error.
abbrev pub IsDeadLetter :
    Settings → (payload : Value) → (error : String) → (letter : Value) → Type 0
IsDeadLetter settings payload error letter =
    letter
    ≡ dict (
        ("command", payload)
        ∷ ("error", str (prefix 300 error))
        ∷ ("dead_lettered_at", settings.clock)
        ∷ [])

-- The message about a payload on a topic under a key. An invalid payload is dead-lettered with the error.
-- A valid one is, after its attempts, dead-lettered with the last error if there is one, and otherwise
-- announced as applied.
pub data IsReport (lib : Library) (oracle : Oracle) (settings : Settings) (payload : Value)
    (checked_ : Result Fields) (s : State)
    : (topic : String) → (message : Value) → (key : String) → Type 0 where
  invalid_ :
      (e : Exception) (letter : Value) (key : String)
      → checked_ ≡ err e
      → IsDeadLetter settings payload (error_text settings e) letter
      → HasKey lib payload key
      → IsReport lib oracle settings payload checked_ s settings.dlq_topic letter key
  rejected :
      (params last : Fields) (error : String) (letter event_id : Value)
      → checked_ ≡ ok params
      → (retry oracle settings.now payload params settings.max_attempts "" s).0 ≡ ok (last, error)
      → (error == "") ≡ false
      → IsDeadLetter settings payload error letter
      → find "event_id" last ≡ some event_id
      → IsReport lib oracle settings payload checked_ s settings.dlq_topic letter
          (show lib event_id)
  applied :
      (params last : Fields) (event event_id : Value)
      → checked_ ≡ ok params
      → (retry oracle settings.now payload params settings.max_attempts "" s).0 ≡ ok (last, "")
      → at ("method" ∷ []) event ≡ some (str "model-fleet.command.applied")
      → at ("id" ∷ []) event ≡ some event_id
      → find "event_id" last ≡ some event_id
      → IsReport lib oracle settings payload checked_ s settings.event_topic event
          (show lib event_id)

-- The last two calls are the report on the payload, which was delivered, and the commit.
pub record Committed (lib : Library) (oracle : Oracle) (settings : Settings) (payload : Value)
    (checked_ : Result Fields) (s t : State) : Type 0 where
  pub before : List Call
  pub topic : String
  pub message : Value
  pub key : String
  pub answer : Value
  pub about : IsReport lib oracle settings payload checked_ s topic message key
  pub delivered : oracle before (produce topic message key) ≡ ok answer
  pub calls : t.calls ≡ (before ++ produce topic message key ∷ []) ++ commit ∷ []
