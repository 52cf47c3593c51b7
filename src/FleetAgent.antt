-- ===== src/FleetAgent.antt =====
-- fleet_agent.py: the agent that operates the fleet, and its registration.
pub mod Card
pub mod Control
pub mod Operations
pub mod Register
use Prim.Native.Char.{code}
use model_fleet_operator.Prelude.{
  eqb, ℕ, zero, suc, String, Bool, true, false, not, ◌&&◌, Option, none, some, List, [], ◌∷◌, ◌==◌,
  if◌then◌else◌,
}
use model_fleet_operator.Python.Value.{
  Value, Fields, null, str, dict, obj, find, find_or, truthy, is_null,
}
use model_fleet_operator.Python.Text.{◌⧺◌}
use model_fleet_operator.Python.Object.{item}
use model_fleet_operator.Python.Library.{Library, show}
use model_fleet_operator.Python.Result.{
  Exception, Result, ok, err, value_error, key_error, http_error, raise_if, ◌>>=◌ as bind,
}
use model_fleet_operator.Kube.{Call, Oracle, Action, ◌>>=◌, pure, raise, lift, attempt, call, post}
use model_fleet_operator.Slack.Command.{Command, one_of}
use model_fleet_operator.Slack.Fleet.{apply}
use model_fleet_operator.Slack.Status.{status as fleet_status}
use model_fleet_operator.AgentRuntime.{Handlers}

-- `allowed[kind]`
unfoldable pub allowed_actions : (kind : String) → Result (List String)
allowed_actions kind =
    if kind == "inference"
    then ok ("wake" ∷ "auto" ∷ "sleep" ∷ [])
    else if kind == "training"
    then ok ("pause" ∷ "resume" ∷ "cancel" ∷ [])
    else if kind == "agent"
    then ok ("wake" ∷ "sleep" ∷ [])
    else err (key_error kind)

-- `str(params[k])`
abbrev pub text_param : Library → Fields → String → Result String
text_param lib params k = bind (item (obj params) k) λ v. ok (show lib v)

-- The command that the parameters of a control task ask for.
unfoldable pub requested : Library → (params : Fields) → (kind : String) → Result Command
unfolding allowed_actions show find_or truthy item
requested lib params kind =
    let action = show lib (find_or "action" (str "") params) in
    let stops = one_of action ("sleep" ∷ "cancel" ∷ []) in
    bind (allowed_actions kind) λ allowed.
      bind (raise_if (not (one_of action allowed)) (value_error ("invalid " ⧺ kind ⧺ " action")))
        λ _. bind (text_param lib params "namespace") λ namespace.
          bind (text_param lib params "name") λ name.
            let confirmed = stops && truthy (find_or "confirmed" null params) in
            bind
              (raise_if (stops && not confirmed)
                (value_error "destructive action requires confirmed=true"))
              λ _. ok (record {
                verb = action;
                kind = kind;
                namespace = some namespace;
                name = some name;
                confirmed = confirmed;
              })

-- `_control`
unfoldable pub control :
    Oracle → Library → (now : String) → (kind : String) → (params : Fields) → Action Value
unfolding requested show find_or apply
control oracle lib now kind params = do
  command ← lift (requested lib params kind)
  reply ← apply oracle now command (show lib (find_or "user_id" (str "agent-supervisor") params)) ""
  pure (dict (("status", str reply) ∷ []))

-- `_status`
unfoldable pub status : Oracle → Library → (profile : String) → (params : Fields) → Action Value
unfolding find_or fleet_status
status oracle lib profile params = do
  reply ← fleet_status oracle lib profile (find_or "namespace" null params)
  pure (dict (("status", str reply) ∷ []))

abbrev pub handlers : Oracle → Library → (now profile : String) → Handlers
handlers oracle lib now profile =
    ("fleet.status", status oracle lib profile)
    ∷ ("fleet.inference.control", control oracle lib now "inference")
    ∷ ("fleet.training.control", control oracle lib now "training")
    ∷ ("fleet.agent.control", control oracle lib now "agent")
    ∷ []

-- `s.rstrip(c)`
unfoldable pub rstrip_char : ℕ → String → String
rstrip_char c String.[] = String.[]
rstrip_char c (String.◌∷◌ d s) =
    let rest = rstrip_char c s in if eqb (code d) c && rest == "" then "" else String.◌∷◌ d rest

-- The `Authorization` header, or nothing where no token is configured.
abbrev pub authorization : (token : String) → String
authorization token = if token == "" then "" else "Bearer " ⧺ token

abbrev pub registration_post : (registry token : String) → (card : Value) → Call
registration_post registry token card =
    post (rstrip_char b'/' registry ⧺ "/registry/register") (authorization token) card

-- What follows an attempt: `httpx.HTTPError` is tried again.
abbrev pub tried : Action (Unit {0}) → Result Value → Action (Unit {0})
tried again (ok response) = pure tt
tried again (err http_error) = again
tried again (err e) = raise e

-- `for attempt in range(1, 6)`: `left` attempts remain.
unfoldable pub attempts : Oracle → Call → (left : ℕ) → Action (Unit {0})
attempts oracle c zero = pure tt
attempts oracle c (suc left) = do
  outcome ← attempt (call oracle c)
  tried (attempts oracle c left) outcome

-- `_register`
unfoldable pub register : Oracle → (registry token : String) → (card : Value) → Action (Unit {0})
unfolding rstrip_char attempts
register oracle registry token card = attempts oracle (registration_post registry token card) 5
