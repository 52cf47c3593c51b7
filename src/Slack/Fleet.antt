-- ===== src/Slack/Fleet.antt =====
-- slack.py: `FleetClient.execute` and `FleetClient.apply`.
pub mod Intents
use model_fleet_operator.Prelude.{
  ℕ, String, Bool, true, false, not, ◌&&◌, Option, none, some, List, [], ◌∷◌, ◌++◌, ◌==◌,
  if◌then◌else◌,
}
use model_fleet_operator.Python.Value.{Value, Fields, null, bool, str, dict}
use model_fleet_operator.Python.Text.{◌⧺◌}
use model_fleet_operator.Python.Result.{Result, ok, err, key_error, ◌>>=◌ as bind}
use model_fleet_operator.Kube.{Call, Oracle, Action, ◌>>=◌, pure, lift, call, patch}
use model_fleet_operator.Kafka.{or_none_value}
use model_fleet_operator.Slack.Command.{Command, one_of, canonical}

abbrev pub annotations : (now actor event_id : String) → Value
annotations now actor event_id = dict (
    ("fleet.sqe.io/last-command-user", str actor)
    ∷ ("fleet.sqe.io/last-command-at", str now)
    ∷ (if event_id == "" then [] else ("fleet.sqe.io/last-command-id", str event_id) ∷ []))

unfoldable pub training_fields : String → Result Value
training_fields verb =
    if verb == "pause"
    then ok (dict (("suspend", bool true) ∷ []))
    else if verb == "resume"
    then ok (dict (("suspend", bool false) ∷ []))
    else if verb == "cancel"
    then ok (dict (("cancelled", bool true) ∷ []))
    else err (key_error verb)

unfoldable pub inference_fields : String → Result Value
inference_fields verb =
    if verb == "wake"
    then ok (dict (("suspend", bool false) ∷ ("forceActive", bool true) ∷ []))
    else if verb == "auto"
    then ok (dict (("suspend", bool false) ∷ ("forceActive", bool false) ∷ []))
    else if verb == "sleep"
    then ok (dict (("suspend", bool true) ∷ ("forceActive", bool false) ∷ []))
    else err (key_error verb)

-- `plural` and `fields`.
unfoldable pub intent : Command → Result (String × Value)
unfolding training_fields inference_fields
intent command =
    if command.kind == "training"
    then bind (training_fields command.verb) (λ fs. ok ("fleet.sqe.io/v1alpha1/trainingruns", fs))
    else if command.kind == "agent"
    then ok (
      "fleet.sqe.io/v1alpha1/agentregistrations",
      dict (("suspend", bool (command.verb == "sleep")) ∷ []),
    )
    else bind (inference_fields command.verb)
        (λ fs. ok ("fleet.sqe.io/v1alpha1/inferenceservices", fs))

abbrev pub intent_patch : (now : String) → Command → (actor event_id plural : String) → Value → Call
intent_patch now command actor event_id plural fs =
    patch plural (or_none_value command.namespace) (or_none_value command.name) (
      dict (
        ("metadata", dict (("annotations", annotations now actor event_id) ∷ []))
        ∷ ("spec", fs)
        ∷ []))

unfoldable pub apply : Oracle → (now : String) → Command → (actor event_id : String) → Action String
unfolding intent canonical
apply oracle now command actor event_id = do
  (plural, fs) ← lift (intent command)
  patched ← call oracle (intent_patch now command actor event_id plural fs)
  pure ("Accepted `" ⧺ canonical command ⧺ "`. The operator is reconciling it now.")

-- `command.verb in {"sleep", "cancel"} and not command.confirmed`
abbrev pub needs_confirm : Command → Bool
needs_confirm command = one_of command.verb ("sleep" ∷ "cancel" ∷ []) && not command.confirmed

abbrev pub confirm_message : Command → String
confirm_message command =
    "This stops compute. Repeat with `confirm`: `" ⧺ canonical command ⧺ " confirm`"

-- The publisher's `enqueue`, where there is a publisher.
abbrev pub Publisher : Type 0
Publisher = Option (Command → String → Action String)

abbrev publish_or_apply : Oracle → String → Publisher → Command → String → Action String
publish_or_apply oracle now none command actor = apply oracle now command actor ""
publish_or_apply oracle now (some enqueue) command actor = do
  event_id ← enqueue command actor
  pure ("Queued `" ⧺ canonical command ⧺ "` as `" ⧺ event_id ⧺ "`.")

unfoldable pub execute :
    Oracle → (now : String) → Publisher → Command → (actor : String) → Action String
unfolding canonical apply
execute oracle now publisher command actor =
    if needs_confirm command
    then pure (confirm_message command)
    else publish_or_apply oracle now publisher command actor
