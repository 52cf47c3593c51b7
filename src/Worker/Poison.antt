-- ===== src/Worker/Poison.antt =====
-- Valid messages that the worker cannot finish.
use model_fleet_operator.Prelude.{
  ℕ, suc, String, ◌≡◌, refl, inl, inr, Bool, true, false, [], ◌∷◌, ◌==◌, arith,
}
use model_fleet_operator.Python.Value.{Value, Fields, find}
use model_fleet_operator.Python.Text.{length_of, prefix}
use model_fleet_operator.Python.Library.{Library}
use model_fleet_operator.Python.Result.{ok, err, key_error}
use model_fleet_operator.Slack.Command.{Command, one_of, one_of-cons}
use model_fleet_operator.Slack.Fleet.{needs_confirm, apply, intent, training_fields}
use model_fleet_operator.Kafka.{valid_verbs, new_command, command_params, validate_command}
use model_fleet_operator.Kafka.Sent.{targeted, new_command-round_trip}
use model_fleet_operator.Kube.{Oracle, State, ◌>>=◌, raise, lift, attempt}
use model_fleet_operator.Worker.{
  Settings, text_item, command_of, process, after, retry, accept, checked, handle_message,
}

among_verbs :
    (verb : String)
    → one_of verb ("wake" ∷ "auto" ∷ "sleep" ∷ []) ≡ true
    → one_of verb valid_verbs ≡ true
among_verbs verb h = ground arith

training_fields-none :
    (verb : String)
    → one_of verb ("wake" ∷ "auto" ∷ "sleep" ∷ []) ≡ true
    → training_fields verb ≡ err (key_error verb)
unfolding training_fields
training_fields-none verb h = elim (one_of-cons verb "wake" ("auto" ∷ "sleep" ∷ []) h) [
  | inl wake_ ↦ rw wake_
  | inr h1 ↦ elim (one_of-cons verb "auto" ("sleep" ∷ []) h1) [
    | inl auto_ ↦ rw auto_
    | inr h2 ↦ elim (one_of-cons verb "sleep" [] h2) [ inl sleep_ ↦ rw sleep_ | inr h3 ↦ cc ]
  ]
]

intent-none :
    (verb namespace name : String) (confirmed : Bool)
    → one_of verb ("wake" ∷ "auto" ∷ "sleep" ∷ []) ≡ true
    → intent (targeted verb "training" namespace name confirmed) ≡ err (key_error verb)
unfolding intent
intent-none verb namespace name confirmed h = rw (training_fields-none verb h)

process-none :
    (oracle : Oracle) (now : String) (payload : Value) (params : Fields) (command : Command)
    (actor event_id key : String) (s : State)
    → validate_command payload ≡ ok params
    → command_of params ≡ ok command
    → text_item params "actor" ≡ ok actor
    → text_item params "event_id" ≡ ok event_id
    → intent command ≡ err (key_error key)
    → process oracle now payload s ≡ (err (key_error key), s)
unfolding process apply ◌>>=◌ lift
process-none oracle now payload params command actor event_id key s hv hc ha he hi =
    rw (hv, hc, ha, he, hi)

handle_message-raises :
    (lib : Library) (oracle : Oracle) (settings : Settings) (left : ℕ) (payload : Value)
    (params : Fields) (key : String) (s : State)
    → settings.max_attempts ≡ suc left
    → validate_command payload ≡ ok params
    → process oracle settings.now payload s ≡ (err (key_error key), s)
    → handle_message lib oracle settings (ok payload) s ≡ (err (key_error key), s)
unfolding handle_message checked accept retry after ◌>>=◌ attempt raise
handle_message-raises lib oracle settings left payload params key s hm hv hp = rw (hv, hm, hp)

-- A valid command to wake, auto-scale or sleep a training run makes the worker raise `KeyError`: no
-- call is made, so the message is neither dead-lettered nor committed. Valid means a 32 character
-- identity, a target, an actor, and a confirmation of a sleep; at least one attempt is configured.
pub handle_message-poison :
    (lib : Library) (oracle : Oracle) (settings : Settings) (left : ℕ)
    (event_id now actor verb namespace name : String) (confirmed : Bool) (s : State)
    → settings.max_attempts ≡ suc left
    → length_of event_id ≡ 32
    → one_of verb ("wake" ∷ "auto" ∷ "sleep" ∷ []) ≡ true
    → (namespace == "") ≡ false
    → (name == "") ≡ false
    → (actor == "") ≡ false
    → needs_confirm (targeted verb "training" namespace name confirmed) ≡ false
    → let c = targeted verb "training" namespace name confirmed in
      handle_message lib oracle settings (ok (new_command event_id now c actor)) s
      ≡ (err (key_error verb), s)
unfolding text_item find
handle_message-poison lib oracle settings left event_id now actor verb namespace name confirmed s hm
      he hv hn hp ha hc =
    let c = targeted verb "training" namespace name confirmed in
    let (valid, is_read) =
      new_command-round_trip event_id now actor verb "training" namespace name confirmed he
        (among_verbs verb hv) refl hn hp ha hc in
    handle_message-raises lib oracle settings left (new_command event_id now c actor)
      (command_params event_id now c actor) verb s hm valid
      (process-none oracle settings.now _ _ c (prefix 80 actor) event_id verb s valid is_read refl
        refl (intent-none verb namespace name confirmed hv))
