-- ===== src/Worker/Progress.antt =====
-- That the worker gets a command done.
use mathlib.Core.List.{append_assoc}
use model_fleet_operator.Prelude.{
  ℕ, suc, String, ◌≡◌, refl, ap, ◌∙◌, Option, none, some, List, [], ◌∷◌, ◌++◌, arith,
}
use model_fleet_operator.Python.Value.{Value, Fields, null, bool, int, float, str, arr, obj, find}
use model_fleet_operator.Python.Library.{Library, show}
use model_fleet_operator.Python.Object.{item}
use model_fleet_operator.Python.Result.{Result, ok, ok-injective, ◌>>=◌ as bind}
use model_fleet_operator.Kube.{
  Call, Oracle, State, ◌>>=◌, pure, lift, attempt, call, count_metric, produce, commit, command,
}
use model_fleet_operator.Kube.Runs.{called}
use model_fleet_operator.Kafka.{validate_command, event_payload}
use model_fleet_operator.Kafka.Commands.{validate_command-IsCommand}
use model_fleet_operator.Slack.Command.{Command}
use model_fleet_operator.Slack.Fleet.{apply, intent, intent_patch}
use model_fleet_operator.Worker.{
  Settings, as_text, text_item, command_of, process, after, retry, settle, accept, checked,
  handle_message,
}

-- What is done for a command when the worker is done with its message.
pub record Applied (oracle : Oracle) (settings : Settings) (params : Fields) (c : Command)
    (s t : State) : Type 0 where
  pub actor : String
  pub event_id : String
  pub plural : String
  pub changed : Value
  pub intended : intent c ≡ ok (plural, changed)
  pub event : Value
  pub event_of : event_payload settings.now params "applied" "" ≡ ok event
  pub calls :
      t.calls
      ≡ s.calls
        ++ intent_patch settings.now c actor event_id plural changed
          ∷ produce settings.event_topic event event_id
          ∷ commit
          ∷ []

as_text-ok :
    (k : String) (found : Option Value) (s : String) → as_text k found ≡ ok s → found ≡ some (str s)
as_text-ok k none s h = absurd (ground arith)
as_text-ok k (some (str t)) s h = ap (λ x. some (str x)) (ok-injective h)
as_text-ok k (some null) s h = absurd (ground arith)
as_text-ok k (some (bool b)) s h = absurd (ground arith)
as_text-ok k (some (int n)) s h = absurd (ground arith)
as_text-ok k (some (float n)) s h = absurd (ground arith)
as_text-ok k (some (arr n)) s h = absurd (ground arith)
as_text-ok k (some (obj n)) s h = absurd (ground arith)

item-text :
    (params : Fields) (k s : String) → text_item params k ≡ ok s → item (obj params) k ≡ ok (str s)
unfolding text_item item
item-text params k s h = rw (item, as_text-ok k (find k params) s h) refl

process-applies :
    (oracle : Oracle) (now : String) (payload : Value) (params : Fields) (c : Command)
    (actor event_id plural : String) (changed v : Value) (s : State)
    → validate_command payload ≡ ok params
    → command_of params ≡ ok c
    → text_item params "actor" ≡ ok actor
    → text_item params "event_id" ≡ ok event_id
    → intent c ≡ ok (plural, changed)
    → oracle s.calls (intent_patch now c actor event_id plural changed) ≡ ok v
    → process oracle now payload s
      ≡ (ok params, called (intent_patch now c actor event_id plural changed) s)
unfolding process apply ◌>>=◌ lift call pure
process-applies oracle now payload params c actor event_id plural changed v s hv hc ha he hi ho =
    rw (hv, hc, ha, he, hi, ho) refl

mapped :
    (r : Result Value) (v : Value) (f : Value → Value)
    → r ≡ ok v
    → (w : Value) × (bind r (λ x. ok (f x)) ≡ ok w)
mapped r v f h = (f v, ap (λ x. bind x (λ y. ok (f y))) h)

event_payload-ok :
    (now event_id : String) (params : Fields)
    → text_item params "event_id" ≡ ok event_id
    → (event : Value) × (event_payload now params "applied" "" ≡ ok event)
unfolding event_payload
event_payload-ok now event_id params h =
    mapped (item (obj params) "event_id") (str event_id) _ (item-text params "event_id" event_id h)

-- A message whose command is valid and has fields to patch is done at the first attempt, if the API
-- server and Kafka accept every call and at least one attempt is configured: the worker returns, and has
-- patched the resource, delivered the event that the command is applied, and committed the message, in
-- this order and nothing else.
pub handle_message-Applied :
    (lib : Library) (oracle : Oracle) (settings : Settings) (left : ℕ) (payload : Value)
    (params : Fields) (c : Command) (plural : String) (changed : Value) (s : State)
    → settings.max_attempts ≡ suc left
    → validate_command payload ≡ ok params
    → command_of params ≡ ok c
    → intent c ≡ ok (plural, changed)
    → ((before : List Call) (made : Call) → (v : Value) × (oracle before made ≡ ok v))
    → (t : State) × (handle_message lib oracle settings (ok payload) s ≡ (ok tt, t))
      × Applied oracle settings params c s t
unfolding handle_message checked accept retry after settle ◌>>=◌ attempt lift call pure count_metric
    show
handle_message-Applied lib oracle settings left payload params c plural changed s hm hv hc hi
      answers =
    let known = (validate_command-IsCommand payload params hv).1 in
    let patched = intent_patch settings.now c known.actor known.event_id plural changed in
    let (event, he) = event_payload-ok settings.now known.event_id params known.has_event_id in
    let sent = produce settings.event_topic event known.event_id in
    let a = answers s.calls patched in
    let b = answers (s.calls ++ patched ∷ []) sent in
    let d = answers ((s.calls ++ patched ∷ []) ++ sent ∷ []) commit in
    (
      record s {
        calls = ((s.calls ++ patched ∷ []) ++ sent ∷ []) ++ commit ∷ [];
        metrics = s.metrics ++ command "applied" ∷ [];
      },
      rw
          (
            hv,
            hm,
            process-applies oracle settings.now payload params c known.actor known.event_id plural
                changed a.0 s hv hc known.has_actor known.has_event_id hi a.1,
            he,
            item-text params "event_id" known.event_id known.has_event_id,
            b.1,
            d.1,
          )
          refl,
      record {
        actor = known.actor;
        event_id = known.event_id;
        plural = plural;
        changed = changed;
        intended = hi;
        event = event;
        event_of = he;
        calls =
            append_assoc (s.calls ++ patched ∷ []) (sent ∷ []) (commit ∷ [])
            ∙ append_assoc s.calls (patched ∷ []) (sent ∷ commit ∷ []);
      },
    )
