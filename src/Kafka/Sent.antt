-- ===== src/Kafka/Sent.antt =====
-- The commands which `new_command` makes are valid, and read back as they were.
use Prim.Native.Char.{Char}
use model_fleet_operator.Prelude.{
  String, ◌≡◌, refl, sym, ap, subst, inl, inr, Bool, true, false, not, ◌&&◌, ◌||◌, some, [], ◌∷◌,
  ◌==◌, arith, eq_refl, eq_iff,
}
use model_fleet_operator.Python.Value.{find, find_or, truthy}
use model_fleet_operator.Python.Text.{length_of, prefix}
use model_fleet_operator.Python.Object.{get, get_or}
use model_fleet_operator.Python.Equality.{same, units}
use model_fleet_operator.Python.Result.{ok}
use model_fleet_operator.Slack.Command.{Command, one_of, is_resource_name}
use model_fleet_operator.Slack.Parse.{fleet, parse_command}
use model_fleet_operator.Slack.Parse.Targets.{IsTarget, reading, parse_command-IsTarget}
use model_fleet_operator.Slack.Fleet.{needs_confirm}
use model_fleet_operator.Kafka.{
  valid_verbs, valid_kinds, in_set, validate_params, validate_command, new_command, command_params,
}
use model_fleet_operator.Worker.{text_item, command_of}

abbrev pub targeted : (verb kind namespace name : String) → Bool → Command
targeted verb kind namespace name confirmed = record {
  verb = verb;
  kind = kind;
  namespace = some namespace;
  name = some name;
  confirmed = confirmed;
}

abbrev empty : String → Bool
empty String.[] = true
empty (String.◌∷◌ c s) = false

not_true : (b : Bool) → (b ≡ true → true ≡ false) → b ≡ false
not_true true h = h refl
not_true false h = refl

cons-nonempty : (c : Char) (s : String) → (String.◌∷◌ c s == "") ≡ false
cons-nonempty c s = not_true _ (λ e. sym (ap empty ((eq_iff (String.◌∷◌ c s) "").0 e)))

prefix-nonempty : (actor : String) → (actor == "") ≡ false → (prefix 80 actor == "") ≡ false
unfolding prefix
prefix-nonempty String.[] h = absurd (ground arith)
prefix-nonempty (String.◌∷◌ c s) h = cons-nonempty c (prefix 79 s)

one_of_two :
    (verb a b : String) (c : Bool)
    → (one_of verb (a ∷ b ∷ []) && not c) ≡ false
    → ((verb == a || verb == b) && not c) ≡ false
one_of_two verb a b c h = ground arith

-- A confirmed command with a known verb and kind, a target, an actor and a 32 character identity
-- passes validation on the worker's side, and the worker reads back the same command.
pub new_command-round_trip :
    (event_id now actor verb kind namespace name : String) (confirmed : Bool)
    → length_of event_id ≡ 32
    → one_of verb valid_verbs ≡ true
    → one_of kind valid_kinds ≡ true
    → (namespace == "") ≡ false
    → (name == "") ≡ false
    → (actor == "") ≡ false
    → needs_confirm (targeted verb kind namespace name confirmed) ≡ false
    → let c = targeted verb kind namespace name confirmed in
      let params = command_params event_id now c actor in
      (validate_command (new_command event_id now c actor) ≡ ok params) × (command_of params ≡ ok c)
unfolding validate_command validate_params new_command get get_or find find_or same units in_set
    truthy command_of text_item
new_command-round_trip event_id now actor verb kind namespace name confirmed he hv hk hn hm ha hc =
    let written = prefix-nonempty actor ha in
    let whole = one_of_two verb "sleep" "cancel" confirmed hc in
    (rw (eq_refl, he, hv, hk, written, hn, hm, whole), refl)

name-nonempty : (name : String) → is_resource_name name ≡ true → (name == "") ≡ false
unfolding is_resource_name
name-nonempty String.[] h = absurd (ground arith)
name-nonempty (String.◌∷◌ c s) h = cons-nonempty c s

target_sent :
    (event_id now actor : String) (c : Command) (t : IsTarget c)
    → needs_confirm c ≡ false
    → length_of event_id ≡ 32
    → (actor == "") ≡ false
    → (validate_command (new_command event_id now c actor)
        ≡ ok (command_params event_id now c actor))
      × (command_of (command_params event_id now c actor) ≡ ok c)
target_sent event_id now actor c t confirmed he ha =
    let is_targeted : targeted c.verb c.kind t.namespace t.name c.confirmed ≡ c = λ i. record {
      verb = c.verb;
      kind = c.kind;
      namespace = (sym t.has_namespace) i;
      name = (sym t.has_name) i;
      confirmed = c.confirmed;
    } in
    subst
      (λ d.
        (validate_command (new_command event_id now d actor)
          ≡ ok (command_params event_id now d actor))
        × (command_of (command_params event_id now d actor) ≡ ok d))
      is_targeted
      (new_command-round_trip event_id now actor c.verb c.kind t.namespace t.name c.confirmed he
        t.verb_valid t.kind_valid t.namespace_nonempty (name-nonempty t.name t.name_valid) ha
        confirmed)

-- A workload command that is parsed from a message and confirmed where it stops compute, by a named
-- user, passes validation in the queue, and the worker reads back the command that was parsed.
pub parsed_command-IsSent :
    (text default_namespace event_id now actor : String) (c : Command)
    → parse_command text default_namespace ≡ ok (fleet c)
    → one_of c.verb reading ≡ false
    → needs_confirm c ≡ false
    → length_of event_id ≡ 32
    → (actor == "") ≡ false
    → (validate_command (new_command event_id now c actor)
        ≡ ok (command_params event_id now c actor))
      × (command_of (command_params event_id now c actor) ≡ ok c)
parsed_command-IsSent text default_namespace event_id now actor c parsed changes confirmed he ha =
    elim (parse_command-IsTarget text default_namespace c parsed) [
      | inl reads ↦ absurd (ground arith)
      | inr t ↦ target_sent event_id now actor c t confirmed he ha
    ]
