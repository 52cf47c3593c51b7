-- ===== src/Slack/Parse.antt =====
-- slack.py: `parse_command`.
pub mod Targets
pub mod Words
use model_fleet_operator.Prelude.{
  ℕ, String, Bool, true, false, not, ◌&&◌, ◌||◌, Option, none, some, List, [], ◌∷◌, eqb, ◌==◌,
  if◌then◌else◌,
}
use model_fleet_operator.Python.Text.{◌⧺◌, lower, strip, cut, join}
use model_fleet_operator.Python.Result.{
  Exception, Result, ok, err, ◌>>=◌, ◌>>◌, raise_if, value_error,
}
use model_fleet_operator.Python.Shlex.{shlex_split}
use model_fleet_operator.Slack.Command.{
  Command, AgentCommand, plain, one_of, is_skill, is_resource_name, without_mentions,
}
use model_fleet_operator.Slack.Quota.{QuotaCommand, parse_quota_command}

-- `Command | AgentCommand | QuotaCommand`
pub data Parsed : Type 0 where
  fleet : Command → Parsed
  agent : AgentCommand → Parsed
  quota : QuotaCommand → Parsed

-- `parts[1] if len(parts) > 1 else None`
abbrev first : List String → Option String
first [] = none
first (p ∷ ps) = some p

unfoldable pub run_command : List String → Result Parsed
run_command [] = err (value_error "run requires a skill ID and prompt")
run_command (skill ∷ []) = err (value_error "run requires a skill ID and prompt")
run_command (skill ∷ words) =
    if is_skill skill
    then ok (agent (record { skill = skill; prompt = join " " words }))
    else err (value_error "skill must use lowercase letters, numbers, dots, dashes, or underscores")

abbrev pub kind_word : String → Option String
kind_word word =
    if one_of word ("training" ∷ "train" ∷ [])
    then some "training"
    else if one_of word ("agent" ∷ "agents" ∷ [])
    then some "agent"
    else none

abbrev pub with_kind : String → List String → Option String → String × List String
with_kind p ps none = ("inference", p ∷ ps)
with_kind p ps (some kind) = (kind, ps)

-- The kind, and the arguments from `position` on.
unfoldable pub kind_of : List String → String × List String
unfolding lower
kind_of [] = ("inference", [])
kind_of (p ∷ ps) = with_kind p ps (kind_word (lower p))

-- The three checks of verb and kind.
unfoldable pub check_verb : (verb kind : String) → Result (Unit {0})
check_verb verb kind = do
  raise_if (one_of verb ("pause" ∷ "resume" ∷ "cancel" ∷ []) && not (kind == "training"))
      (value_error ("usage: " ⧺ verb ⧺ " training <namespace/name>"))
  raise_if (kind == "agent" && not (one_of verb ("wake" ∷ "sleep" ∷ [])))
      (value_error ("usage: " ⧺ verb ⧺ " is not supported for agents; use wake or sleep"))
  raise_if (not (one_of verb ("wake" ∷ "auto" ∷ "sleep" ∷ "pause" ∷ "resume" ∷ "cancel" ∷ [])))
      (value_error ("unknown command: " ⧺ verb))

abbrev or_default : String → String → Option (String × String) → String × String
or_default default_namespace word none = (default_namespace, word)
or_default default_namespace word (some pair) = pair

-- The namespace and name of `target`.
unfoldable pub target_of : (default_namespace word : String) → String × String
unfolding cut
target_of default_namespace word = or_default default_namespace word (cut b'/' word)

-- `"confirm" in {part.lower() for part in ...}`
unfoldable pub has_confirm : List String → Bool
unfolding lower
has_confirm [] = false
has_confirm (p ∷ ps) = lower p == "confirm" || has_confirm ps

unfoldable pub target_command : (verb kind default_namespace : String) → List String → Result Parsed
unfolding target_of has_confirm is_resource_name
target_command verb kind default_namespace [] =
    err (value_error (verb ⧺ " requires a namespace/name target"))
target_command verb kind default_namespace (word ∷ rest) =
    let (namespace, name) = target_of default_namespace word in
    raise_if (namespace == "" || name == "" || not (is_resource_name name))
      (value_error "target must be namespace/name using Kubernetes resource names")
    >>= λ _. ok (
        fleet (record {
          verb = verb;
          kind = kind;
          namespace = some namespace;
          name = some name;
          confirmed = has_confirm rest;
        }))

unfoldable pub workload_command : (verb default_namespace : String) → List String → Result Parsed
unfolding kind_of check_verb target_command
workload_command verb default_namespace arguments =
    let (kind, rest) = kind_of arguments in
    check_verb verb kind >>= λ _. target_command verb kind default_namespace rest

unfoldable pub parse_parts : (default_namespace : String) → List String → Result Parsed
unfolding lower run_command workload_command parse_quota_command
parse_parts default_namespace [] = ok (fleet (plain "help" none))
parse_parts default_namespace (p ∷ arguments) =
    let verb = lower p in
    if one_of verb ("help" ∷ "?" ∷ [])
    then ok (fleet (plain "help" none))
    else if one_of verb ("status" ∷ "list" ∷ "ls" ∷ [])
    then ok (fleet (plain "status" (first arguments)))
    else if one_of verb ("cost" ∷ "expenses" ∷ "spend" ∷ [])
    then ok (fleet (plain "cost" (first arguments)))
    else if one_of verb ("snapshot" ∷ "picture" ∷ [])
    then ok (fleet (plain "snapshot" (first arguments)))
    else if verb == "quota"
    then (do command ← parse_quota_command (p ∷ arguments); ok (quota command))
    else if verb == "run"
    then run_command arguments
    else workload_command verb default_namespace arguments

abbrev parts_or_raise : Result (List String) → Result (List String)
parts_or_raise (err (value_error message)) =
    err (value_error ("could not parse command: " ⧺ message))
parts_or_raise r = r

unfoldable pub parse_command : (text default_namespace : String) → Result Parsed
unfolding without_mentions strip shlex_split parse_parts
parse_command text default_namespace = do
  parts ← parts_or_raise (shlex_split (strip (without_mentions text)))
  parse_parts default_namespace parts
