-- ===== src/Tests/Slack.antt =====
-- slack.py and cloud_quotas.py: the theorems at concrete inputs.
use model_fleet_operator.Python.FloatText.{to_float}
use model_fleet_operator.Slack.Quota.{not_positive}
use model_fleet_operator.Prelude.{
  eq_iff, arith, String, ◌≡◌, refl, ◌⊎◌, List, [], ◌∷◌, some, none, true, false, arith,
}
use model_fleet_operator.Python.Result.{ok, ok_or}
use model_fleet_operator.Python.FloatText.{nan}
use model_fleet_operator.Kube.{Call, pure}
use model_fleet_operator.Kube.Moves as Moves
use model_fleet_operator.Kube.Moves.{Moves, adds}
use model_fleet_operator.Slack.Command.{Command, one_of, is_resource_name}
use model_fleet_operator.Slack.Quota.{QuotaCommand, parse_quota_command, ends_confirmed}
use model_fleet_operator.Slack.Quota.Requests.{
  IsRequest, IsPositiveOrNan, parse_quota_command-IsRequest,
}
use model_fleet_operator.Slack.Parse.{parse_command, fleet, check_verb}
use model_fleet_operator.Slack.Parse.Targets.{IsTarget, reading, parse_command-IsTarget}
use model_fleet_operator.Slack.Fleet.{execute}
use model_fleet_operator.Slack.Fleet.Intents.{
  HasIntent, target-HasIntent, IsIntended, execute-IsIntended,
}
use model_fleet_operator.Slack.Handle.{Control, handle}
use model_fleet_operator.Slack.Handle.Guarded.{handle-IsGuarded}
use model_fleet_operator.Tests.Samples.{empty_cluster}

abbrev sleep_chat : Command
sleep_chat = record {
  verb = "sleep";
  kind = "inference";
  namespace = some "models";
  name = some "chat";
  confirmed = true;
}

parsed : parse_command "<@U1> Sleep models/chat CONFIRM" "default" ≡ ok (fleet sleep_chat)
unfolding parse_command
parsed = refl

parse_command-IsTarget_example : (one_of "sleep" reading ≡ true) ⊎ IsTarget sleep_chat
parse_command-IsTarget_example =
    parse_command-IsTarget "<@U1> Sleep models/chat CONFIRM" "default" sleep_chat parsed

target : IsTarget sleep_chat
unfolding is_resource_name check_verb
target = record {
  namespace = "models";
  name = "chat";
  has_namespace = refl;
  has_name = refl;
  namespace_nonempty = refl;
  name_valid = refl;
  verb_valid = refl;
  kind_valid = refl;
  training_only = λ h. absurd (ground arith);
  agent_only = λ h. absurd (let same = (eq_iff "inference" "agent").1 h in ground arith);
}

target-HasIntent_example : HasIntent sleep_chat
target-HasIntent_example = target-HasIntent sleep_chat target refl

execute-IsIntended_example :
    Moves
      (adds (IsIntended "now" sleep_chat "U1"))
      (execute empty_cluster "now" none sleep_chat "U1")
execute-IsIntended_example = execute-IsIntended empty_cluster "now" "U1" sleep_chat

abbrev quota_words : List String
quota_words = "quota" ∷ "aws" ∷ "ec2" ∷ "L-417A185B" ∷ "nan" ∷ "confirm" ∷ []

abbrev no_request : QuotaCommand
no_request = record {
  provider = "";
  service = "";
  quota = "";
  desired_value = nan;
  scope = "";
  dimensions = [];
  confirmed = false;
}

parse_quota_command-IsRequest_example :
    IsRequest (ends_confirmed quota_words) (ok_or no_request (parse_quota_command quota_words))
    × IsPositiveOrNan (ok_or no_request (parse_quota_command quota_words)).desired_value
unfolding parse_quota_command to_float not_positive
parse_quota_command-IsRequest_example =
    parse_quota_command-IsRequest quota_words (ok_or no_request (parse_quota_command quota_words))
      refl

-- A control that executes in the empty cluster, and reports nothing.
abbrev control : Control
control = record {
  status = λ namespace. pure "fine";
  execute = λ c actor. execute empty_cluster "now" none c actor;
  snapshot = none;
  cost_report = none;
  request_quota = none;
  agent_submit = none;
  default_namespace = "default";
  allowed_users = "U1, U2";
  allowed_channels = "C1";
}

-- Calls of confirmed commands with a valid target.
abbrev IsSure : Call → Type 0
IsSure made = (c : Command) × IsTarget c × IsIntended "now" c "U1" made

execute-IsSure :
    (c : Command) → IsTarget c → Moves (adds IsSure) (execute empty_cluster "now" none c "U1")
execute-IsSure c t =
    Moves.weaken (execute empty_cluster "now" none c "U1") (λ made h. (c, t, h))
      (execute-IsIntended empty_cluster "now" "U1" c)

handle-IsGuarded_example :
    Moves (adds IsSure) (handle control "sleep models/chat confirm" "U1" "C1")
handle-IsGuarded_example =
    handle-IsGuarded (adds IsSure) control "sleep models/chat confirm" "U1" "C1"
      (λ namespace. Moves.pure _ "fine") (λ f namespace e. absurd (ground arith))
      (λ f namespace e. absurd (ground arith)) (λ c _ _ t _. execute-IsSure c t)
      (λ f c e. absurd (ground arith)) (λ f c e. absurd (ground arith))
