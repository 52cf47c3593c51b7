-- ===== src/Slack/Handle.antt =====
-- slack.py: `_allowed` and `handle`.
pub mod Guarded
use model_fleet_operator.Prelude.{
  ℕ, String, Bool, true, false, not, ◌&&◌, ◌||◌, Option, none, some, List, [], ◌∷◌, ◌==◌, eqb,
  if◌then◌else◌,
}
use model_fleet_operator.Python.Text.{◌⧺◌, strip, split, join, decimal}
use model_fleet_operator.Python.Result.{
  Exception, Result, ok, err, value_error, api_error, http_error, quota_error,
}
use model_fleet_operator.Kube.{Action, ◌>>=◌, pure, raise, lift, try}
use model_fleet_operator.Slack.Command.{Command, AgentCommand, one_of, or_none}
use model_fleet_operator.Slack.Quota.{QuotaCommand}
use model_fleet_operator.Slack.Parse.{Parsed, fleet, agent, quota, parse_command}
use model_fleet_operator.Slack.Fleet.{needs_confirm, confirm_message}

abbrev help : String
help = join "\n" (
    "*Model Fleet*" ∷ "`status [namespace]` — inference, training, and GPU capacity"
    ∷ "`cost [namespace]` — current spend, token volume, and GPU utilization"
    ∷ "`snapshot [namespace]` — upload the unified Model Fleet Grafana dashboard"
    ∷ "`wake <namespace/name>` — keep at least one inference replica active"
    ∷ "`wake agent <namespace/name>` — start a managed agent Deployment"
    ∷ "`auto <namespace/name>` — return inference to KEDA control"
    ∷ "`sleep <namespace/name> confirm` — scale inference to zero"
    ∷ "`sleep agent <namespace/name> confirm` — scale a managed agent to zero"
    ∷ "`run <skill> <prompt>` — route a specialist-agent task through Kafka"
    ∷ "`pause training <namespace/name>` — suspend a training Job"
    ∷ "`resume training <namespace/name>` — resume a training Job"
    ∷ "`cancel training <namespace/name> confirm` — terminate a training run"
    ∷ "`quota aws <service-code> <quota-code> <value> [region] confirm` — request AWS quota"
    ∷ "`quota gcp <project-number> <service> <quota-id> <value> [key=value ...] confirm`"
    ∷ "    — request GCP quota" ∷ "`help`" ∷ [])

-- `{item.strip() for item in configured.split(",") if item.strip()}`
unfoldable pub stripped : List String → List String
unfolding strip
stripped [] = []
stripped (p ∷ ps) = if strip p == "" then stripped ps else strip p ∷ stripped ps

abbrev empty_list : List String → Bool
empty_list [] = true
empty_list (p ∷ ps) = false

unfoldable pub allowed : (value configured : String) → Bool
unfolding stripped split
allowed value configured =
    let entries = stripped (split b',' configured) in empty_list entries || one_of value entries

-- What `handle` is given: the two methods of the fleet client that it uses, and the optional
-- services, with their settings.
pub record Control : Type 0 where
  pub status : Option String → Action String
  pub execute : Command → (actor : String) → Action String
  pub snapshot : Option (Option String → (channel_id : String) → Action String)
  pub cost_report : Option (Option String → Action String)
  pub request_quota : Option (QuotaCommand → Action String)
  pub agent_submit : Option ((skill prompt user_id : String) → Action String)
  pub default_namespace : String
  pub allowed_users : String
  pub allowed_channels : String

-- `except Exception`
abbrev any_error : String → Exception → Action String
any_error reply e = pure reply

abbrev agent_error : Exception → Action String
agent_error http_error = pure "The agent supervisor could not accept the task."
agent_error e = raise e

abbrev request_error : Exception → Action String
request_error (quota_error message) = pure message
request_error e = raise e

abbrev execute_error : Command → Exception → Action String
execute_error command (api_error status reason body) =
    if eqb status 404
    then pure (
        "No "
        ⧺ command.kind
        ⧺ " resource named `"
        ⧺ or_none command.namespace
        ⧺ "/"
        ⧺ or_none command.name
        ⧺ "`.")
    else pure ("Kubernetes rejected the command (HTTP " ⧺ decimal status ⧺ ").")
execute_error command e = raise e

abbrev cost_reply : Option (Option String → Action String) → Option String → Action String
cost_reply none namespace = pure "Cost reporting is not configured."
cost_reply (some cost_report) namespace =
    try (cost_report namespace) (any_error "Prometheus could not produce the cost report.")

abbrev snapshot_reply :
    Option (Option String → String → Action String) → Option String → String → Action String
snapshot_reply none namespace channel_id = pure "Grafana snapshots are not configured."
snapshot_reply (some snapshot) namespace channel_id =
    try (snapshot namespace channel_id)
      (any_error "Grafana could not render or upload the dashboard snapshot.")

abbrev agent_reply :
    Option (String → String → String → Action String) → AgentCommand → String → Action String
agent_reply none command user_id = pure "Agent task routing is not configured."
agent_reply (some submit) command user_id =
    try (submit command.skill command.prompt user_id) agent_error

abbrev quota_reply : Option (QuotaCommand → Action String) → QuotaCommand → Action String
quota_reply none command = pure "Cloud quota requests are disabled."
quota_reply (some request) command = try (request command) request_error

abbrev change_reply : Control → (text user_id : String) → Parsed → Action String
change_reply control text user_id (agent command) = agent_reply control.agent_submit command user_id
change_reply control text user_id (quota command) =
    if not command.confirmed
    then pure ("This submits a cloud quota request. Repeat with `confirm`: `" ⧺ text ⧺ " confirm`")
    else quota_reply control.request_quota command
change_reply control text user_id (fleet command) =
    if needs_confirm command
    then pure (confirm_message command)
    else try (control.execute command user_id) (execute_error command)

-- `allowed_users.strip()` and `_allowed(user_id, allowed_users)`
unfoldable pub may_change : Control → (user_id : String) → Bool
unfolding strip allowed
may_change control user_id =
    not (strip control.allowed_users == "") && allowed user_id control.allowed_users

abbrev guarded_reply : Control → (text user_id : String) → Parsed → Action String
guarded_reply control text user_id command =
    if not (may_change control user_id)
    then pure "You can inspect Model Fleet, but you are not allowed to change workloads."
    else change_reply control text user_id command

-- The verb of a quota command is "quota", of an agent command "run": none of these tests.
abbrev reply : Control → (text user_id channel_id : String) → Parsed → Action String
reply control text user_id channel_id (fleet command) =
    if command.verb == "help"
    then pure help
    else if command.verb == "status"
    then control.status command.namespace
    else if command.verb == "cost"
    then cost_reply control.cost_report command.namespace
    else if command.verb == "snapshot"
    then snapshot_reply control.snapshot command.namespace channel_id
    else guarded_reply control text user_id (fleet command)
reply control text user_id channel_id command = guarded_reply control text user_id command

abbrev parsed_reply : Control → (text user_id channel_id : String) → Result Parsed → Action String
parsed_reply control text user_id channel_id (ok command) =
    reply control text user_id channel_id command
parsed_reply control text user_id channel_id (err (value_error message)) =
    pure (message ⧺ "\n\n" ⧺ help)
parsed_reply control text user_id channel_id (err e) = raise e

unfoldable pub handle : Control → (text user_id channel_id : String) → Action String
unfolding allowed may_change parse_command
handle control text user_id channel_id =
    if not (allowed channel_id control.allowed_channels)
    then pure "Model Fleet commands are not enabled in this channel."
    else parsed_reply control text user_id channel_id (parse_command text control.default_namespace)
