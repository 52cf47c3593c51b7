-- ===== src/CloudQuotas.antt =====
-- cloud_quotas.py: CloudQuotaManager. What it calls at AWS and at Google Cloud, and how it reaches them,
-- is a record of actions.
pub mod Gcp
pub mod Increases
use model_fleet_operator.Prelude.{
  ℕ, String, Bool, true, false, not, ◌&&◌, Option, none, some, List, [], ◌∷◌, map, pos, eqb, ◌==◌,
  if◌then◌else◌,
}
use model_fleet_operator.Python.Value.{
  Value, Items, null, int, str, arr, obj, nil, end, dict, truthy,
}
use model_fleet_operator.Python.Text.{◌⧺◌, join}
use model_fleet_operator.Python.Library.{Library, show}
use model_fleet_operator.Python.Object.{item, get, get_or, iterate}
use model_fleet_operator.Python.FloatText.{Number}
use model_fleet_operator.Python.Compare.{number_of, number_le}
use model_fleet_operator.Python.Result.{
  Exception, Result, ok, err, quota_error, raise_if, ◌>>=◌ as bind,
}
use model_fleet_operator.Kube.{Action, ◌>>=◌, pure, raise, lift, try}
use model_fleet_operator.Kafka.{in_set}
use model_fleet_operator.Slack.Quota.{QuotaCommand}

-- An HTTP response: its status and its JSON body.
pub record Response : Type 0 where
  pub status_code : ℕ
  pub json : Result Value

-- The calls of the two clouds; `transport` refreshes the credentials of Google Cloud where it must.
-- `general` is the format `:g` of a value, `float_text` is `str` of a float and `describe` that of an
-- error. The rest comes from the environment: a region that is missing is the empty text.
pub record Cloud : Type 0 where
  pub get_service_quota : (service quota : String) → Action Value
  pub quota_history : (service quota : String) → Action Value
  pub request_increase : (service quota : String) → (desired_value : Number) → Action Value
  pub transport : Action (Unit {0})
  pub get_preference : (url : String) → Action Response
  pub patch_preference : (url : String) → (payload : Value) → Action Response
  pub general : Value → Result String
  pub general_float : Number → String
  pub float_text : Number → String
  pub describe : Exception → String
  pub region : String
  pub justification : String
  pub contact_email : String

-- Whether an earlier request is pending for at least the desired value.
unfoldable pub is_pending : Number → Value → Result Bool
unfolding get_or in_set number_of number_le
is_pending desired request = bind (get request "Status") λ status.
    bind (in_set status ("PENDING" ∷ "CASE_OPENED" ∷ [])) λ open_.
      if open_
      then (bind (get_or request "DesiredValue" (int (pos 0)))
          λ v. bind (number_of v) λ n. ok (number_le desired n))
      else ok false

-- `next((item for item in history if ...), None)`
unfoldable pub first_pending : Number → List Value → Result (Option Value)
unfolding is_pending
first_pending desired [] = ok none
first_pending desired (request ∷ requests) =
    let rest = first_pending desired requests in
    bind (is_pending desired request) λ found. if found then ok (some request) else rest

-- What the `try` block leaves: the reply of a pending request, or the request that was made.
pub data Outcome : Type 0 where
  already_pending : String → Outcome
  submitted : Value → Outcome

-- `["Quota"]` and `.get("RequestedQuotas", [])` of the answers, and their values.
unfoldable pub quota_value : Value → Result Value
unfolding item
quota_value answer = bind (item answer "Quota") λ quota. item quota "Value"

unfoldable pub requested_quotas : Value → Result (List Value)
unfolding get_or iterate
requested_quotas answer = bind (get_or answer "RequestedQuotas" (arr nil)) iterate

abbrev aws_target : QuotaCommand → (region : String) → String
aws_target command region =
    "• Target: `" ⧺ command.service ⧺ "` / `" ⧺ command.quota ⧺ "` in `" ⧺ region ⧺ "`\n"

module _ (lib : Library) (cloud : Cloud) where
  -- `command.scope or os.getenv(...)`
  abbrev pub region_of : QuotaCommand → String
  region_of command = if command.scope == "" then cloud.region else command.scope

  abbrev already_there : (current : Value) → (region : String) → Result (Unit {0})
  already_there current region = bind (cloud.general current) λ text. err (
      quota_error (
        "AWS quota is already " ⧺ text ⧺ " in `" ⧺ region
        ⧺ "`. The requested value must be higher."))

  -- `if command.desired_value <= float(current["Value"]): raise QuotaError(...)`
  unfoldable pub check_higher : QuotaCommand → (current : Value) → Result (Unit {0})
  unfolding number_of number_le
  check_higher command current = bind (number_of current) λ n.
      if number_le command.desired_value n then already_there current (region_of command) else ok tt

  abbrev pending_reply : QuotaCommand → Value → Result String
  pending_reply command pending = bind (get_or pending "Id" (str "unknown")) λ id.
      bind (item pending "DesiredValue") λ desired. bind (cloud.general desired) λ value.
        bind (item pending "Status") λ status. ok (
          "*AWS quota request already pending*\n• Request: `"
          ⧺ show lib id
          ⧺ "`\n"
          ⧺ aws_target command (region_of command)
          ⧺ "• Desired value: `"
          ⧺ value
          ⧺ "`\n• Status: `"
          ⧺ show lib status
          ⧺ "`")

  abbrev submitted_reply : QuotaCommand → Value → Result String
  submitted_reply command requested = bind (get_or requested "Id" (str "unknown")) λ id.
      bind (get_or requested "Status" (str "PENDING")) λ status. ok (
        "*AWS quota request submitted*\n• Request: `"
        ⧺ show lib id
        ⧺ "`\n"
        ⧺ aws_target command (region_of command)
        ⧺ "• Desired value: `"
        ⧺ cloud.general_float command.desired_value
        ⧺ "`\n• Status: `"
        ⧺ show lib status
        ⧺ "`\nApproval and capacity are not guaranteed. Track this request in AWS Service Quotas.")

  abbrev pub submit_or_wait : QuotaCommand → Option Value → Action Outcome
  submit_or_wait command (some pending) =
      lift (bind (pending_reply command pending) λ reply. ok (already_pending reply))
  submit_or_wait command none = do
    answer ← cloud.request_increase command.service command.quota command.desired_value
    requested ← lift (item answer "RequestedQuota")
    pure (submitted requested)

  -- The `try` block.
  unfoldable pub submit_aws : QuotaCommand → Action Outcome
  unfolding quota_value check_higher requested_quotas first_pending item get_or show
  submit_aws command = do
    answer ← cloud.get_service_quota command.service command.quota
    current ← lift (quota_value answer)
    higher ← lift (check_higher command current)
    history ← cloud.quota_history command.service command.quota
    requests ← lift (requested_quotas history)
    pending ← lift (first_pending command.desired_value requests)
    submit_or_wait command pending

  abbrev pub aws_error : Exception → Action Outcome
  aws_error (quota_error message) = raise (quota_error message)
  aws_error e = raise (quota_error ("AWS rejected the quota request: " ⧺ cloud.describe e))

  abbrev pub aws_reply : QuotaCommand → Outcome → Action String
  aws_reply command (already_pending reply) = pure reply
  aws_reply command (submitted requested) = lift (submitted_reply command requested)

  -- `_request_aws`
  unfoldable pub request_aws : QuotaCommand → Action String
  unfolding submit_aws get_or show
  request_aws command =
      if region_of command == ""
      then raise (quota_error "AWS region is required in the command or Slack pod environment.")
      else try (submit_aws command) aws_error >>= aws_reply command
