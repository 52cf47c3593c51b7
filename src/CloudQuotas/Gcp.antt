-- ===== src/CloudQuotas/Gcp.antt =====
-- cloud_quotas.py: `_request_gcp` and `request`.
use model_fleet_operator.Prelude.{
  String, Bool, true, not, ◌&&◌, ◌||◌, Option, none, some, List, [], ◌∷◌, map, pos, eqb, leb, ltb,
  ◌==◌, if◌then◌else◌,
}
use model_fleet_operator.Python.Value.{Value, Fields, int, str, bool, obj, end, dict, truthy, put}
use model_fleet_operator.Python.Text.{◌⧺◌, join, prefix}
use model_fleet_operator.Python.Library.{Library}
use model_fleet_operator.Python.Object.{get, get_or}
use model_fleet_operator.Python.FloatText.{Number}
use model_fleet_operator.Python.Compare.{number_of, number_le}
use model_fleet_operator.Python.Result.{
  Exception, Result, ok, quota_error, http_error, raise_if, ◌>>=◌ as bind,
}
use model_fleet_operator.Kube.{Action, ◌>>=◌, pure, raise, lift, try}
use model_fleet_operator.Slack.Quota.{QuotaCommand}
use model_fleet_operator.CloudQuotas.{Response, Cloud, request_aws}

abbrev pair_text : String × String → String
pair_text (k, v) = k ⧺ "=" ⧺ v

-- `dict(command.dimensions)`, from the fields so far: of a repeated key the last value stays.
abbrev pub dimension_fields : Fields → List (String × String) → Fields
dimension_fields fs [] = fs
dimension_fields fs ((k, v) ∷ more) = dimension_fields (put k (str v) fs) more

-- `response.raise_for_status()`
abbrev pub raise_for_status : Response → Result (Unit {0})
raise_for_status response =
    raise_if (not (leb 200 response.status_code && ltb response.status_code 300)) http_error

-- The preferred value, if the preference is being reconciled for at least the desired value.
unfoldable pub waits_for : Number → Value → Result (Option Number)
unfolding get_or number_of number_le truthy
waits_for desired data_ = bind (get_or data_ "quotaConfig" (obj end)) λ config.
    bind (get_or config "preferredValue" (int (pos 0))) λ v. bind (number_of v) λ preferred.
      bind (get data_ "reconciling") λ reconciling.
        ok (if truthy reconciling && number_le desired preferred then some preferred else none)

-- What is known of an existing preference: only a response 200 is read.
abbrev pub existing_wait : Number → Response → Result (Option Number)
existing_wait desired existing =
    bind
      (if eqb existing.status_code 200 || eqb existing.status_code 404
        then ok tt
        else raise_for_status existing)
      λ _. if eqb existing.status_code 200 then bind existing.json (waits_for desired) else ok none

-- What the `try` block leaves: the value that is being reconciled, or the answer to the patch.
pub data Preference : Type 0 where
  awaited : Number → Preference
  patched : Value → Preference

module _ (lib : Library) (cloud : Cloud) where
  unfoldable pub preference_name : QuotaCommand → String
  unfolding join prefix
  preference_name command =
      let digest_input =
        join "|" (command.service ∷ command.quota ∷ map pair_text command.dimensions) in
      "projects/"
      ⧺ command.scope
      ⧺ "/locations/global/quotaPreferences/model-fleet-"
      ⧺ prefix 20 (lib.sha256_hex digest_input)

  abbrev pub url_of : QuotaCommand → String
  url_of command = "https://cloudquotas.googleapis.com/v1/" ⧺ preference_name command

  abbrev pub preference_payload : QuotaCommand → Value
  preference_payload command = dict (
      ("name", str (preference_name command))
      ∷ ("service", str command.service)
      ∷ ("quotaId", str command.quota)
      ∷ (
        "quotaConfig",
        dict (("preferredValue", str (cloud.float_text command.desired_value)) ∷ []),
      )
      ∷ ("dimensions", obj (dimension_fields end command.dimensions))
      ∷ ("justification", str cloud.justification)
      ∷ ("contactEmail", str cloud.contact_email)
      ∷ [])

  abbrev pub patch_or_wait : QuotaCommand → Option Number → Action Preference
  patch_or_wait command (some preferred) = pure (awaited preferred)
  patch_or_wait command none = do
    response ← cloud.patch_preference (url_of command) (preference_payload command)
    accepted ← lift (raise_for_status response)
    answer ← lift response.json
    pure (patched answer)

  -- The `try` block.
  unfoldable pub submit_gcp : QuotaCommand → Action Preference
  unfolding waits_for preference_name
  submit_gcp command = do
    existing ← cloud.get_preference (url_of command)
    waiting ← lift (existing_wait command.desired_value existing)
    patch_or_wait command waiting

  abbrev pub gcp_error : Exception → Action Preference
  gcp_error e = raise (quota_error ("Google Cloud rejected the quota request: " ⧺ cloud.describe e))

  abbrev gcp_target : QuotaCommand → String
  gcp_target command =
      "• Preference: `"
      ⧺ preference_name command
      ⧺ "`\n• Target: `"
      ⧺ command.service
      ⧺ "` / `"
      ⧺ command.quota
      ⧺ "`\n"

  abbrev dimensions_text : QuotaCommand → String
  dimensions_text command =
      let text = join ", " (map pair_text command.dimensions) in
      if text == "" then "global" else text

  abbrev preference_reply : QuotaCommand → (reconciling : Bool) → String
  preference_reply command reconciling =
      "*GCP quota preference submitted*\n"
      ⧺ gcp_target command
      ⧺ "• Dimensions: `"
      ⧺ dimensions_text command
      ⧺ "`\n• Desired value: `"
      ⧺ cloud.general_float command.desired_value
      ⧺ "`\n• Status: `"
      ⧺ (if reconciling then "RECONCILING" else "SUBMITTED")
      ⧺ "`\nApproval and capacity are not guaranteed. Track this preference in Cloud Quotas."

  abbrev pub gcp_reply : QuotaCommand → Preference → Action String
  gcp_reply command (awaited preferred) = pure (
      "*GCP quota request already pending*\n"
      ⧺ gcp_target command
      ⧺ "• Desired value: `"
      ⧺ cloud.general_float preferred
      ⧺ "`\n• Status: `RECONCILING`")
  gcp_reply command (patched result) = lift (
      bind (get_or result "reconciling" (bool true))
        λ going. ok (preference_reply command (truthy going)))

  -- `_request_gcp`: the credentials are refreshed before the `try` block.
  unfoldable pub request_gcp : QuotaCommand → Action String
  unfolding submit_gcp preference_name join get_or truthy
  request_gcp command = do
    ready ← cloud.transport
    preference ← try (submit_gcp command) gcp_error
    gcp_reply command preference

  unfoldable pub request : QuotaCommand → Action String
  unfolding request_aws request_gcp
  request command =
      if command.provider == "aws" then request_aws lib cloud command else request_gcp command
