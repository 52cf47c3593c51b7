-- ===== src/Operator/Agents.antt =====
-- operator.py: the reconciler of AgentRegistrations, which scales Deployments of other owners.
pub mod Safety
use model_fleet_operator.Prelude.{
  ℕ, String, Bool, true, false, not, List, [], ◌∷◌, pos, if◌then◌else◌,
}
use model_fleet_operator.Python.Text.{◌⧺◌}
use model_fleet_operator.Python.Value.{Value, Fields, int, str, obj, dict, fields, truthy}
use model_fleet_operator.Python.Result.{
  Exception, Result, ok, err, permanent_error, temporary_error, ◌>>=◌ as bind,
}
use model_fleet_operator.Python.Object.{get, get_or, item}
use model_fleet_operator.Python.Equality.{same}
use model_fleet_operator.Python.Library.{Library, show}
use model_fleet_operator.Kube.{
  Oracle, Action, ◌>>=◌, ◌>>◌, pure, raise, lift, attempt, call, read, patch, set_status, attribute,
  not_found,
}
use model_fleet_operator.Operator.Apply.{deployments, deployment_scale, nested_item}
use model_fleet_operator.Operator.Inference.{counted, or_zero}

abbrev pub registration_annotation : String
registration_annotation = "fleet.sqe.io/agent-registration"

abbrev agent_status : String → Value → Value → Value → Fields
agent_status phase message ready generation = fields (
    ("phase", str phase)
    ∷ ("message", message)
    ∷ ("readyReplicas", ready)
    ∷ ("observedGeneration", generation)
    ∷ [])

-- `deployment.metadata.annotations or {}`
abbrev pub annotations_of : Value → Value
unfolding truthy
annotations_of deployment =
    let annotations = attribute (attribute deployment "metadata") "annotations" in
    if truthy annotations then annotations else dict []

-- Does the Deployment name this registration?
unfoldable pub is_linked : Value → Value → Result Bool
unfolding truthy same
is_linked deployment registration =
    bind (get (annotations_of deployment) registration_annotation) λ a. ok (same a registration)

-- `0 if spec.get("suspend") else runtime.get("activeReplicas", 1)`
unfoldable pub desired_agents : Value → Value → Result Value
unfolding truthy
desired_agents spec runtime = bind (get spec "suspend") λ suspend.
    bind (get_or runtime "activeReplicas" (int (pos 1)))
      λ active. ok (if truthy suspend then int (pos 0) else active)

module _ (lib : Library) (oracle : Oracle) where
  -- `if deployment.spec.replicas != desired: patch the scale`
  scale_to : Value → Value → Value → Value → Action (Unit {0})
  unfolding same
  scale_to namespace deployment_name deployment desired =
      if same (attribute (attribute deployment "spec") "replicas") desired then pure tt else do
        patched ← call oracle (
            patch deployment_scale namespace deployment_name
              (dict (("spec", dict (("replicas", desired) ∷ [])) ∷ [])))
        pure tt

  abbrev unlinked_message : Value → Value → String
  unlinked_message deployment_name registration =
      "Deployment "
      ⧺ show lib deployment_name
      ⧺ " must have annotation "
      ⧺ registration_annotation
      ⧺ "="
      ⧺ show lib registration

  refuse : Value → Value → Value → Action (Unit {0})
  refuse body deployment_name registration = do
    let message = unlinked_message deployment_name registration
    generation ← lift (nested_item body "metadata" "generation")
    set_status (agent_status "Invalid" (str message) (int (pos 0)) generation)
    raise (permanent_error message)

  scale_linked : Value → Value → Value → Value → Value → Value → Action (Unit {0})
  unfolding truthy scale_to
  scale_linked body spec runtime namespace deployment_name deployment = do
    desired ← lift (desired_agents spec runtime)
    scale_to namespace deployment_name deployment desired
    suspend ← lift (get spec "suspend")
    generation ← lift (nested_item body "metadata" "generation")
    set_status (
        agent_status (if truthy suspend then "Suspended" else "Active")
          (str ("managed Deployment target is " ⧺ show lib desired ⧺ " replica(s)"))
          (or_zero (attribute (attribute deployment "status") "ready_replicas")) generation)

  -- What follows the read of the Deployment.
  found_deployment :
      Value → Value → Value → Value → Value → Value → Result Value → Action (Unit {0})
  found_deployment body spec runtime namespace registration deployment_name (ok deployment) = do
    linked ← lift (is_linked deployment registration)
    if linked
        then scale_linked body spec runtime namespace deployment_name deployment
        else refuse body deployment_name registration
  found_deployment body spec runtime namespace registration deployment_name (err e) =
      if not_found e
      then (do
        let message = "managed Deployment " ⧺ show lib deployment_name ⧺ " was not found"
        generation ← lift (nested_item body "metadata" "generation")
        set_status (agent_status "Missing" (str message) (int (pos 0)) generation)
        raise (temporary_error message 30))
      else raise e

  managed_agent : Value → Value → Value → Action (Unit {0})
  unfolding found_deployment scale_linked refuse
  managed_agent body spec runtime = do
    namespace ← lift (nested_item body "metadata" "namespace")
    registration ← lift (nested_item body "metadata" "name")
    deployment_name ← lift (item runtime "deploymentName")
    found ← attempt (call oracle (read deployments namespace deployment_name))
    found_deployment body spec runtime namespace registration deployment_name found

  unfoldable pub reconcile_agent_registration : Value → Action (Unit {0})
  unfolding truthy managed_agent
  reconcile_agent_registration body = do
    spec ← lift (item body "spec")
    runtime ← lift (get spec "runtime")
    if truthy runtime then managed_agent body spec runtime else (do
      generation ← lift (nested_item body "metadata" "generation")
      set_status (
          agent_status "Registered" (str "agent metadata registered; no managed runtime")
            (int (pos 0)) generation))

  unfoldable pub agent_registration_handler : Value → Action (Unit {0})
  agent_registration_handler body = counted "AgentRegistration" (reconcile_agent_registration body)
