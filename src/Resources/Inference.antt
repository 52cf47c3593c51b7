-- ===== src/Resources/Inference.antt =====
-- resources.py: what an InferenceService is turned into. `body` is the custom resource.
pub mod Shape
use model_fleet_operator.Prelude.{
  ℕ, String, Bool, true, false, not, Option, none, some, List, [], ◌∷◌, ◌&&◌, ◌||◌, pos,
  if◌then◌else◌,
}
use model_fleet_operator.Python.Text.{◌⧺◌, decimal, starts_with_char}
use model_fleet_operator.Python.Value.{
  Value, Fields, null, bool, int, str, arr, obj, dict, fields, list, find_or, put, truthy, is_text,
}
use model_fleet_operator.Python.Result.{
  Exception, Result, ok, err, ◌>>=◌, ◌>>◌, raise_if, invalid, attribute_error,
}
use model_fleet_operator.Python.Object.{get, get_or, item, store}
use model_fleet_operator.Python.Number.{max_value}
use model_fleet_operator.Python.Library.{Library, show}
use model_fleet_operator.Resources.Accelerator.{Applied, apply_accelerator}
use model_fleet_operator.Resources.Pod.{
  labels, owner, spec_hash, copy_truthy, pod_fields, container, init_containers,
}

-- `spec.get(a, {}).get(b)`
abbrev pub nested : Value → String → String → Result Value
nested spec a b = do v ← get_or spec a (dict []); get v b

-- `replicas` after both assignments: asleep, fixed, or at least the autoscaler's minimum.
unfoldable pub desired_replicas : Value → Result Value
unfolding truthy
desired_replicas spec = do
  suspend ← get spec "suspend"
  replicas ← get_or spec "replicas" (int (pos 1))
  autoscaling ← get_or spec "autoscaling" (dict [])
  enabled ← get autoscaling "enabled"
  minimum ← get_or autoscaling "minReplicas" (int (pos 0))
  if truthy suspend
      then ok (int (pos 0))
      else if truthy enabled
      then max_value replicas minimum
      else ok replicas

-- Kubernetes annotations of the pod template.
abbrev pub gpu_annotation : Option ℕ → List (String × Value)
gpu_annotation none = []
gpu_annotation (some n) = ("fleet.sqe.io/gpu-memory-per-device-gib", str (decimal n)) ∷ []

-- `if spec.get("initContainers"): pod_spec["initContainers"] = ...`
unfoldable pub with_init_containers : Value → Fields → Result Fields
unfolding truthy put
with_init_containers spec pod_spec = do
  containers ← get spec "initContainers"
  if truthy containers
      then (do cs ← init_containers containers; ok (put "initContainers" cs pod_spec))
      else ok pod_spec

abbrev pub as_fields : Value → Fields
as_fields (obj fs) = fs
as_fields _ = Fields.end

abbrev pub deployment : Value → Value → Value → Value → Value → Value → Value → Value
deployment name namespace label owners replicas annotations pod_spec = dict (
    ("apiVersion", str "apps/v1")
    ∷ ("kind", str "Deployment")
    ∷ (
      "metadata",
      dict (
          ("name", name)
          ∷ ("namespace", namespace)
          ∷ ("labels", label)
          ∷ ("ownerReferences", owners)
          ∷ []),
    )
    ∷ (
      "spec",
      dict (
          ("replicas", replicas)
          ∷ ("selector", dict (("matchLabels", label) ∷ []))
          ∷ ("strategy", dict (("type", str "RollingUpdate") ∷ []))
          ∷ (
            "template",
            dict (
                ("metadata", dict (("labels", label) ∷ ("annotations", annotations) ∷ []))
                ∷ ("spec", pod_spec)
                ∷ []),
          )
          ∷ []),
    )
    ∷ [])

-- The pod's fields that do not depend on its container. `containers` stands where the source has
-- it: the list holds the container that is changed later.
abbrev inference_pod : Fields → Value → Fields
inference_pod spec main = fields (
    ("serviceAccountName", find_or "serviceAccountName" (str "default") spec)
    ∷ ("automountServiceAccountToken", find_or "automountServiceAccountToken" (bool false) spec)
    ∷ ("containers", list (main ∷ []))
    ∷ ("terminationGracePeriodSeconds", find_or "terminationGracePeriodSeconds" (int (pos 60)) spec)
    ∷ [])

module _ (lib : Library) where
  -- The pod template's `spec` and the GPU requirement.
  unfoldable pub inference_pod_spec : Value → Value → Result Applied
  unfolding copy_truthy find_or
  inference_pod_spec spec name = do
    main ← container lib spec name
    pod_spec ←
        with_init_containers spec
          (copy_truthy pod_fields (as_fields spec) (inference_pod (as_fields spec) (obj main)))
    apply_accelerator lib spec pod_spec main

  unfoldable pub build_deployment : Value → Result Value
  unfolding truthy
  build_deployment body = do
    spec ← item body "spec"
    metadata ← item body "metadata"
    name ← item metadata "name"
    model_name ← nested spec "model" "name"
    raise_if (not (truthy model_name)) (invalid "spec.model.name is required")
    image ← nested spec "container" "image"
    raise_if (not (truthy image)) (invalid "spec.container.image is required")
    replicas ← desired_replicas spec
    applied ← inference_pod_spec spec name
    namespace ← item metadata "namespace"
    owners ← owner body
    ok (
        deployment name namespace (labels name "inference") owners replicas
          (dict (
            ("fleet.sqe.io/spec-hash", str (spec_hash lib spec))
            ∷ gpu_annotation applied.minimum_memory))
          (obj (put "containers" (list (obj applied.container ∷ [])) applied.pod_spec)))

abbrev pub object_metadata : Value → Value → Value → Value → Fields
object_metadata name namespace label owners = fields (
    ("name", name)
    ∷ ("namespace", namespace)
    ∷ ("labels", label)
    ∷ ("ownerReferences", owners)
    ∷ [])

unfoldable pub build_service : Value → Result Value
unfolding truthy put
build_service body = do
  spec ← item body "spec"
  metadata ← item body "metadata"
  name ← item metadata "name"
  service ← get_or spec "service" (dict [])
  namespace ← item metadata "namespace"
  owners ← owner body
  annotations ← get service "annotations"
  type ← get_or service "type" (str "ClusterIP")
  port ← get_or service "port" (int (pos 80))
  let base = object_metadata name namespace (labels name "inference") owners
  ok (
      dict (
        ("apiVersion", str "v1")
        ∷ ("kind", str "Service")
        ∷ (
          "metadata",
          obj (if truthy annotations then put "annotations" annotations base else base),
        )
        ∷ (
          "spec",
          dict (
              ("type", type)
              ∷ ("selector", labels name "inference")
              ∷ (
                "ports",
                list (
                    dict (("name", str "http") ∷ ("port", port) ∷ ("targetPort", str "http") ∷ [])
                    ∷ []),
              )
              ∷ []),
        )
        ∷ []))

-- `path_prefix.startswith("/")`
abbrev pub starts_with_slash : Value → Result Bool
starts_with_slash (str s) = ok (starts_with_char b'/' s)
starts_with_slash _ = err attribute_error

-- The part of `build_http_route` behind its first test.
unfoldable pub enabled_route : Value → Value → Result Value
unfolding truthy put
enabled_route body gateway = do
  spec ← item body "spec"
  metadata ← item body "metadata"
  name ← item metadata "name"
  namespace ← item metadata "namespace"
  path_prefix ← get_or gateway "pathPrefix" (str "/")
  slash ← starts_with_slash path_prefix
  raise_if (not slash) (invalid "spec.gateway.pathPrefix must start with /")
  gateway_name ← get_or gateway "name" (str "model-fleet")
  gateway_namespace ← get_or gateway "namespace" (str "model-fleet-system")
  section_name ← get gateway "sectionName"
  service ← get_or spec "service" (dict [])
  port ← get_or service "port" (int (pos 80))
  hostnames ← get gateway "hostnames"
  owners ← owner body
  let parent = fields (("name", gateway_name) ∷ ("namespace", gateway_namespace) ∷ [])
  let parent_ref = if truthy section_name then put "sectionName" section_name parent else parent
  let rule = dict (
      (
        "matches",
        list (
            dict (("path", dict (("type", str "PathPrefix") ∷ ("value", path_prefix) ∷ [])) ∷ [])
            ∷ []),
      )
      ∷ ("backendRefs", list (dict (("name", name) ∷ ("port", port) ∷ []) ∷ []))
      ∷ [])
  let base = fields (("parentRefs", list (obj parent_ref ∷ [])) ∷ ("rules", list (rule ∷ [])) ∷ [])
  let route_spec = if truthy hostnames then put "hostnames" hostnames base else base
  ok (
      dict (
        ("apiVersion", str "gateway.networking.k8s.io/v1")
        ∷ ("kind", str "HTTPRoute")
        ∷ ("metadata", obj (object_metadata name namespace (labels name "routing") owners))
        ∷ ("spec", obj route_spec)
        ∷ []))

unfoldable pub build_http_route : Value → Result (Option Value)
unfolding truthy
build_http_route body = do
  spec ← item body "spec"
  gateway ← get_or spec "gateway" (dict [])
  enabled ← get gateway "enabled"
  let built = do route ← enabled_route body gateway; ok (some route)
  if truthy enabled then built else ok none

-- The part of `build_scaled_object` behind its first test.
unfoldable pub enabled_scaler : Value → Value → Value → Result Value
unfolding truthy put
enabled_scaler body spec autoscaling = do
  triggers ← get_or autoscaling "triggers" (list [])
  raise_if (not (truthy triggers))
      (invalid "spec.autoscaling.triggers must not be empty when autoscaling is enabled")
  metadata ← item body "metadata"
  name ← item metadata "name"
  polling ← get_or autoscaling "pollingInterval" (int (pos 30))
  cooldown ← get_or autoscaling "cooldownPeriod" (int (pos 300))
  force ← get spec "forceActive"
  minimum ← get_or autoscaling "minReplicas" (int (pos 0))
  maximum ← get_or autoscaling "maxReplicas" (int (pos 1))
  fallback ← get autoscaling "fallback"
  namespace ← item metadata "namespace"
  owners ← owner body
  let base = fields (
      ("scaleTargetRef", dict (("name", name) ∷ []))
      ∷ ("pollingInterval", polling)
      ∷ ("cooldownPeriod", cooldown)
      ∷ ("minReplicaCount", if truthy force then int (pos 1) else minimum)
      ∷ ("maxReplicaCount", maximum)
      ∷ ("triggers", triggers)
      ∷ [])
  ok (
      dict (
        ("apiVersion", str "keda.sh/v1alpha1")
        ∷ ("kind", str "ScaledObject")
        ∷ ("metadata", obj (object_metadata name namespace (labels name "autoscaling") owners))
        ∷ ("spec", obj (if truthy fallback then put "fallback" fallback base else base))
        ∷ []))

unfoldable pub build_scaled_object : Value → Result (Option Value)
unfolding truthy
build_scaled_object body = do
  spec ← item body "spec"
  autoscaling ← get_or spec "autoscaling" (dict [])
  enabled ← get autoscaling "enabled"
  suspend ← get spec "suspend"
  let built = do scaler ← enabled_scaler body spec autoscaling; ok (some scaler)
  if not (truthy enabled) || truthy suspend then ok none else built
