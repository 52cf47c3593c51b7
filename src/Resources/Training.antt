-- ===== src/Resources/Training.antt =====
-- resources.py: `build_training_job`, the Job of a TrainingRun.
use model_fleet_operator.Prelude.{
  String, false, not, Option, none, some, List, [], ◌∷◌, pos, if◌then◌else◌,
}
use model_fleet_operator.Python.Value.{
  Value, Fields, bool, int, str, obj, dict, fields, list, find_or, put, truthy,
}
use model_fleet_operator.Python.Result.{Result, ok, ◌>>=◌, ◌>>◌, raise_if, invalid}
use model_fleet_operator.Python.Object.{get, item}
use model_fleet_operator.Python.Library.{Library}
use model_fleet_operator.Resources.Accelerator.{Applied, apply_accelerator}
use model_fleet_operator.Resources.Datasets.{apply_datasets}
use model_fleet_operator.Resources.Inference.{as_fields, gpu_annotation, with_init_containers}
use model_fleet_operator.Resources.Pod.{
  labels, owner, spec_hash, copy_truthy, container_fields, pod_fields, requests, security_context,
}

-- The trainer container before datasets and accelerators change it.
abbrev pub trainer : Fields → Fields
trainer spec = copy_truthy container_fields spec (
    fields (
      ("name", str "trainer")
      ∷ ("image", find_or "image" Value.null spec)
      ∷ ("imagePullPolicy", find_or "imagePullPolicy" (str "IfNotPresent") spec)
      ∷ ("resources", find_or "resources" (requests "1" "2Gi") spec)
      ∷ ("securityContext", security_context)
      ∷ []))

abbrev pub training_pod : Fields → Fields
training_pod spec = copy_truthy pod_fields spec (
    fields (
      ("restartPolicy", find_or "restartPolicy" (str "Never") spec)
      ∷ ("serviceAccountName", find_or "serviceAccountName" (str "default") spec)
      ∷ ("automountServiceAccountToken", find_or "automountServiceAccountToken" (bool false) spec)
      ∷ ("containers", list (obj (trainer spec) ∷ []))
      ∷ []))

abbrev pub job_fields : List String
job_fields = "ttlSecondsAfterFinished" ∷ "activeDeadlineSeconds" ∷ []

abbrev pub job_spec : Fields → Value → Applied → Fields
job_spec spec name applied = copy_truthy job_fields spec (
    fields (
      ("backoffLimit", find_or "backoffLimit" (int (pos 0)) spec)
      ∷ ("parallelism", find_or "parallelism" (int (pos 1)) spec)
      ∷ ("completions", find_or "completions" (int (pos 1)) spec)
      ∷ ("suspend", find_or "suspend" (bool false) spec)
      ∷ (
        "template",
        dict (
            (
              "metadata",
              dict (
                  ("labels", labels name "training")
                  ∷ ("annotations", dict (gpu_annotation applied.minimum_memory))
                  ∷ []),
            )
            ∷ ("spec", obj (put "containers" (list (obj applied.container ∷ [])) applied.pod_spec))
            ∷ []),
      )
      ∷ []))

module _ (lib : Library) where
  -- The pod template's `spec` and the GPU requirement.
  unfoldable pub training_pod_spec : Value → List Value → Result Applied
  unfolding copy_truthy find_or
  training_pod_spec spec datasets = do
    pod_spec ← with_init_containers spec (training_pod (as_fields spec))
    (container', pod_spec') ← apply_datasets lib (trainer (as_fields spec)) pod_spec datasets
    apply_accelerator lib spec pod_spec' container'

  unfoldable pub training_job : Value → Value → List Value → Result Value
  unfolding truthy put copy_truthy find_or
  training_job body spec datasets = do
    metadata ← item body "metadata"
    name ← item metadata "name"
    image ← get spec "image"
    raise_if (not (truthy image)) (invalid "spec.image is required")
    applied ← training_pod_spec spec datasets
    namespace ← item metadata "namespace"
    owners ← owner body
    ok (
        dict (
          ("apiVersion", str "batch/v1")
          ∷ ("kind", str "Job")
          ∷ (
            "metadata",
            dict (
                ("name", name)
                ∷ ("namespace", namespace)
                ∷ ("labels", labels name "training")
                ∷ ("annotations", dict (("fleet.sqe.io/spec-hash", str (spec_hash lib spec)) ∷ []))
                ∷ ("ownerReferences", owners)
                ∷ []),
          )
          ∷ ("spec", obj (job_spec (as_fields spec) name applied))
          ∷ []))

  unfoldable pub build_training_job : Value → List Value → Result (Option Value)
  unfolding truthy
  build_training_job body datasets = do
    spec ← item body "spec"
    cancelled ← get spec "cancelled"
    let built = do job ← training_job body spec datasets; ok (some job)
    if truthy cancelled then ok none else built
