-- ===== src/Operator/Training.antt =====
-- operator.py: the reconciler of TrainingRuns, their datasets and their status timer.
pub mod Resolved
use model_fleet_operator.Prelude.{
  ℕ, String, Bool, true, false, not, List, [], ◌∷◌, pos, eqb, if◌then◌else◌, Option, none, some,
  ◌&&◌, ◌==◌,
}
use model_fleet_operator.Python.Text.{◌⧺◌}
use model_fleet_operator.Python.Value.{
  Value, Fields, null, bool, int, str, arr, obj, dict, fields, list, items, truthy, find, is_text,
  find_or,
}
use model_fleet_operator.Python.Result.{
  Exception, Result, ok, err, invalid, api_error, permanent_error, temporary_error, type_error,
  ◌>>=◌ as bind,
}
use model_fleet_operator.Python.Object.{get, get_or, item, iterate, contains}
use model_fleet_operator.Python.Equality.{same, member}
use model_fleet_operator.Python.Library.{Library, show}
use model_fleet_operator.Resources.Training.{build_training_job}
use model_fleet_operator.Kube.{
  Oracle, Action, State, Metric, ◌>>=◌, ◌>>◌, pure, raise, lift, try, attempt, call, read, delete,
  set_status, count_metric, attribute, not_found, reconciled, training_phase,
}
use model_fleet_operator.Operator.Apply.{datasets, jobs, nested_item, upsert}
use model_fleet_operator.Operator.Inference.{counted}

-- `service_account in allowed`
unfoldable pub listed : Value → Value → Result Bool
unfolding member
listed (str account) allowed = contains allowed account
listed account (arr vs) = ok (member account (items vs))
listed account _ = err type_error

-- The two tests on a Dataset.
unfoldable pub check_dataset : Library → Value → Value → Value → Value → Result (Unit {0})
unfolding same truthy listed
check_dataset lib resource_name expected_version service_account spec =
    bind (item spec "version") λ version.
      bind (get_or spec "allowedServiceAccounts" (list [])) λ allowed.
        if not (same version expected_version)
        then err (
            invalid (
              "Dataset "
              ⧺ show lib resource_name
              ⧺ " is version "
              ⧺ show lib version
              ⧺ ", expected "
              ⧺ show lib expected_version))
        else if truthy allowed
        then (bind (listed service_account allowed) λ known.
            if known
            then ok tt
            else err (
                invalid (
                  "service account "
                  ⧺ show lib service_account
                  ⧺ " is not allowed to use Dataset "
                  ⧺ show lib resource_name)))
        else ok tt

-- The entry that the trainer gets for one reference.
unfoldable pub resolved_entry : Value → Value → Value → Result Value
resolved_entry reference resource_name spec = bind (item reference "name") λ name.
    bind (item spec "uri") λ uri. bind (item spec "version") λ version.
      bind (item spec "format") λ format. bind (get spec "checksum") λ checksum.
        bind (get_or spec "splits" (list [])) λ splits.
          bind (get reference "mountPath") λ mount_path.
            bind (get_or spec "storage" (dict [])) λ storage. ok (
              dict (
                ("name", name)
                ∷ ("resourceName", resource_name)
                ∷ ("uri", uri)
                ∷ ("version", version)
                ∷ ("format", format)
                ∷ ("checksum", checksum)
                ∷ ("splits", splits)
                ∷ ("mountPath", mount_path)
                ∷ ("storage", storage)
                ∷ []))

module _ (lib : Library) (oracle : Oracle) where
  -- One round of the loop over `datasets`.
  unfoldable pub resolve_reference : Value → Value → Value → Action Value
  resolve_reference namespace service_account reference = do
    resource_name ← lift (item reference "datasetRef")
    dataset ← call oracle (read datasets namespace resource_name)
    spec ← lift (item dataset "spec")
    expected_version ← lift (item reference "expectedVersion")
    checked ← lift (check_dataset lib resource_name expected_version service_account spec)
    lift (resolved_entry reference resource_name spec)

  unfoldable pub resolve_all : Value → Value → List Value → Action (List Value)
  resolve_all namespace service_account [] = pure []
  resolve_all namespace service_account (r ∷ rs) = do
    entry ← resolve_reference namespace service_account r
    entries ← resolve_all namespace service_account rs
    pure (entry ∷ entries)

  unfoldable pub resolve_training_datasets : Value → Action (List Value)
  unfolding resolve_all
  resolve_training_datasets body = do
    namespace ← lift (nested_item body "metadata" "namespace")
    spec ← lift (item body "spec")
    service_account ← lift (get_or spec "serviceAccountName" (str "default"))
    references ← lift (get_or spec "datasets" (list []))
    rs ← lift (iterate references)
    resolve_all namespace service_account rs

  -- The first `try` block.
  unfoldable pub prepare_job : Value → Action (Option Value)
  unfolding truthy
  prepare_job body = do
    spec ← lift (item body "spec")
    cancelled ← lift (get spec "cancelled")
    resolved ← (if truthy cancelled then pure [] else resolve_training_datasets body)
    lift (build_training_job lib body resolved)

  unfoldable pub prepare_failed : Value → Exception → Action (Option Value)
  prepare_failed body (invalid message) = do
    generation ← lift (nested_item body "metadata" "generation")
    set_status (
        fields (
          ("phase", str "Invalid")
          ∷ ("message", str message)
          ∷ ("observedGeneration", generation)
          ∷ []))
    raise (permanent_error message)
  prepare_failed body (api_error status reason text) =
      if eqb status 404
      then raise (temporary_error "referenced Dataset was not found" 30)
      else raise (api_error status reason text)
  prepare_failed body e = raise e

  -- `job is None`: the Job is deleted, with its pods first.
  cancel_job : Value → Value → Action (Unit {0})
  cancel_job namespace name = do
    try (do deleted ← call oracle (delete jobs namespace name); pure tt)
        (λ e. if not_found e then pure tt else raise e)
    set_status
        (fields (("phase", str "Cancelled") ∷ ("message", str "training job cancelled") ∷ []))

  abbrev immutable : Exception → Action (Unit {0})
  immutable (api_error status reason text) =
      if eqb status 422
      then raise (
          permanent_error (
            "TrainingRun job fields are immutable; create a new TrainingRun for a new "
            ⧺ "attempt"))
      else raise (api_error status reason text)
  immutable e = raise e

  submit_job : Value → Value → Value → Action (Unit {0})
  unfolding truthy
  submit_job body name job = do
    try (upsert oracle jobs job) immutable
    suspend ← lift (bind (item body "spec") λ spec. get spec "suspend")
    generation ← lift (nested_item body "metadata" "generation")
    set_status (
        fields (
          ("phase", str (if truthy suspend then "Suspended" else "Pending"))
          ∷ ("jobName", name)
          ∷ ("message", str "training job applied")
          ∷ ("observedGeneration", generation)
          ∷ []))

  finish_job : Value → Value → Value → Option Value → Action (Unit {0})
  unfolding cancel_job submit_job
  finish_job body namespace name none = cancel_job namespace name
  finish_job body namespace name (some job) = submit_job body name job

  unfoldable pub reconcile_training : Value → Action (Unit {0})
  unfolding finish_job
  reconcile_training body = do
    name ← lift (nested_item body "metadata" "name")
    namespace ← lift (nested_item body "metadata" "namespace")
    job ← try (prepare_job body) (prepare_failed body)
    finish_job body namespace name job

  unfoldable pub training_handler : Value → Action (Unit {0})
  training_handler body = counted "TrainingRun" (reconcile_training body)

-- The phase of a Job that was read.
unfoldable pub job_phase : Value → String
unfolding truthy
job_phase job =
    let status = attribute job "status" in
    if truthy (attribute (attribute job "spec") "suspend")
    then "Suspended"
    else if truthy (attribute status "succeeded")
    then "Succeeded"
    else if truthy (attribute status "failed")
    then "Failed"
    else if truthy (attribute status "active")
    then "Running"
    else "Pending"

module _ (oracle : Oracle) (iso : Value → Value) where
  -- What follows the read; `iso` is `_iso`, over datetime's `isoformat`.
  job_status : Value → Result Value → Action (Unit {0})
  job_status name (ok job) = set_status (
      fields (
        ("phase", str (job_phase job))
        ∷ ("jobName", name)
        ∷ ("startTime", iso (attribute (attribute job "status") "start_time"))
        ∷ ("completionTime", iso (attribute (attribute job "status") "completion_time"))
        ∷ []))
  job_status name (err e) =
      if not_found e then set_status (fields (("phase", str "Pending") ∷ [])) else raise e

  read_job : Value → Action (Unit {0})
  read_job body = do
    name ← lift (nested_item body "metadata" "name")
    namespace ← lift (nested_item body "metadata" "namespace")
    found ← attempt (call oracle (read jobs namespace name))
    job_status name found

  unfoldable pub refresh_training_status : Value → Action (Unit {0})
  unfolding truthy read_job job_status
  refresh_training_status body = do
    cancelled ← lift (bind (item body "spec") λ spec. get spec "cancelled")
    if truthy cancelled
        then set_status (fields (("phase", str "Cancelled") ∷ []))
        else read_job body

  abbrev pub phases : List String
  phases = "Pending" ∷ "Running" ∷ "Suspended" ∷ "Succeeded" ∷ "Failed" ∷ "Cancelled" ∷ []

  -- `for phase in (...): TRAINING_PHASE.labels(...).set(phase == current)`
  pub set_phases : Value → Value → Value → List String → Action (Unit {0})
  set_phases namespace name current [] = pure tt
  set_phases namespace name current (p ∷ ps) = do
    count_metric (training_phase namespace name p (is_text current p))
    set_phases namespace name current ps

  unfoldable pub training_status_handler : Value → Action (Unit {0})
  unfolding set_phases
  training_status_handler body = do
    refresh_training_status body
    namespace ← lift (nested_item body "metadata" "namespace")
    name ← lift (nested_item body "metadata" "name")
    current ← (λ s. (ok (find_or "phase" (str "Unknown") s.status), s))
    set_phases namespace name current phases

-- `dataset_handler`
unfoldable pub dataset_handler : Value → Action (Unit {0})
dataset_handler body = do
  generation ← lift (nested_item body "metadata" "generation")
  set_status (
      fields (
        ("phase", str "Registered")
        ∷ ("message", str "immutable dataset version registered")
        ∷ ("observedGeneration", generation)
        ∷ []))
  count_metric (reconciled "Dataset" "ok")
