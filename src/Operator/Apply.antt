-- ===== src/Operator/Apply.antt =====
-- operator.py: `_upsert`, `_apply_custom` and `_delete_custom`.
use model_fleet_operator.Prelude.{String, if◌then◌else◌}
use model_fleet_operator.Python.Value.{Value}
use model_fleet_operator.Python.Result.{Result, ok, err, ◌>>=◌ as bind}
use model_fleet_operator.Python.Object.{item}
use model_fleet_operator.Kube.{
  Oracle, Action, ◌>>=◌, pure, raise, lift, try, attempt, call, read, create, patch, delete,
  not_found,
}

abbrev pub deployments : String
deployments = "apps/v1/deployments"

abbrev pub deployment_scale : String
deployment_scale = "apps/v1/deployments/scale"

abbrev pub services : String
services = "v1/services"

abbrev pub jobs : String
jobs = "batch/v1/jobs"

abbrev pub scaled_objects : String
scaled_objects = "keda.sh/v1alpha1/scaledobjects"

abbrev pub http_routes : String
http_routes = "gateway.networking.k8s.io/v1/httproutes"

abbrev pub datasets : String
datasets = "fleet.sqe.io/v1alpha1/datasets"

-- `value[a][b]`
abbrev pub nested_item : Value → String → String → Result Value
nested_item v a b = bind (item v a) (λ w. item w b)

module _ (oracle : Oracle) where
  -- The `except` and `else` parts of both functions that write.
  unfoldable pub write : String → Value → Value → Value → Result Value → Action (Unit {0})
  write resource namespace name body (ok found) = do
    patched ← call oracle (patch resource namespace name body)
    pure tt
  write resource namespace name body (err e) =
      if not_found e
      then (do created ← call oracle (create resource namespace body); pure tt)
      else raise e

  -- Create the object if it is absent, otherwise merge-patch it. `_apply_custom` differs only in
  -- the order in which it reads the name and the namespace.
  unfoldable pub upsert : String → Value → Action (Unit {0})
  unfolding write
  upsert resource body = do
    name ← lift (nested_item body "metadata" "name")
    namespace ← lift (nested_item body "metadata" "namespace")
    found ← attempt (call oracle (read resource namespace name))
    write resource namespace name body found

  unfoldable pub apply_custom : String → Value → Action (Unit {0})
  unfolding write
  apply_custom resource body = do
    namespace ← lift (nested_item body "metadata" "namespace")
    name ← lift (nested_item body "metadata" "name")
    found ← attempt (call oracle (read resource namespace name))
    write resource namespace name body found

  unfoldable pub delete_custom : String → Value → Value → Action (Unit {0})
  delete_custom resource namespace name =
      try (do deleted ← call oracle (delete resource namespace name); pure tt)
        (λ e. if not_found e then pure tt else raise e)
