-- ===== src/Operator/Inference.antt =====
-- operator.py: the reconciler of InferenceServices and its status timer.
pub mod Ownership
use model_fleet_operator.Prelude.{
  ℕ, String, Bool, true, false, not, List, [], ◌∷◌, Option, none, some, ◌&&◌, eqb, pos,
  if◌then◌else◌, leb_ℤ, ℤ,
}
use model_fleet_operator.Python.Text.{◌⧺◌, chars}
use model_fleet_operator.Python.Value.{
  Value, Fields, Items, null, int, str, arr, obj, dict, fields, list, truthy, is_text, find_or,
  cons,
}
use model_fleet_operator.Python.Result.{
  Exception, Result, ok, err, invalid, api_error, permanent_error, temporary_error, type_error,
  key_error, runtime_error, ◌>>=◌ as bind,
}
use model_fleet_operator.Python.Object.{get, get_or, item, contains, has_substring}
use model_fleet_operator.Python.Equality.{same, units}
use model_fleet_operator.Python.Library.{Library, show}
use model_fleet_operator.Resources.Inference.{
  build_deployment, build_service, build_http_route, build_scaled_object,
}
use model_fleet_operator.Kube.{
  Oracle, Action, Metric, ◌>>=◌, ◌>>◌, pure, raise, lift, try, attempt, call, read, set_status,
  count_metric, attribute, not_found, reconciled, inference_ready, State,
}
use model_fleet_operator.Operator.Apply.{
  deployments, services, scaled_objects, http_routes, nested_item, upsert, apply_custom,
  delete_custom,
}

-- `hostnames[0]`
abbrev first_host : Value → Result Value
first_host (arr (cons v vs)) = ok v
first_host (obj fs) = err (key_error "0")
first_host (str s) = first_char (chars s)
  where
    first_char : List String → Result Value
    first_char [] = err (runtime_error "string index out of range")
    first_char (c ∷ cs) = ok (str c)
first_host _ = err type_error

abbrev scheme : Value → String
scheme section = if is_text section "https" then "https" else "http"

module _ (lib : Library) where
  gateway_url : Value → Value → Result Value
  gateway_url gateway hostnames = bind (get gateway "sectionName") λ section.
      bind (first_host hostnames) λ host.
        bind (get_or gateway "pathPrefix" (str "/"))
          λ prefix. ok (str (scheme section ⧺ "://" ⧺ show lib host ⧺ show lib prefix))

  service_url : Value → Value → Result Value
  service_url body spec = bind (item body "metadata") λ metadata.
      bind (get_or spec "service" (dict [])) λ service.
        bind (get_or service "port" (int (pos 80))) λ port. bind (item metadata "name") λ name.
          bind (item metadata "namespace") λ namespace.
            ok
              (str ("http://" ⧺ show lib name ⧺ "." ⧺ show lib namespace ⧺ ".svc:" ⧺ show lib port))

  -- `_inference_url`
  unfoldable pub inference_url : Value → Result Value
  unfolding gateway_url service_url truthy
  inference_url body = bind (item body "spec") λ spec.
      bind (get_or spec "gateway" (dict [])) λ gateway.
        bind (get_or gateway "hostnames" (list [])) λ hostnames.
          bind (get gateway "enabled") λ enabled.
            if truthy enabled && truthy hostnames
            then gateway_url gateway hostnames
            else service_url body spec

module _ (lib : Library) (oracle : Oracle) where
  -- The autoscaler is written if there is to be one, and deleted otherwise.
  pub settle : String → Value → Value → Option Value → Action (Unit {0})
  settle resource namespace name none = delete_custom oracle resource namespace name
  settle resource namespace name (some object) = apply_custom oracle resource object

  -- The `try` block.
  unfoldable pub apply_inference : Value → Value → Value → Action (Unit {0})
  apply_inference body namespace name = do
    deployment ← lift (build_deployment lib body)
    upsert oracle deployments deployment
    service ← lift (build_service body)
    upsert oracle services service
    scaled_object ← lift (build_scaled_object body)
    settle scaled_objects namespace name scaled_object
    route ← lift (build_http_route body)
    settle http_routes namespace name route

  -- The two `except` clauses.
  unfoldable pub inference_failed : Value → Exception → Action (Unit {0})
  inference_failed body (invalid message) = do
    generation ← lift (nested_item body "metadata" "generation")
    set_status (
        fields (
          ("phase", str "Invalid")
          ∷ ("message", str message)
          ∷ ("observedGeneration", generation)
          ∷ []))
    raise (permanent_error message)
  inference_failed body (api_error status reason text) =
      if eqb status 404 && has_substring text "keda.sh"
      then raise (temporary_error "KEDA is not installed" 30)
      else raise (api_error status reason text)
  inference_failed body e = raise e

  unfoldable pub reconcile_inference : Value → Action (Unit {0})
  unfolding truthy
  reconcile_inference body = do
    namespace ← lift (nested_item body "metadata" "namespace")
    name ← lift (nested_item body "metadata" "name")
    try (apply_inference body namespace name) (inference_failed body)
    suspended ← lift (bind (item body "spec") λ spec. get_or spec "suspend" (Value.bool false))
    url ← lift (inference_url lib body)
    generation ← lift (nested_item body "metadata" "generation")
    set_status (
        fields (
          ("phase", str (if truthy suspended then "Suspended" else "Reconciling"))
          ∷ ("message", str "desired resources applied")
          ∷ ("url", url)
          ∷ ("observedGeneration", generation)
          ∷ []))

-- `handler`: run the reconciler, and count its outcome.
unfoldable pub counted : String → Action (Unit {0}) → Action (Unit {0})
counted kind reconcile = do
  try reconcile (λ e. do count_metric (reconciled kind "error"); raise e)
  count_metric (reconciled kind "ok")

unfoldable pub inference_handler : Library → Oracle → Value → Action (Unit {0})
inference_handler lib oracle body = counted "InferenceService" (reconcile_inference lib oracle body)

abbrev pub or_zero : Value → Value
unfolding truthy
or_zero v = if truthy v then v else int (pos 0)

-- `desired > 0 and ready == desired`
abbrev pub is_ready : Value → Value → Bool
unfolding units same
is_ready desired ready = above_zero (units desired) && same ready desired
  where
    above_zero : Option ℤ → Bool
    above_zero none = false
    above_zero (some n) = not (leb_ℤ n (pos 0))

module _ (lib : Library) (oracle : Oracle) where
  -- The part of `refresh_inference_status` behind the read.
  unfoldable pub deployment_status : Result Value → Action (Unit {0})
  unfolding is_ready or_zero
  deployment_status (ok deployment) =
      let ready = or_zero (attribute (attribute deployment "status") "ready_replicas") in
      let desired = or_zero (attribute (attribute deployment "spec") "replicas") in
      set_status (
        fields (
          ("phase", str (if is_ready desired ready then "Ready" else "Scaling"))
          ∷ ("readyReplicas", ready)
          ∷ ("message", str (show lib ready ⧺ "/" ⧺ show lib desired ⧺ " replicas ready"))
          ∷ []))
  deployment_status (err e) =
      if not_found e
      then set_status (fields (("phase", str "Reconciling") ∷ ("readyReplicas", int (pos 0)) ∷ []))
      else raise e

  -- The read of the Deployment, and what follows it.
  awake_status : Value → Action (Unit {0})
  awake_status body = do
    name ← lift (nested_item body "metadata" "name")
    namespace ← lift (nested_item body "metadata" "namespace")
    found ← attempt (call oracle (read deployments namespace name))
    deployment_status found

  unfoldable pub refresh_inference_status : Value → Action (Unit {0})
  unfolding truthy awake_status
  refresh_inference_status body = do
    suspend ← lift (bind (item body "spec") λ spec. get spec "suspend")
    if truthy suspend
        then set_status (fields (("phase", str "Suspended") ∷ ("readyReplicas", int (pos 0)) ∷ []))
        else awake_status body

  -- The gauge gets what this run of the timer has put in the patch, or 0.
  unfoldable pub inference_status_handler : Value → Action (Unit {0})
  inference_status_handler body = do
    refresh_inference_status body
    namespace ← lift (nested_item body "metadata" "namespace")
    name ← lift (nested_item body "metadata" "name")
    ready ← (λ s. (ok (find_or "readyReplicas" (int (pos 0)) s.status), s))
    count_metric (inference_ready namespace name ready)
