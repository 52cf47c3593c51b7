-- ===== src/Operator/Inference/Ownership.antt =====
-- The reconciler of an InferenceService touches no object but those of that name.
use model_fleet_operator.Prelude.{
  String, ◌≡◌, refl, sym, subst, eqb, ◌&&◌, ap, ◌∙◌, [], ◌∷◌, arith, not, Option, none, some, pos,
}
use model_fleet_operator.Python.Value.{Value, str, obj, dict, int, list, find, truthy}
use model_fleet_operator.Python.Result.{
  Exception, Result, ok, err, invalid, api_error, temporary_error, >>=-eq-ok, raise_if-eq-ok,
  ok-injective,
}
use model_fleet_operator.Python.Object.{item, get, get_or, has_substring}
use model_fleet_operator.Python.Library.{Library}
use model_fleet_operator.Resources.Pod.{owner}
use model_fleet_operator.Resources.Inference.{
  build_deployment, build_service, build_http_route, build_scaled_object, enabled_scaler,
  enabled_route, object_metadata, starts_with_slash,
}
use model_fleet_operator.Resources.Inference.Shape.{build_deployment-Built}
use model_fleet_operator.Kube.{
  Call, read, create, patch, delete, list_all, produce, flush, commit, post, get_query, raise,
  State, Oracle, not_found,
}
use model_fleet_operator.Kube.Moves
use model_fleet_operator.Kube.Moves.{Moves, adds, Adds}
use model_fleet_operator.Operator.Apply.{nested_item, write, upsert, apply_custom, delete_custom}
use model_fleet_operator.Operator.Inference.{
  settle, apply_inference, inference_failed, reconcile_inference,
}

-- The call is about the object `name` of `namespace`; a new object is created under that name.
abbrev pub IsAbout : Value → Value → Call → Type 0
IsAbout namespace name (read resource ns n) = (ns ≡ namespace) × (n ≡ name)
IsAbout namespace name (create resource ns body) =
    (ns ≡ namespace) × (nested_item body "metadata" "name" ≡ ok name)
IsAbout namespace name (patch resource ns n body) = (ns ≡ namespace) × (n ≡ name)
IsAbout namespace name (delete resource ns n) = (ns ≡ namespace) × (n ≡ name)
IsAbout namespace name (list_all resource ns) = ⊥
IsAbout namespace name (flush topic payload key) = ⊥
IsAbout namespace name (post url authorization body) = ⊥
IsAbout namespace name (get_query url authorization query) = ⊥
IsAbout namespace name (produce topic payload key) = ⊥
IsAbout namespace name commit = ⊥

-- The object carries that name and namespace.
pub record IsNamed (namespace name body : Value) : Type 0 where
  pub in_namespace : nested_item body "metadata" "namespace" ≡ ok namespace
  pub by_name : nested_item body "metadata" "name" ≡ ok name

module _ (oracle : Oracle) (namespace name : Value) where
  write-IsAbout :
      (resource : String) (ns n body : Value) (found : Result Value)
      → ns ≡ namespace
      → n ≡ name
      → nested_item body "metadata" "name" ≡ ok name
      → Moves (adds (IsAbout namespace name)) (write oracle resource ns n body found)
  unfolding write
  write-IsAbout resource ns n body (ok v) p q named =
      Moves.bind _ _ _ (Moves.call oracle (patch resource ns n body) (p, q)) λ _. Moves.pure _ tt
  write-IsAbout resource ns n body (err e) p q named =
      Moves.branch _ (not_found e) _ _
        (λ _.
          Moves.bind _ _ _ (Moves.call oracle (create resource ns body) (p, named))
            λ _. Moves.pure _ tt)
        (λ _. Moves.raise _ e)

  upsert-IsAbout :
      (resource : String) (body : Value)
      → IsNamed namespace name body
      → Moves (adds (IsAbout namespace name)) (upsert oracle resource body)
  unfolding upsert
  upsert-IsAbout resource body h =
      Moves.bind_lift _ (nested_item body "metadata" "name") _ λ n has_name.
        Moves.bind_lift _ (nested_item body "metadata" "namespace") _ λ ns has_namespace.
          let same_name : n ≡ name = ok-injective (sym has_name ∙ h.by_name) in
          let same_namespace : ns ≡ namespace = ok-injective (sym has_namespace ∙ h.in_namespace) in
          Moves.bind _ _ _
            (Moves.attempt _ _ (Moves.call oracle (read resource ns n) (same_namespace, same_name)))
            λ found. write-IsAbout resource ns n body found same_namespace same_name h.by_name

  apply_custom-IsAbout :
      (resource : String) (body : Value)
      → IsNamed namespace name body
      → Moves (adds (IsAbout namespace name)) (apply_custom oracle resource body)
  unfolding apply_custom
  apply_custom-IsAbout resource body h =
      Moves.bind_lift _ (nested_item body "metadata" "namespace") _ λ ns has_namespace.
        Moves.bind_lift _ (nested_item body "metadata" "name") _ λ n has_name.
          let same_name : n ≡ name = ok-injective (sym has_name ∙ h.by_name) in
          let same_namespace : ns ≡ namespace = ok-injective (sym has_namespace ∙ h.in_namespace) in
          Moves.bind _ _ _
            (Moves.attempt _ _ (Moves.call oracle (read resource ns n) (same_namespace, same_name)))
            λ found. write-IsAbout resource ns n body found same_namespace same_name h.by_name

  delete_custom-IsAbout :
      (resource : String)
      → Moves (adds (IsAbout namespace name)) (delete_custom oracle resource namespace name)
  unfolding delete_custom
  delete_custom-IsAbout resource =
      Moves.try _ _ _
        (Moves.bind _ _ _ (Moves.call oracle (delete resource namespace name) (refl, refl))
          λ _. Moves.pure _ tt)
        (λ e. Moves.branch _ (not_found e) _ _ (λ _. Moves.pure _ tt) (λ _. Moves.raise _ e))

-- An object whose metadata holds the name and the namespace.
abbrev with_metadata : Value → Value → Value → Value → Value → Value → Value → Value
with_metadata version kind n ns label owners spec = dict (
    ("apiVersion", version)
    ∷ ("kind", kind)
    ∷ ("metadata", obj (object_metadata n ns label owners))
    ∷ ("spec", spec)
    ∷ [])

with_metadata-IsNamed :
    (version kind label owners spec : Value) {namespace name n ns s : Value}
    → n ≡ name
    → ns ≡ namespace
    → with_metadata version kind n ns label owners spec ≡ s
    → IsNamed namespace name s
unfolding item find
with_metadata-IsNamed version kind label owners spec {namespace} {name} p q e =
    subst (IsNamed namespace name) e (record { in_namespace = ap ok q; by_name = ap ok p })

-- Every object that is built for `body` has the name and the namespace of `body`.
module _ (body : Value) {namespace name : Value} (b : IsNamed namespace name body) where
  own_name :
      (metadata n : Value)
      → item body "metadata" ≡ ok metadata
      → item metadata "name" ≡ ok n
      → n ≡ name
  own_name metadata n em en = ok-injective (sym (rw em en) ∙ b.by_name)

  own_namespace :
      (metadata ns : Value)
      → item body "metadata" ≡ ok metadata
      → item metadata "namespace" ≡ ok ns
      → ns ≡ namespace
  own_namespace metadata ns em en = ok-injective (sym (rw em en) ∙ b.in_namespace)

  service-IsNamed : {s : Value} → build_service body ≡ ok s → IsNamed namespace name s
  unfolding build_service item find
  service-IsNamed {s} h =
      let (spec, _, h1) = >>=-eq-ok (item body "spec") _ h in
      let (metadata, em, h2) = >>=-eq-ok (item body "metadata") _ h1 in
      let (n, en, h3) = >>=-eq-ok (item metadata "name") _ h2 in
      let (service, _, h4) = >>=-eq-ok (get_or spec "service" (dict [])) _ h3 in
      let (ns, ens, h5) = >>=-eq-ok (item metadata "namespace") _ h4 in
      let same_name = own_name metadata n em en in
      let same_namespace = own_namespace metadata ns em ens in
      record { in_namespace = ground arith; by_name = ground arith }

  enabled_scaler-IsNamed :
      (spec autoscaling : Value) {s : Value}
      → enabled_scaler body spec autoscaling ≡ ok s
      → IsNamed namespace name s
  unfolding enabled_scaler item find
  enabled_scaler-IsNamed spec autoscaling {s} h =
      let (triggers, _, h1) = >>=-eq-ok (get_or autoscaling "triggers" (list [])) _ h in
      let (_, h2) = raise_if-eq-ok (not (truthy triggers)) _ _ h1 in
      let (metadata, em, h3) = >>=-eq-ok (item body "metadata") _ h2 in
      let (n, en, h4) = >>=-eq-ok (item metadata "name") _ h3 in
      let (_, _, h5) = >>=-eq-ok (get_or autoscaling "pollingInterval" (int (pos 30))) _ h4 in
      let (_, _, h6) = >>=-eq-ok (get_or autoscaling "cooldownPeriod" (int (pos 300))) _ h5 in
      let (_, _, h7) = >>=-eq-ok (get spec "forceActive") _ h6 in
      let (_, _, h8) = >>=-eq-ok (get_or autoscaling "minReplicas" (int (pos 0))) _ h7 in
      let (_, _, h9) = >>=-eq-ok (get_or autoscaling "maxReplicas" (int (pos 1))) _ h8 in
      let (_, _, h10) = >>=-eq-ok (get autoscaling "fallback") _ h9 in
      let (ns, ens, h11) = >>=-eq-ok (item metadata "namespace") _ h10 in
      let (owners, _, h12) = >>=-eq-ok (owner body) _ h11 in
      with_metadata-IsNamed _ _ _ _ _ (own_name metadata n em en) (own_namespace metadata ns em ens)
        (ok-injective h12)

  scaler-IsNamed : {s : Value} → build_scaled_object body ≡ ok (some s) → IsNamed namespace name s
  unfolding build_scaled_object
  scaler-IsNamed {s} h =
      let (spec, _, h1) = >>=-eq-ok (item body "spec") _ h in
      let (autoscaling, _, h2) = >>=-eq-ok (get_or spec "autoscaling" (dict [])) _ h1 in
      let built : enabled_scaler body spec autoscaling ≡ ok s = ground arith in
      enabled_scaler-IsNamed spec autoscaling built

  enabled_route-IsNamed :
      (gateway : Value) {r : Value} → enabled_route body gateway ≡ ok r → IsNamed namespace name r
  unfolding enabled_route item find
  enabled_route-IsNamed gateway {r} h =
      let (spec, _, h1) = >>=-eq-ok (item body "spec") _ h in
      let (metadata, em, h2) = >>=-eq-ok (item body "metadata") _ h1 in
      let (n, en, h3) = >>=-eq-ok (item metadata "name") _ h2 in
      let (ns, ens, h4) = >>=-eq-ok (item metadata "namespace") _ h3 in
      let (prefix, _, h5) = >>=-eq-ok (get_or gateway "pathPrefix" (str "/")) _ h4 in
      let (slash, _, h6) = >>=-eq-ok (starts_with_slash prefix) _ h5 in
      let (_, h7) = raise_if-eq-ok (not slash) _ _ h6 in
      let (_, _, h8) = >>=-eq-ok (get_or gateway "name" (str "model-fleet")) _ h7 in
      let (_, _, h9) = >>=-eq-ok (get_or gateway "namespace" (str "model-fleet-system")) _ h8 in
      let (_, _, h10) = >>=-eq-ok (get gateway "sectionName") _ h9 in
      let (service, _, h11) = >>=-eq-ok (get_or spec "service" (dict [])) _ h10 in
      let (_, _, h12) = >>=-eq-ok (get_or service "port" (int (pos 80))) _ h11 in
      let (_, _, h13) = >>=-eq-ok (get gateway "hostnames") _ h12 in
      let (owners, _, h14) = >>=-eq-ok (owner body) _ h13 in
      with_metadata-IsNamed _ _ _ _ _ (own_name metadata n em en) (own_namespace metadata ns em ens)
        (ok-injective h14)

  route-IsNamed : {r : Value} → build_http_route body ≡ ok (some r) → IsNamed namespace name r
  unfolding build_http_route
  route-IsNamed {r} h =
      let (spec, _, h1) = >>=-eq-ok (item body "spec") _ h in
      let (gateway, _, h2) = >>=-eq-ok (get_or spec "gateway" (dict [])) _ h1 in
      let built : enabled_route body gateway ≡ ok r = ground arith in
      enabled_route-IsNamed gateway built

  deployment-IsNamed :
      (lib : Library) {d : Value} → build_deployment lib body ≡ ok d → IsNamed namespace name d
  unfolding item find
  deployment-IsNamed lib h =
      let b' = build_deployment-Built lib body h in
      let same_name = own_name b'.metadata b'.name b'.has_metadata b'.has_name in
      let same_namespace =
        own_namespace b'.metadata b'.namespace b'.has_metadata b'.has_namespace in
      record {
        in_namespace = rw (← b'.object) (ap ok same_namespace);
        by_name = rw (← b'.object) (ap ok same_name);
      }

module _ (lib : Library) (oracle : Oracle) (body : Value) where
  settle-IsAbout :
      (resource : String) {namespace name : Value} (object : Option Value)
      → ((v : Value) → object ≡ some v → IsNamed namespace name v)
      → Moves (adds (IsAbout namespace name)) (settle lib oracle resource namespace name object)
  unfolding settle
  settle-IsAbout resource none named = delete_custom-IsAbout oracle _ _ resource
  settle-IsAbout resource (some v) named = apply_custom-IsAbout oracle _ _ resource v (named v refl)

  apply_inference-IsAbout :
      {namespace name : Value}
      → IsNamed namespace name body
      → Moves (adds (IsAbout namespace name)) (apply_inference lib oracle body namespace name)
  unfolding apply_inference
  apply_inference-IsAbout b = Moves.bind_lift _ (build_deployment lib body) _ λ d built_d.
      Moves.bind _ _ _ (upsert-IsAbout oracle _ _ _ d (deployment-IsNamed body b lib built_d)) λ _.
        Moves.bind_lift _ (build_service body) _ λ s built_s.
          Moves.bind _ _ _ (upsert-IsAbout oracle _ _ _ s (service-IsNamed body b built_s)) λ _.
            Moves.bind_lift _ (build_scaled_object body) _ λ scaler built.
              Moves.bind _ _ _
                (settle-IsAbout _ scaler λ v e. scaler-IsNamed body b (built ∙ ap ok e))
                λ _. Moves.bind_lift _ (build_http_route body) _ λ route built_r.
                  settle-IsAbout _ route λ v e. route-IsNamed body b (built_r ∙ ap ok e)

  inference_failed-IsAbout :
      {P : Call → Type 0} (e : Exception) → Moves (adds P) (inference_failed lib oracle body e)
  unfolding inference_failed
  inference_failed-IsAbout (invalid message) =
      Moves.bind_lift _ (nested_item body "metadata" "generation") _
        λ g _. Moves.bind _ _ _ (Moves.set_status _) λ _. Moves.raise _ _
  inference_failed-IsAbout (api_error status reason text) =
      Moves.branch _ (eqb status 404 && has_substring text "keda.sh")
        (raise (temporary_error "KEDA is not installed" 30)) (raise (api_error status reason text))
        (λ _. Moves.raise _ (temporary_error "KEDA is not installed" 30))
        (λ _. Moves.raise _ (api_error status reason text))
  inference_failed-IsAbout e = Moves.raise _ e

  reconcile_inference-Moves :
      {namespace name : Value}
      → IsNamed namespace name body
      → Moves (adds (IsAbout namespace name)) (reconcile_inference lib oracle body)
  unfolding reconcile_inference
  reconcile_inference-Moves {namespace} {name} b =
      Moves.bind_lift _ (nested_item body "metadata" "namespace") _ λ ns is_ns.
        Moves.bind_lift _ (nested_item body "metadata" "name") _ λ n is_n.
          let same_ns : ns ≡ namespace = ok-injective (sym is_ns ∙ b.in_namespace) in
          let same_n : n ≡ name = ok-injective (sym is_n ∙ b.by_name) in
          rw (same_ns, same_n)
            (Moves.bind _ _ _ (Moves.try _ _ _ (apply_inference-IsAbout b) inference_failed-IsAbout)
              λ _. Moves.bind _ _ _ (Moves.lift _ _) λ _.
                Moves.bind _ _ _ (Moves.lift _ _)
                  λ _. Moves.bind _ _ _ (Moves.lift _ _) λ _. Moves.set_status _)

  -- Whatever the API answers, every call that the reconciler of an InferenceService makes is about
  -- an object of the service's own namespace and name.
  pub reconcile_inference-IsAbout :
      {namespace name : Value} (s : State)
      → IsNamed namespace name body
      → Adds (IsAbout namespace name) s (reconcile_inference lib oracle body s).1
  reconcile_inference-IsAbout s b = (reconcile_inference-Moves b).from s
