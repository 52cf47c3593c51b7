-- ===== src/Resources/Inference/Shape.antt =====
-- The Deployment, the Service and the autoscaler of one InferenceService fit together.
use model_fleet_operator.Prelude.{true, not, none, some, [], ◌∷◌, ◌≡◌, arith, sym, ap, ◌∙◌, pos}
use model_fleet_operator.Python.Value.{Value, int, str, obj, dict, list, truthy, at, find, put}
use model_fleet_operator.Python.Result.{ok, >>=-eq-ok, ok-injective, raise_if-eq-ok}
use model_fleet_operator.Python.Object.{get, item}
use model_fleet_operator.Python.Library.{Library}
use model_fleet_operator.Resources.Accelerator.{Applied}
use model_fleet_operator.Resources.Pod.{labels, owner, spec_hash}
use model_fleet_operator.Resources.Inference.{
  nested, desired_replicas, gpu_annotation, deployment, inference_pod_spec, build_deployment,
  build_service, build_scaled_object,
}

-- The choices behind a Deployment that was built.
pub record Built (lib : Library) (body d : Value) : Type 0 where
  pub spec : Value
  pub metadata : Value
  pub name : Value
  pub replicas : Value
  pub applied : Applied
  pub namespace : Value
  pub owners : Value
  pub has_spec : item body "spec" ≡ ok spec
  pub has_metadata : item body "metadata" ≡ ok metadata
  pub has_name : item metadata "name" ≡ ok name
  pub desired : desired_replicas spec ≡ ok replicas
  pub has_pod : inference_pod_spec lib spec name ≡ ok applied
  pub has_namespace : item metadata "namespace" ≡ ok namespace
  pub object :
      deployment name namespace
        (labels name "inference")
        owners
        replicas
        (dict (
          ("fleet.sqe.io/spec-hash", str (spec_hash lib spec))
          ∷ gpu_annotation applied.minimum_memory))
        (obj (put "containers" (list (obj applied.container ∷ [])) applied.pod_spec))
      ≡ d

pub build_deployment-Built :
    (lib : Library) (body : Value) {d : Value} → build_deployment lib body ≡ ok d → Built lib body d
unfolding build_deployment
build_deployment-Built lib body h =
    let (spec, e1, h1) = >>=-eq-ok (item body "spec") _ h in
    let (metadata, e2, h2) = >>=-eq-ok (item body "metadata") _ h1 in
    let (name, e3, h3) = >>=-eq-ok (item metadata "name") _ h2 in
    let (model, _, h4) = >>=-eq-ok (nested spec "model" "name") _ h3 in
    let (_, h5) = raise_if-eq-ok (not (truthy model)) _ _ h4 in
    let (image, _, h6) = >>=-eq-ok (nested spec "container" "image") _ h5 in
    let (_, h7) = raise_if-eq-ok (not (truthy image)) _ _ h6 in
    let (replicas, e4, h8) = >>=-eq-ok (desired_replicas spec) _ h7 in
    let (applied, e5, h9) = >>=-eq-ok (inference_pod_spec lib spec name) _ h8 in
    let (namespace, e6, h10) = >>=-eq-ok (item metadata "namespace") _ h9 in
    let (owners, _, h11) = >>=-eq-ok (owner body) _ h10 in
    record {
      spec = spec;
      metadata = metadata;
      name = name;
      replicas = replicas;
      applied = applied;
      namespace = namespace;
      owners = owners;
      has_spec = e1;
      has_metadata = e2;
      has_name = e3;
      desired = e4;
      has_pod = e5;
      has_namespace = e6;
      object = ok-injective h11;
    }

selector-service :
    (body metadata name : Value) {s : Value}
    → item body "metadata" ≡ ok metadata
    → item metadata "name" ≡ ok name
    → build_service body ≡ ok s
    → at ("spec" ∷ "selector" ∷ []) s ≡ some (labels name "inference")
unfolding build_service at find
selector-service body metadata name em en h = ground arith

-- The labels by which the Deployment finds its pods are those that it gives them, and the Service
-- of the same InferenceService selects by them too.
pub service-selects-deployment :
    (lib : Library) (body : Value) {d s : Value}
    → build_deployment lib body ≡ ok d
    → build_service body ≡ ok s
    → (label : Value) × (at ("spec" ∷ "selector" ∷ "matchLabels" ∷ []) d ≡ some label)
      × (at ("spec" ∷ "template" ∷ "metadata" ∷ "labels" ∷ []) d ≡ some label)
      × (at ("spec" ∷ "selector" ∷ []) s ≡ some label)
unfolding at find
service-selects-deployment lib body hd hs =
    let b = build_deployment-Built lib body hd in
    (
      labels b.name "inference",
      rw (← b.object),
      rw (← b.object),
      selector-service body b.metadata b.name b.has_metadata b.has_name hs,
    )

desired_replicas-suspended :
    (spec suspend : Value) {replicas : Value}
    → get spec "suspend" ≡ ok suspend
    → truthy suspend ≡ true
    → desired_replicas spec ≡ ok replicas
    → replicas ≡ int (pos 0)
unfolding desired_replicas
desired_replicas-suspended spec suspend g t h = ground arith

scaled_object-suspended :
    (body spec suspend replicas : Value)
    → item body "spec" ≡ ok spec
    → get spec "suspend" ≡ ok suspend
    → truthy suspend ≡ true
    → desired_replicas spec ≡ ok replicas
    → build_scaled_object body ≡ ok none
unfolding desired_replicas build_scaled_object
scaled_object-suspended body spec suspend replicas s g t h = ground arith

-- A suspended InferenceService gets a Deployment of no replicas and no autoscaler that could wake
-- it.
suspended_sleeps :
    (lib : Library) (body spec suspend : Value) {d : Value}
    → item body "spec" ≡ ok spec
    → get spec "suspend" ≡ ok suspend
    → truthy suspend ≡ true
    → build_deployment lib body ≡ ok d
    → (at ("spec" ∷ "replicas" ∷ []) d ≡ some (int (pos 0))) × (build_scaled_object body ≡ ok none)
unfolding at find
suspended_sleeps lib body spec suspend s g t h =
    let b = build_deployment-Built lib body h in
    let same : b.spec ≡ spec = ok-injective (sym b.has_spec ∙ s) in
    let desired : desired_replicas spec ≡ ok b.replicas = rw (← same) b.desired in
    let asleep = desired_replicas-suspended spec suspend g t desired in
    (
      rw (← b.object) (ap some asleep),
      scaled_object-suspended body spec suspend b.replicas s g t desired,
    )
