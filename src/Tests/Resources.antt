-- ===== src/Tests/Resources.antt =====
-- resources.py: the theorems at concrete inputs.
use model_fleet_operator.Python.Number.{to_int}
use model_fleet_operator.Python.Object.{get_or, iterate, setdefault, store}
use model_fleet_operator.Python.Value.{find_or, put, truthy}
use model_fleet_operator.Resources.Accelerator.{
  apply_accelerator, select_class, set_gpu_class, set_gpu_count,
}
use model_fleet_operator.Resources.Datasets.{mount_dataset, apply_datasets}
use model_fleet_operator.Resources.Inference.{
  desired_replicas, inference_pod_spec, with_init_containers,
}
use model_fleet_operator.Resources.Pod.{owner, restrict}
use model_fleet_operator.Prelude.{All₂, String, ◌≡◌, refl, arith, List, [], ◌∷◌, pos, some, none}
use model_fleet_operator.Python.Value.{Value, Fields, null, int, str, dict, list, fields, at}
use model_fleet_operator.Python.Object.{get, item}
use model_fleet_operator.Python.Result.{ok, ok_or}
use model_fleet_operator.Python.Number.{positive_whole}
use model_fleet_operator.Resources.Gpu.{gpu_class, gpu_memory_requirement}
use model_fleet_operator.Resources.Gpu.Classes.{IsLeast, gpu_class-IsLeast}
use model_fleet_operator.Resources.Accelerator.{Applied, apply_present}
use model_fleet_operator.Resources.Accelerator.Placement.{IsPlaced, apply_present-IsPlaced}
use model_fleet_operator.Resources.Pod.{init_containers}
use model_fleet_operator.Resources.Pod.Restricted.{IsRestricted, init_containers-IsRestricted}
use model_fleet_operator.Resources.Datasets.{mount_all}
use model_fleet_operator.Resources.Datasets.Applied.{Mounted, apply_datasets-Mounted}
use model_fleet_operator.Resources.Inference.{build_deployment, build_service}
use model_fleet_operator.Resources.Inference.Shape.{service-selects-deployment}
use model_fleet_operator.Tests.Samples.{plain_library, chat}

gpu_class-IsLeast_example : (c : String) × (gpu_class (pos 40) ≡ ok c) × IsLeast 40 c
gpu_class-IsLeast_example = gpu_class-IsLeast 40 (omega arith)

abbrev accelerator : Fields
accelerator =
    fields
      (("class", str "auto") ∷ ("count", int (pos 2)) ∷ ("minimumMemoryGiB", int (pos 80)) ∷ [])

abbrev nothing_applied : Applied
nothing_applied = record { minimum_memory = none; pod_spec = Fields.end; container = Fields.end }

abbrev placed : Applied
placed = ok_or nothing_applied (apply_present plain_library accelerator Fields.end Fields.end)

apply_present-IsPlaced_example : IsPlaced accelerator placed
unfolding apply_present gpu_memory_requirement get_or positive_whole get select_class find_or
    gpu_class set_gpu_count setdefault to_int store set_gpu_class
apply_present-IsPlaced_example =
    apply_present-IsPlaced plain_library accelerator Fields.end Fields.end refl

abbrev setup : Value
setup = list (
    dict (
      ("name", str "setup")
      ∷ ("image", str "busybox:1")
      ∷ ("securityContext", dict (("runAsUser", int (pos 1000)) ∷ []))
      ∷ [])
    ∷ [])

init_containers-IsRestricted_example :
    (given cs : List Value) × (iterate setup ≡ ok given)
    × (ok_or null (init_containers setup) ≡ list cs)
    × All₂ IsRestricted given cs
unfolding init_containers iterate restrict get setdefault store
init_containers-IsRestricted_example = init_containers-IsRestricted setup refl

abbrev corpus : Value
corpus = dict (
    ("name", str "train")
    ∷ ("resourceName", str "corpus")
    ∷ ("mountPath", str "/data")
    ∷ ("storage", dict (("pvc", dict (("claimName", str "claim") ∷ [])) ∷ []))
    ∷ [])

-- A container with a mount at another path.
abbrev trainer : Fields
trainer = fields (
    (
      "volumeMounts",
      list (dict (("name", str "scratch") ∷ ("mountPath", str "/scratch") ∷ []) ∷ []),
    )
    ∷ [])

abbrev applied : Fields × Fields
applied =
    ok_or (Fields.end, Fields.end) (apply_datasets plain_library trainer Fields.end (corpus ∷ []))

apply_datasets-Mounted_example : Mounted trainer applied.0
unfolding apply_datasets mount_all mount_dataset get_or get item iterate find_or put truthy
apply_datasets-Mounted_example =
    apply_datasets-Mounted plain_library trainer Fields.end corpus [] refl

abbrev chat_deployment : Value
chat_deployment = ok_or null (build_deployment plain_library chat)

service-selects-deployment_example :
    (label : Value) × (at ("spec" ∷ "selector" ∷ "matchLabels" ∷ []) chat_deployment ≡ some label)
    × (at ("spec" ∷ "template" ∷ "metadata" ∷ "labels" ∷ []) chat_deployment ≡ some label)
    × (at ("spec" ∷ "selector" ∷ []) (ok_or null (build_service chat)) ≡ some label)
unfolding build_deployment build_service item get_or get desired_replicas inference_pod_spec
    model_fleet_operator.Resources.Pod.container iterate with_init_containers apply_accelerator
    owner
service-selects-deployment_example = service-selects-deployment plain_library chat refl refl
