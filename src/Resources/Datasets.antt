-- ===== src/Resources/Datasets.antt =====
-- resources.py: `_apply_datasets`, which mounts the volumes of resolved datasets into a trainer.
pub mod Mounts
pub mod Applied
use model_fleet_operator.Prelude.{
  String, Bool, true, false, not, Option, none, some, List, [], ◌∷◌, ◌++◌, if◌then◌else◌,
}
use model_fleet_operator.Python.Text.{◌⧺◌, prefix}
use model_fleet_operator.Python.Value.{
  Value, Fields, null, bool, str, arr, obj, dict, fields, list, find_or, put, truthy, is_text,
}
use model_fleet_operator.Python.Result.{
  Exception, Result, ok, err, ◌>>=◌, ◌>>◌, raise_if, invalid, type_error, attribute_error,
}
use model_fleet_operator.Python.Object.{get, get_or, item, iterate}
use model_fleet_operator.Python.Equality.{member}
use model_fleet_operator.Python.Library.{Library, show}
use model_fleet_operator.Resources.Pod.{is_container}

abbrev pub datasets_variable : String
datasets_variable = "MODEL_FLEET_DATASETS_JSON"

-- `any(item.get("name") == "MODEL_FLEET_DATASETS_JSON" for item in env)`
reserved_used : List Value → Result Bool
reserved_used [] = ok false
reserved_used (e ∷ es) = do
  name ← get e "name"
  if is_text name datasets_variable then ok true else reserved_used es

-- `{element[key] for element in elements}`; a set is a list whose order and repetitions say nothing.
pub names_under : String → List Value → Result (List Value)
names_under key [] = ok []
names_under key (e ∷ es) = do
  name ← item e key
  raise_if (is_container name) type_error
  names ← names_under key es
  ok (name ∷ names)

-- The variables of the loop over `datasets`.
pub record Mounting : Type 0 where
  pub volumes : List Value
  pub mounts : List Value
  pub volume_names : List Value
  pub mount_paths : List Value

-- `dataset["resourceName"].encode()`
abbrev encoded : Value → Result String
encoded (str s) = ok s
encoded _ = err attribute_error

abbrev pub volume_of : Library → String → String
volume_of lib resource = "dataset-" ⧺ prefix 10 (lib.sha256_hex resource)

add_volume : String → Value → Mounting → Mounting
unfolding member
add_volume volume_name claim m = if member (str volume_name) m.volume_names then m else record m {
  volumes =
      m.volumes
      ++ dict (
          ("name", str volume_name)
          ∷ ("persistentVolumeClaim", dict (("claimName", claim) ∷ ("readOnly", bool true) ∷ []))
          ∷ [])
        ∷ [];
  volume_names = str volume_name ∷ m.volume_names;
}

-- `pvc["claimName"]` is read only for a new volume.
claim_of : String → Value → Mounting → Result Value
unfolding member
claim_of volume_name pvc m =
    if member (str volume_name) m.volume_names then ok null else item pvc "claimName"

unfoldable pub mount_entry : String → Value → Value → Value
unfolding truthy put
mount_entry volume_name mount_path sub_path =
    let mount =
      fields
        (("name", str volume_name) ∷ ("mountPath", mount_path) ∷ ("readOnly", bool true) ∷ []) in
    obj (if truthy sub_path then put "subPath" sub_path mount else mount)

module _ (lib : Library) where
  -- The round of a dataset that has a volume claim.
  mount_claim : Value → Value → Mounting → Result Mounting
  unfolding add_volume claim_of member
  mount_claim dataset pvc m = do
    mount_path ← get dataset "mountPath"
    name ← (if truthy mount_path then ok null else item dataset "name")
    raise_if (not (truthy mount_path))
        (invalid ("dataset " ⧺ show lib name ⧺ " requires mountPath for PVC storage"))
    raise_if (is_container mount_path) type_error
    raise_if (member mount_path m.mount_paths) (
        invalid
          ("dataset mountPath " ⧺ show lib mount_path ⧺ " conflicts with an existing volume mount"))
    resource ← item dataset "resourceName"
    resource_name ← encoded resource
    let volume_name = volume_of lib resource_name
    claim ← claim_of volume_name pvc m
    let m' = add_volume volume_name claim m
    sub_path ← get pvc "subPath"
    ok (record m' {
      mounts = m.mounts ++ mount_entry volume_name mount_path sub_path ∷ [];
      mount_paths = mount_path ∷ m.mount_paths;
    })

  -- One round of the loop.
  unfoldable pub mount_dataset : Mounting → Value → Result Mounting
  unfolding mount_claim truthy
  mount_dataset m dataset = do
    storage ← get_or dataset "storage" (dict [])
    pvc ← get storage "pvc"
    if truthy pvc then mount_claim dataset pvc m else ok m

  unfoldable pub mount_all : Mounting → List Value → Result Mounting
  mount_all m [] = ok m
  mount_all m (d ∷ ds) = do m' ← mount_dataset m d; mount_all m' ds

  -- The container and the pod after the call.
  unfoldable pub apply_datasets : Fields → Fields → List Value → Result (Fields × Fields)
  unfolding reserved_used names_under
  apply_datasets container pod_spec [] = ok (container, pod_spec)
  apply_datasets container pod_spec (d ∷ ds) = do
    env ← iterate (find_or "env" (list []) container)
    reserved ← reserved_used env
    raise_if reserved (invalid "MODEL_FLEET_DATASETS_JSON is reserved for resolved datasets")
    let variable =
        dict (("name", str datasets_variable) ∷ ("value", str (lib.dumps (list (d ∷ ds)))) ∷ [])
    let container1 = put "env" (list (env ++ variable ∷ [])) container
    volumes ← iterate (find_or "volumes" (list []) pod_spec)
    mounts ← iterate (find_or "volumeMounts" (list []) container1)
    volume_names ← names_under "name" volumes
    mount_paths ← names_under "mountPath" mounts
    m ←
        mount_all
          (record {
            volumes = volumes;
            mounts = mounts;
            volume_names = volume_names;
            mount_paths = mount_paths;
          })
          (d ∷ ds)
    let pod_spec' =
        if truthy (list m.volumes) then put "volumes" (list m.volumes) pod_spec else pod_spec
    let container2 =
        if truthy (list m.mounts) then put "volumeMounts" (list m.mounts) container1 else container1
    ok (container2, pod_spec')
