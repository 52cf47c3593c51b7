-- ===== src/Resources/Pod.antt =====
-- resources.py: labels, owners, containers and init containers.
pub mod Restricted
use model_fleet_operator.Prelude.{
  String, Bool, true, false, not, Option, none, some, List, [], ◌∷◌, ◌++◌, ◌||◌, ◌==◌, pos,
  if◌then◌else◌,
}
use model_fleet_operator.Python.Text.{◌⧺◌, prefix}
use model_fleet_operator.Python.Value.{
  Value, Fields, null, bool, int, str, arr, obj, field, end, dict, fields, list, find, find_or, put,
  truthy, is_text,
}
use model_fleet_operator.Python.Result.{
  Result, ok, err, ◌>>=◌, ◌>>◌, raise_if, invalid, type_error, Exception,
}
use model_fleet_operator.Python.Object.{get, get_or, item, store, setdefault, iterate}
use model_fleet_operator.Python.Library.{Library, show}

abbrev pub labels : Value → String → Value
labels name component = dict (
    ("app.kubernetes.io/name", name)
    ∷ ("app.kubernetes.io/component", str component)
    ∷ ("app.kubernetes.io/managed-by", str "model-fleet-operator")
    ∷ [])

unfoldable pub owner : Value → Result Value
unfolding item
owner body = do
  metadata ← item body "metadata"
  kind ← item body "kind"
  name ← item metadata "name"
  uid ← item metadata "uid"
  ok (
      list (
        dict (
          ("apiVersion", str "fleet.sqe.io/v1alpha1")
          ∷ ("kind", kind)
          ∷ ("name", name)
          ∷ ("uid", uid)
          ∷ ("controller", bool true)
          ∷ ("blockOwnerDeletion", bool true)
          ∷ [])
        ∷ []))

-- `hashlib.sha256(json.dumps(spec, ...).encode()).hexdigest()[:12]`
unfoldable pub spec_hash : Library → Value → String
unfolding prefix
spec_hash lib spec = prefix 12 (lib.sha256_hex (lib.dumps spec))

-- `for field in (...): if value := source.get(field): target[field] = value`
unfoldable pub copy_truthy : List String → Fields → Fields → Fields
unfolding find put truthy
copy_truthy [] source target = target
copy_truthy (k ∷ ks) source target =
    copy_truthy ks source (elim (find k source) [
      | none ↦ target
      | some v ↦ if truthy v then put k v target else target
    ])

abbrev pub container_fields : List String
container_fields = "command" ∷ "args" ∷ "env" ∷ "envFrom" ∷ "volumeMounts" ∷ []

abbrev pub pod_fields : List String
pod_fields = "nodeSelector" ∷ "tolerations" ∷ "affinity" ∷ "volumes" ∷ "imagePullSecrets" ∷ []

abbrev pub security_context : Value
security_context = dict (
    ("allowPrivilegeEscalation", bool false)
    ∷ ("capabilities", dict (("drop", list (str "ALL" ∷ [])) ∷ []))
    ∷ [])

abbrev pub requests : String → String → Value
requests cpu memory =
    dict (("requests", dict (("cpu", str cpu) ∷ ("memory", str memory) ∷ [])) ∷ [])

abbrev fields_of : Value → Result Fields
fields_of (obj fs) = ok fs
fields_of _ = err Exception.attribute_error

-- Lists and dictionaries cannot be put in a set.
abbrev pub is_container : Value → Bool
is_container (arr vs) = true
is_container (obj fs) = true
is_container _ = false

-- Is the variable `key` in `{item["name"] for item in env}`?
defines : String → List Value → Result Bool
defines key [] = ok false
defines key (e ∷ es) = do
  name ← item e "name"
  raise_if (is_container name) type_error
  rest ← defines key es
  ok (is_text name key || rest)

-- `if value is not None and key not in defined: env.append(...)`. `base` is the `env` that
-- `defined` was taken from.
add_variable : Library → List Value → String → Value → List Value → Result (List Value)
unfolding defines
add_variable lib base key null env = ok env
add_variable lib base key value env = do
  defined ← defines key base
  ok (
      if defined
      then env
      else env ++ dict (("name", str key) ∷ ("value", str (show lib value)) ∷ []) ∷ [])

-- `_container`. The names of `env` are read even if no variable is added.
unfoldable pub container : Library → Value → Value → Result Fields
unfolding copy_truthy add_variable
container lib spec name = do
  container_spec ← item spec "container"
  image ← item container_spec "image"
  source ← fields_of container_spec
  let base = copy_truthy container_fields source (
      fields (
        ("name", name)
        ∷ ("image", image)
        ∷ ("imagePullPolicy", find_or "imagePullPolicy" (str "IfNotPresent") source)
        ∷ (
          "ports",
          list (
              dict (
                ("name", str "http")
                ∷ ("containerPort", find_or "port" (int (pos 8080)) source)
                ∷ [])
              ∷ []),
        )
        ∷ ("resources", find_or "resources" (requests "500m" "1Gi") source)
        ∷ ("securityContext", security_context)
        ∷ []))
  env ← iterate (find_or "env" (list []) base)
  model ← item spec "model"
  names_read ← defines "" env
  model_name ← item model "name"
  model_version ← get model "version"
  model_uri ← get model "uri"
  env1 ← add_variable lib env "MODEL_NAME" model_name env
  env2 ← add_variable lib env "MODEL_VERSION" model_version env1
  env3 ← add_variable lib env "MODEL_URI" model_uri env2
  ok (if truthy (list env3) then put "env" (list env3) base else base)

-- The two tests on the security context and its capabilities.
check_security : Value → Value → Result (Unit {0})
unfolding truthy
check_security security capabilities = do
  privileged ← get security "privileged"
  escalation ← get security "allowPrivilegeEscalation"
  raise_if (truthy privileged || truthy escalation)
      (invalid "spec.initContainers cannot request privileged execution")
  added ← get capabilities "add"
  raise_if (truthy added) (invalid "spec.initContainers cannot add Linux capabilities")

-- The two assignments. The capabilities are part of the security context, and change in it.
seal : Value → Value → Result Value
seal security capabilities = do
  security' ← store security "allowPrivilegeEscalation" (bool false)
  (drop, capabilities') ← setdefault capabilities "drop" (list (str "ALL" ∷ []))
  store security' "capabilities" capabilities'

-- One round of the loop over `initContainers`.
unfoldable pub restrict : Value → Result Value
unfolding truthy check_security seal
restrict c = do
  name ← get c "name"
  image ← get c "image"
  raise_if (not (truthy name) || not (truthy image))
      (invalid "each spec.initContainers entry requires name and image")
  (security, c') ← setdefault c "securityContext" (dict [])
  (capabilities, security') ← setdefault security "capabilities" (dict [])
  check_security security' capabilities
  sealed ← seal security' capabilities
  store c' "securityContext" sealed

pub restrict_all : List Value → Result (List Value)
restrict_all [] = ok []
restrict_all (c ∷ cs) = do c' ← restrict c; cs' ← restrict_all cs; ok (c' ∷ cs')

-- `_init_containers`, where `initContainers` is truthy: a text or a dict fails on its elements.
unfoldable pub init_containers : Value → Result Value
unfolding restrict_all
init_containers containers = do cs ← iterate containers; cs' ← restrict_all cs; ok (list cs')
