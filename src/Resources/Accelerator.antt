-- ===== src/Resources/Accelerator.antt =====
-- resources.py: `_apply_accelerator` and `_apply_gpu_product_affinity`. The two dictionaries that
-- they mutate are passed in and returned.
pub mod Placement
use model_fleet_operator.Prelude.{
  ℕ, String, Bool, true, false, not, Option, none, some, List, [], ◌∷◌, ℤ, pos, leb, ltb, eqb_ℤ,
  ◌&&◌, ◌||◌, ◌==◌, any, if◌then◌else◌,
}
use model_fleet_operator.Python.Text.{◌⧺◌, decimal}
use model_fleet_operator.Python.Value.{
  Value, Items, Fields, null, int, str, arr, obj, end, dict, list, find, find_or, put, truthy,
  is_text, is_str,
}
use model_fleet_operator.Python.Result.{
  Exception, Result, ok, err, ◌>>=◌, ◌>>◌, raise_if, invalid, type_error, value_error,
}
use model_fleet_operator.Python.Object.{
  get, get_or, item, store, setdefault, iterate, append, has_key, contains,
}
use model_fleet_operator.Python.Number.{to_int}
use model_fleet_operator.Python.Library.{Library, show}
use model_fleet_operator.Resources.Gpu.{
  gpu_class, gpu_class_capacity, gpu_class_label, gpu_product_label, gpu_memory_requirement,
}

abbrev required_label : String
required_label = "requiredDuringSchedulingIgnoredDuringExecution"

-- `selected and selected not in products`
excluded : Value → Value → Result Bool
excluded (str s) products = do found ← contains products s; ok (not (s == "") && not found)
excluded selected products = ok (truthy selected)

has_product_key : List Value → Result Bool
has_product_key [] = ok false
has_product_key (e ∷ es) = do
  key ← get e "key"
  if is_text key gpu_product_label then ok true else has_product_key es

-- One round of the loop over `terms`.
add_expression : Value → Value → Result Value
unfolding has_product_key
add_expression products term = do
  (expressions, term') ← setdefault term "matchExpressions" (list [])
  es ← iterate expressions
  clash ← has_product_key es
  raise_if clash (invalid "spec.accelerator.products conflicts with spec.affinity")
  expressions' ←
      append expressions
        (dict (("key", str gpu_product_label) ∷ ("operator", str "In") ∷ ("values", products) ∷ []))
  store term' "matchExpressions" expressions'

add_expressions : Value → List Value → Result (List Value)
add_expressions products [] = ok []
add_expressions products (t ∷ ts) = do
  t' ← add_expression products t
  ts' ← add_expressions products ts
  ok (t' ∷ ts')

-- The terms are changed in place: any other iterable that has none stays what it is.
changed_terms : Value → List Value → Value
changed_terms (arr vs) ts = list ts
changed_terms v ts = v

-- `affinity` with the expression in each term.
require_product : Value → Value → Result Value
unfolding add_expression add_expressions changed_terms
require_product products affinity = do
  (node_affinity, affinity') ← setdefault affinity "nodeAffinity" (dict [])
  (required, node_affinity') ← setdefault node_affinity required_label (dict [])
  (terms, required') ← setdefault required "nodeSelectorTerms" (list (dict [] ∷ []))
  ts ← iterate terms
  ts' ← add_expressions products ts
  required'' ← store required' "nodeSelectorTerms" (changed_terms terms ts')
  node_affinity'' ← store node_affinity' required_label required''
  store affinity' "nodeAffinity" node_affinity''

check_products : Value → Result (Unit {0})
check_products products = do
  raise_if (not (truthy products))
      (invalid "spec.accelerator.products must contain at least one GPU product")
  ps ← iterate products
  raise_if (any (λ p. not (is_str p) || not (truthy p)) ps)
      (invalid "spec.accelerator.products must contain at least one GPU product")

unfoldable pub apply_gpu_product_affinity : Fields → Value → Result Fields
unfolding require_product excluded check_products
apply_gpu_product_affinity pod_spec products = do
  check_products products
  selected_product ← get (find_or "nodeSelector" (dict []) pod_spec) gpu_product_label
  clash ← excluded selected_product products
  raise_if clash (invalid "spec.accelerator.products conflicts with spec.nodeSelector")
  let affinity = do
    affinity' ← require_product products (find_or "affinity" (dict []) pod_spec)
    ok (put "affinity" affinity' pod_spec)
  if truthy selected_product then ok pod_spec else affinity

-- `minimum_memory is not None and minimum_memory > maximum_memory`
abbrev pub exceeds : Option ℕ → Option ℕ → Bool
exceeds (some minimum) (some maximum) = ltb maximum minimum
exceeds _ _ = false

-- The branch of `class: auto`.
auto_class : Option ℕ → Result String
auto_class none = err (
    invalid (
      "spec.accelerator.minimumMemoryGiB or spec.accelerator.fit is required "
      ⧺ "for automatic selection"))
auto_class (some minimum_memory) = gpu_class (pos minimum_memory)

module _ (lib : Library) where
  -- The branches of a class that is named.
  named_class : Value → Option ℕ → Result String
  named_class (str name) minimum = do
    raise_if
        (not (
          name == "gpu-24gb"
          || name == "gpu-48gb"
          || name == "gpu-80gb"
          || name == "gpu-80gb-plus"))
        (invalid ("unsupported spec.accelerator.class " ⧺ name))
    raise_if (exceeds minimum (gpu_class_capacity name)) (
        invalid (
          "spec.accelerator.class "
          ⧺ name
          ⧺ " cannot fit the "
          ⧺ show lib (requirement_value minimum)
          ⧺ " GiB per-GPU requirement"))
    ok name
    where
      requirement_value : Option ℕ → Value
      requirement_value none = null
      requirement_value (some n) = int (pos n)
  named_class (arr vs) minimum = err type_error
  named_class (obj fs) minimum = err type_error
  named_class v minimum = err (invalid ("unsupported spec.accelerator.class " ⧺ show lib v))

  unfoldable pub select_class : Value → Option ℕ → Result String
  unfolding named_class auto_class
  select_class selected minimum =
      if is_text selected "auto" then auto_class minimum else named_class selected minimum

abbrev as_whole : Result ℤ → Result ℤ
as_whole (err type_error) = err (invalid "the container GPU request must be a whole number")
as_whole (err (value_error m)) = err (invalid "the container GPU request must be a whole number")
as_whole r = r

-- The `try` block: the `get` stands in it too.
gpu_request : Value → Value → Result ℤ
gpu_request requests count = as_whole (do v ← get_or requests "nvidia.com/gpu" count; to_int v)

-- `existing != count`, where `count` has passed as a positive whole number.
abbrev count_differs : ℤ → Value → Bool
count_differs n (int m) = not (eqb_ℤ n m)
count_differs n _ = true

abbrev pub count_text : Value → String
count_text (int (pos n)) = decimal n
count_text _ = ""

-- The container with the GPU count as its request and its limit.
unfoldable pub set_gpu_count : Value → Fields → Result Fields
unfolding gpu_request
set_gpu_count count container = do
  let resources = find_or "resources" (dict []) container
  (requests, resources1) ← setdefault resources "requests" (dict [])
  (limits, resources2) ← setdefault resources1 "limits" (dict [])
  existing ← gpu_request requests count
  raise_if (count_differs existing count)
      (invalid "spec.accelerator.count conflicts with the container GPU request")
  requests' ← store requests "nvidia.com/gpu" (str (count_text count))
  limits' ← store limits "nvidia.com/gpu" (str (count_text count))
  resources3 ← store resources2 "requests" requests'
  resources4 ← store resources3 "limits" limits'
  ok (put "resources" resources4 container)

-- The pod with the class in its node selector.
unfoldable pub set_gpu_class : String → Fields → Result Fields
set_gpu_class selected_class pod_spec = do
  let node_selector = find_or "nodeSelector" (dict []) pod_spec
  current ← get_or node_selector gpu_class_label (str selected_class)
  raise_if (not (is_text current selected_class))
      (invalid "spec.accelerator.class conflicts with spec.nodeSelector")
  node_selector' ← store node_selector gpu_class_label (str selected_class)
  ok (put "nodeSelector" node_selector' pod_spec)

-- `if "products" in accelerator`
abbrev apply_products : Option Value → Fields → Result Fields
apply_products none pod_spec = ok pod_spec
apply_products (some products) pod_spec = apply_gpu_product_affinity pod_spec products

-- What `_apply_accelerator` returns, and the pod and the container that it leaves.
pub record Applied : Type 0 where
  pub minimum_memory : Option ℕ
  pub pod_spec : Fields
  pub container : Fields

module _ (lib : Library) where
  unfoldable pub apply_present : Fields → Fields → Fields → Result Applied
  apply_present accelerator pod_spec container = do
    minimum ← gpu_memory_requirement lib (obj accelerator)
    selected_class ← select_class lib (find_or "class" (str "auto") accelerator) minimum
    container' ← set_gpu_count (find_or "count" (int (pos 1)) accelerator) container
    pod_spec' ← set_gpu_class selected_class pod_spec
    pod_spec'' ← apply_products (find "products" accelerator) pod_spec'
    ok (record { minimum_memory = minimum; pod_spec = pod_spec''; container = container' })

  -- `.get` fails on an accelerator that is no dictionary.
  abbrev pub apply_truthy : Value → Fields → Fields → Result Applied
  apply_truthy (obj accelerator) pod_spec container = apply_present accelerator pod_spec container
  apply_truthy _ pod_spec container = err Exception.attribute_error

  unfoldable pub apply_accelerator : Value → Fields → Fields → Result Applied
  unfolding truthy
  apply_accelerator spec pod_spec container = do
    accelerator ← get spec "accelerator"
    if truthy accelerator
        then apply_truthy accelerator pod_spec container
        else ok (record { minimum_memory = none; pod_spec = pod_spec; container = container })
