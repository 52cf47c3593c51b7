-- ===== src/Slack/Status.antt =====
-- slack.py: `FleetClient.status`, `_list` and the lines of the lists. `_resource_key`.
pub mod Reads
use model_fleet_operator.Prelude.{
  ℕ, ◌+◌, String, Bool, true, false, not, ◌&&◌, ◌||◌, List, [], ◌∷◌, ◌++◌, map, pos, ℤ, add_ℤ,
  eqb_ℤ, ◌==◌, if◌then◌else◌, sort, text_le,
}
use model_fleet_operator.Python.Value.{
  Value, Fields, null, int, str, arr, obj, nil, end, truthy, find_or,
}
use model_fleet_operator.Python.Text.{◌⧺◌, join, decimal, decimal_ℤ}
use model_fleet_operator.Python.Library.{Library, show}
use model_fleet_operator.Python.Number.{to_int}
use model_fleet_operator.Python.Object.{item, get, get_or, iterate}
use model_fleet_operator.Python.Result.{Result, ok, err, type_error, ◌>>=◌ as bind}
use model_fleet_operator.Kube.{Oracle, Action, ◌>>=◌, pure, lift, call, attribute, list_all}

-- A listed object with its `_resource_key`.
pub record Row : Type 0 where
  pub namespace : String
  pub name : String
  pub object : Value

-- The texts of a key; the names of Kubernetes objects are texts.
abbrev text_of : Value → Result String
text_of (str s) = ok s
text_of v = err type_error

abbrev key_text : Value → String → Result String
key_text metadata k = bind (item metadata k) text_of

unfoldable pub resource_key : Value → Result Row
unfolding item
resource_key object = bind (item object "metadata") λ metadata.
    bind (key_text metadata "namespace") λ namespace.
      bind (key_text metadata "name")
        λ name. ok (record { namespace = namespace; name = name; object = object })

-- The order of two tuples.
abbrev pub key_le : Row → Row → Bool
key_le a b =
    if a.namespace == b.namespace then text_le a.name b.name else text_le a.namespace b.namespace

unfoldable pub rows_of : List Value → Result (List Row)
unfolding resource_key
rows_of [] = ok []
rows_of (object ∷ objects) =
    let rest = rows_of objects in
    bind (resource_key object) λ row. bind rest λ rows. ok (row ∷ rows)

-- `sorted(items, key=_resource_key)`
unfoldable pub sorted_rows : Value → Result (List Row)
unfolding rows_of iterate
sorted_rows items =
    bind (iterate items) λ objects. bind (rows_of objects) λ rows. ok (sort key_le rows)

unfoldable pub lines_of : (Row → Result String) → List Row → Result (List String)
lines_of line [] = ok []
lines_of line (row ∷ rows) =
    let rest = lines_of line rows in bind (line row) λ text. bind rest λ texts. ok (text ∷ texts)

-- One of the four lists: nothing, or a title and a line for each object.
unfoldable pub section :
    (none_text title : String) → (Row → Result String) → (items : Value) → Result (List String)
unfolding sorted_rows lines_of truthy
section none_text title line items =
    if not (truthy items)
    then ok (none_text ∷ [])
    else bind (sorted_rows items) λ rows. bind (lines_of line rows) λ texts. ok (title ∷ texts)

-- `item.get("status", {})`
abbrev pub status_of : Value → Result Value
status_of object = get_or object "status" (obj end)

module _ (lib : Library) where
  -- The target of a line: `namespace/name` in backquotes.
  abbrev bullet : Row → String
  bullet row = "• `" ⧺ row.namespace ⧺ "/" ⧺ row.name ⧺ "` — "

  abbrev field_text : Value → (key default : String) → Result String
  field_text v key default = bind (get_or v key (str default)) λ w. ok (show lib w)

  abbrev ready_text : Value → Result String
  ready_text status = bind (get_or status "readyReplicas" (int (pos 0))) λ n. ok (show lib n)

  abbrev item_text : Value → String → Result String
  item_text v k = bind (item v k) λ w. ok (show lib w)

  unfoldable pub inference_line : Row → Result String
  unfolding item get get_or truthy show
  inference_line row = bind (item row.object "spec") λ spec. bind (status_of row.object) λ status.
      bind (get spec "suspend") λ suspend. bind (get spec "forceActive") λ active.
        bind (field_text status "phase" "Unknown") λ phase. bind (ready_text status) λ ready. ok (
          bullet row
          ⧺ phase
          ⧺ ", "
          ⧺ ready
          ⧺ " ready, "
          ⧺ (if truthy suspend then "sleep" else if truthy active then "pinned" else "auto"))

  unfoldable pub training_line : Row → Result String
  unfolding get_or show
  training_line row =
      bind (status_of row.object)
        λ status. bind (field_text status "phase" "Unknown") λ phase. ok (bullet row ⧺ phase)

  unfoldable pub dataset_line : Row → Result String
  unfolding item show
  dataset_line row = bind (item row.object "spec") λ spec.
      bind (item_text spec "version") λ version. bind (item_text spec "format") λ format.
        bind (item_text spec "classification") λ classification.
          ok (bullet row ⧺ "version `" ⧺ version ⧺ "`, " ⧺ format ⧺ ", " ⧺ classification)

  unfoldable pub agent_line : Row → Result String
  unfolding item get get_or truthy show
  agent_line row = bind (item row.object "spec") λ spec. bind (status_of row.object) λ status.
      bind (get spec "runtime") λ runtime. bind (field_text status "phase" "Registered") λ phase.
        bind (ready_text status) λ ready. ok (
          bullet row
          ⧺ phase
          ⧺ ", "
          ⧺ ready
          ⧺ " ready, "
          ⧺ (if truthy runtime then "managed" else "registration only"))

-- `int((node.status.capacity or {}).get("nvidia.com/gpu", 0))`
unfoldable pub gpus_of : Value → Result ℤ
unfolding get_or to_int truthy find_or
gpus_of node =
    let capacity = attribute (attribute node "status") "capacity" in
    bind (get_or (if truthy capacity then capacity else obj end) "nvidia.com/gpu" (int (pos 0)))
      to_int

-- `gpu_nodes` and `gpu_capacity` after the loop.
unfoldable pub gpu_totals : (nodes : ℕ) → (capacity : ℤ) → List Value → Result (ℕ × ℤ)
unfolding gpus_of
gpu_totals nodes capacity [] = ok (nodes, capacity)
gpu_totals nodes capacity (node ∷ more) = bind (gpus_of node) λ count.
    gpu_totals (if eqb_ℤ count (pos 0) then nodes else nodes + 1) (add_ℤ capacity count) more

abbrev resource : String → String
resource plural = "fleet.sqe.io/v1alpha1/" ⧺ plural

module _ (oracle : Oracle) where
  -- `_list`: all namespaces if none is given.
  unfoldable pub list_objects : (plural : String) → (namespace : Value) → Action Value
  unfolding get_or truthy
  list_objects plural namespace = do
    result ← call oracle (list_all (resource plural) (if truthy namespace then namespace else null))
    lift (get_or result "items" (arr nil))

  unfoldable pub gpu_line : Action String
  unfolding gpu_totals iterate decimal decimal_ℤ find_or
  gpu_line = do
    nodes ← call oracle (list_all "v1/nodes" null)
    elements ← lift (iterate (attribute nodes "items"))
    (count, capacity) ← lift (gpu_totals 0 (pos 0) elements)
    pure ("GPU capacity: " ⧺ decimal_ℤ capacity ⧺ " across " ⧺ decimal count ⧺ " node(s)")

  -- `profile` is the environment's PLATFORM_PROFILE.
  unfoldable pub status : Library → (profile : String) → (namespace : Value) → Action String
  unfolding list_objects gpu_line section inference_line training_line dataset_line agent_line join
  status lib profile namespace = do
    inference ← list_objects "inferenceservices" namespace
    training ← list_objects "trainingruns" namespace
    datasets ← list_objects "datasets" namespace
    agents ← list_objects "agentregistrations" namespace
    gpu ← gpu_line
    dataset_lines ← lift (section "Datasets: none" "*Datasets*" (dataset_line lib) datasets)
    agent_lines ← lift (section "Agents: none" "*Agents*" (agent_line lib) agents)
    inference_lines ← lift (section "Inference: none" "*Inference*" (inference_line lib) inference)
    training_lines ← lift (section "Training: none" "*Training*" (training_line lib) training)
    pure (
        join "\n" (
          ("*Model Fleet status* — profile `" ⧺ profile ⧺ "`") ∷ gpu ∷ dataset_lines
          ++ agent_lines
          ++ inference_lines
          ++ training_lines))
