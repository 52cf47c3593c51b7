-- ===== src/CostReport.antt =====
-- cost_report.py: the queries of PrometheusCostReporter and its snapshot. An answer that is no success is
-- an error of the call.
pub mod Report
pub mod Scope
use model_fleet_operator.Prelude.{
  ℕ, String, Bool, true, false, not, ◌&&◌, Option, none, some, List, [], ◌∷◌, ◌==◌, if◌then◌else◌,
  sort, text_le,
}
use model_fleet_operator.Python.Value.{
  Value, Items, null, str, arr, obj, nil, cons, end, is_text, truthy,
}
use model_fleet_operator.Python.Text.{◌⧺◌}
use model_fleet_operator.Python.Object.{item, get, get_or, iterate}
use model_fleet_operator.Python.FloatText.{Number, nan, number}
use model_fleet_operator.Python.Compare.{number_of, number_le}
use model_fleet_operator.Python.Signed.{is_finite_number, mul_number}
use model_fleet_operator.Python.Result.{
  Result, ok, err, value_error, type_error, index_error, key_error, raise_if, ◌>>=◌ as bind,
}
use model_fleet_operator.Kube.{Oracle, Action, ◌>>=◌, ◌>>◌, pure, lift, call, get_query}
use model_fleet_operator.Slack.Command.{is_resource_name}

pub record CloudCostItem : Type 0 where
  pub provider : String
  pub service : String
  pub category : String
  pub cost_24h_usd : Number

pub record CostSnapshot : Type 0 where
  pub compute_hourly_cost_usd : Option Number
  pub storage_hourly_cost_usd : Option Number
  pub gpu_hourly_cost_usd : Option Number
  pub model_cost_24h_usd : Option Number
  pub input_tokens_24h : Option Number
  pub output_tokens_24h : Option Number
  pub gpu_utilization_percent : Option Number
  pub gpu_memory_used_bytes : Option Number
  pub gpu_memory_total_bytes : Option Number
  pub cloud_cost_items_24h : List CloudCostItem
  pub bare_metal_power_watts : Option Number
  pub electricity_usd_per_kwh : Option Number

-- What a reporter is set up with; `base_url` has no slash at its end.
pub record Reporter : Type 0 where
  pub base_url : String
  pub token : String
  pub electricity_usd_per_kwh : Option Number
  pub bare_metal_node_power_watts : Option Number

-- The queries that a snapshot makes with a matcher of namespaces.
pub data Metric : Type 0 where
  power node_count compute storage gpu model_cost input_tokens output_tokens : Metric
  utilization memory_used memory_total : Metric

abbrev workload_nodes : (matcher : String) → String
workload_nodes matcher = "max by (node) (kube_pod_info{namespace=~\"" ⧺ matcher ⧺ "\"}) > 0"

abbrev labels : (matcher : String) → String
labels matcher = "namespace=~\"" ⧺ matcher ⧺ "\""

abbrev on_nodes : (metric matcher : String) → String
on_nodes metric matcher =
    "sum(" ⧺ metric ⧺ " * on(node) group_left() (" ⧺ workload_nodes matcher ⧺ "))"

abbrev mebibytes : (metric matcher : String) → String
mebibytes metric matcher = "sum(" ⧺ metric ⧺ "{" ⧺ labels matcher ⧺ "}) * 1024 * 1024"

abbrev tokens : (direction matcher : String) → String
tokens direction matcher =
    "sum(increase(model_fleet_tokens_total{"
    ⧺ labels matcher
    ⧺ ",direction=\""
    ⧺ direction
    ⧺ "\"}[24h]))"

abbrev pub query_text : Metric → (matcher : String) → String
query_text power matcher = on_nodes "node_power_usage_watts" matcher
query_text node_count matcher = "count(" ⧺ workload_nodes matcher ⧺ ")"
query_text compute matcher = on_nodes "node_total_hourly_cost" matcher
query_text storage matcher =
    "sum(avg(pod_pvc_allocation{"
    ⧺ labels matcher
    ⧺ "}) by (persistentvolume, namespace) * on(persistentvolume) group_left() "
    ⧺ "avg(pv_hourly_cost) by (persistentvolume) / 1073741824)"
query_text gpu matcher =
    on_nodes
      ("(avg(node_gpu_hourly_cost) by (node) * on(node) group_left() "
        ⧺ "avg(node_gpu_count) by (node))")
      matcher
query_text model_cost matcher =
    "sum(increase(model_fleet_inference_cost_usd_total{" ⧺ labels matcher ⧺ "}[24h]))"
query_text input_tokens matcher = tokens "input" matcher
query_text output_tokens matcher = tokens "output" matcher
query_text utilization matcher = "avg(DCGM_FI_DEV_GPU_UTIL{" ⧺ labels matcher ⧺ "})"
query_text memory_used matcher = mebibytes "DCGM_FI_DEV_FB_USED" matcher
query_text memory_total matcher = mebibytes "DCGM_FI_DEV_FB_TOTAL" matcher

abbrev pub cloud_query : String
cloud_query =
    "sum by (provider, service, category) (increase(model_fleet_cloud_cost_usd_total[24h]))"

-- `v[0]` and `v[1]` of a list
abbrev first_of : Value → Result Value
first_of (arr (cons v vs)) = ok v
first_of (arr nil) = err index_error
first_of (obj fs) = err (key_error "0")
first_of v = err type_error

abbrev second_of : Value → Result Value
second_of (arr (cons v (cons w vs))) = ok w
second_of (arr vs) = err index_error
second_of (obj fs) = err (key_error "1")
second_of v = err type_error

-- `float(result["value"][1])`
unfoldable pub sample : Value → Result Number
unfolding item number_of
sample result = bind (item result "value") λ value. bind (second_of value) λ v. number_of v

-- `value if math.isfinite(value) else None`
abbrev pub finite_or_none : Number → Option Number
finite_or_none n = if is_finite_number n then some n else none

unfoldable pub first_sample : Value → Result (Option Number)
unfolding sample truthy
first_sample results =
    if not (truthy results)
    then ok none
    else bind (first_of results) λ result. bind (sample result) λ n. ok (finite_or_none n)

-- The results of a payload.
unfoldable pub results_of : Value → Result Value
unfolding get get_or
results_of payload = bind (get payload "status") λ status.
    bind (raise_if (not (is_text status "success")) (value_error "Prometheus query failed"))
      λ _. bind (get_or payload "data" (obj end)) λ data_. get_or data_ "result" (arr nil)

-- The texts of a metric's labels.
abbrev text_of : Value → Result String
text_of (str s) = ok s
text_of v = err type_error

abbrev label_text : Value → (key default : String) → Result String
label_text metric key default = bind (get_or metric key (str default)) text_of

unfoldable pub cost_item : Value → Number → Result CloudCostItem
unfolding get_or
cost_item metric cost = bind (label_text metric "provider" "unknown") λ provider.
    bind (label_text metric "service" "unclassified") λ service.
      bind (label_text metric "category" "other") λ category. ok (record {
        provider = provider;
        service = service;
        category = category;
        cost_24h_usd = cost;
      })

-- The items of the results whose values are finite.
unfoldable pub cost_items : List Value → Result (List CloudCostItem)
unfolding get_or sample cost_item
cost_items [] = ok []
cost_items (result ∷ results) =
    let rest = cost_items results in
    bind (get_or result "metric" (obj end)) λ metric. bind (sample result) λ cost.
      if is_finite_number cost
      then (bind (cost_item metric cost) λ item. bind rest λ items. ok (item ∷ items))
      else rest

-- The key `(provider, -cost_24h_usd, service)`.
unfoldable pub item_le : CloudCostItem → CloudCostItem → Bool
unfolding number_le
item_le a b =
    if a.provider == b.provider
    then if number_le b.cost_24h_usd a.cost_24h_usd && number_le a.cost_24h_usd b.cost_24h_usd
      then text_le a.service b.service
      else number_le b.cost_24h_usd a.cost_24h_usd
    else text_le a.provider b.provider

-- `namespace or ".*"` of a namespace that is a label.
unfoldable pub matcher_of : (namespace : Option String) → Result String
unfolding is_resource_name
matcher_of none = ok ".*"
matcher_of (some namespace) =
    if namespace == ""
    then ok ".*"
    else if is_resource_name namespace
    then ok namespace
    else err (value_error "namespace must be a Kubernetes DNS label")

abbrev pub scaled : Option Number → Number → Option Number
scaled none watts = none
scaled (some count) watts = some (mul_number count watts)

module _ (oracle : Oracle) (reporter : Reporter) where
  abbrev pub query_call : (query : String) → Action Value
  query_call query = call oracle (
      get_query (reporter.base_url ⧺ "/api/v1/query")
        (if reporter.token == "" then "" else "Bearer " ⧺ reporter.token) query)

  -- `_query_results`
  unfoldable pub query_results : (query : String) → Action Value
  unfolding results_of
  query_results query = query_call query >>= λ payload. lift (results_of payload)

  -- `_query`
  unfoldable pub query_value : (query : String) → Action (Option Number)
  unfolding query_results first_sample
  query_value query = query_results query >>= λ results. lift (first_sample results)

  -- `_cloud_cost_items`
  unfoldable pub cloud_cost_items : Action (List CloudCostItem)
  unfolding query_results cost_items item_le iterate
  cloud_cost_items = do
    results ← query_results cloud_query
    elements ← lift (iterate results)
    items ← lift (cost_items elements)
    pure (sort item_le items)

  -- The measured power, or else that of the nodes by their configured power.
  abbrev pub power_or_estimate :
      (matcher : String) → Option Number → Option Number → Action (Option Number)
  power_or_estimate matcher none (some watts) =
      query_value (query_text node_count matcher) >>= λ count. pure (scaled count watts)
  power_or_estimate matcher measured watts = pure measured

  abbrev pub cloud_items : Option String → Action (List CloudCostItem)
  cloud_items none = cloud_cost_items
  cloud_items (some namespace) = pure []

  -- The queries in the order of the snapshot's fields.
  unfoldable pub measured : (namespace : Option String) → (matcher : String) → Action CostSnapshot
  unfolding query_value cloud_cost_items mul_number
  measured namespace matcher = do
    watts ← query_value (query_text power matcher)
    power_watts ← power_or_estimate matcher watts reporter.bare_metal_node_power_watts
    compute_cost ← query_value (query_text compute matcher)
    storage_cost ← query_value (query_text storage matcher)
    gpu_cost ← query_value (query_text gpu matcher)
    spend ← query_value (query_text model_cost matcher)
    input ← query_value (query_text input_tokens matcher)
    output ← query_value (query_text output_tokens matcher)
    busy ← query_value (query_text utilization matcher)
    used ← query_value (query_text memory_used matcher)
    total ← query_value (query_text memory_total matcher)
    items ← cloud_items namespace
    pure (record {
      compute_hourly_cost_usd = compute_cost;
      storage_hourly_cost_usd = storage_cost;
      gpu_hourly_cost_usd = gpu_cost;
      model_cost_24h_usd = spend;
      input_tokens_24h = input;
      output_tokens_24h = output;
      gpu_utilization_percent = busy;
      gpu_memory_used_bytes = used;
      gpu_memory_total_bytes = total;
      cloud_cost_items_24h = items;
      bare_metal_power_watts = power_watts;
      electricity_usd_per_kwh = reporter.electricity_usd_per_kwh;
    })

  unfoldable pub snapshot : (namespace : Option String) → Action CostSnapshot
  unfolding matcher_of measured
  snapshot namespace = lift (matcher_of namespace) >>= λ matcher. measured namespace matcher
