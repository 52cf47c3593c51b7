-- ===== src/CostReport/Report.antt =====
-- cost_report.py: the lines of a report. `sum` adds floats, from Python 3.12 with a correction.
use model_fleet_operator.Prelude.{
  ◌^◌, String, true, false, Option, none, some, List, [], ◌∷◌, ◌++◌, map, ◌==◌, if◌then◌else◌,
}
use model_fleet_operator.Python.Text.{◌⧺◌, join}
use model_fleet_operator.Python.FloatText.{Number}
use model_fleet_operator.Python.Signed.{
  zero_number, is_zero_number, add_number, mul_number, div_number, whole, fixed,
}
use model_fleet_operator.Kube.{Oracle, Action, ◌>>=◌, pure}
use model_fleet_operator.CostReport.{CloudCostItem, CostSnapshot, Reporter, snapshot}

-- `f"${value:,.2f}"`, `f"${value:.2f}"`, and `_usd`, `_hourly`, `_count`, `_gib`
unfoldable pub usd : Number → String
unfolding fixed
usd value = "$" ⧺ fixed true 2 value

unfoldable pub plain_usd : Number → String
unfolding fixed
plain_usd value = "$" ⧺ fixed false 2 value

unfoldable pub hourly : Option Number → String
unfolding usd
hourly none = "unavailable"
hourly (some value) = usd value ⧺ "/hour"

unfoldable pub count_text : Option Number → String
unfolding fixed
count_text none = "unavailable"
count_text (some value) = fixed true 0 value

unfoldable pub gib : Number → String
unfolding fixed div_number whole
gib value = fixed true 1 (div_number value (whole (1024 ^ 3)))

abbrev known : List (Option Number) → List Number
known [] = []
known (none ∷ more) = known more
known (some n ∷ more) = n ∷ known more

abbrev pub known_costs : CostSnapshot → List Number
known_costs values = known (values.compute_hourly_cost_usd ∷ values.storage_hourly_cost_usd ∷ [])

abbrev gpu_component : Option Number → List String
gpu_component none = []
gpu_component (some cost) =
    ("• GPU cost component: " ⧺ plain_usd cost ⧺ "/hour (included in compute)") ∷ []

-- `upper` is `str.upper`.
module _ (sum : List Number → Number) (upper : String → String) where
  abbrev item_line : CloudCostItem → String
  item_line item =
      "  ◦ "
      ⧺ upper item.provider
      ⧺ " · "
      ⧺ item.service
      ⧺ " · "
      ⧺ item.category
      ⧺ ": "
      ⧺ usd item.cost_24h_usd

  abbrev missing_billing : Option String → List String
  missing_billing none = "• Cloud billed usage: unavailable (billing-export metric missing)" ∷ []
  missing_billing (some namespace) = []

  unfoldable pub cloud_lines : (namespace : Option String) → List CloudCostItem → List String
  unfolding usd
  cloud_lines namespace [] = missing_billing namespace
  cloud_lines namespace (item ∷ items) =
      ("• Cloud billed usage, previous 24h: "
          ⧺ usd (sum (map (λ i. i.cost_24h_usd) (item ∷ items))))
        ∷ map item_line (item ∷ items)
      ++ "• Billing and OpenCost estimates overlap; they are not added together." ∷ []

  unfoldable pub infrastructure_lines : CostSnapshot → List Number → List String
  unfolding plain_usd hourly mul_number whole
  infrastructure_lines values [] =
      "• Infrastructure cost: unavailable (OpenCost metric missing)" ∷ []
  infrastructure_lines values (cost ∷ costs) =
      let total = sum (cost ∷ costs) in
      let daily = mul_number total (whole 24) in
      ("• Known infrastructure: "
        ⧺ plain_usd total
        ⧺ "/hour · "
        ⧺ plain_usd daily
        ⧺ "/day · "
        ⧺ plain_usd (mul_number daily (whole 30))
        ⧺ "/30 days projected")
      ∷ ("• Breakdown: compute "
          ⧺ hourly values.compute_hourly_cost_usd
          ⧺ " · storage "
          ⧺ hourly values.storage_hourly_cost_usd)
      ∷ gpu_component values.gpu_hourly_cost_usd

  abbrev electricity_text : (power_kw : Number) → Option Number → String
  electricity_text power_kw none = " · cost unavailable (electricity rate missing)"
  electricity_text power_kw (some rate) =
      let cost = mul_number power_kw rate in
      " · " ⧺ plain_usd cost ⧺ "/hour · " ⧺ plain_usd (mul_number cost (whole 24)) ⧺ "/day"

  unfoldable pub power_lines : Option Number → (rate : Option Number) → List String
  unfolding plain_usd fixed div_number mul_number whole
  power_lines none rate = []
  power_lines (some watts) rate =
      let power_kw = div_number watts (whole 1000) in
      ("• Bare-metal electricity: "
        ⧺ fixed false 2 power_kw
        ⧺ " kW · "
        ⧺ fixed false 2 (mul_number power_kw (whole 24))
        ⧺ " kWh/day"
        ⧺ electricity_text power_kw rate)
      ∷ []

  -- `value or 0`
  abbrev or_zero : Option Number → Number
  or_zero none = zero_number
  or_zero (some n) = if is_zero_number n then zero_number else n

  abbrev pub total_tokens : CostSnapshot → Number
  total_tokens values =
      add_number (or_zero values.input_tokens_24h) (or_zero values.output_tokens_24h)

  abbrev spend_text : Option Number → String
  spend_text none = "unavailable"
  spend_text (some cost) = usd cost

  abbrev effective_lines : Option Number → (tokens : Number) → List String
  effective_lines none tokens = []
  effective_lines (some cost) tokens =
      if is_zero_number tokens
      then []
      else ("• Effective model cost: "
          ⧺ usd (div_number (mul_number cost (whole 1000000)) tokens)
          ⧺ " per 1M tokens")
        ∷ []

  unfoldable pub model_lines : CostSnapshot → List String
  unfolding usd count_text add_number mul_number div_number whole
  model_lines values =
      ("• Model spend, previous 24h: " ⧺ spend_text values.model_cost_24h_usd)
      ∷ ("• Tokens, previous 24h: input "
          ⧺ count_text values.input_tokens_24h
          ⧺ " · output "
          ⧺ count_text values.output_tokens_24h)
      ∷ effective_lines values.model_cost_24h_usd (total_tokens values)

  abbrev percent_text : Option Number → String
  percent_text none = "unavailable"
  percent_text (some n) = fixed false 1 n ⧺ "%"

  abbrev share : (used total : Number) → Number
  share used total =
      if is_zero_number total then zero_number else div_number (mul_number (whole 100) used) total

  abbrev memory_text : Option Number → Option Number → String
  memory_text (some used) (some total) =
      "• GPU memory: "
      ⧺ gib used
      ⧺ " / "
      ⧺ gib total
      ⧺ " GiB ("
      ⧺ fixed false 1 (share used total)
      ⧺ "%)"
  memory_text used total = "• GPU memory: unavailable (DCGM metrics missing)"

  unfoldable pub gpu_lines : CostSnapshot → List String
  unfolding gib fixed mul_number div_number whole
  gpu_lines values =
      ("• GPU utilization: " ⧺ percent_text values.gpu_utilization_percent)
      ∷ memory_text values.gpu_memory_used_bytes values.gpu_memory_total_bytes
      ∷ []

  abbrev scope_text : Option String → String
  scope_text none = "all namespaces"
  scope_text (some namespace) = if namespace == "" then "all namespaces" else "`" ⧺ namespace ⧺ "`"

  unfoldable pub report_lines : (namespace : Option String) → CostSnapshot → List String
  unfolding cloud_lines infrastructure_lines power_lines model_lines gpu_lines
  report_lines namespace values =
      ("*Model Fleet cost and GPU report* — " ⧺ scope_text namespace)
        ∷ cloud_lines namespace values.cloud_cost_items_24h
      ++ infrastructure_lines values (known_costs values)
      ++ power_lines values.bare_metal_power_watts values.electricity_usd_per_kwh
      ++ model_lines values
      ++ gpu_lines values

  unfoldable pub report : Oracle → Reporter → (namespace : Option String) → Action String
  unfolding snapshot report_lines join
  report oracle reporter namespace = snapshot oracle reporter namespace >>= λ values.
      pure (join "\n" (report_lines namespace values))
