-- ===== src/CostReport/Scope.antt =====
-- What a report asks Prometheus.
use model_fleet_operator.Prelude.{
  String, ◌≡◌, refl, sym, ◌⊎◌, inl, inr, Bool, true, false, Option, none, some, ◌==◌, eq_iff,
  if◌then◌else◌, arith,
}
use model_fleet_operator.Python.Text.{◌⧺◌}
use model_fleet_operator.Python.FloatText.{Number}
use model_fleet_operator.Python.Result.{Exception, ok, err, ok-injective}
use model_fleet_operator.Kube.{Call, Oracle, get_query}
use model_fleet_operator.Kube.Moves as Moves
use model_fleet_operator.Kube.Moves.{adds, Moves}
use model_fleet_operator.Slack.Command.{is_resource_name}
use model_fleet_operator.CostReport.{
  Reporter, Metric, query_text, cloud_query, query_results, query_value, cloud_cost_items,
  cloud_items, power_or_estimate, measured, matcher_of, snapshot, node_count, power, compute,
  storage, gpu, model_cost, input_tokens, output_tokens, utilization, memory_used, memory_total,
}

-- The matcher of a report: all namespaces, or the one that was asked for, which is a DNS label.
abbrev pub IsMatcher : Option String → (matcher : String) → Type 0
IsMatcher none matcher = matcher ≡ ".*"
IsMatcher (some namespace) matcher =
    ((namespace ≡ "") × (matcher ≡ ".*"))
    ⊎ ((matcher ≡ namespace) × (is_resource_name namespace ≡ true))

-- The query of a call.
abbrev pub asks : Reporter → (query : String) → Call
asks reporter query =
    get_query (reporter.base_url ⧺ "/api/v1/query")
      (if reporter.token == "" then "" else "Bearer " ⧺ reporter.token) query

-- One of the metrics with such a matcher, or, only for all namespaces, the cloud's costs.
abbrev pub IsScoped : Reporter → Option String → Call → Type 0
IsScoped reporter namespace made =
    ((metric : Metric) × (matcher : String) × IsMatcher namespace matcher
      × (made ≡ asks reporter (query_text metric matcher)))
    ⊎ ((namespace ≡ none) × (made ≡ asks reporter cloud_query))

by_label :
    (namespace matcher : String) (a b : Bool) (e : Exception)
    → (namespace == "") ≡ a
    → is_resource_name namespace ≡ b
    → (if a then ok ".*" else if b then ok namespace else err e) ≡ ok matcher
    → IsMatcher (some namespace) matcher
by_label namespace matcher true b e ea eb h = inl ((eq_iff namespace "").0 ea, sym (ok-injective h))
by_label namespace matcher false true e ea eb h = inr (sym (ok-injective h), eb)
by_label namespace matcher false false e ea eb h = absurd (ground arith)

matcher_of-IsMatcher :
    (namespace : Option String) (matcher : String)
    → matcher_of namespace ≡ ok matcher
    → IsMatcher namespace matcher
unfolding matcher_of
matcher_of-IsMatcher none matcher h = sym (ok-injective h)
matcher_of-IsMatcher (some namespace) matcher h =
    by_label namespace matcher (namespace == "") (is_resource_name namespace) _ refl refl h

module _ (oracle : Oracle) (reporter : Reporter) (namespace : Option String) where
  value_of :
      (matcher : String) (metric : Metric)
      → IsMatcher namespace matcher
      → Moves
          (adds (IsScoped reporter namespace))
          (query_value oracle reporter (query_text metric matcher))
  unfolding query_value query_results
  value_of matcher metric h =
      Moves.bind _ _ _
        (Moves.bind _ _ _ (Moves.call oracle _ (inl (metric, matcher, h, refl)))
          (λ payload. Moves.lift _ _))
        (λ results. Moves.lift _ _)

  estimate :
      (matcher : String) (watts configured : Option Number)
      → IsMatcher namespace matcher
      → Moves
          (adds (IsScoped reporter namespace))
          (power_or_estimate oracle reporter matcher watts configured)
  estimate matcher none (some watts) h =
      Moves.bind _ _ _ (value_of matcher node_count h) (λ count. Moves.pure _ _)
  estimate matcher none none h = Moves.pure _ _
  estimate matcher (some n) configured h = Moves.pure _ _

  items_of :
      (asked : Option String)
      → namespace ≡ asked
      → Moves (adds (IsScoped reporter namespace)) (cloud_items oracle reporter asked)
  unfolding cloud_cost_items query_results
  items_of none e =
      Moves.bind _ _ _
        (Moves.bind _ _ _ (Moves.call oracle _ (inr (e, refl))) (λ payload. Moves.lift _ _))
        λ results.
          Moves.bind _ _ _ (Moves.lift _ _)
            λ elements. Moves.bind _ _ _ (Moves.lift _ _) (λ items. Moves.pure _ _)
  items_of (some asked) e = Moves.pure _ _

  -- A report asks Prometheus only for its eleven metrics, each for all namespaces or for the one namespace
  -- that was asked for, which is then a DNS label and so cannot change the query; and for the costs of
  -- the whole cloud only where no namespace was asked for.
  pub snapshot-IsScoped :
      Moves (adds (IsScoped reporter namespace)) (snapshot oracle reporter namespace)
  unfolding snapshot measured
  snapshot-IsScoped = Moves.bind_lift _ (matcher_of namespace) _ λ m e.
      let h = matcher_of-IsMatcher namespace m e in
      Moves.bind _ _ _ (value_of m power h) λ watts.
        Moves.bind _ _ _ (estimate m watts reporter.bare_metal_node_power_watts h) λ power_watts.
          Moves.bind _ _ _ (value_of m compute h) λ compute_cost.
            Moves.bind _ _ _ (value_of m storage h) λ storage_cost.
              Moves.bind _ _ _ (value_of m gpu h) λ gpu_cost.
                Moves.bind _ _ _ (value_of m model_cost h) λ spend.
                  Moves.bind _ _ _ (value_of m input_tokens h) λ input.
                    Moves.bind _ _ _ (value_of m output_tokens h) λ output.
                      Moves.bind _ _ _ (value_of m utilization h) λ busy.
                        Moves.bind _ _ _ (value_of m memory_used h) λ used.
                          Moves.bind _ _ _ (value_of m memory_total h) λ total.
                            Moves.bind _ _ _ (items_of namespace refl) (λ items. Moves.pure _ _)
