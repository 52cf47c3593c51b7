-- ===== src/Tests/Costs.antt =====
-- cost_report.py: formats, and the theorem at a concrete input.
use model_fleet_operator.Python.Text.{length_of}
use model_fleet_operator.Prelude.{◌^◌, ◌≡◌, refl, some, none, true, false}
use model_fleet_operator.Python.Double.{fin}
use model_fleet_operator.Python.FloatText.{number}
use model_fleet_operator.Python.Signed.{fixed, whole}
use model_fleet_operator.Kube.Moves.{adds, Moves}
use model_fleet_operator.CostReport.{Reporter, snapshot}
use model_fleet_operator.CostReport.Scope.{IsScoped, snapshot-IsScoped}
use model_fleet_operator.Tests.Samples.{empty_cluster}

grouped_dollars : fixed true 2 (whole 1234567) ≡ "1,234,567.00"
unfolding fixed whole length_of
grouped_dollars = refl

-- A tie goes to the even digit.
even_tie : fixed false 2 (number true (fin (2 ^ 1071))) ≡ "-0.12"
unfolding fixed length_of
even_tie = refl

abbrev reporter : Reporter
reporter = record {
  base_url = "http://prometheus";
  token = "";
  electricity_usd_per_kwh = none;
  bare_metal_node_power_watts = some (whole 400);
}

snapshot-IsScoped_example :
    Moves
      (adds (IsScoped reporter (some "models")))
      (snapshot empty_cluster reporter (some "models"))
snapshot-IsScoped_example = snapshot-IsScoped empty_cluster reporter (some "models")
