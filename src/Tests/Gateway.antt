-- ===== src/Tests/Gateway.antt =====
-- gateway.py: the theorems at concrete inputs.
use model_fleet_operator.Kube.{pure}
use model_fleet_operator.Kube.{call, count_metric, finally, lift, raise, try}
use model_fleet_operator.Prelude.{String, ◌^◌, ◌≡◌, pos, refl, some, [], ◌∷◌}
use model_fleet_operator.Python.Value.{int, Fields, null, str, dict, fields}
use model_fleet_operator.Python.Result.{ok, err, http_error, http_exception}
use model_fleet_operator.Kube.{Oracle, initial, post, upstream, upstream_latency, tokens, cost}
use model_fleet_operator.Python.Double.{fin}
use model_fleet_operator.Kube.Moves.{adds, Moves}
use model_fleet_operator.ControlAuth.{Admits}
use model_fleet_operator.Gateway.{Route, Routes, completions, record_usage}
use model_fleet_operator.Gateway.Forwarding.{IsForwarded, completions-IsForwarded}
use model_fleet_operator.Gateway.Observed.{observed, completions-IsObserved}

abbrev chat_route : Route
chat_route = record {
  base_url = "http://vllm/";
  upstream_model = "llama";
  runtime = "vllm";
  api_key_env = some "VLLM_KEY";
  input_cost_per_million = 0;
  output_cost_per_million = 0;
  namespace = "models";
  workload = "chat";
}

abbrev dollar_route : Route
dollar_route = record chat_route { input_cost_per_million = 2 ^ 1074 }

abbrev chat_routes : Routes
chat_routes = ("chat", chat_route) ∷ []

abbrev environment : String → String
environment name = "secret"

abbrev payload : Fields
payload = fields (("model", str "chat") ∷ ("messages", null) ∷ [])

-- An upstream that is not there.
abbrev failing : Oracle
failing before made = err http_error

failing_completion :
    completions failing environment chat_routes "key" "Bearer key" payload initial ≡ (
      err (http_exception 502 "upstream inference failed"),
      record initial {
        calls =
            post "http://vllm/v1/chat/completions" "Bearer secret"
              (dict (("model", str "llama") ∷ ("messages", null) ∷ []))
            ∷ [];
        metrics =
            upstream "models" "chat" "chat" "vllm" "error"
            ∷ upstream_latency "models" "chat" "chat" "vllm"
            ∷ [];
      },
    )
unfolding completions model_fleet_operator.Kube.◌>>=◌ lift finally count_metric try call raise
failing_completion = refl

completions-IsForwarded_example :
    Moves
      (adds (λ made. Admits "key" "Bearer key" × IsForwarded environment chat_routes payload made))
      (completions failing environment chat_routes "key" "Bearer key" payload)
completions-IsForwarded_example =
    completions-IsForwarded failing environment chat_routes "key" "Bearer key" payload

completions-IsObserved_example :
    Moves observed (completions failing environment chat_routes "key" "Bearer key" payload)
completions-IsObserved_example =
    completions-IsObserved failing environment chat_routes "key" "Bearer key" payload

-- Half a million tokens at a dollar per million.
spent_tokens :
    record_usage "chat" dollar_route (dict (("prompt_tokens", int (pos 500000)) ∷ [])) initial ≡ (
      ok tt,
      record initial {
        metrics =
            tokens "models" "chat" "chat" "input" 500000
            ∷ tokens "models" "chat" "chat" "output" 0
            ∷ cost "models" "chat" "chat" (fin (2 ^ 1073))
            ∷ [];
      },
    )
unfolding record_usage model_fleet_operator.Kube.◌>>=◌ lift count_metric pure
spent_tokens = refl
