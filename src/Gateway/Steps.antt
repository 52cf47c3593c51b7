-- ===== src/Gateway/Steps.antt =====
-- How the gateway moves the state: rules for each part of a completion.
use model_fleet_operator.Prelude.{ℕ, String, ◌≡◌, refl, ℤ, pos, negsuc}
use model_fleet_operator.Python.Value.{Value, Fields, null, find_or}
use model_fleet_operator.Python.Result.{Exception, ok, http_error, value_error}
use model_fleet_operator.ControlAuth.{require_control_token}
use model_fleet_operator.Kube.{Oracle, Metric, upstream_latency, count_metric, call, finally}
use model_fleet_operator.Kube.Moves as Moves
use model_fleet_operator.Kube.Moves.{Order, adds, Moves}
use model_fleet_operator.Gateway.{
  Route, Routes, select_route, credential, upstream_post, upstream_failed, send, inc_tokens,
  record_usage, completions, answer_502,
}

-- An observation of the latency histogram.
abbrev pub is_latency : Metric → ℕ
is_latency (upstream_latency namespace workload model runtime) = 1
is_latency m = 0

-- The rules of an order that every other metric is a step of.
module _ (o : Order) (metric : (m : Metric) → is_latency m ≡ 0 → Moves o (count_metric m)) where
  answer_502-Moves : (alias : String) (route : Route) → Moves o (answer_502 alias route)
  answer_502-Moves alias route = Moves.bind o _ _ (metric _ refl) (λ _. Moves.raise o _)

  pub upstream_failed-Moves :
      (alias : String) (route : Route) (e : Exception) → Moves o (upstream_failed alias route e)
  upstream_failed-Moves alias route http_error = answer_502-Moves alias route
  upstream_failed-Moves alias route (value_error text) = answer_502-Moves alias route
  upstream_failed-Moves alias route e = Moves.raise o e

  inc_tokens-Moves :
      (alias : String) (route : Route) (direction : String) (n : ℤ)
      → Moves o (inc_tokens alias route direction n)
  unfolding inc_tokens
  inc_tokens-Moves alias route direction (pos n) =
      Moves.bind o _ _ (Moves.lift o _)
        λ amount. Moves.bind o _ _ (metric _ refl) (λ _. Moves.pure o _)
  inc_tokens-Moves alias route direction (negsuc n) = Moves.raise o _

  pub record_usage-Moves :
      (alias : String) (route : Route) (usage : Value) → Moves o (record_usage alias route usage)
  unfolding record_usage
  record_usage-Moves alias route usage = Moves.bind o _ _ (Moves.lift o _) λ prompt.
      Moves.bind o _ _ (Moves.lift o _) λ inputs. Moves.bind o _ _ (Moves.lift o _) λ completion.
        Moves.bind o _ _ (Moves.lift o _) λ outputs.
          Moves.bind o _ _ (inc_tokens-Moves alias route "input" inputs) λ read.
            Moves.bind o _ _ (inc_tokens-Moves alias route "output" outputs)
              (λ written. metric _ refl)

  -- A completion moves as its request to the upstream does.
  pub completions-Moves :
      (oracle : Oracle) (env : String → String) (routes : Routes) (expected authorization : String)
      (payload : Fields)
      → ((selected : String × Route) (header : String)
          → require_control_token expected authorization ≡ ok tt
          → select_route routes (find_or "model" null payload) ≡ ok selected
          → credential env selected.1 ≡ ok header
          → Moves o (send oracle selected.0 selected.1 header payload))
      → Moves o (completions oracle env routes expected authorization payload)
  unfolding completions
  completions-Moves oracle env routes expected authorization payload sends =
      Moves.bind_lift o (require_control_token expected authorization) _ λ _ passed.
        Moves.bind_lift o (select_route routes (find_or "model" null payload)) _ λ selected known.
          Moves.bind_lift o (credential env selected.1) _ λ header held.
            Moves.bind o _ _ (sends selected header passed known held) λ result.
              Moves.bind o _ _ (metric _ refl) λ _. Moves.bind o _ _ (Moves.lift o _) λ usage.
                Moves.bind o _ _ (record_usage-Moves selected.0 selected.1 usage)
                  (λ _. Moves.pure o result)

  pub send-Moves :
      (oracle : Oracle) (alias : String) (route : Route) (header : String) (payload : Fields)
      → Moves o (call oracle (upstream_post route header payload))
      → Moves o (count_metric (upstream_latency route.namespace route.workload alias route.runtime))
      → Moves o (send oracle alias route header payload)
  unfolding send finally
  send-Moves oracle alias route header payload sent observed =
      Moves.bind o _ _
        (Moves.attempt o _ (Moves.try o _ _ sent (upstream_failed-Moves alias route)))
        (λ outcome. Moves.bind o _ _ observed (λ _. Moves.lift o outcome))
