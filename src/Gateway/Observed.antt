-- ===== src/Gateway/Observed.antt =====
-- How often the gateway measures its upstreams.
use model_fleet_operator.Prelude.{ℕ, ◌+◌, String, ◌≡◌, refl, List, [], ◌∷◌, ◌++◌, arith}
use model_fleet_operator.Python.Value.{Fields}
use model_fleet_operator.Kube.{
  Call, Oracle, State, Metric, ◌>>=◌, count_metric, call, try, attempt, finally, lift, post,
  upstream_latency,
}
use model_fleet_operator.Kube.Moves as Moves
use model_fleet_operator.Kube.Moves.{Order, Moves}
use model_fleet_operator.Gateway.{Route, Routes, upstream_post, upstream_failed, send, completions}
use model_fleet_operator.Gateway.Steps.{is_latency, completions-Moves, upstream_failed-Moves}

abbrev is_post : Call → ℕ
is_post (post url authorization body) = 1
is_post c = 0

abbrev pub posts : List Call → ℕ
posts [] = 0
posts (c ∷ cs) = is_post c + posts cs

abbrev pub latencies : List Metric → ℕ
latencies [] = 0
latencies (m ∷ ms) = is_latency m + latencies ms

posts-append : (xs ys : List Call) → posts (xs ++ ys) ≡ posts xs + posts ys
posts-append [] ys = omega arith
posts-append (x ∷ xs) ys = ground (arith, posts-append xs ys)

latencies-append : (xs ys : List Metric) → latencies (xs ++ ys) ≡ latencies xs + latencies ys
latencies-append [] ys = omega arith
latencies-append (x ∷ xs) ys = ground (arith, latencies-append xs ys)

-- Between two states, as many latencies are observed as requests are made.
pub record Observed (s t : State) : Type 0 where
  pub level : latencies t.metrics + posts s.calls ≡ latencies s.metrics + posts t.calls

pub Observed-trans : {s t u : State} → Observed s t → Observed t u → Observed s u
Observed-trans {s} {t} {u} a b =
    let p = a.level in let q = b.level in record { level = omega arith }

abbrev pub observed : Order
observed = record { Step = Observed; stay = λ s. record { level = refl }; then_ = Observed-trans }

other_metric : (m : Metric) → is_latency m ≡ 0 → Moves observed (count_metric m)
unfolding count_metric
other_metric m other = record {
  from = λ s. let a = latencies-append s.metrics (m ∷ []) in record { level = omega arith };
}

send-IsObserved :
    (oracle : Oracle) (alias : String) (route : Route) (header : String) (payload : Fields)
    → Moves observed (send oracle alias route header payload)
unfolding send finally attempt try call count_metric lift ◌>>=◌
send-IsObserved oracle alias route header payload = record {
  from = λ s.
      let c = upstream_post route header payload in
      let s1 = record s { calls = s.calls ++ c ∷ [] } in
      let answered =
        Moves.try observed (lift (oracle s.calls c)) (upstream_failed alias route)
          (Moves.lift observed (oracle s.calls c))
          (upstream_failed-Moves observed other_metric alias route) in
      let s2 = (try (lift (oracle s.calls c)) (upstream_failed alias route) s1).1 in
      let a = posts-append s.calls (c ∷ []) in
      let b =
        latencies-append s2.metrics
          (upstream_latency route.namespace route.workload alias route.runtime ∷ []) in
      let l = (answered.from s1).level in record { level = omega arith };
}

-- Whatever the upstream answers and however a completion ends, it observes as many latencies as it makes
-- requests.
pub completions-IsObserved :
    (oracle : Oracle) (env : String → String) (routes : Routes) (expected authorization : String)
    (payload : Fields)
    → Moves observed (completions oracle env routes expected authorization payload)
completions-IsObserved oracle env routes expected authorization payload =
    completions-Moves observed other_metric oracle env routes expected authorization payload
      λ selected header passed known held.
        send-IsObserved oracle selected.0 selected.1 header payload
