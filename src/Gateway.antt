-- ===== src/Gateway.antt =====
-- gateway.py: the model gateway, which forwards a chat completion to the upstream of a configured alias.
-- `env` answers `os.getenv`; a variable that is missing is the empty text, as the code treats both
-- alike.
pub mod Forwarding
pub mod Observed
mod Steps
use model_fleet_operator.Prelude.{
  ℕ, String, Bool, true, false, Option, none, some, List, [], ◌∷◌, ◌==◌, if◌then◌else◌, pos, negsuc,
  ℤ, map, sort, text_le,
}
use model_fleet_operator.Python.Value.{
  Value, Fields, null, int, str, arr, obj, list, dict, find_or, put,
}
use model_fleet_operator.Python.Text.{◌⧺◌}
use model_fleet_operator.Python.Object.{get_or}
use model_fleet_operator.Python.Number.{to_int}
use model_fleet_operator.Python.Double.{Double, fin, add, mul, div, of_ℕ, to_double}
use model_fleet_operator.Python.Result.{
  Exception, Result, ok, err, require, type_error, value_error, http_error, http_exception,
}
use model_fleet_operator.ControlAuth.{require_control_token}
use model_fleet_operator.FleetAgent.{rstrip_char}
use model_fleet_operator.Kube.{
  Call, Oracle, Action, Metric, ◌>>=◌, ◌>>◌, pure, raise, lift, try, finally, call, count_metric,
  post, tokens, cost, upstream, upstream_latency,
}

-- The rates are finite floats that are not negative, in units of 2 ^ -1074.
pub record Route : Type 0 where
  pub base_url : String
  pub upstream_model : String
  pub runtime : String
  pub api_key_env : Option String
  pub input_cost_per_million : ℕ
  pub output_cost_per_million : ℕ
  pub namespace : String
  pub workload : String

-- The keys of a dict are distinct.
abbrev pub Routes : Type 0
Routes = List (String × Route)

abbrev pub find_route : String → Routes → Option Route
find_route alias [] = none
find_route alias ((name, route) ∷ more) =
    if name == alias then some route else find_route alias more

abbrev unknown_alias : Exception
unknown_alias = http_exception 404 "unknown model alias"

abbrev pub named : String → Option Route → Result (String × Route)
named alias none = err unknown_alias
named alias (some route) = ok (alias, route)

-- `alias not in configured`: a list or a dict is not hashable.
unfoldable pub select_route : Routes → Value → Result (String × Route)
select_route routes (str alias) = named alias (find_route alias routes)
select_route routes (arr vs) = err type_error
select_route routes (obj fs) = err type_error
select_route routes v = err unknown_alias

abbrev key_header : (key : String) → Result String
key_header key =
    if key == ""
    then err (http_exception 503 "upstream credential is not configured")
    else ok ("Bearer " ⧺ key)

abbrev pub credential_of : (env : String → String) → Option String → Result String
credential_of env none = ok ""
credential_of env (some name) = if name == "" then ok "" else key_header (env name)

-- The `Authorization` header, or nothing where the route names no variable.
unfoldable pub credential : (env : String → String) → Route → Result String
credential env route = credential_of env route.api_key_env

-- `{**payload, "model": route.upstream_model}` goes to the upstream.
abbrev pub upstream_post : Route → (authorization : String) → (payload : Fields) → Call
upstream_post route authorization payload =
    post (rstrip_char b'/' route.base_url ⧺ "/v1/chat/completions") authorization
      (obj (put "model" (str route.upstream_model) payload))

abbrev pub outcome : (alias : String) → Route → (result : String) → Metric
outcome alias route result = upstream route.namespace route.workload alias route.runtime result

abbrev pub answer_502 : (alias : String) → Route → Action Value
answer_502 alias route =
    count_metric (outcome alias route "error")
    >> raise (http_exception 502 "upstream inference failed")

-- `except (httpx.HTTPError, ValueError)`
abbrev pub upstream_failed : (alias : String) → Route → Exception → Action Value
upstream_failed alias route http_error = answer_502 alias route
upstream_failed alias route (value_error text) = answer_502 alias route
upstream_failed alias route e = raise e

-- An answer with an error status, or that is no JSON, is an error of the call. The time is observed
-- however the call ends.
unfoldable pub send :
    Oracle → (alias : String) → Route → (authorization : String) → (payload : Fields) → Action Value
unfolding rstrip_char put
send oracle alias route authorization payload =
    finally
      (try (call oracle (upstream_post route authorization payload)) (upstream_failed alias route))
      (count_metric (upstream_latency route.namespace route.workload alias route.runtime))

-- `counter.inc(n)` with the float that is added: a counter does not go down.
unfoldable pub inc_tokens : (alias : String) → Route → (direction : String) → ℤ → Action Double
unfolding to_double
inc_tokens alias route direction (pos n) = do
  amount ← lift (to_double n)
  counted ← count_metric (tokens route.namespace route.workload alias direction n)
  pure amount
inc_tokens alias route direction (negsuc n) =
    raise (value_error "Counters can only be incremented by non-negative amounts.")

unfoldable pub record_usage : (alias : String) → Route → (usage : Value) → Action (Unit {0})
unfolding get_or to_int inc_tokens add mul div of_ℕ
record_usage alias route usage = do
  prompt ← lift (get_or usage "prompt_tokens" (int (pos 0)))
  inputs ← lift (to_int prompt)
  completion ← lift (get_or usage "completion_tokens" (int (pos 0)))
  outputs ← lift (to_int completion)
  read ← inc_tokens alias route "input" inputs
  written ← inc_tokens alias route "output" outputs
  let total =
      add (mul read (fin route.input_cost_per_million))
        (mul written (fin route.output_cost_per_million))
  count_metric (cost route.namespace route.workload alias (div total (of_ℕ 1000000)))

-- The endpoint `/v1/chat/completions`.
unfoldable pub completions :
    Oracle
    → (env : String → String) → Routes
    → (expected authorization : String) → (payload : Fields) → Action Value
unfolding require_control_token find_or select_route credential send get_or record_usage
completions oracle env routes expected authorization payload = do
  authenticated ← lift (require_control_token expected authorization)
  selected ← lift (select_route routes (find_or "model" null payload))
  header ← lift (credential env selected.1)
  result ← send oracle selected.0 selected.1 header payload
  counted ← count_metric (outcome selected.0 selected.1 "success")
  usage ← lift (get_or result "usage" (dict []))
  recorded ← record_usage selected.0 selected.1 usage
  pure result

abbrev names : Routes → List String
names [] = []
names ((name, route) ∷ more) = name ∷ names more

-- The endpoint `/v1/models`.
unfoldable pub models : Routes → (expected authorization : String) → Action Value
unfolding require_control_token
models routes expected authorization = do
  authenticated ← lift (require_control_token expected authorization)
  let data_ =
      map (λ name. dict (("id", str name) ∷ ("object", str "model") ∷ []))
        (sort text_le (names routes))
  pure (dict (("object", str "list") ∷ ("data", list data_) ∷ []))
