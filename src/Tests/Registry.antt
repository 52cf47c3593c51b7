-- ===== src/Tests/Registry.antt =====
-- registry.py and control_auth.py: the theorems at concrete inputs.
use model_fleet_operator.Kube.{call, lift, pure}
use model_fleet_operator.Prelude.{String, ◌≡◌, refl, List, [], ◌∷◌}
use model_fleet_operator.Python.Value.{Value, null, str, dict, list, end}
use model_fleet_operator.Python.Result.{Result, ok}
use model_fleet_operator.Kube.{Call, Oracle, State, Action, initial, list_all}
use model_fleet_operator.Kube.Moves.{adds, Moves}
use model_fleet_operator.ControlAuth.{Admits}
use model_fleet_operator.Registry.{AgentCard, Entry, resource_name}
use model_fleet_operator.Registry.Store.{get_search, all_agents, search, route}
use model_fleet_operator.Registry.Ranking.{Ranked, search-Ranked}
use model_fleet_operator.Registry.Names.{IsName, resource_name-IsName}
use model_fleet_operator.Registry.Access.{IsServed, route-IsServed}

abbrev searcher : AgentCard
searcher = record {
  name = "Searcher";
  description = "";
  version = "1";
  endpoint = "http://a";
  kafka_topic = "tasks";
  kafka_result_topic = "results";
  max_concurrent_tasks = 1;
  timeout_seconds = 60;
  skills =
      record {
        id = "web.search";
        name = "Search";
        description = "Search the web";
        input_schema = end;
      }
      ∷ [];
  transports = [];
}

abbrev registration : String → Value
registration name = dict (("metadata", dict (("name", str name) ∷ [])) ∷ ("spec", dict []) ∷ [])

abbrev registry : Oracle
registry before (list_all resource namespace) =
    ok (dict (("items", list (registration "zeta" ∷ registration "alpha" ∷ [])) ∷ []))
registry before made = ok null

abbrev validate : Value → Result AgentCard
validate v = ok searcher

abbrev entry : String → Entry
entry id = record { id = id; card = searcher }

abbrev entries : List Entry
entries = entry "alpha" ∷ entry "zeta" ∷ []

abbrev after_search : State
after_search = (search registry validate (str "fleet") "Find the Web" initial).1

search-Ranked_example :
    (listed : List Entry) × ((all_agents registry validate (str "fleet") initial).0 ≡ ok listed)
    × Ranked "Find the Web" listed entries
unfolding search model_fleet_operator.Kube.◌>>=◌ call lift pure
search-Ranked_example =
    search-Ranked registry validate (str "fleet") "Find the Web" entries initial after_search refl

resource_name-IsName_example : IsName "my-agent"
unfolding resource_name
resource_name-IsName_example = resource_name-IsName "My_Agent!" "my-agent" refl

route-IsServed_example :
    Moves
      (adds (λ made. Admits "key" "Bearer key" × IsServed (str "fleet") (get_search "web") made))
      (route registry validate (str "fleet") "key" "Bearer key" (get_search "web"))
route-IsServed_example =
    route-IsServed registry validate (str "fleet") "key" "Bearer key" (get_search "web")
