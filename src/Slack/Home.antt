-- ===== src/Slack/Home.antt =====
-- slack.py: `home_view`, the home tab with a row of buttons for each controllable resource.
pub mod Buttons
pub mod App
use model_fleet_operator.Prelude.{
  ℕ, String, Bool, true, false, not, List, [], ◌∷◌, ◌++◌, map, length, take, pos, eqb, ltb, ◌==◌,
  if◌then◌else◌,
}
use model_fleet_operator.Python.Value.{Value, Items, int, str, list, dict, truthy}
use model_fleet_operator.Python.Text.{◌⧺◌, prefix, decimal}
use model_fleet_operator.Python.Library.{Library, show}
use model_fleet_operator.Python.Object.{item, get, get_or, iterate}
use model_fleet_operator.Python.Result.{Result, ok, err, ◌>>=◌ as bind}
use model_fleet_operator.Kube.{Oracle, Action, ◌>>=◌, pure, lift}
use model_fleet_operator.Slack.Status.{Row, key_le, rows_of, sorted_rows, status_of, list_objects}

abbrev text_block : (kind text : String) → Value
text_block kind text = dict (("type", str kind) ∷ ("text", str text) ∷ [])

abbrev plain_text : String → Value
plain_text text = text_block "plain_text" text

abbrev section_block : (text : String) → Value
section_block text = dict (("type", str "section") ∷ ("text", text_block "mrkdwn" text) ∷ [])

abbrev context_block : (text : String) → Value
context_block text =
    dict (("type", str "context") ∷ ("elements", list (text_block "mrkdwn" text ∷ [])) ∷ [])

abbrev actions_block : List Value → Value
actions_block elements = dict (("type", str "actions") ∷ ("elements", list elements) ∷ [])

-- A button; `style` and `confirm` come between and after where it has them.
abbrev button :
    (action_id text : String)
    → (style : List (String × Value)) → (value : String) → (confirm : List (String × Value)) → Value
button action_id text style value confirm = dict (
    ("type", str "button") ∷ ("action_id", str action_id) ∷ ("text", plain_text text) ∷ style
    ++ ("value", str value) ∷ confirm)

abbrev pub target : Row → String
target row = row.namespace ⧺ "/" ⧺ row.name

-- `f" {kind}" if kind == "agent" else ""`
abbrev pub action_kind : (kind : String) → String
action_kind kind = if kind == "agent" then " " ⧺ kind else ""

-- What the buttons of a resource send.
abbrev pub wake_value : (kind target : String) → String
wake_value kind target = "wake" ⧺ action_kind kind ⧺ " " ⧺ target

abbrev pub auto_value : (target : String) → String
auto_value target = "auto " ⧺ target

abbrev pub sleep_value : (kind target : String) → String
sleep_value kind target = "sleep" ⧺ action_kind kind ⧺ " " ⧺ target ⧺ " confirm"

abbrev confirmation : (target : String) → Value
confirmation target = dict (
    ("title", plain_text "Stop compute?")
    ∷ ("text", text_block "mrkdwn" ("Scale `" ⧺ target ⧺ "` to zero?"))
    ∷ ("confirm", plain_text "Sleep")
    ∷ ("deny", plain_text "Cancel")
    ∷ [])

abbrev control_button :
    (text : String)
    → (style : List (String × Value)) → (value : String) → (confirm : List (String × Value)) → Value
control_button text style value confirm = button "fleet_home_control" text style value confirm

unfoldable pub buttons : (kind target : String) → List Value
buttons kind target =
    control_button "Wake" (("style", str "primary") ∷ []) (wake_value kind target) []
      ∷ (if kind == "inference" then control_button "Auto" [] (auto_value target) [] ∷ [] else [])
    ++ control_button "Sleep" (("style", str "danger") ∷ []) (sleep_value kind target)
        (("confirm", confirmation target) ∷ [])
      ∷ []

-- The two blocks of a resource.
unfoldable pub resource_blocks : Library → (kind : String) → Row → Result (List Value)
unfolding get_or show buttons
resource_blocks lib kind row = bind (status_of row.object) λ status.
    bind (get_or status "readyReplicas" (int (pos 0))) λ ready.
      bind (get_or status "phase" (str "Unknown")) λ phase. ok (
        section_block (
          "*"
          ⧺ (if kind == "inference" then "Inference" else "Agent")
          ⧺ "* `"
          ⧺ target row
          ⧺ "`\n"
          ⧺ show lib phase
          ⧺ " · "
          ⧺ show lib ready
          ⧺ " ready")
        ∷ actions_block (buttons kind (target row))
        ∷ [])

-- The resources that are shown, with their kinds.
unfoldable pub shown_blocks : Library → List (String × Row) → Result (List Value)
unfolding resource_blocks
shown_blocks lib [] = ok []
shown_blocks lib ((kind, row) ∷ rows) =
    let rest = shown_blocks lib rows in
    bind (resource_blocks lib kind row) λ blocks. bind rest λ more. ok (blocks ++ more)

-- `[item for item in ... if item["spec"].get("runtime")]`
unfoldable pub managed : List Value → Result (List Value)
unfolding item get truthy
managed [] = ok []
managed (object ∷ objects) =
    let rest = managed objects in
    bind (item object "spec") λ spec.
      bind (get spec "runtime")
        λ runtime. bind rest λ more. ok (if truthy runtime then object ∷ more else more)

abbrev heading : (namespace : String) → List Value
heading namespace =
    dict (("type", str "header") ∷ ("text", plain_text "Model Fleet") ∷ [])
    ∷ section_block (
        "Workload controls for `" ⧺ namespace
        ⧺ "`. Changes use the same authorization and audit path as `/fleet`.")
    ∷ []

abbrev notice_blocks : (notice : String) → List Value
notice_blocks notice = if notice == "" then [] else context_block (prefix 2000 notice) ∷ []

abbrev refresh_block : (namespace : String) → Value
refresh_block namespace = actions_block (
    button "fleet_home_refresh" "Refresh" [] namespace []
    ∷ button "fleet_home_cost" "All costs" [] "all" []
    ∷ [])

abbrev empty_blocks : List (String × Row) → List Value
empty_blocks [] =
    section_block "No controllable inference services or managed agents were found." ∷ []
empty_blocks (r ∷ rs) = []

abbrev more_blocks : (namespace : String) → (limit count : ℕ) → List Value
more_blocks namespace limit count =
    if ltb limit count
    then context_block (
        "Showing "
        ⧺ decimal limit
        ⧺ " of "
        ⧺ decimal count
        ⧺ " resources. Use `/fleet status "
        ⧺ namespace
        ⧺ "` for the complete list.")
      ∷ []
    else []

-- The resources in the order of the view: the inference services, then the managed agents.
unfoldable pub resources_of : (inference agents : Value) → Result (List (String × Row))
unfolding managed sorted_rows iterate
resources_of inference agents = bind (iterate agents) λ objects.
    bind (managed objects) λ with_runtime. bind (sorted_rows inference) λ services.
      bind (sorted_rows (list with_runtime)) λ workers.
        ok (map (λ row. ("inference", row)) services ++ map (λ row. ("agent", row)) workers)

unfoldable pub home_view :
    Oracle → Library → (namespace notice : String) → (resource_limit : ℕ) → Action Value
unfolding list_objects resources_of shown_blocks prefix decimal
home_view oracle lib namespace notice resource_limit = do
  inference ← list_objects oracle "inferenceservices" (str namespace)
  agents ← list_objects oracle "agentregistrations" (str namespace)
  resources ← lift (resources_of inference agents)
  shown ← lift (shown_blocks lib (take resource_limit resources))
  pure (
      dict (
        ("type", str "home")
        ∷ (
          "blocks",
          list (
              heading namespace
              ++ notice_blocks notice
              ++ refresh_block namespace ∷ empty_blocks resources
              ++ shown
              ++ more_blocks namespace resource_limit (length resources)),
        )
        ∷ []))
