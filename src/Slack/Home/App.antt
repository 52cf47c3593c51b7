-- ===== src/Slack/Home/App.antt =====
-- slack.py: the handlers that `create_app` sets up. Slack's acknowledgements answer nothing.
use model_fleet_operator.Prelude.{String, not, ◌&&◌, [], ◌∷◌, ◌==◌, if◌then◌else◌}
use model_fleet_operator.Python.Value.{
  Value, null, str, arr, obj, nil, cons, end, dict, list, truthy, is_text,
}
use model_fleet_operator.Python.Text.{◌⧺◌}
use model_fleet_operator.Python.Library.{Library, show}
use model_fleet_operator.Python.Object.{item, get, get_or}
use model_fleet_operator.Python.Result.{
  Result, ok, err, index_error, type_error, key_error, ◌>>=◌ as bind,
}
use model_fleet_operator.Kube.{Oracle, Action, ◌>>=◌, pure, lift, call, post}
use model_fleet_operator.Slack.Handle.{Control, handle}
use model_fleet_operator.Slack.Home.{home_view}

-- `views_publish` of the Slack client, and `say` of the conversation or `respond` of the command.
pub record App : Type 0 where
  pub control : Control
  pub publish : (user : Value) → (view : Value) → Action (Unit {0})
  pub say : String → Action (Unit {0})

-- `submit_agent`: an answer that is no success is an error of the call.
unfoldable pub submit_agent :
    Oracle
    → Library
    → (supervisor_url token : String) → (skill prompt user : String) → Action String
unfolding item show
submit_agent oracle lib supervisor_url token skill prompt user = do
  task ← call oracle (
      post (supervisor_url ⧺ "/tasks/submit") (if token == "" then "" else "Bearer " ⧺ token)
        (dict (("user_id", str user) ∷ ("prompt", str prompt) ∷ ("skill", str skill) ∷ [])))
  agent ← lift (item task "agent")
  id ← lift (item task "id")
  pure ("Routed `" ⧺ skill ⧺ "` to `" ⧺ show lib agent ⧺ "` as `" ⧺ show lib id ⧺ "`.")

-- `body.get("user", {}).get("id", default)`
abbrev user_of : (default : Value) → Value → Result Value
user_of default body = bind (get_or body "user" (obj end)) λ user. get_or user "id" default

-- `v[0]` of a list
abbrev first_of : Value → Result Value
first_of (arr nil) = err index_error
first_of (arr (cons v vs)) = ok v
first_of (obj fs) = err (key_error "0")
first_of v = err type_error

-- `body.get("actions", [{}])[0].get("value", "")`
unfoldable pub action_of : Value → Result Value
unfolding get_or
action_of body =
    bind (get_or body "actions" (list (obj end ∷ [])))
      λ actions. bind (first_of actions) λ action. get_or action "value" (str "")

-- A text that Slack sends; `handle` is called with texts.
abbrev pub text_of : Value → Result String
text_of (str s) = ok s
text_of v = err type_error

-- `event.get(k, "")`
abbrev pub event_text : Value → String → Result String
event_text event k = bind (get_or event k (str "")) text_of

module _ (oracle : Oracle) (lib : Library) (app : App) where
  -- In the home tab the policy on channels does not apply.
  abbrev pub home_control : Control
  home_control = record app.control { allowed_channels = "" }

  unfoldable pub dispatch_home : (text user : String) → Action String
  unfolding handle
  dispatch_home text user = handle home_control text user ""

  unfoldable pub publish_home : (user : Value) → (notice : String) → Action (Unit {0})
  unfolding home_view
  publish_home user notice = do
    view ← home_view oracle lib app.control.default_namespace notice 12
    app.publish user view

  unfoldable pub on_home_opened : (event : Value) → Action (Unit {0})
  unfolding publish_home get truthy
  on_home_opened event = do
    tab ← lift (get event "tab")
    user ← lift (get event "user")
    if is_text tab "home" && truthy user then publish_home user "" else pure tt

  unfoldable pub on_home_refresh : (body : Value) → Action (Unit {0})
  unfolding publish_home get_or truthy
  on_home_refresh body = do
    user ← lift (user_of null body)
    if truthy user then publish_home user "" else pure tt

  unfoldable pub on_home_cost : (body : Value) → Action (Unit {0})
  unfolding publish_home dispatch_home get_or truthy
  on_home_cost body = do
    user ← lift (user_of null body)
    if truthy user
        then (do
          name ← lift (text_of user)
          notice ← dispatch_home "cost" name
          publish_home user notice)
        else pure tt

  unfoldable pub on_home_control : (body : Value) → Action (Unit {0})
  unfolding publish_home dispatch_home action_of get_or truthy
  on_home_control body = do
    user ← lift (user_of (str "") body)
    action ← lift (action_of body)
    if truthy user
        then (do
          name ← lift (text_of user)
          text ← lift (text_of action)
          notice ← dispatch_home text name
          publish_home user notice)
        else pure tt

  -- A mention, and a direct message.
  unfoldable pub on_mention : (event : Value) → Action (Unit {0})
  unfolding get_or handle
  on_mention event = do
    text ← lift (event_text event "text")
    user ← lift (event_text event "user")
    channel ← lift (event_text event "channel")
    reply ← handle app.control text user channel
    app.say reply

  unfoldable pub on_message : (event : Value) → Action (Unit {0})
  unfolding on_mention get truthy
  on_message event = do
    kind ← lift (get event "channel_type")
    bot ← lift (get event "bot_id")
    if is_text kind "im" && not (truthy bot) then on_mention event else pure tt

  unfoldable pub on_slash : (command : Value) → Action (Unit {0})
  unfolding get_or handle
  on_slash command = do
    text ← lift (event_text command "text")
    user ← lift (event_text command "user_id")
    channel ← lift (event_text command "channel_id")
    reply ← handle app.control text user channel
    app.say reply
