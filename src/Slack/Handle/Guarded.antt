-- ===== src/Slack/Handle/Guarded.antt =====
-- Which services a Slack message reaches.
use model_fleet_operator.Prelude.{
  not-false, String, ◌≡◌, refl, ap, subst, ◌⊎◌, inl, inr, Bool, true, false, not, Option, none,
  some, ◌==◌, eqb, arith,
}
use model_fleet_operator.Python.Result.{
  Exception, Result, ok, err, value_error, quota_error, api_error, http_error,
}
use model_fleet_operator.Kube.{Action}
use model_fleet_operator.Kube.Moves as Moves
use model_fleet_operator.Kube.Moves.{Order, Moves}
use model_fleet_operator.Slack.Command.{Command, AgentCommand, one_of, is_skill}
use model_fleet_operator.Slack.Quota.{QuotaCommand}
use model_fleet_operator.Slack.Parse.{Parsed, fleet, agent, quota, parse_command}
use model_fleet_operator.Slack.Parse.Targets.{IsTarget, IsParsed, reading, parse_command-IsParsed}
use model_fleet_operator.Slack.Fleet.{needs_confirm}
use model_fleet_operator.Slack.Handle.{
  Control, allowed, may_change, handle, cost_reply, snapshot_reply, agent_reply, quota_reply,
  change_reply, guarded_reply, reply, parsed_reply, any_error, agent_error, request_error,
  execute_error,
}

module _ (o : Order) where
  any_error-Moves : (message : String) (e : Exception) → Moves o (any_error message e)
  any_error-Moves message e = Moves.pure o message

  agent_error-Moves : (e : Exception) → Moves o (agent_error e)
  agent_error-Moves http_error = Moves.pure o _
  agent_error-Moves e = Moves.raise o e

  request_error-Moves : (e : Exception) → Moves o (request_error e)
  request_error-Moves (quota_error message) = Moves.pure o message
  request_error-Moves e = Moves.raise o e

  execute_error-Moves : (c : Command) (e : Exception) → Moves o (execute_error c e)
  execute_error-Moves c (api_error status reason body) =
      Moves.branch o (eqb status 404) _ _ (λ _. Moves.pure o _) (λ _. Moves.pure o _)
  execute_error-Moves c e = Moves.raise o e

  cost_reply-Moves :
      (service : Option (Option String → Action String)) (namespace : Option String)
      → ((f : Option String → Action String) → service ≡ some f → Moves o (f namespace))
      → Moves o (cost_reply service namespace)
  cost_reply-Moves none namespace h = Moves.pure o _
  cost_reply-Moves (some f) namespace h =
      Moves.try o (f namespace) _ (h f refl) (λ e. any_error-Moves _ e)

  snapshot_reply-Moves :
      (service : Option (Option String → String → Action String)) (namespace : Option String)
      (channel_id : String)
      → ((f : Option String → String → Action String)
          → service ≡ some f
          → Moves o (f namespace channel_id))
      → Moves o (snapshot_reply service namespace channel_id)
  snapshot_reply-Moves none namespace channel_id h = Moves.pure o _
  snapshot_reply-Moves (some f) namespace channel_id h =
      Moves.try o (f namespace channel_id) _ (h f refl) (λ e. any_error-Moves _ e)

  agent_reply-Moves :
      (service : Option (String → String → String → Action String)) (c : AgentCommand)
      (user_id : String)
      → ((f : String → String → String → Action String)
          → service ≡ some f
          → Moves o (f c.skill c.prompt user_id))
      → Moves o (agent_reply service c user_id)
  agent_reply-Moves none c user_id h = Moves.pure o _
  agent_reply-Moves (some f) c user_id h =
      Moves.try o (f c.skill c.prompt user_id) _ (h f refl) (λ e. agent_error-Moves e)

  quota_reply-Moves :
      (service : Option (QuotaCommand → Action String)) (c : QuotaCommand)
      → ((f : QuotaCommand → Action String) → service ≡ some f → Moves o (f c))
      → Moves o (quota_reply service c)
  quota_reply-Moves none c h = Moves.pure o _
  quota_reply-Moves (some f) c h = Moves.try o (f c) _ (h f refl) (λ e. request_error-Moves e)

-- A test that is false at four words.
not_reading :
    (verb : String)
    → (verb == "help") ≡ false
    → (verb == "status") ≡ false
    → (verb == "cost") ≡ false
    → (verb == "snapshot") ≡ false
    → one_of verb reading ≡ false
not_reading verb a b c d = rw (a, b, c, d)

unless : {A : Type 0} (b : Bool) → (b ≡ true) ⊎ A → b ≡ false → A
unless true (inl h) e = absurd (ground arith)
unless true (inr a) e = a
unless false (inl h) e = absurd (ground arith)
unless false (inr a) e = a

fleet_or : Command → Parsed → Command
fleet_or d (fleet c) = c
fleet_or d p = d

fleet-injective : {c d : Command} → fleet c ≡ fleet d → c ≡ d
unfolding fleet_or
fleet-injective {c} e = ap (fleet_or c) e

agent_or : AgentCommand → Parsed → AgentCommand
agent_or d (agent c) = c
agent_or d p = d

agent-injective : {c d : AgentCommand} → agent c ≡ agent d → c ≡ d
unfolding agent_or
agent-injective {c} e = ap (agent_or c) e

change_reply-Moves :
    (o : Order) (control : Control) (text user_id : String) (p : Parsed)
    → ((c : Command) → p ≡ fleet c → IsTarget c)
    → ((c : AgentCommand) → p ≡ agent c → is_skill c.skill ≡ true)
    → ((c : Command) → IsTarget c → needs_confirm c ≡ false → Moves o (control.execute c user_id))
    → ((f : QuotaCommand → Action String) (c : QuotaCommand)
        → control.request_quota ≡ some f
        → c.confirmed ≡ true
        → Moves o (f c))
    → ((f : String → String → String → Action String) (c : AgentCommand)
        → control.agent_submit ≡ some f
        → is_skill c.skill ≡ true
        → Moves o (f c.skill c.prompt user_id))
    → Moves o (change_reply control text user_id p)
change_reply-Moves o control text user_id (agent c) target skill execute request submit =
    agent_reply-Moves o control.agent_submit c user_id (λ f e. submit f c e (skill c refl))
change_reply-Moves o control text user_id (quota c) target skill execute request submit =
    Moves.branch o (not c.confirmed) _ _ (λ _. Moves.pure o _)
      (λ sure.
        quota_reply-Moves o control.request_quota c (λ f e. request f c e (not-false _ sure)))
change_reply-Moves o control text user_id (fleet c) target skill execute request submit =
    Moves.branch o (needs_confirm c) _ _ (λ _. Moves.pure o _)
      (λ sure.
        Moves.try o (control.execute c user_id) _ (execute c (target c refl) sure)
          (λ e. execute_error-Moves o c e))

guarded_reply-Moves :
    (o : Order) (control : Control) (text user_id : String) (p : Parsed)
    → ((c : Command) → p ≡ fleet c → IsTarget c)
    → ((c : AgentCommand) → p ≡ agent c → is_skill c.skill ≡ true)
    → ((c : Command)
        → may_change control user_id ≡ true
        → IsTarget c
        → needs_confirm c ≡ false
        → Moves o (control.execute c user_id))
    → ((f : QuotaCommand → Action String) (c : QuotaCommand)
        → control.request_quota ≡ some f
        → may_change control user_id ≡ true
        → c.confirmed ≡ true
        → Moves o (f c))
    → ((f : String → String → String → Action String) (c : AgentCommand)
        → control.agent_submit ≡ some f
        → may_change control user_id ≡ true
        → is_skill c.skill ≡ true
        → Moves o (f c.skill c.prompt user_id))
    → Moves o (guarded_reply control text user_id p)
guarded_reply-Moves o control text user_id p target skill execute request submit =
    Moves.branch o (not (may_change control user_id)) _ _ (λ _. Moves.pure o _)
      (λ user_.
        change_reply-Moves o control text user_id p target skill
          (λ c. execute c (not-false _ user_)) (λ f c e. request f c e (not-false _ user_))
          (λ f c e. submit f c e (not-false _ user_)))

reply-Moves :
    (o : Order) (control : Control) (text user_id channel_id : String) (p : Parsed)
    → IsParsed p
    → ((namespace : Option String) → Moves o (control.status namespace))
    → ((f : Option String → Action String) (namespace : Option String)
        → control.cost_report ≡ some f
        → Moves o (f namespace))
    → ((f : Option String → String → Action String) (namespace : Option String)
        → control.snapshot ≡ some f
        → Moves o (f namespace channel_id))
    → ((c : Command)
        → may_change control user_id ≡ true
        → IsTarget c
        → needs_confirm c ≡ false
        → Moves o (control.execute c user_id))
    → ((f : QuotaCommand → Action String) (c : QuotaCommand)
        → control.request_quota ≡ some f
        → may_change control user_id ≡ true
        → c.confirmed ≡ true
        → Moves o (f c))
    → ((f : String → String → String → Action String) (c : AgentCommand)
        → control.agent_submit ≡ some f
        → may_change control user_id ≡ true
        → is_skill c.skill ≡ true
        → Moves o (f c.skill c.prompt user_id))
    → Moves o (reply control text user_id channel_id p)
reply-Moves o control text user_id channel_id (fleet c) parsed status cost snapshot execute request
      submit =
    Moves.branch o (c.verb == "help") _ _ (λ _. Moves.pure o _)
      λ h.
        Moves.branch o (c.verb == "status") _ _ (λ _. status c.namespace)
          λ s.
            Moves.branch o (c.verb == "cost") _ _
              (λ _.
                cost_reply-Moves o control.cost_report c.namespace (λ f e. cost f c.namespace e))
              λ k.
                Moves.branch o (c.verb == "snapshot") _ _
                  (λ _.
                    snapshot_reply-Moves o control.snapshot c.namespace channel_id
                      (λ f e. snapshot f c.namespace e))
                  λ p.
                    guarded_reply-Moves o control text user_id (fleet c)
                      (λ d e.
                        subst IsTarget (fleet-injective e)
                          (unless (one_of c.verb reading) parsed (not_reading c.verb h s k p)))
                      (λ d e. absurd (ground arith)) execute request submit
reply-Moves o control text user_id channel_id (agent c) parsed status cost snapshot execute request
      submit =
    guarded_reply-Moves o control text user_id (agent c) (λ d e. absurd (ground arith))
      (λ d e. subst (λ x. is_skill x.skill ≡ true) (agent-injective e) parsed) execute request
      submit
reply-Moves o control text user_id channel_id (quota c) parsed status cost snapshot execute request
      submit =
    guarded_reply-Moves o control text user_id (quota c) (λ d e. absurd (ground arith))
      (λ d e. absurd (ground arith)) execute request submit

parsed_reply-Moves :
    (o : Order) (control : Control) (text user_id channel_id : String)
    → ((namespace : Option String) → Moves o (control.status namespace))
    → ((f : Option String → Action String) (namespace : Option String)
        → control.cost_report ≡ some f
        → Moves o (f namespace))
    → ((f : Option String → String → Action String) (namespace : Option String)
        → control.snapshot ≡ some f
        → Moves o (f namespace channel_id))
    → ((c : Command)
        → may_change control user_id ≡ true
        → IsTarget c
        → needs_confirm c ≡ false
        → Moves o (control.execute c user_id))
    → ((f : QuotaCommand → Action String) (c : QuotaCommand)
        → control.request_quota ≡ some f
        → may_change control user_id ≡ true
        → c.confirmed ≡ true
        → Moves o (f c))
    → ((f : String → String → String → Action String) (c : AgentCommand)
        → control.agent_submit ≡ some f
        → may_change control user_id ≡ true
        → is_skill c.skill ≡ true
        → Moves o (f c.skill c.prompt user_id))
    → (r : Result Parsed) → ((p : Parsed) → r ≡ ok p → IsParsed p)
    → Moves o (parsed_reply control text user_id channel_id r)
parsed_reply-Moves o control text user_id channel_id status cost snapshot execute request submit
      (ok p) parsed =
    reply-Moves o control text user_id channel_id p (parsed p refl) status cost snapshot execute
      request submit
parsed_reply-Moves o control text user_id channel_id status cost snapshot execute request submit
      (err (value_error m)) parsed =
    Moves.pure o _
parsed_reply-Moves o control text user_id channel_id status cost snapshot execute request submit
      (err e) parsed =
    Moves.raise o e

-- A relation that all of a control's services respect is respected by `handle`, where the services
-- that change something need only respect it for what `handle` lets through: the channel and the user
-- are allowed, a command has a valid target and is confirmed if it stops compute, a quota request is
-- confirmed, and a skill is well formed.
pub handle-IsGuarded :
    (o : Order) (control : Control) (text user_id channel_id : String)
    → ((namespace : Option String) → Moves o (control.status namespace))
    → ((f : Option String → Action String) (namespace : Option String)
        → control.cost_report ≡ some f
        → Moves o (f namespace))
    → ((f : Option String → String → Action String) (namespace : Option String)
        → control.snapshot ≡ some f
        → Moves o (f namespace channel_id))
    → ((c : Command)
        → allowed channel_id control.allowed_channels ≡ true
        → may_change control user_id ≡ true
        → IsTarget c
        → needs_confirm c ≡ false
        → Moves o (control.execute c user_id))
    → ((f : QuotaCommand → Action String) (c : QuotaCommand)
        → control.request_quota ≡ some f
        → allowed channel_id control.allowed_channels ≡ true
        → may_change control user_id ≡ true
        → c.confirmed ≡ true
        → Moves o (f c))
    → ((f : String → String → String → Action String) (c : AgentCommand)
        → control.agent_submit ≡ some f
        → allowed channel_id control.allowed_channels ≡ true
        → may_change control user_id ≡ true
        → is_skill c.skill ≡ true
        → Moves o (f c.skill c.prompt user_id))
    → Moves o (handle control text user_id channel_id)
unfolding handle
handle-IsGuarded o control text user_id channel_id status cost snapshot execute request submit =
    Moves.branch o (not (allowed channel_id control.allowed_channels)) _ _ (λ _. Moves.pure o _)
      (λ open_.
        parsed_reply-Moves o control text user_id channel_id status cost snapshot
          (λ c. execute c (not-false _ open_)) (λ f c e. request f c e (not-false _ open_))
          (λ f c e. submit f c e (not-false _ open_)) (parse_command text control.default_namespace)
          (parse_command-IsParsed text control.default_namespace))
