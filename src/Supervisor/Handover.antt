-- ===== src/Supervisor/Handover.antt =====
-- When a task counts as routed.
use model_fleet_operator.Prelude.{
  refl, Bool, true, false, not, ◌==◌, if◌then◌else◌, String, ◌≡◌, sym, ap, ◌∙◌, Option, none, some,
  List, [], ◌∷◌, ◌++◌,
}
use model_fleet_operator.Python.Value.{Value, str}
use model_fleet_operator.Python.Object.{item, iterate}
use model_fleet_operator.Python.Result.{Result, ok, err, ok-injective}
use model_fleet_operator.Kube.{
  Call, Metric, Oracle, State, ◌>>=◌, pure, create, patch, flush, count_metric, task, Action,
  recover, continue, lift, attempt, try,
}
use model_fleet_operator.Kube.Runs.{bind-eq-ok, lift-eq-ok, call-eq-ok, called}
use model_fleet_operator.Tracing.{Tracer, trace, log, trace-transparent}
use model_fleet_operator.Supervisor.{Selection, TaskSubmission, Routing, card_of, select}
use model_fleet_operator.Supervisor.Submit.{
  chosen_card, topic_text, hand_over, submit, agent_tasks, agent_task_status, task_message,
  pending_task, phase_status,
}
use model_fleet_operator.Supervisor.Routes.{IsOffered, Found, select-IsOffered, card_of-Found}

-- The last three calls are the creation of the pending task, its message, flushed on the topic of a
-- card, and the status `routed`.
pub record Routed (oracle : Oracle) (namespace : Value) (task_id : String)
    (submission : TaskSubmission) (selection : Selection) (cards : List Value) (t : State)
    : Type 0 where
  pub before : List Call
  pub card : Value
  pub topic : String
  pub answer : Value
  pub found : Found selection.agent card cards
  pub of_card : item card "kafka_topic" ≡ ok (str topic)
  pub flushed :
      oracle
        (before ++ create agent_tasks namespace (pending_task task_id selection) ∷ [])
        (flush topic (task_message task_id submission selection) task_id)
      ≡ ok answer
  pub calls :
      t.calls
      ≡ ((before ++ create agent_tasks namespace (pending_task task_id selection) ∷ [])
          ++ flush topic (task_message task_id submission selection) task_id ∷ [])
        ++ patch agent_task_status namespace
            (str task_id)
            (phase_status (("phase", str "routed") ∷ []))
          ∷ []

topic_text-str : (v : Value) {s : String} → topic_text v ≡ ok s → v ≡ str s
topic_text-str (str s) h = ap str (ok-injective h)
topic_text-str Value.null h = cc
topic_text-str (Value.bool b) h = cc
topic_text-str (Value.int n) h = cc
topic_text-str (Value.float d) h = cc
topic_text-str (Value.arr xs) h = cc
topic_text-str (Value.obj fs) h = cc

hand_over-Routed :
    (oracle : Oracle) (namespace : Value) (task_id : String) (submission : TaskSubmission)
    (selection : Selection) (card : Value) (cards : List Value) (s t : State)
    → Found selection.agent card cards
    → hand_over oracle namespace task_id submission selection card s ≡ (ok tt, t)
    → Routed oracle namespace task_id submission selection cards t
unfolding hand_over pure
hand_over-Routed oracle namespace task_id submission selection card cards s t found h =
    let made = create agent_tasks namespace (pending_task task_id selection) in
    let (_, _, h1) = call-eq-ok oracle made _ s h in
    let (listed, e2, h2) = lift-eq-ok (item card "kafka_topic") _ (called made s) h1 in
    let (topic, e3, h3) = lift-eq-ok (topic_text listed) _ (called made s) h2 in
    let sent = flush topic (task_message task_id submission selection) task_id in
    let (answer, e4, h4) = call-eq-ok oracle sent _ (called made s) h3 in
    let routed =
      patch agent_task_status namespace (str task_id)
        (phase_status (("phase", str "routed") ∷ [])) in
    let (_, _, h5) = call-eq-ok oracle routed _ (called sent (called made s)) h4 in
    record {
      before = s.calls;
      card = card;
      topic = topic;
      answer = answer;
      found = found;
      of_card = e2 ∙ ap ok (topic_text-str listed e3);
      flushed = e4;
      calls = sym (ap (λ (x : Result (Unit {0}) × State). x.1.calls) h5);
    }

paired : {A : Type 0} (x : Result A × State) {a : A} → x.0 ≡ ok a → x ≡ (ok a, x.1)
paired (r, s) e = ap (λ q. (q, s)) e

chosen_card-some : (o : Option Value) {card : Value} → chosen_card o ≡ ok card → o ≡ some card
chosen_card-some none h = cc
chosen_card-some (some c) h = ap some (ok-injective h)

counted_calls :
    (m : Metric) (v : Value) (s t : State) {out : Value}
    → (count_metric m >>= λ counted. pure v) s ≡ (ok out, t)
    → t.calls ≡ s.calls
unfolding count_metric pure ◌>>=◌
counted_calls m v s t h = sym (ap (λ (x : Result Value × State). x.1.calls) h)

with_calls :
    (oracle : Oracle) (namespace : Value) (task_id : String) (submission : TaskSubmission)
    (selection : Selection) (cards : List Value) (s t : State)
    → t.calls ≡ s.calls
    → Routed oracle namespace task_id submission selection cards s
    → Routed oracle namespace task_id submission selection cards t
with_calls oracle namespace task_id submission selection cards s t e r = record {
  before = r.before;
  card = r.card;
  topic = r.topic;
  answer = r.answer;
  found = r.found;
  of_card = r.of_card;
  flushed = r.flushed;
  calls = e ∙ r.calls;
}

-- MLflow makes none of the calls that are modelled.
abbrev pub IsQuiet : Tracer → Type 0
IsQuiet tracer =
    (id agent skill status : String) (s : State)
    → (tracer.mlflow id agent skill status s).1.calls ≡ s.calls

ignored-calls : (r : Result (Unit {0})) (s : State) → (recover r (λ e. pure tt) s).1.calls ≡ s.calls
unfolding pure
ignored-calls (ok done) s = refl
ignored-calls (err e) s = refl

logged-calls :
    (b : Bool) (tracer : Tracer) (id agent skill status : String) (s : State)
    → IsQuiet tracer
    → ((if b then log tracer id agent skill status else pure tt) s).1.calls ≡ s.calls
unfolding log try pure
logged-calls true tracer id agent skill status s quiet =
    ignored-calls _ _ ∙ quiet id agent skill status s
logged-calls false tracer id agent skill status s quiet = refl

continued-calls :
    {A : Type 0} (r : Result (Unit {0})) (outcome : Result A) (s : State)
    → (continue r (λ _. lift outcome) s).1.calls ≡ s.calls
unfolding lift
continued-calls (ok done) outcome s = refl
continued-calls (err e) outcome s = refl

-- A traced action makes the calls of the action.
trace-calls :
    {A : Type 0} (tracer : Tracer) (id agent skill : String) (m : Action A) (s : State)
    → IsQuiet tracer
    → (trace tracer id agent skill m s).1.calls ≡ (m s).1.calls
unfolding trace ◌>>=◌ attempt
trace-calls tracer id agent skill m s quiet =
    continued-calls _ _ _
    ∙ logged-calls (not (tracer.tracking_uri == "")) tracer id agent skill _ (m s).1 quiet

-- A task that is answered as routed was selected among the registry's cards, which list its skill for
-- its agent; its AgentTask was created as pending, then its message was produced on the topic of the
-- agent's card and the queue of the producer was flushed in time, and after that the AgentTask was marked
-- as routed. Whether the broker took the message is not asked. MLflow is taken to make none of these
-- calls.
pub submit-Routed :
    (oracle : Oracle) (tracer : Tracer) (routing : Routing) (namespace : Value) (task_id : String)
    (submission : TaskSubmission) (out : Value) (s t : State)
    → IsQuiet tracer
    → submit oracle tracer routing namespace task_id submission s ≡ (ok out, t)
    → (answer : Value) × (cards : List Value) × (selection : Selection) × ((routing.cards s).0
        ≡ ok answer)
      × (iterate answer ≡ ok cards)
      × IsOffered cards selection
      × Routed oracle namespace task_id submission selection cards t
unfolding submit
submit-Routed oracle tracer routing namespace task_id submission out s t quiet h =
    let (answer, e1, h1) = bind-eq-ok routing.cards _ s h in
    let s1 = (routing.cards s).1 in
    let (cards, e2, h2) = lift-eq-ok (iterate answer) _ s1 h1 in
    let chosen = select routing submission cards in
    let (selection, e3, h3) = bind-eq-ok chosen _ s1 h2 in
    let s2 = (chosen s1).1 in
    let (found, e4, h4) = lift-eq-ok (card_of selection.agent cards) _ s2 h3 in
    let (card, e5, h5) = lift-eq-ok (chosen_card found) _ s2 h4 in
    let handed = hand_over oracle namespace task_id submission selection card in
    let traced = trace tracer task_id selection.agent selection.skill handed in
    let (_, e6, h6) = bind-eq-ok traced _ s2 h5 in
    let s3 = (traced s2).1 in
    let own =
      sym (trace-transparent tracer task_id selection.agent selection.skill handed s2) ∙ e6 in
    (
      answer,
      cards,
      selection,
      e1,
      e2,
      select-IsOffered routing submission cards selection s1 s2 (paired (chosen s1) e3),
      with_calls oracle namespace task_id submission selection cards (handed s2).1 t
          (counted_calls (task "routed") _ s3 t h6
            ∙ trace-calls tracer task_id selection.agent selection.skill handed s2 quiet)
          (hand_over-Routed oracle namespace task_id submission selection card cards s2
            (handed s2).1
            (card_of-Found selection.agent cards card (e4 ∙ ap ok (chosen_card-some found e5)))
            (paired (handed s2) own)),
    )
