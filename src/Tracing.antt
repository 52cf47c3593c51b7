-- ===== src/Tracing.antt =====
-- tracing.py: TaskTracer. The context that `trace` opens wraps an action; the values that it yields are
-- read by no caller. The latency is the clock's and belongs to what MLflow is told.
use model_fleet_operator.Prelude.{
  String, ◌≡◌, refl, Bool, true, false, not, ◌==◌, if◌then◌else◌, arith,
}
use model_fleet_operator.Python.Result.{Result, ok, err}
use model_fleet_operator.Kube.{State, Action, ◌>>=◌, pure, lift, try, attempt, continue, recover}

-- `tracking_uri`, and the calls of MLflow that log a run of that address with a status.
pub record Tracer : Type 0 where
  pub tracking_uri : String
  pub mlflow : (task_id agent skill status : String) → Action (Unit {0})

abbrev pub status_of : {A : Type 0} → Result A → String
status_of (ok a) = "ok"
status_of (err e) = "error"

-- `except Exception: return`
unfoldable pub log : Tracer → (task_id agent skill status : String) → Action (Unit {0})
log tracer task_id agent skill status =
    try (tracer.mlflow task_id agent skill status) (λ e. pure tt)

unfoldable pub trace : {A : Type 0} → Tracer → (task_id agent skill : String) → Action A → Action A
unfolding log
trace tracer task_id agent skill m = do
  outcome ← attempt m
  logged ←
      (if not (tracer.tracking_uri == "")
        then log tracer task_id agent skill (status_of outcome)
        else pure tt)
  lift outcome

ignored-eq-ok : (r : Result (Unit {0})) (s : State) → (recover r (λ e. pure tt) s).0 ≡ ok tt
unfolding pure
ignored-eq-ok (ok tt) s = refl
ignored-eq-ok (err e) s = refl

log-eq-ok :
    (tracer : Tracer) (task_id agent skill status : String) (s : State)
    → (log tracer task_id agent skill status s).0 ≡ ok tt
unfolding log try
log-eq-ok tracer task_id agent skill status s = ignored-eq-ok _ _

logged-eq-ok :
    (b : Bool) (tracer : Tracer) (task_id agent skill status : String) (s : State)
    → ((if b then log tracer task_id agent skill status else pure tt) s).0 ≡ ok tt
unfolding pure
logged-eq-ok true tracer task_id agent skill status s =
    log-eq-ok tracer task_id agent skill status s
logged-eq-ok false tracer task_id agent skill status s = refl

after_ok :
    {A : Type 0} (r : Result (Unit {0})) (outcome : Result A) (s : State)
    → r ≡ ok tt
    → (continue r (λ _. lift outcome) s).0 ≡ outcome
unfolding lift
after_ok (ok done) outcome s h = refl
after_ok (err e) outcome s h = absurd (ground arith)

-- Whatever MLflow does, a traced action returns or raises exactly what the action itself does: a
-- failure of the telemetry reaches no task.
pub trace-transparent :
    {A : Type 0} (tracer : Tracer) (task_id agent skill : String) (m : Action A) (s : State)
    → (trace tracer task_id agent skill m s).0 ≡ (m s).0
unfolding trace ◌>>=◌ attempt
trace-transparent tracer task_id agent skill m s =
    after_ok _ _ _ (logged-eq-ok (not (tracer.tracking_uri == "")) tracer task_id agent skill _ _)
