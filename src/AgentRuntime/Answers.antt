-- ===== src/AgentRuntime/Answers.antt =====
-- What a task is answered with.
use model_fleet_operator.Prelude.{
  String, ◌≡◌, refl, sym, ap, ◌∙◌, true, false, Option, none, some, ◌++◌, [], ◌∷◌, negsuc, ℕ, zero,
  suc, ◌≤◌, ◌⊎◌, inl, inr, arith,
}
use Prim.Native.String.append
use model_fleet_operator.Python.Text.{◌⧺◌, prefix, length_of}
use model_fleet_operator.Python.Value.{Value, Fields, null, int, str, dict}
use model_fleet_operator.Python.Library.{Library}
use model_fleet_operator.Python.Result.{Exception, Result, ok, err}
use model_fleet_operator.Tracing.{trace, trace-transparent}
use model_fleet_operator.Kube.{
  State, Action, ◌>>=◌, pure, lift, attempt, try, finally, count_metric, active, continue,
  agent_task, latency,
}
use model_fleet_operator.AgentRuntime.{
  Agent, RpcTask, RpcResult, process, run_skill, run_handler, handler_failed, handler_of, skill_of,
  unknown_skill, completed_result, failed_result,
}

-- The state in which a handler runs.
abbrev pub begun : Agent → State → State
begun agent s = record s { metrics = s.metrics ++ active agent.name true ∷ [] }

-- The first 300 characters of a text, or all of it.
abbrev pub IsCut : (length : ℕ) → (message text : String) → Type 0
IsCut length message text =
    (length_of message ≤ length)
    × (rest : String) × (text ≡ message ⧺ rest)
    × ((rest ≡ "") ⊎ (length_of message ≡ length))

-- The result that a task calls for, by the outcome of the handler itself. The whole number `negsuc n` is
-- -1 - n: the codes are -32601 and -32000.
pub data Answered (agent : Agent) (task : RpcTask) (skill : String) (s : State)
    : RpcResult → Type 0 where
  unknown :
      handler_of skill agent.handlers ≡ none
      → Answered agent task skill s (record {
        id = task.id;
        result = null;
        error = dict (("code", int (negsuc 32600)) ∷ ("message", str "unknown skill") ∷ []);
      })
  completed :
      (handler : Fields → Action Value) (v : Value)
      → handler_of skill agent.handlers ≡ some handler
      → (handler task.params (begun agent s)).0 ≡ ok v
      → Answered agent task skill s (record { id = task.id; result = v; error = null })
  failed :
      (handler : Fields → Action Value) (e : Exception)
      → handler_of skill agent.handlers ≡ some handler
      → (handler task.params (begun agent s)).0 ≡ err e
      → (message : String) → IsCut 300 message (agent.describe e)
      → Answered agent task skill s (record {
        id = task.id;
        result = null;
        error = dict (("code", int (negsuc 31999)) ∷ ("message", str message) ∷ []);
      })

-- The action returns a result as described.
abbrev pub Answers : Agent → RpcTask → (skill : String) → Action RpcResult → State → Type 0
Answers agent task skill m s =
    (r : RpcResult) × (t : State) × (m s ≡ (ok r, t)) × Answered agent task skill s r

-- The state after a handler that left the state `u`.
abbrev ended : Agent → (skill status : String) → State → State
ended agent skill status u = record u {
  metrics =
      ((u.metrics ++ agent_task agent.name skill status ∷ []) ++ active agent.name false ∷ [])
      ++ latency agent.name skill ∷ [];
}

prefix-IsCut : (n : ℕ) (s : String) → IsCut n (prefix n s) s
unfolding prefix length_of
prefix-IsCut zero s = (omega arith, s, sym (append.nil s), inr refl)
prefix-IsCut (suc n) String.[] = (omega arith, "", refl, inl refl)
prefix-IsCut (suc n) (String.◌∷◌ c s) =
    let (short, rest, e, whole) = prefix-IsCut n s in
    (
      omega arith,
      rest,
      ap (λ t. String.◌∷◌ c t) e ∙ sym (append.cons c (prefix n s) rest),
      elim whole [ inl empty ↦ inl empty | inr full ↦ inr (omega arith) ],
    )

handled :
    (agent : Agent) (task : RpcTask) (skill : String) (handler : Fields → Action Value) (s : State)
    → handler_of skill agent.handlers ≡ some handler
    → (r : Result Value) (u : State)
    → trace agent.tracer task.id agent.name skill (handler task.params) (begun agent s) ≡ (r, u)
    → (handler task.params (begun agent s)).0 ≡ r
    → Answers agent task skill (run_skill agent task skill (some handler)) s
unfolding run_skill run_handler handler_failed finally try attempt ◌>>=◌ count_metric pure lift
handled agent task skill handler s found (ok v) u h own = (
  completed_result task v,
  ended agent skill "completed" u,
  rw (h),
  completed handler v found own,
)
handled agent task skill handler s found (err e) u h own = (
  failed_result agent task e,
  ended agent skill "failed" u,
  rw (h),
  failed handler e found own (prefix 300 (agent.describe e)) (prefix-IsCut 300 (agent.describe e)),
)

run_skill-Answers :
    (agent : Agent) (task : RpcTask) (skill : String) (s : State)
    → (found : Option (Fields → Action Value)) → handler_of skill agent.handlers ≡ found
    → Answers agent task skill (run_skill agent task skill found) s
unfolding run_skill pure
run_skill-Answers agent task skill s none h = (unknown_skill task, s, refl, unknown h)
run_skill-Answers agent task skill s (some handler) h =
    handled agent task skill handler s h _ _ refl (
      sym (
        trace-transparent agent.tracer task.id agent.name skill (handler task.params)
          (begun agent s)))

-- A message that holds a task is always answered, whatever its handler does: with error -32601 if no
-- handler serves its skill, with what the handler returned if it did, and with error -32000 and the
-- first 300 characters of the exception's text if it raised; neither the tracing nor the metrics change that.
pub process-Answers :
    (lib : Library) (agent : Agent) (payload : Value) (task : RpcTask) (s : State)
    → agent.decode payload ≡ ok task
    → Answers agent task (skill_of lib task) (process lib agent payload) s
unfolding process ◌>>=◌ lift
process-Answers lib agent payload task s h =
    let (r, t, e, a) = run_skill-Answers agent task (skill_of lib task) s _ refl in
    (
      r,
      t,
      ap
            (λ x.
              continue x
                (λ task.
                  run_skill agent task (skill_of lib task)
                    (handler_of (skill_of lib task) agent.handlers))
                s)
            h
          ∙ e,
      a,
    )
