-- ===== src/AgentRuntime/Delivery.antt =====
-- What an agent's worker does with one message.
use model_fleet_operator.Prelude.{◌≡◌, sym, ap, ◌++◌, [], ◌∷◌}
use model_fleet_operator.Python.Value.{Value}
use model_fleet_operator.Python.Library.{Library}
use model_fleet_operator.Python.Result.{ok}
use model_fleet_operator.Kube.{Call, Oracle, State, pure, flush, commit}
use model_fleet_operator.Kube.Runs.{bind-eq-ok, call-eq-ok}
use model_fleet_operator.AgentRuntime.{Agent, RpcResult, process, serve}

-- The message that carries a result.
abbrev pub answer : Agent → RpcResult → Call
answer agent r = flush agent.result_topic (agent.encode r) r.id

-- The end of a message: its result was flushed in time, and then the message was committed.
pub record Flushed (oracle : Oracle) (lib : Library) (agent : Agent) (payload : Value) (s t : State)
    : Type 0 where
  pub result : RpcResult
  pub processed : (process lib agent payload s).0 ≡ ok result
  pub receipt : Value
  pub flushed : oracle (process lib agent payload s).1.calls (answer agent result) ≡ ok receipt
  pub calls :
      t.calls ≡ ((process lib agent payload s).1.calls ++ answer agent result ∷ []) ++ commit ∷ []

-- When the worker is done with a message, the task was answered, the answer was produced on the result
-- topic under the task's identity and the queue of the producer was flushed in time, and only then the
-- message was committed. Whether the broker took the answer is not asked.
pub serve-Flushed :
    (oracle : Oracle) (lib : Library) (agent : Agent) (payload : Value) (s t : State)
    → serve oracle lib agent payload s ≡ (ok tt, t)
    → Flushed oracle lib agent payload s t
unfolding serve pure
serve-Flushed oracle lib agent payload s t h =
    let (r, processed, h1) = bind-eq-ok _ _ s h in
    let (receipt, flushed, h2) = call-eq-ok _ _ _ _ h1 in
    let (committed, _, h3) = call-eq-ok _ _ _ _ h2 in
    record {
      result = r;
      processed = processed;
      receipt = receipt;
      flushed = flushed;
      calls = ap (λ x. x.1.calls) (sym h3);
    }
