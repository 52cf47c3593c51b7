-- ===== src/Kube.antt =====
-- The Kubernetes API as the program calls it. The API server is not this repository's code: an
-- `Oracle` answers each call, and may take into account all calls made before it. A test cluster or
-- any other behaviour is one such function.
pub mod Moves
pub mod Runs
use model_fleet_operator.Prelude.{
  ℕ, String, Bool, true, false, List, [], ◌∷◌, ◌++◌, Option, none, some, eqb, if◌then◌else◌, ℤ,
}
use model_fleet_operator.Python.Value.{Value, Fields, null, obj, end, find_or, put}
use model_fleet_operator.Python.Double.{Double}
use model_fleet_operator.Python.Result.{Exception, Result, ok, err, api_error}

-- The resource is the API group, version and plural; a body goes with a write. Then come calls of
-- the Kafka client: a message that is produced with a delivery report, which is an error where it is not
-- delivered; a message that is produced without one and flushed, which is an error only where the queue is
-- not empty in time, so that a message that the broker refused for good counts as flushed; and the commit
-- of the consumed message. Then come the HTTP requests that a client makes.
pub data Call : Type 0 where
  read : (resource : String) → (namespace name : Value) → Call
  create : (resource : String) → (namespace body : Value) → Call
  patch : (resource : String) → (namespace name body : Value) → Call
  delete : (resource : String) → (namespace name : Value) → Call
  list_all : (resource : String) → (namespace : Value) → Call
  produce : (topic : String) → (payload : Value) → (key : String) → Call
  flush : (topic : String) → (payload : Value) → (key : String) → Call
  commit : Call
  post : (url authorization : String) → (body : Value) → Call
  get_query : (url authorization query : String) → Call

abbrev pub Oracle : Type 0
Oracle = List Call → Call → Result Value

-- Prometheus metrics that a handler sets.
pub data Metric : Type 0 where
  reconciled : (kind result : String) → Metric
  inference_ready : (namespace name count : Value) → Metric
  training_phase : (namespace name : Value) → (phase : String) → Bool → Metric
  command : (result : String) → Metric
  task : (status : String) → Metric
  agent_task : (agent skill status : String) → Metric
  active : (agent : String) → (more : Bool) → Metric
  latency : (agent skill : String) → Metric
  registration : (operation : String) → Metric
  tokens : (namespace workload model direction : String) → ℕ → Metric
  cost : (namespace workload model : String) → (usd : Double) → Metric
  upstream : (namespace workload model runtime result : String) → Metric
  upstream_latency : (namespace workload model runtime : String) → Metric

-- What a handler changes: the calls made so far, kopf's `patch.status`, and the metrics.
pub record State : Type 0 where
  pub calls : List Call
  pub status : Fields
  pub metrics : List Metric

abbrev pub initial : State
initial = record { calls = []; status = end; metrics = [] }

-- A handler's code. What was done before an exception stays done.
abbrev pub Action : Type 0 → Type 0
Action A = State → Result A × State

abbrev pub continue : {A B : Type 0} → Result A → (A → Action B) → Action B
continue (ok a) f s = f a s
continue (err e) f s = (err e, s)

infixl 5 ◌>>=◌ ◌>>◌
unfoldable pub ◌>>=◌ : {A B : Type 0} → Action A → (A → Action B) → Action B
◌>>=◌ m f s = let (r, s') = m s in continue r f s'

abbrev pub ◌>>◌ : {B : Type 0} → Action (Unit {0}) → Action B → Action B
m >> k = m >>= λ _. k

unfoldable pub pure : {A : Type 0} → A → Action A
pure a s = (ok a, s)

unfoldable pub raise : {A : Type 0} → Exception → Action A
raise e s = (err e, s)

unfoldable pub lift : {A : Type 0} → Result A → Action A
lift r s = (r, s)

abbrev pub recover : {A : Type 0} → Result A → (Exception → Action A) → Action A
recover (ok a) handler s = (ok a, s)
recover (err e) handler s = handler e s

-- `try: m except ...: handler`; the handler raises again what it does not catch.
unfoldable pub try : {A : Type 0} → Action A → (Exception → Action A) → Action A
try m handler s = let (r, s') = m s in recover r handler s'

-- The outcome as a value: for a handler with an `else` part.
unfoldable pub attempt : {A : Type 0} → Action A → Action (Result A)
attempt m s = let (r, s') = m s in (ok r, s')

-- `try: m finally: cleanup`
unfoldable pub finally : {A : Type 0} → Action A → Action (Unit {0}) → Action A
unfolding attempt lift
finally m cleanup = do outcome ← attempt m; cleaned ← cleanup; lift outcome

unfoldable pub call : Oracle → Call → Action Value
call oracle c s = (oracle s.calls c, record s { calls = s.calls ++ c ∷ [] })

-- `patch.status.update(...)`, key by key.
abbrev pub update : Fields → Fields → Fields
update end fs = fs
update (Fields.field k v more) fs = update more (put k v fs)

unfoldable pub set_status : Fields → Action (Unit {0})
set_status new s = (ok tt, record s { status = update new s.status })

unfoldable pub count_metric : Metric → Action (Unit {0})
count_metric m s = (ok tt, record s { metrics = s.metrics ++ m ∷ [] })

-- An attribute of an object that the typed client returns: `None` where it is not set.
abbrev pub attribute : Value → String → Value
attribute (obj fs) k = find_or k null fs
attribute _ k = null

abbrev pub not_found : Exception → Bool
not_found (api_error status reason body) = eqb status 404
not_found _ = false
