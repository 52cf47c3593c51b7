-- ===== src/Worker/Retries.antt =====
-- How often a command is tried, and what is reported of it.
use model_fleet_operator.Prelude.{
  ℕ, zero, suc, ◌+◌, ◌≤◌, String, ◌≡◌, subst, Bool, true, false, ◌||◌, eqb, arith, if◌then◌else◌,
  length, length-snoc,
}
use model_fleet_operator.Python.Value.{Value, Fields}
use model_fleet_operator.Python.Result.{Exception, Result, ok, err, api_error}
use model_fleet_operator.Kube.{
  Call, Oracle, State, Action, ◌>>=◌, pure, raise, lift, attempt, call, continue,
}
use model_fleet_operator.Slack.Command.{Command}
use model_fleet_operator.Slack.Fleet.{apply, intent}
use model_fleet_operator.Kafka.{validate_command}
use model_fleet_operator.Worker.{
  text_item, command_of, process, after, retry, is_final, describe_api,
}

suc-eqb : (n : ℕ) → eqb (suc n) 0 ≡ false
suc-eqb n = ground arith

-- A command that fails once for a reason which is tried again, and succeeds at the next attempt, leaves
-- the loop with the first error's text as its `terminal_error`, which is the sign of a rejection.
pub retry-late_success :
    (oracle : Oracle) (now : String) (payload : Value) (params done : Fields) (left status : ℕ)
    (reason body : String) (s t u : State)
    → process oracle now payload s ≡ (err (api_error status reason body), t)
    → is_final status ≡ false
    → process oracle now payload t ≡ (ok done, u)
    → retry oracle now payload params (suc (suc left)) "" s
      ≡ (ok (done, describe_api status reason), u)
unfolding retry after ◌>>=◌ attempt pure
retry-late_success oracle now payload params done left status reason body s t u failed retried
      succeeded =
    rw (failed, retried, suc-eqb left, succeeded)

-- `m` makes at most `n` calls.
record Spends {A : Type 0} (n : ℕ) (m : Action A) : Type 0 where
  from : (s : State) → length (m s).1.calls ≤ length s.calls + n

lift-Spends :
    {A B : Type 0} (n : ℕ) (r : Result A) (f : A → Action B)
    → ((a : A) → Spends n (f a))
    → Spends n (lift r >>= f)
unfolding ◌>>=◌ lift
lift-Spends n (ok a) f rest = rest a
lift-Spends n (err e) f rest = record { from = λ s. omega arith }

continue-le :
    {A B : Type 0} (n : ℕ) (r : Result A) (f : A → Action B) (s : State)
    → ((a : A) → Spends n (f a))
    → length (continue r f s).1.calls ≤ length s.calls + n
continue-le n (ok a) f s rest = (rest a).from s
continue-le n (err e) f s rest = omega arith

bind-Spends :
    {A B : Type 0} (n k : ℕ) (m : Action A) (f : A → Action B)
    → Spends n m
    → ((a : A) → Spends k (f a))
    → Spends (n + k) (m >>= f)
unfolding ◌>>=◌
bind-Spends n k m f first rest = record {
  from = λ s.
      let one_ = first.from s in
      let two_ = continue-le k (m s).0 f (m s).1 rest in omega (arith, one_, two_);
}

pure-Spends : {A : Type 0} (n : ℕ) (a : A) → Spends n (pure a)
unfolding pure
pure-Spends n a = record { from = λ s. omega arith }

raise-Spends : {A : Type 0} (n : ℕ) (e : Exception) → Spends n (raise {A = A} e)
unfolding raise
raise-Spends n e = record { from = λ s. omega arith }

attempt-Spends : {A : Type 0} (n : ℕ) (m : Action A) → Spends n m → Spends n (attempt m)
unfolding attempt
attempt-Spends n m first = record { from = λ s. first.from s }

call-Spends : (oracle : Oracle) (c : Call) → Spends 1 (call oracle c)
unfolding call
call-Spends oracle c = record { from = λ s. omega (arith, length-snoc s.calls c) }

apply-Spends :
    (oracle : Oracle) (now : String) (command : Command) (actor event_id : String)
    → Spends 1 (apply oracle now command actor event_id)
unfolding apply
apply-Spends oracle now command actor event_id =
    lift-Spends 1 (intent command) _
      λ (plural, fs). bind-Spends 1 0 _ _ (call-Spends oracle _) λ v. pure-Spends 0 _

process-Spends :
    (oracle : Oracle) (now : String) (payload : Value) → Spends 1 (process oracle now payload)
unfolding process
process-Spends oracle now payload = lift-Spends 1 (validate_command payload) _ λ params.
    lift-Spends 1 (command_of params) _ λ command.
      lift-Spends 1 (text_item params "actor") _ λ actor.
        lift-Spends 1 (text_item params "event_id") _ λ event_id.
          bind-Spends 1 0 _ _ (apply-Spends oracle now command actor event_id) λ v. pure-Spends 0 _

branch-Spends :
    {A : Type 0} (n : ℕ) (b : Bool) (m k : Action A)
    → Spends n m
    → Spends n k
    → Spends n (if b then m else k)
branch-Spends n true m k yes_ no_ = yes_
branch-Spends n false m k yes_ no_ = no_

after-Spends :
    (n : ℕ) (params : Fields) (is_last : Bool) (terminal_error : String)
    (again : String → Action (Fields × String)) (r : Result Fields)
    → ((e : String) → Spends n (again e))
    → Spends n (after params is_last terminal_error again r)
unfolding after
after-Spends n params is_last terminal_error again (ok done) rest = pure-Spends n _
after-Spends n params is_last terminal_error again (err (api_error status reason body)) rest =
    branch-Spends n (is_final status || is_last) _ _ (pure-Spends n _) (rest _)
after-Spends n params is_last terminal_error again (err e) rest = raise-Spends n e

Spends-eq : {A : Type 0} {n k : ℕ} {m : Action A} → n ≡ k → Spends n m → Spends k m
Spends-eq {m} e spends = subst (λ n. Spends n m) e spends

retry-Spends :
    (oracle : Oracle) (now : String) (payload : Value) (params : Fields) (left : ℕ)
    (terminal_error : String)
    → Spends left (retry oracle now payload params left terminal_error)
unfolding retry
retry-Spends oracle now payload params zero terminal_error = pure-Spends 0 _
retry-Spends oracle now payload params (suc left) terminal_error =
    let counted : 1 + left ≡ suc left = omega arith in
    Spends-eq counted (
      bind-Spends 1 left _ _ (attempt-Spends 1 _ (process-Spends oracle now payload)) λ outcome.
        after-Spends left params (eqb left 0) terminal_error (retry oracle now payload params left)
          outcome (λ e. retry-Spends oracle now payload params left e))

-- The loop makes at most one Kubernetes call for each attempt that is left, however the API
-- answers and however the loop ends.
pub retry-bounded :
    (oracle : Oracle) (now : String) (payload : Value) (params : Fields) (left : ℕ)
    (terminal_error : String) (s : State)
    → length (retry oracle now payload params left terminal_error s).1.calls ≤ length s.calls + left
retry-bounded oracle now payload params left terminal_error s =
    (retry-Spends oracle now payload params left terminal_error).from s
