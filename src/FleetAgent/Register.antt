-- ===== src/FleetAgent/Register.antt =====
-- How often the agent tries to register.
use model_fleet_operator.Prelude.{
  ℕ, zero, suc, ◌<◌, Bool, true, false, ◌+◌, ◌≤◌, String, ◌≡◌, refl, length, length-snoc, List, [],
  ◌∷◌, ◌++◌, arith,
}
use model_fleet_operator.Python.Value.{Value}
use model_fleet_operator.Python.Result.{Exception, Result, ok, err, http_error}
use model_fleet_operator.Kube.{Call, Oracle, State, Action, ◌>>=◌, pure, raise, attempt, call}
use model_fleet_operator.Kube.Runs.{called}
use model_fleet_operator.FleetAgent.{attempts, tried, register, registration_post}

-- `n` calls in a row fail as HTTP requests do.
abbrev pub Failing : Oracle → Call → ℕ → List Call → Type 0
Failing oracle c zero calls = Unit
Failing oracle c (suc n) calls =
    (oracle calls c ≡ err http_error) × Failing oracle c n (calls ++ c ∷ [])

-- The calls after `k` more of them.
abbrev pub repeated : Call → ℕ → List Call → List Call
repeated c zero calls = calls
repeated c (suc k) calls = repeated c k (calls ++ c ∷ [])

abbrev pub is_http_error : Exception → Bool
is_http_error http_error = true
is_http_error e = false

-- How a run of at most `n` attempts ended, from the calls `from_`: after `k` HTTP errors the next attempt
-- succeeded or raised another error, or there were `n` HTTP errors.
pub data Concluded (oracle : Oracle) (c : Call)
    : ℕ → List Call → Result (Unit {0}) → List Call → Type 0 where
  registered :
      {n : ℕ} {from_ : List Call}
      → (k : ℕ) (v : Value) → k < n
      → Failing oracle c k from_
      → oracle (repeated c k from_) c ≡ ok v
      → Concluded oracle c n from_ (ok tt) (repeated c (suc k) from_)
  raised :
      {n : ℕ} {from_ : List Call}
      → (k : ℕ) (e : Exception) → k < n
      → Failing oracle c k from_
      → oracle (repeated c k from_) c ≡ err e
      → is_http_error e ≡ false
      → Concluded oracle c n from_ (err e) (repeated c (suc k) from_)
  exhausted :
      {n : ℕ} {from_ : List Call}
      → Failing oracle c n from_
      → Concluded oracle c n from_ (ok tt) (repeated c n from_)

-- The run of an action is concluded within `n` calls.
pub record Attempted (oracle : Oracle) (c : Call) (n : ℕ) (m : Action (Unit {0})) (s : State)
    : Type 0 where
  pub bounded : length (m s).1.calls ≤ length s.calls + n
  pub concluded : Concluded oracle c n s.calls (m s).0 (m s).1.calls

more :
    (oracle : Oracle) (c : Call) (n : ℕ) (r : Result (Unit {0})) (from_ to_ : List Call)
    → oracle from_ c ≡ err http_error
    → Concluded oracle c n (from_ ++ c ∷ []) r to_
    → Concluded oracle c (suc n) from_ r to_
more oracle c n r from_ to_ failed (registered k v l f h) =
    registered (suc k) v (omega arith) (failed, f) h
more oracle c n r from_ to_ failed (raised k e l f h other) =
    raised (suc k) e (omega arith) (failed, f) h other
more oracle c n r from_ to_ failed (exhausted f) = exhausted (failed, f)

after_attempt :
    (oracle : Oracle) (c : Call) (n : ℕ) (s : State) (outcome : Result Value)
    → oracle s.calls c ≡ outcome
    → Attempted oracle c n (attempts oracle c n) (called c s)
    → Attempted oracle c (suc n) (λ u. tried (attempts oracle c n) outcome (called c s)) s
unfolding pure raise
after_attempt oracle c n s (ok v) h rest =
    let k = length-snoc s.calls c in
    record { bounded = omega arith; concluded = registered 0 v (omega arith) tt h }
after_attempt oracle c n s (err http_error) h rest =
    let k = length-snoc s.calls c in
    let b = rest.bounded in
    record { bounded = omega arith; concluded = more oracle c n _ s.calls _ h rest.concluded }
after_attempt oracle c n s (err e) h rest =
    let k = length-snoc s.calls c in
    record { bounded = omega arith; concluded = raised 0 e (omega arith) tt h refl }

attempts-Attempted :
    (oracle : Oracle) (c : Call) (n : ℕ) (s : State) → Attempted oracle c n (attempts oracle c n) s
unfolding attempts ◌>>=◌ attempt call pure
attempts-Attempted oracle c zero s = record { bounded = omega arith; concluded = exhausted tt }
attempts-Attempted oracle c (suc n) s =
    let h =
      after_attempt oracle c n s (oracle s.calls c) refl
        (attempts-Attempted oracle c n (called c s)) in
    record { bounded = h.bounded; concluded = h.concluded }

-- The registration posts the agent's card at most five times and ends in one of three ways, after none or
-- more HTTP errors in a row: the next post was accepted; the next post raised an error that is no HTTP
-- error, which is raised; or there were five HTTP errors, and the agent goes on unregistered.
pub register-Attempted :
    (oracle : Oracle) (registry token : String) (card : Value) (s : State)
    → Attempted oracle
        (registration_post registry token card)
        5
        (register oracle registry token card)
        s
unfolding register
register-Attempted oracle registry token card s =
    attempts-Attempted oracle (registration_post registry token card) 5 s
