-- ===== src/Kube/Runs.antt =====
-- Taking a run that returned apart.
use model_fleet_operator.Prelude.{
  ◌≡◌, refl, Bool, true, false, ◌⊎◌, inl, inr, if◌then◌else◌, [], ◌∷◌, ◌++◌, arith,
}
use model_fleet_operator.Python.Value.{Value}
use model_fleet_operator.Python.Result.{Result, ok, err}
use model_fleet_operator.Kube.{Oracle, Call, State, Action, ◌>>=◌, continue, lift, call}

continue-eq-ok :
    {A B : Type 0} (r : Result A) (f : A → Action B) (s : State) {b : B} {t : State}
    → continue r f s ≡ (ok b, t)
    → (a : A) × (r ≡ ok a) × (f a s ≡ (ok b, t))
continue-eq-ok (ok a) f s h = (a, refl, h)
continue-eq-ok (err e) f s h = absurd (ground arith)

pub bind-eq-ok :
    {A B : Type 0} (m : Action A) (f : A → Action B) (s : State) {b : B} {t : State}
    → (m >>= f) s ≡ (ok b, t)
    → (a : A) × ((m s).0 ≡ ok a) × (f a (m s).1 ≡ (ok b, t))
unfolding ◌>>=◌
bind-eq-ok m f s h = continue-eq-ok (m s).0 f (m s).1 h

pub lift-eq-ok :
    {A B : Type 0} (r : Result A) (f : A → Action B) (s : State) {b : B} {t : State}
    → (lift r >>= f) s ≡ (ok b, t)
    → (a : A) × (r ≡ ok a) × (f a s ≡ (ok b, t))
unfolding ◌>>=◌ lift
lift-eq-ok r f s h = continue-eq-ok r f s h

-- The state after a call.
abbrev pub called : Call → State → State
called c s = record s { calls = s.calls ++ c ∷ [] }

pub call-eq-ok :
    {B : Type 0} (oracle : Oracle) (c : Call) (f : Value → Action B) (s : State) {b : B} {t : State}
    → (call oracle c >>= f) s ≡ (ok b, t)
    → (v : Value) × (oracle s.calls c ≡ ok v) × (f v (called c s) ≡ (ok b, t))
unfolding ◌>>=◌ call
call-eq-ok oracle c f s h = continue-eq-ok (oracle s.calls c) f (called c s) h

-- The branch that a run took.
pub branch-eq :
    {A : Type 0} (b : Bool) (m n : Action A) (s : State) {r : Result A × State}
    → (if b then m else n) s ≡ r
    → (m s ≡ r) ⊎ (n s ≡ r)
branch-eq true m n s h = inl h
branch-eq false m n s h = inr h
