-- ===== src/Kube/Moves.antt =====
-- How an action may move the state, whatever the API answers and whether it returns or raises: one
-- rule for each way to build an action.
use model_fleet_operator.Prelude.{
  ◌≡◌, refl, sym, ap, ◌∙◌, Bool, true, false, List, [], ◌∷◌, ◌++◌, All, All-append, All-weaken,
  if◌then◌else◌,
}
use mathlib.Core.List.{append_assoc, append-nil}
use model_fleet_operator.Python.Value.{Value, Fields}
use model_fleet_operator.Python.Result.{Exception, Result, ok, err}
use model_fleet_operator.Kube as K
use model_fleet_operator.Kube.{Call, Oracle, State, Action, Metric, recover, ◌>>=◌, continue}

-- A relation on states that allows no step and two steps.
pub record Order : Type 1 where
  pub Step : State → State → Type 0
  pub stay : (s : State) → Step s s
  pub then_ : {s t u : State} → Step s t → Step t u → Step s u

-- `m` moves every state by `Step`.
pub record Moves (o : Order) {A : Type 0} (m : Action A) : Type 0 where
  pub from : (s : State) → o.Step s (m s).1

module _ (o : Order) where
  pub pure : {A : Type 0} (a : A) → Moves o (K.pure a)
  unfolding K.pure
  pure a = record { from = λ s. o.stay s }

  pub raise : {A : Type 0} (e : Exception) → Moves o (K.raise {A = A} e)
  unfolding K.raise
  raise e = record { from = λ s. o.stay s }

  pub lift : {A : Type 0} (r : Result A) → Moves o (K.lift r)
  unfolding K.lift
  lift r = record { from = λ s. o.stay s }

  -- The rest may use what the first part returned.
  pub bind_lift :
      {A B : Type 0} (r : Result A) (f : A → Action B)
      → ((a : A) → r ≡ ok a → Moves o (f a))
      → Moves o (K.lift r >>= f)
  unfolding ◌>>=◌ K.lift
  bind_lift (ok a) f rest = record { from = λ s. (rest a refl).from s }
  bind_lift (err e) f rest = record { from = λ s. o.stay s }

  continue_from :
      {A B : Type 0} (r : Result A) (f : A → Action B)
      → ((a : A) → Moves o (f a))
      → (s : State) → o.Step s (continue r f s).1
  continue_from (ok a) f rest s = (rest a).from s
  continue_from (err e) f rest s = o.stay s

  pub bind :
      {A B : Type 0} (m : Action A) (f : A → Action B)
      → Moves o m
      → ((a : A) → Moves o (f a))
      → Moves o (m >>= f)
  unfolding ◌>>=◌
  bind m f first rest = record {
    from = λ s. o.then_ (first.from s) (continue_from (m s).0 f rest (m s).1);
  }

  continue_known :
      {A B : Type 0} (r : Result A) (f : A → Action B)
      → ((a : A) → r ≡ ok a → Moves o (f a))
      → (s : State) → o.Step s (continue r f s).1
  continue_known (ok a) f rest s = (rest a refl).from s
  continue_known (err e) f rest s = o.stay s

  -- The rest may use what the first part returned, and from which state.
  pub bind_known :
      {A B : Type 0} (m : Action A) (f : A → Action B)
      → Moves o m
      → ((a : A) (s : State) → (m s).0 ≡ ok a → Moves o (f a))
      → Moves o (m >>= f)
  unfolding ◌>>=◌
  bind_known m f first rest = record {
    from = λ s. o.then_ (first.from s) (continue_known (m s).0 f (λ a e. rest a s e) (m s).1);
  }

  recover_from :
      {A : Type 0} (r : Result A) (handler : Exception → Action A)
      → ((e : Exception) → Moves o (handler e))
      → (s : State) → o.Step s (recover r handler s).1
  recover_from (ok a) handler rest s = o.stay s
  recover_from (err e) handler rest s = (rest e).from s

  pub try :
      {A : Type 0} (m : Action A) (handler : Exception → Action A)
      → Moves o m
      → ((e : Exception) → Moves o (handler e))
      → Moves o (K.try m handler)
  unfolding K.try
  try m handler first rest = record {
    from = λ s. o.then_ (first.from s) (recover_from (m s).0 handler rest (m s).1);
  }

  pub attempt : {A : Type 0} (m : Action A) → Moves o m → Moves o (K.attempt m)
  unfolding K.attempt
  attempt m first = record { from = λ s. first.from s }

  pub branch :
      {A : Type 0} (b : Bool) (m n : Action A)
      → (b ≡ true → Moves o m)
      → (b ≡ false → Moves o n)
      → Moves o (if b then m else n)
  branch true m n yes_ no_ = yes_ refl
  branch false m n yes_ no_ = no_ refl

-- Every call that is added satisfies `P`.
pub record Adds (P : Call → Type 0) (s t : State) : Type 0 where
  pub added : List Call
  pub calls : t.calls ≡ s.calls ++ added
  pub each : All P added

pub Adds-trans : {P : Call → Type 0} {s t u : State} → Adds P s t → Adds P t u → Adds P s u
Adds-trans {P} {s} a b = record {
  added = a.added ++ b.added;
  calls = b.calls ∙ ap (λ l. l ++ b.added) a.calls ∙ append_assoc s.calls a.added b.added;
  each = All-append P a.added b.added a.each b.each;
}

pub Adds-refl : {P : Call → Type 0} (s : State) → Adds P s s
Adds-refl s = record { added = []; calls = sym (append-nil s.calls); each = tt }

abbrev pub adds : (Call → Type 0) → Order
adds P = record { Step = Adds P; stay = Adds-refl; then_ = Adds-trans }

pub call : {P : Call → Type 0} (oracle : Oracle) (c : Call) → P c → Moves (adds P) (K.call oracle c)
unfolding K.call
call oracle c p = record { from = λ s. record { added = c ∷ []; calls = refl; each = (p, tt) } }

-- A call whose answer the rest may trace back to the API.
pub bind_call :
    {P : Call → Type 0} {B : Type 0} (oracle : Oracle) (c : Call) (f : Result Value → Action B)
    → P c
    → ((before : List Call) → Moves (adds P) (f (oracle before c)))
    → Moves (adds P) (K.attempt (K.call oracle c) >>= f)
unfolding ◌>>=◌ K.call K.attempt
bind_call oracle c f p rest = record {
  from = λ s.
      Adds-trans (record { added = c ∷ []; calls = refl; each = (p, tt) })
        ((rest s.calls).from (record s { calls = s.calls ++ c ∷ [] }));
}

pub set_status : {P : Call → Type 0} (new : Fields) → Moves (adds P) (K.set_status new)
unfolding K.set_status
set_status new = record {
  from = λ s. record { added = []; calls = sym (append-nil s.calls); each = tt };
}

pub count_metric : {P : Call → Type 0} (m : Metric) → Moves (adds P) (K.count_metric m)
unfolding K.count_metric
count_metric m = record {
  from = λ s. record { added = []; calls = sym (append-nil s.calls); each = tt };
}

pub weaken :
    {P Q : Call → Type 0} {A : Type 0} (m : Action A)
    → ((c : Call) → P c → Q c)
    → Moves (adds P) m
    → Moves (adds Q) m
weaken {P} {Q} m f h = record {
  from = λ s. record {
    added = (h.from s).added;
    calls = (h.from s).calls;
    each = All-weaken P Q (h.from s).added f (h.from s).each;
  };
}
