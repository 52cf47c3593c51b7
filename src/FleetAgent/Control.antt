-- ===== src/FleetAgent/Control.antt =====
-- What a control task may do.
use model_fleet_operator.Prelude.{
  String, ◌≡◌, refl, sym, subst, ◌⊎◌, inl, inr, Bool, true, false, not-false, List, [], ◌∷◌, ◌==◌,
  eq_iff, if◌then◌else◌, arith,
}
use model_fleet_operator.Python.Value.{Value, Fields, str, dict, bool, find_or}
use model_fleet_operator.Python.Text.{◌⧺◌}
use model_fleet_operator.Python.Library.{Library, show}
use model_fleet_operator.Python.Result.{Result, ok, >>=-eq-ok, raise_if-eq-ok, ok-injective}
use model_fleet_operator.Kube.{Call, Oracle, State, ◌>>=◌, lift, call, pure}
use model_fleet_operator.Kube.Runs.{called}
use model_fleet_operator.Kube.Moves as Moves
use model_fleet_operator.Kube.Moves.{adds, Moves}
use model_fleet_operator.Slack.Command.{Command, one_of, canonical}
use model_fleet_operator.Slack.Fleet.{apply, intent, intent_patch, needs_confirm}
use model_fleet_operator.Slack.Fleet.Intents.{HasIntent, inference_of, training_of}
use model_fleet_operator.FleetAgent.{allowed_actions, requested, control, text_param}

-- What a requested command is like.
pub record IsSafe (kind : String) (c : Command) : Type 0 where
  pub of_kind : c.kind ≡ kind
  pub confirmed : needs_confirm c ≡ false
  pub effective : HasIntent c

agent_intent : (c : Command) → c.kind ≡ "agent" → HasIntent c
unfolding intent
agent_intent c e = (
  "fleet.sqe.io/v1alpha1/agentregistrations",
  dict (("suspend", bool (c.verb == "sleep")) ∷ []),
  rw (e),
)

inference_intent :
    (c : Command)
    → c.kind ≡ "inference"
    → one_of c.verb ("wake" ∷ "auto" ∷ "sleep" ∷ []) ≡ true
    → HasIntent c
unfolding intent
inference_intent c e h =
    let (fs, f) = inference_of c.verb h in
    ("fleet.sqe.io/v1alpha1/inferenceservices", fs, rw (e, f))

training_intent :
    (c : Command)
    → c.kind ≡ "training"
    → one_of c.verb ("pause" ∷ "resume" ∷ "cancel" ∷ []) ≡ true
    → HasIntent c
unfolding intent
training_intent c e h =
    let (fs, f) = training_of c.verb h in ("fleet.sqe.io/v1alpha1/trainingruns", fs, rw (e, f))

-- Which branch returned.
branch-ok :
    {A : Type 0} (b : Bool) (x : A) (rest : Result A) {y : A}
    → (if b then ok x else rest) ≡ ok y
    → ((b ≡ true) × (x ≡ y)) ⊎ ((b ≡ false) × (rest ≡ ok y))
branch-ok true x rest h = inl (refl, ok-injective h)
branch-ok false x rest h = inr (refl, h)

-- An action that is allowed for its kind can be carried out.
effective_action :
    (c : Command) (allowed : List String)
    → allowed_actions c.kind ≡ ok allowed
    → one_of c.verb allowed ≡ true
    → HasIntent c
unfolding allowed_actions
effective_action c allowed h valid = elim (branch-ok (c.kind == "inference") _ _ h) [
  | inl (k, e) ↦
      inference_intent c ((eq_iff c.kind "inference").0 k)
        (subst (λ l. one_of c.verb l ≡ true) (sym e) valid)
  | inr (_, h1) ↦ elim (branch-ok (c.kind == "training") _ _ h1) [
    | inl (k, e) ↦
        training_intent c ((eq_iff c.kind "training").0 k)
          (subst (λ l. one_of c.verb l ≡ true) (sym e) valid)
    | inr (_, h2) ↦ elim (branch-ok (c.kind == "agent") _ _ h2) [
      | inl (k, e) ↦ agent_intent c ((eq_iff c.kind "agent").0 k)
      | inr (_, h3) ↦ absurd (ground arith)
    ]
  ]
]

-- A command that a control task asks for is of the kind of its skill, is confirmed if it stops compute,
-- and stands for fields to patch: its action is one of those of its kind.
pub requested-IsSafe :
    (lib : Library) (params : Fields) (kind : String) (c : Command)
    → requested lib params kind ≡ ok c
    → IsSafe kind c
unfolding requested
requested-IsSafe lib params kind c h =
    let (allowed, listed, h1) = >>=-eq-ok (allowed_actions kind) _ h in
    let (valid, h2) = raise_if-eq-ok _ _ _ h1 in
    let (namespace, _, h3) = >>=-eq-ok (text_param lib params "namespace") _ h2 in
    let (name, _, h4) = >>=-eq-ok (text_param lib params "name") _ h3 in
    let (sure, h5) = raise_if-eq-ok _ _ _ h4 in
    subst (IsSafe kind) (ok-injective h5) (record {
      of_kind = refl;
      confirmed = sure;
      effective = effective_action _ allowed listed (not-false _ valid);
    })

-- The patch of a requested command.
abbrev pub IsRequested : Library → (now kind : String) → (params : Fields) → Call → Type 0
IsRequested lib now kind params made =
    (c : Command) × (requested lib params kind ≡ ok c)
    × IsSafe kind c
    × (plural : String) × (fs : Value) × (intent c ≡ ok (plural, fs))
    × (made
        ≡ intent_patch now c (show lib (find_or "user_id" (str "agent-supervisor") params)) ""
            plural fs)

-- A control task makes no call but the patch of the command that its parameters ask for: a command of
-- the skill's kind, with an action of that kind, confirmed if it stops compute, and with the fields of
-- its intent.
pub control-IsRequested :
    (oracle : Oracle) (lib : Library) (now kind : String) (params : Fields)
    → Moves (adds (IsRequested lib now kind params)) (control oracle lib now kind params)
unfolding control apply
control-IsRequested oracle lib now kind params =
    Moves.bind_lift _ (requested lib params kind) _ λ c e.
      Moves.bind _ _ _
        (Moves.bind_lift _ (intent c) _ λ pair i.
          Moves.bind _ _ _
            (Moves.call oracle _
              (c, e, requested-IsSafe lib params kind c e, pair.0, pair.1, i, refl))
            (λ _. Moves.pure _ _))
        (λ _. Moves.pure _ _)

-- The answer to a command that was applied.
abbrev pub accepted : Command → Value
accepted c =
    dict
      (("status", str ("Accepted `" ⧺ canonical c ⧺ "`. The operator is reconciling it now.")) ∷ [])

-- A control task whose parameters ask for a command is carried out if the API server accepts the patch
-- of its intent: the patch is made, nothing else is, and the answer says that the command is accepted.
pub control-applies :
    (oracle : Oracle) (lib : Library) (now kind : String) (params : Fields) (c : Command)
    (s : State)
    → requested lib params kind ≡ ok c
    → ((patched : Call) → (v : Value) × (oracle s.calls patched ≡ ok v))
    → (plural : String) × (fs : Value) × (intent c ≡ ok (plural, fs))
      × (control oracle lib now kind params s ≡ (
        ok (accepted c),
        called
            (intent_patch now c
              (show lib (find_or "user_id" (str "agent-supervisor") params))
              ""
              plural
              fs)
            s,
      ))
unfolding control apply ◌>>=◌ lift call pure
control-applies oracle lib now kind params c s h answers =
    let (plural, fs, i) = (requested-IsSafe lib params kind c h).effective in
    let (v, a) = answers (
      intent_patch now c (show lib (find_or "user_id" (str "agent-supervisor") params)) "" plural
        fs) in
    (plural, fs, i, rw (h, i, a))
