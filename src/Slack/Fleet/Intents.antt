-- ===== src/Slack/Fleet/Intents.antt =====
-- What a workload command does.
use model_fleet_operator.Prelude.{
  Bool-cases, eq_iff, sym, ◌∙◌, String, ◌≡◌, refl, ap, subst, ◌⊎◌, inl, inr, Bool, true, false,
  ◌&&◌, none, [], ◌∷◌, ◌==◌, arith,
}
use model_fleet_operator.Python.Value.{Value, bool, dict}
use model_fleet_operator.Python.Result.{ok}
use model_fleet_operator.Kube.{Call, Oracle}
use model_fleet_operator.Kube.Moves as Moves
use model_fleet_operator.Kube.Moves.{adds, Moves}
use model_fleet_operator.Slack.Command.{Command, one_of, one_of-cons}
use model_fleet_operator.Slack.Fleet.{
  training_fields, inference_fields, intent, intent_patch, apply, execute, needs_confirm,
}
use model_fleet_operator.Slack.Parse.Targets.{IsTarget}
use model_fleet_operator.Kafka.{valid_verbs}

-- A command on a training run that is not one of its verbs.
abbrev pub misfit : Command → Bool
misfit c = c.kind == "training" && one_of c.verb ("wake" ∷ "auto" ∷ "sleep" ∷ [])

-- What has an intent.
abbrev pub HasIntent : Command → Type 0
HasIntent c = (plural : String) × (fs : Value) × (intent c ≡ ok (plural, fs))

two : (s a b : String) → one_of s (a ∷ b ∷ []) ≡ true → (s ≡ a) ⊎ (s ≡ b)
two s a b h = elim (one_of-cons s a (b ∷ []) h) [
  | inl x ↦ inl x
  | inr h1 ↦ elim (one_of-cons s b [] h1) [ inl y ↦ inr y | inr h2 ↦ cc ]
]

three : (s a b c : String) → one_of s (a ∷ b ∷ c ∷ []) ≡ true → (s ≡ a) ⊎ ((s ≡ b) ⊎ (s ≡ c))
three s a b c h = elim (one_of-cons s a (b ∷ c ∷ []) h) [
  | inl x ↦ inl x
  | inr h1 ↦ inr (two s b c h1)
]

pub inference_of :
    (verb : String)
    → one_of verb ("wake" ∷ "auto" ∷ "sleep" ∷ []) ≡ true
    → (fs : Value) × (inference_fields verb ≡ ok fs)
unfolding inference_fields
inference_of verb h = elim (three verb "wake" "auto" "sleep" h) [
  | inl x ↦ (_, ap inference_fields x)
  | inr (inl x) ↦ (_, ap inference_fields x)
  | inr (inr x) ↦ (_, ap inference_fields x)
]

pub training_of :
    (verb : String)
    → one_of verb ("pause" ∷ "resume" ∷ "cancel" ∷ []) ≡ true
    → (fs : Value) × (training_fields verb ≡ ok fs)
unfolding training_fields
training_of verb h = elim (three verb "pause" "resume" "cancel" h) [
  | inl x ↦ (_, ap training_fields x)
  | inr (inl x) ↦ (_, ap training_fields x)
  | inr (inr x) ↦ (_, ap training_fields x)
]

training_verb :
    (verb : String)
    → one_of verb valid_verbs ≡ true
    → one_of verb ("wake" ∷ "auto" ∷ "sleep" ∷ []) ≡ false
    → one_of verb ("pause" ∷ "resume" ∷ "cancel" ∷ []) ≡ true
training_verb verb h m = ground arith

inference_verb :
    (verb : String)
    → one_of verb valid_verbs ≡ true
    → one_of verb ("pause" ∷ "resume" ∷ "cancel" ∷ []) ≡ false
    → one_of verb ("wake" ∷ "auto" ∷ "sleep" ∷ []) ≡ true
inference_verb verb h m = ground arith

-- To pause, to resume and to cancel is for no inference service.
no_run_verb :
    (c : Command)
    → IsTarget c
    → c.kind ≡ "inference"
    → one_of c.verb ("pause" ∷ "resume" ∷ "cancel" ∷ []) ≡ false
no_run_verb c t e = elim (Bool-cases (one_of c.verb ("pause" ∷ "resume" ∷ "cancel" ∷ []))) [
  | inl runs ↦
      (let same = (eq_iff "inference" "training").1 (sym e ∙ t.training_only runs) in
        absurd (ground arith))
  | inr other ↦ other
]

-- Every parsed workload command has an intent, except to wake, auto-scale or sleep a training run.
pub target-HasIntent : (c : Command) → IsTarget c → misfit c ≡ false → HasIntent c
unfolding intent
target-HasIntent c t fits = elim (three c.kind "agent" "inference" "training" t.kind_valid) [
  | inl agent_ ↦ (
    "fleet.sqe.io/v1alpha1/agentregistrations",
    dict (("suspend", bool (c.verb == "sleep")) ∷ []),
    rw agent_,
  )
  | inr (inl inference_) ↦
      (let (fs, e) =
          inference_of c.verb (inference_verb c.verb t.verb_valid (no_run_verb c t inference_)) in
        ("fleet.sqe.io/v1alpha1/inferenceservices", fs, rw (inference_, e)))
  | inr (inr training_) ↦
      (let (fs, e) = training_of c.verb (
          training_verb c.verb t.verb_valid (
            subst (λ k. (k == "training" && one_of c.verb ("wake" ∷ "auto" ∷ "sleep" ∷ [])) ≡ false)
              training_ fits)) in
        ("fleet.sqe.io/v1alpha1/trainingruns", fs, rw (training_, e)))
]

-- The patch that a command stands for, and only if it is confirmed where it stops compute.
abbrev pub IsIntended : (now : String) → Command → (actor : String) → Call → Type 0
IsIntended now c actor made =
    (needs_confirm c ≡ false)
    × (plural : String) × (fs : Value) × (intent c ≡ ok (plural, fs))
    × (made ≡ intent_patch now c actor "" plural fs)

-- Without a queue, `execute` makes no call but the patch of the command's own resource with the
-- fields of its intent, and none at all for a command that stops compute and is not confirmed.
pub execute-IsIntended :
    (oracle : Oracle) (now actor : String) (c : Command)
    → Moves (adds (IsIntended now c actor)) (execute oracle now none c actor)
unfolding execute apply
execute-IsIntended oracle now actor c =
    Moves.branch _ (needs_confirm c) _ _ (λ _. Moves.pure _ _)
      λ sure. Moves.bind_lift _ (intent c) _ λ pair e.
        Moves.bind _ _ _ (Moves.call oracle _ (sure, pair.0, pair.1, e, refl)) (λ _. Moves.pure _ _)
