-- ===== src/Slack/Home/Buttons.antt =====
-- What the buttons of the home view do when they are pressed: their values are read by `parse_command`.
use Prim.Native.String.append
use text.Mathlib.TextLemmas.{append_assoc}
use model_fleet_operator.Prelude.{
  All₂, String, ◌≡◌, refl, sym, ap, ◌∙◌, inl, inr, Bool, true, false, not, Bool-cases, Option, none,
  some, List, [], ◌∷◌, eqb, ◌==◌, eq_iff, arith,
}
use model_fleet_operator.Python.Text.{◌⧺◌, join, lower, cut}
use model_fleet_operator.Python.Text.Plain.{
  all_chars_weaken, all_chars_append, IsNonempty, IsNonempty-append, IsNonempty-eq_empty,
  lower_no_capital, is_no_capital, cut_slash,
}
use model_fleet_operator.Python.Value.{Value, str, at, find}
use model_fleet_operator.Python.Result.{ok}
use model_fleet_operator.Slack.Command.{Command, is_resource_name}
use model_fleet_operator.Slack.Command.Names.{is_label_char, is_resource_name-label}
use model_fleet_operator.Slack.Parse.{
  fleet, kind_word, with_kind, kind_of, check_verb, target_of, has_confirm, target_command,
  workload_command, parse_parts, parse_command,
}
use model_fleet_operator.Slack.Parse.Words.{is_target_char, IsTargetWord, parse_command-join}
use model_fleet_operator.Slack.Status.{Row}
use model_fleet_operator.Slack.Home.{buttons, target, wake_value, auto_value, sleep_value}

-- A row whose namespace and name are Kubernetes names without dots.
pub record IsNamed (row : Row) : Type 0 where
  pub namespace_valid : is_resource_name row.namespace ≡ true
  pub name_valid : is_resource_name row.name ≡ true

resource_name-IsNonempty : (s : String) → is_resource_name s ≡ true → IsNonempty s
unfolding is_resource_name
resource_name-IsNonempty String.[] h = absurd (ground arith)
resource_name-IsNonempty (String.◌∷◌ c s) h = tt

label-target : (c : _) → is_label_char c ≡ true → is_target_char c ≡ true
label-target c h = ground arith

label-no_slash : (c : _) → is_label_char c ≡ true → not (eqb c b'/') ≡ true
label-no_slash c h = ground arith

target-no_capital : (c : _) → is_target_char c ≡ true → is_no_capital c ≡ true
target-no_capital c h = ground arith

is_none : Option (String × String) → Bool
is_none none = true
is_none (some p) = false

absurd_cut :
    (t s : String) (p : String × String) → cut b'/' t ≡ some p → cut b'/' s ≡ none → t ≡ s → ⊥
unfolding is_none
absurd_cut t s p h k e =
    let bad = sym (ap is_none h) ∙ ap (λ x. is_none (cut b'/' x)) e ∙ ap is_none k in
    absurd (ground arith)

not_word :
    (t s : String) (p : String × String)
    → cut b'/' t ≡ some p
    → cut b'/' s ≡ none
    → (t == s) ≡ false
not_word t s p h k = elim (Bool-cases (t == s)) [
  | inl same ↦ absurd (absurd_cut t s p h k ((eq_iff t s).0 same))
  | inr other ↦ other
]

-- The command on the row's resource.
abbrev pub commanded : Row → (verb kind : String) → Bool → Command
commanded row verb kind confirmed = record {
  verb = verb;
  kind = kind;
  namespace = some row.namespace;
  name = some row.name;
  confirmed = confirmed;
}

-- A button that shows the label and sends a text that is parsed as the command, whatever the default
-- namespace.
abbrev pub Sends : (default_namespace : String) → String × Command → Value → Type 0
Sends default_namespace (label, command) button =
    (at ("text" ∷ "text" ∷ []) button ≡ some (str label))
    × (text : String) × (at ("value" ∷ []) button ≡ some (str text))
    × (parse_command text default_namespace ≡ ok (fleet command))

-- The buttons of an inference service and of an agent, in order.
abbrev pub service_buttons : Row → List (String × Command)
service_buttons row =
    ("Wake", commanded row "wake" "inference" false)
    ∷ ("Auto", commanded row "auto" "inference" false)
    ∷ ("Sleep", commanded row "sleep" "inference" true)
    ∷ []

abbrev pub agent_buttons : Row → List (String × Command)
agent_buttons row =
    ("Wake", commanded row "wake" "agent" false)
    ∷ ("Sleep", commanded row "sleep" "agent" true)
    ∷ []

module _ (row : Row) (named : IsNamed row) where
  target-cut : cut b'/' (target row) ≡ some (row.namespace, row.name)
  target-cut = cut_slash row.namespace row.name (
      all_chars_weaken is_label_char _ row.namespace label-no_slash
        (is_resource_name-label row.namespace named.namespace_valid))

  target-IsTargetWord : IsTargetWord (target row)
  target-IsTargetWord = (
    IsNonempty-append row.namespace _
        (IsNonempty-append "/" _ (resource_name-IsNonempty row.name named.name_valid)),
    all_chars_append is_target_char row.namespace _
        (all_chars_weaken is_label_char _ row.namespace label-target
          (is_resource_name-label row.namespace named.namespace_valid))
        (all_chars_append is_target_char "/" row.name refl (
          all_chars_weaken is_label_char _ row.name label-target
            (is_resource_name-label row.name named.name_valid))),
  )

  target-lower : lower (target row) ≡ target row
  target-lower =
      lower_no_capital (target row)
        (all_chars_weaken is_target_char _ (target row) target-no_capital target-IsTargetWord.1)

  target-kind_word : kind_word (lower (target row)) ≡ none
  unfolding cut
  target-kind_word =
      let p : String × String = (row.namespace, row.name) in
      ap kind_word target-lower
      ∙ (rw
          (
            not_word (target row) "training" p target-cut refl,
            not_word (target row) "train" p target-cut refl,
            not_word (target row) "agent" p target-cut refl,
            not_word (target row) "agents" p target-cut refl,
          )
          refl)

  target-kind_of :
      (rest : List String) → kind_of (target row ∷ rest) ≡ ("inference", target row ∷ rest)
  unfolding kind_of
  target-kind_of rest = ap (with_kind (target row) rest) target-kind_word

  target-commanded :
      (verb kind default_namespace : String) (rest : List String)
      → target_command verb kind default_namespace (target row ∷ rest)
        ≡ ok (fleet (commanded row verb kind (has_confirm rest)))
  unfolding target_command target_of
  target-commanded verb kind default_namespace rest =
      rw
        (
          target-cut,
          IsNonempty-eq_empty row.namespace
              (resource_name-IsNonempty row.namespace named.namespace_valid),
          IsNonempty-eq_empty row.name (resource_name-IsNonempty row.name named.name_valid),
          named.name_valid,
        )
        refl

  -- A verb and a target, and what follows it.
  inference_parts :
      (verb default_namespace : String) (rest : List String)
      → check_verb verb "inference" ≡ ok tt
      → workload_command verb default_namespace (target row ∷ rest)
        ≡ ok (fleet (commanded row verb "inference" (has_confirm rest)))
  unfolding workload_command
  inference_parts verb default_namespace rest h =
      rw (target-kind_of rest, h) (target-commanded verb "inference" default_namespace rest)

  agent_parts :
      (verb default_namespace : String) (rest : List String)
      → check_verb verb "agent" ≡ ok tt
      → workload_command verb default_namespace ("agent" ∷ target row ∷ rest)
        ≡ ok (fleet (commanded row verb "agent" (has_confirm rest)))
  unfolding workload_command kind_of lower
  agent_parts verb default_namespace rest h =
      rw (h) (target-commanded verb "agent" default_namespace rest)

  -- What the values of the buttons are read as.
  values-eq_commanded :
      (default_namespace : String)
      → (parse_command (wake_value "inference" (target row)) default_namespace
          ≡ ok (fleet (commanded row "wake" "inference" false)))
        × (parse_command (auto_value (target row)) default_namespace
            ≡ ok (fleet (commanded row "auto" "inference" false)))
        × (parse_command (sleep_value "inference" (target row)) default_namespace
            ≡ ok (fleet (commanded row "sleep" "inference" true)))
        × (parse_command (wake_value "agent" (target row)) default_namespace
            ≡ ok (fleet (commanded row "wake" "agent" false)))
        × (parse_command (sleep_value "agent" (target row)) default_namespace
            ≡ ok (fleet (commanded row "sleep" "agent" true)))
  unfolding parse_parts lower check_verb has_confirm join
  values-eq_commanded d =
      let w = target-IsTargetWord in
      let t = target row in
      (
        ap (λ x. parse_command ("wake" ⧺ x) d) (append.nil (" " ⧺ t))
            ∙ parse_command-join "wake" (t ∷ []) d (tt, refl) (w, tt)
            ∙ inference_parts "wake" d [] refl,
        ap (λ x. parse_command x d) (append_assoc "auto" " " t)
            ∙ parse_command-join "auto" (t ∷ []) d (tt, refl) (w, tt)
            ∙ inference_parts "auto" d [] refl,
        ap (λ x. parse_command ("sleep" ⧺ x) d) (append.nil (" " ⧺ t ⧺ " confirm"))
            ∙ parse_command-join "sleep" (t ∷ "confirm" ∷ []) d (tt, refl) (w, ((tt, refl), tt))
            ∙ inference_parts "sleep" d ("confirm" ∷ []) refl,
        ap (λ x. parse_command ("wake" ⧺ x) d) (append_assoc " " "agent" (" " ⧺ t))
            ∙ parse_command-join "wake" ("agent" ∷ t ∷ []) d (tt, refl) ((tt, refl), (w, tt))
            ∙ agent_parts "wake" d [] refl,
        ap (λ x. parse_command ("sleep" ⧺ x) d) (append_assoc " " "agent" (" " ⧺ t ⧺ " confirm"))
            ∙ parse_command-join "sleep" ("agent" ∷ t ∷ "confirm" ∷ []) d (tt, refl)
                ((tt, refl), (w, ((tt, refl), tt)))
            ∙ agent_parts "sleep" d ("confirm" ∷ []) refl,
      )

  -- Of a resource whose namespace and name are Kubernetes names without dots: the buttons of an inference
  -- service are labelled Wake, Auto and Sleep, those of an agent Wake and Sleep, and each sends a text that
  -- is parsed, whatever the default namespace, as the command of its label on that very resource, to put
  -- to sleep as a confirmed one.
  pub buttons-eq_commanded :
      (default_namespace : String)
      → All₂ (Sends default_namespace) (service_buttons row) (buttons "inference" (target row))
        × All₂ (Sends default_namespace) (agent_buttons row) (buttons "agent" (target row))
  unfolding buttons at find
  buttons-eq_commanded d =
      let (wake, auto, sleep, wake_agent, sleep_agent) = values-eq_commanded d in
      let t = target row in
      (
        (
          (refl, wake_value "inference" t, refl, wake),
          ((refl, auto_value t, refl, auto), ((refl, sleep_value "inference" t, refl, sleep), tt)),
        ),
        (
          (refl, wake_value "agent" t, refl, wake_agent),
          ((refl, sleep_value "agent" t, refl, sleep_agent), tt),
        ),
      )
