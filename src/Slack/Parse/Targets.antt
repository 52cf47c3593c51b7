-- ===== src/Slack/Parse/Targets.antt =====
-- What a parsed workload command is.
use model_fleet_operator.Prelude.{
  String, eq_iff, ◌≡◌, refl, subst, ◌⊎◌, inl, inr, Bool, true, false, not, ◌&&◌, ◌||◌, Option, none,
  some, List, [], ◌∷◌, ◌==◌, arith, if◌then◌else◌,
}
use model_fleet_operator.Python.Text.{lower, strip}
use model_fleet_operator.Python.Result.{
  Exception, Result, ok, err, ◌>>=◌, raise_if, value_error, >>=-eq-ok, raise_if-eq-ok, ok-injective,
  Returns, branch-Returns, ok-Returns,
}
use model_fleet_operator.Python.Shlex.{shlex_split}
use model_fleet_operator.Slack.Command.{
  Command, plain, one_of, is_resource_name, is_skill, without_mentions,
}
use model_fleet_operator.Slack.Quota.{QuotaCommand, parse_quota_command}
use model_fleet_operator.Slack.Parse.{
  Parsed, fleet, agent, quota, kind_of, with_kind, check_verb, target_of, target_command,
  workload_command, run_command, parse_parts, parse_command, parts_or_raise,
}
use model_fleet_operator.Kafka.{valid_verbs, valid_kinds}

abbrev pub reading : List String
reading = "help" ∷ "status" ∷ "cost" ∷ "snapshot" ∷ []

-- A command on a Kubernetes resource, of a kind and with a verb of the program: to pause, to resume and to
-- cancel is for training runs only, and an agent can only be woken and put to sleep.
pub record IsTarget (c : Command) : Type 0 where
  pub namespace : String
  pub name : String
  pub has_namespace : c.namespace ≡ some namespace
  pub has_name : c.name ≡ some name
  pub namespace_nonempty : (namespace == "") ≡ false
  pub name_valid : is_resource_name name ≡ true
  pub verb_valid : one_of c.verb valid_verbs ≡ true
  pub kind_valid : one_of c.kind valid_kinds ≡ true
  pub training_only :
      one_of c.verb ("pause" ∷ "resume" ∷ "cancel" ∷ []) ≡ true → c.kind ≡ "training"
  pub agent_only : c.kind ≡ "agent" → (c.verb ≡ "wake") ⊎ (c.verb ≡ "sleep")

abbrev pub IsParsed : Parsed → Type 0
IsParsed (fleet c) = (one_of c.verb reading ≡ true) ⊎ IsTarget c
IsParsed (agent c) = is_skill c.skill ≡ true
IsParsed (quota c) = Unit

kind_valid_of :
    (training_ agent_ : Bool) (p : String) (ps : List String)
    → one_of
        (with_kind p ps
          (if training_ then some "training" else if agent_ then some "agent" else none)).0
        valid_kinds
      ≡ true
kind_valid_of true b p ps = refl
kind_valid_of false true p ps = refl
kind_valid_of false false p ps = refl

kind_of-valid : (parts : List String) → one_of (kind_of parts).0 valid_kinds ≡ true
unfolding kind_of
kind_of-valid [] = refl
kind_of-valid (p ∷ ps) =
    kind_valid_of (one_of (lower p) ("training" ∷ "train" ∷ []))
      (one_of (lower p) ("agent" ∷ "agents" ∷ [])) p ps

guard_true : (b : Bool) (e : Exception) → raise_if (not b) e ≡ ok tt → b ≡ true
guard_true true e h = refl
guard_true false e h = cc

check_verb-valid :
    (verb kind : String) → check_verb verb kind ≡ ok tt → one_of verb valid_verbs ≡ true
unfolding check_verb
check_verb-valid verb kind h =
    let (t1, h1) =
      raise_if-eq-ok (one_of verb ("pause" ∷ "resume" ∷ "cancel" ∷ []) && not (kind == "training"))
        _ _ h in
    let (t2, h2) =
      raise_if-eq-ok (kind == "agent" && not (one_of verb ("wake" ∷ "sleep" ∷ []))) _ _ h1 in
    guard_true (one_of verb valid_verbs) _ h2

runs_only :
    (stops training_ : Bool) → (stops && not training_) ≡ false → stops ≡ true → training_ ≡ true
runs_only true true h e = refl
runs_only true false h e = absurd (ground arith)
runs_only false b h e = absurd (ground arith)

check_verb-training :
    (verb kind : String)
    → check_verb verb kind ≡ ok tt
    → one_of verb ("pause" ∷ "resume" ∷ "cancel" ∷ []) ≡ true
    → kind ≡ "training"
unfolding check_verb
check_verb-training verb kind h stops =
    let (t, _) =
      raise_if-eq-ok (one_of verb ("pause" ∷ "resume" ∷ "cancel" ∷ []) && not (kind == "training"))
        _ _ h in
    (eq_iff kind "training").0 (runs_only _ (kind == "training") t stops)

either_of : (a b : Bool) → (a || (b || false)) ≡ true → (a ≡ true) ⊎ (b ≡ true)
either_of true b h = inl refl
either_of false true h = inr refl
either_of false false h = absurd (ground arith)

check_verb-agent :
    (verb kind : String)
    → check_verb verb kind ≡ ok tt
    → kind ≡ "agent"
    → (verb ≡ "wake") ⊎ (verb ≡ "sleep")
unfolding check_verb
check_verb-agent verb kind h e =
    let (_, h1) =
      raise_if-eq-ok (one_of verb ("pause" ∷ "resume" ∷ "cancel" ∷ []) && not (kind == "training"))
        _ _ h in
    let (t, _) =
      raise_if-eq-ok (kind == "agent" && not (one_of verb ("wake" ∷ "sleep" ∷ []))) _ _ h1 in
    let admitted = runs_only (kind == "agent") _ t ((eq_iff kind "agent").1 e) in
    elim (either_of (verb == "wake") (verb == "sleep") admitted) [
      | inl w ↦ inl ((eq_iff verb "wake").0 w)
      | inr s ↦ inr ((eq_iff verb "sleep").0 s)
    ]

bad_target : (a b c : Bool) → (a || b || not c) ≡ false → (a ≡ false) × (c ≡ true)
bad_target false false true h = (refl, refl)
bad_target a b c h = absurd (ground arith)

target_command-IsTarget :
    (verb kind default_namespace : String) (parts : List String) (p : Parsed)
    → one_of kind valid_kinds ≡ true
    → check_verb verb kind ≡ ok tt
    → target_command verb kind default_namespace parts ≡ ok p
    → IsParsed p
unfolding target_command
target_command-IsTarget verb kind default_namespace [] p hk hv h = absurd (ground arith)
target_command-IsTarget verb kind default_namespace (word ∷ rest) p hk hv h =
    let target = target_of default_namespace word in
    let (t, h1) =
      raise_if-eq-ok (target.0 == "" || target.1 == "" || not (is_resource_name target.1)) _ _ h in
    let (n, m) = bad_target (target.0 == "") (target.1 == "") (is_resource_name target.1) t in
    subst IsParsed (ok-injective h1) (
      inr (record {
        namespace = target.0;
        name = target.1;
        has_namespace = refl;
        has_name = refl;
        namespace_nonempty = n;
        name_valid = m;
        verb_valid = check_verb-valid verb kind hv;
        kind_valid = hk;
        training_only = check_verb-training verb kind hv;
        agent_only = check_verb-agent verb kind hv;
      }))

run_by :
    (valid : Bool) (skill prompt : String) (p : Parsed)
    → (if valid
        then ok (agent (record { skill = skill; prompt = prompt }))
        else err
            (value_error "skill must use lowercase letters, numbers, dots, dashes, or underscores"))
      ≡ ok p
    → is_skill skill ≡ valid
    → IsParsed p
run_by true skill prompt p h e = subst IsParsed (ok-injective h) e
run_by false skill prompt p h e = cc

run_command-IsParsed : (words : List String) (p : Parsed) → run_command words ≡ ok p → IsParsed p
unfolding run_command
run_command-IsParsed [] p h = absurd (ground arith)
run_command-IsParsed (skill ∷ []) p h = absurd (ground arith)
run_command-IsParsed (skill ∷ word ∷ words) p h = run_by (is_skill skill) skill _ p h refl

workload_command-IsParsed :
    (verb default_namespace : String) (parts : List String) (p : Parsed)
    → workload_command verb default_namespace parts ≡ ok p
    → IsParsed p
unfolding workload_command
workload_command-IsParsed verb default_namespace parts p h =
    let (kind, rest) = kind_of parts in
    let (u, e, h1) = >>=-eq-ok (check_verb verb (kind_of parts).0) _ h in
    target_command-IsTarget verb (kind_of parts).0 default_namespace (kind_of parts).1 p
      (kind_of-valid parts) e h1

quota_of : (r : Result QuotaCommand) → Returns IsParsed (r >>= λ command. ok (quota command))
quota_of (ok command) = ok-Returns IsParsed (quota command) tt
quota_of (err e) = record { at = λ p h. cc }

plain-IsParsed :
    (verb : String) (namespace : Option String)
    → one_of verb reading ≡ true
    → Returns IsParsed (ok (fleet (plain verb namespace)))
plain-IsParsed verb namespace h = ok-Returns IsParsed _ (inl h)

parse_parts-IsParsed :
    (default_namespace : String) (parts : List String)
    → Returns IsParsed (parse_parts default_namespace parts)
unfolding parse_parts
parse_parts-IsParsed default_namespace [] = plain-IsParsed "help" none refl
parse_parts-IsParsed default_namespace (word ∷ parts) =
    branch-Returns IsParsed _ _ _ (plain-IsParsed "help" none refl) (
      branch-Returns IsParsed _ _ _ (plain-IsParsed "status" _ refl) (
        branch-Returns IsParsed _ _ _ (plain-IsParsed "cost" _ refl) (
          branch-Returns IsParsed _ _ _ (plain-IsParsed "snapshot" _ refl) (
            branch-Returns IsParsed _ _ _ (quota_of (parse_quota_command (word ∷ parts))) (
              branch-Returns IsParsed _ _ _ (record { at = run_command-IsParsed parts })
                (record {
                  at = workload_command-IsParsed (lower word) default_namespace parts;
                }))))))

pub parse_command-IsParsed :
    (text default_namespace : String) (p : Parsed)
    → parse_command text default_namespace ≡ ok p
    → IsParsed p
unfolding parse_command
parse_command-IsParsed text default_namespace p h =
    let (parts, e, h1) =
      >>=-eq-ok (parts_or_raise (shlex_split (strip (without_mentions text)))) _ h in
    (parse_parts-IsParsed default_namespace parts).at p h1

-- A workload command that is parsed from a message is a command that only reads, or has a nonempty
-- namespace, a name that is a Kubernetes resource name, and a verb and a kind of the program, where to
-- pause, to resume and to cancel is for training runs only and an agent is only woken or put to sleep.
pub parse_command-IsTarget :
    (text default_namespace : String) (c : Command)
    → parse_command text default_namespace ≡ ok (fleet c)
    → (one_of c.verb reading ≡ true) ⊎ IsTarget c
parse_command-IsTarget text default_namespace c h =
    parse_command-IsParsed text default_namespace (fleet c) h
