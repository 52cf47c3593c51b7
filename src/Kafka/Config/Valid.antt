-- ===== src/Kafka/Config/Valid.antt =====
-- What a configuration that is read from the environment satisfies.
use model_fleet_operator.Prelude.{
  ◌≤◌, String, Bool, true, false, not, ◌&&◌, ◌||◌, ◌≡◌, refl, sym, subst, ℤ, pos, negsuc, ◌==◌,
  eq_iff, eqb, List, [], ◌∷◌, length, any, if◌then◌else◌, arith,
}
use model_fleet_operator.Python.Result.{ok, >>=-eq-ok, raise_if-eq-ok, ok-injective, runtime_error}
use model_fleet_operator.Python.Text.{distinct}
use model_fleet_operator.Python.Number.{parse_int}
use model_fleet_operator.Kafka.Config.{
  Environment, KafkaConfig, from_env, config_of, is_invalid, at_least_one, getenv,
}

-- Three topics of which no two are the same.
abbrev pub Apart : (a b c : String) → Type 0
Apart a b c = (¬ (a ≡ b)) × (¬ (a ≡ c)) × (¬ (b ≡ c))

-- The worker tries at least once, and a transport that is enabled knows its servers, its group and
-- three different topics.
pub record IsValid (config : KafkaConfig) : Type 0 where
  pub tries : 1 ≤ config.max_attempts
  pub knows :
      config.enabled ≡ true
      → (¬ (config.bootstrap_servers ≡ ""))
        × (¬ (config.consumer_group ≡ ""))
        × Apart config.command_topic config.event_topic config.dlq_topic

at_least_one-ge-1 : (n : ℤ) → 1 ≤ at_least_one n
at_least_one-ge-1 (pos n) = ground arith
at_least_one-ge-1 (negsuc n) = omega arith

-- The first one is added to the others, or not.
added-few : (y : Bool) (a c : String) → ¬ (eqb (length (if y then c ∷ [] else a ∷ c ∷ [])) 3 ≡ true)
added-few true a c h = absurd (ground arith)
added-few false a c h = absurd (ground arith)

added-all :
    (y : Bool) (a b c : String)
    → eqb (length (if y then b ∷ c ∷ [] else a ∷ b ∷ c ∷ [])) 3 ≡ true
    → y ≡ false
added-all true a b c h = absurd (ground arith)
added-all false a b c h = refl

abbrev kept : (x : Bool) → (b c : String) → List String
kept x b c = if x then c ∷ [] else b ∷ c ∷ []

counted :
    (x : Bool) (a b c : String)
    → eqb (length (if any (λ v. v == a) (kept x b c) then kept x b c else a ∷ kept x b c)) 3 ≡ true
    → (x ≡ false) × (((b == a) || ((c == a) || false)) ≡ false)
counted true a b c h = absurd (added-few _ a c h)
counted false a b c h = (refl, added-all _ a b c h)

different : (s t : String) → (s == t) ≡ false → ¬ (t ≡ s)
different s t h e = let same = (eq_iff s t).1 (sym e) in absurd (ground arith)

both_false : (x y : Bool) → (x || (y || false)) ≡ false → (x ≡ false) × (y ≡ false)
both_false true y h = absurd (ground arith)
both_false false true h = absurd (ground arith)
both_false false false h = (refl, refl)

distinct-Apart : (a b c : String) → eqb (length (distinct (a ∷ b ∷ c ∷ []))) 3 ≡ true → Apart a b c
distinct-Apart a b c h =
    let (last, first) = counted ((c == b) || false) a b c h in
    let (ab, ac) = both_false (b == a) (c == a) first in
    let (bc, _) = both_false (c == b) false last in
    (different b a ab, different c a ac, different c b bc)

checked :
    (servers group topics : Bool)
    → (servers || group || not topics) ≡ false
    → (servers ≡ false) × (group ≡ false) × (topics ≡ true)
checked true group topics h = absurd (ground arith)
checked false true topics h = absurd (ground arith)
checked false false true h = (refl, refl, refl)
checked false false false h = absurd (ground arith)

guarded : (enabled wrong : Bool) → (enabled && wrong) ≡ false → enabled ≡ true → wrong ≡ false
guarded true wrong h e = h
guarded false wrong h e = absurd (ground arith)

not_empty : (s : String) → (s == "") ≡ false → ¬ (s ≡ "")
not_empty s h e = let same = (eq_iff s "").1 e in absurd (ground arith)

is_valid :
    (env : Environment) (n : ℤ) → is_invalid (config_of env n) ≡ false → IsValid (config_of env n)
unfolding config_of
is_valid env n h = record {
  tries = at_least_one-ge-1 n;
  knows = λ enabled.
      let config = config_of env n in
      let (servers, group, topics) =
        checked (config.bootstrap_servers == "") (config.consumer_group == "") _
          (guarded config.enabled _ h enabled) in
      (
        not_empty _ servers,
        not_empty _ group,
        distinct-Apart config.command_topic config.event_topic config.dlq_topic topics,
      );
}

-- A configuration that is read from the environment tries a command at least once; if the transport is
-- enabled, it names servers, a consumer group and three topics of which no two are the same.
pub from_env-IsValid :
    (env : Environment) (config : KafkaConfig) → from_env env ≡ ok config → IsValid config
unfolding from_env
from_env-IsValid env config h =
    let (n, read, rest) = >>=-eq-ok (parse_int (getenv env "KAFKA_MAX_ATTEMPTS" "3")) _ h in
    let (passed, returned) =
      raise_if-eq-ok (is_invalid (config_of env n))
        (runtime_error "invalid Model Fleet Kafka configuration") (λ _. ok (config_of env n))
        rest in
    subst IsValid (ok-injective returned) (is_valid env n passed)
