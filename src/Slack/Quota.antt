-- ===== src/Slack/Quota.antt =====
-- cloud_quotas.py: `parse_quota_command`.
pub mod Requests
use Prim.Native.Char.{Char, code}
use Prim.Native.String
use model_fleet_operator.Prelude.{
  ℕ, String, Bool, true, false, not, ◌&&◌, ◌||◌, Option, none, some, List, [], ◌∷◌, ◌++◌, eqb, leb,
  ltb, ◌==◌, if◌then◌else◌, length,
}
use Prim.Native.String.{compare}
use Prim.Native.Nat.{Ordering}
use model_fleet_operator.Python.Text.{◌⧺◌, all_chars, lower, cut}
use model_fleet_operator.Python.Digits.{is_any_digit}
use model_fleet_operator.Python.Double.{Double, fin, inf}
use model_fleet_operator.Python.FloatText.{Number, nan, number, to_float}
use model_fleet_operator.Python.Result.{
  Result, ok, err, ◌>>=◌, ◌>>◌, raise_if, value_error, require,
}

pub record QuotaCommand : Type 0 where
  pub provider : String
  pub service : String
  pub quota : String
  pub desired_value : Number
  pub scope : String
  pub dimensions : List (String × String)
  pub confirmed : Bool

-- `bool(parts and parts[-1].lower() == "confirm")`
unfoldable pub ends_confirmed : List String → Bool
unfolding lower
ends_confirmed [] = false
ends_confirmed (p ∷ []) = lower p == "confirm"
ends_confirmed (p ∷ q ∷ ps) = ends_confirmed (q ∷ ps)

-- `parts[:-1]`
unfoldable pub without_last : List String → List String
without_last [] = []
without_last (p ∷ []) = []
without_last (p ∷ q ∷ ps) = p ∷ without_last (q ∷ ps)

-- `parts[1:]`
abbrev pub rest_of : List String → List String
rest_of [] = []
rest_of (p ∷ ps) = ps

unfoldable pub desired : String → Result Number
desired text = require (to_float text) (value_error "desired quota value must be a number")

abbrev pub aws_usage : String
aws_usage = "usage: quota aws <service-code> <quota-code> <desired-value> [region] confirm"

abbrev pub aws_command : String → String → Number → String → Bool → QuotaCommand
aws_command service quota value region confirmed = record {
  provider = "aws";
  service = service;
  quota = quota;
  desired_value = value;
  scope = region;
  dimensions = [];
  confirmed = confirmed;
}

-- The arguments behind the provider.
unfoldable pub aws_quota : Bool → List String → Result QuotaCommand
unfolding desired
aws_quota confirmed (service ∷ quota ∷ value ∷ []) = do
  n ← desired value
  ok (aws_command service quota n "" confirmed)
aws_quota confirmed (service ∷ quota ∷ value ∷ region ∷ []) = do
  n ← desired value
  ok (aws_command service quota n region confirmed)
aws_quota confirmed arguments = err (value_error aws_usage)

-- `item.partition("=")` with both sides present
abbrev pub whole_pair : Option (String × String) → Result (String × String)
whole_pair none = err (value_error "GCP dimensions must use key=value")
whole_pair (some (key, value)) =
    if key == "" || value == ""
    then err (value_error "GCP dimensions must use key=value")
    else ok (key, value)

unfoldable pub parse_dimensions : List String → Result (List (String × String))
unfolding cut
parse_dimensions [] = ok []
parse_dimensions (item ∷ items) = do
  pair ← whole_pair (cut b'=' item)
  rest ← parse_dimensions items
  ok (pair ∷ rest)

-- The order of pairs of texts.
abbrev pair_le : String × String → String × String → Bool
pair_le (a, b) (c, d) = elim (compare a c) [
  | Ordering.lt ↦ true
  | Ordering.gt ↦ false
  | Ordering.eq ↦ elim (compare b d) [ Ordering.gt ↦ false | _ ↦ true ]
]

insert_pair : String × String → List (String × String) → List (String × String)
insert_pair p [] = p ∷ []
insert_pair p (q ∷ qs) = if pair_le p q then p ∷ q ∷ qs else q ∷ insert_pair p qs

-- `sorted(parsed_dimensions)`
unfoldable pub sort_pairs : List (String × String) → List (String × String)
unfolding insert_pair
sort_pairs [] = []
sort_pairs (p ∷ ps) = insert_pair p (sort_pairs ps)

-- `scope.isdigit()`: digits of any script, superscripts too.
unfoldable pub all_digits : String → Bool
unfolding is_any_digit
all_digits s = not (s == "") && all_chars is_any_digit s

unfoldable pub gcp_quota : Bool → List String → Result QuotaCommand
unfolding desired parse_dimensions sort_pairs all_digits
gcp_quota confirmed (scope ∷ service ∷ quota ∷ value ∷ items) = do
  raise_if (not (all_digits scope))
      (value_error "GCP quota requests require the numeric project number")
  n ← desired value
  pairs ← parse_dimensions items
  ok (record {
    provider = "gcp";
    service = service;
    quota = quota;
    desired_value = n;
    scope = scope;
    dimensions = sort_pairs pairs;
    confirmed = confirmed;
  })
gcp_quota confirmed arguments = err (
    value_error (
      "usage: quota gcp <project-number> <service> <quota-id> <desired-value> [key=value ...] "
      ⧺ "confirm"))

-- `desired_value <= 0`: no comparison with NaN holds.
unfoldable pub not_positive : Number → Bool
not_positive nan = false
not_positive (number true d) = true
not_positive (number false (fin n)) = eqb n 0
not_positive (number false inf) = false

unfoldable pub by_provider : Bool → List String → Result QuotaCommand
unfolding aws_quota gcp_quota lower
by_provider confirmed [] = err (value_error "usage: quota <aws|gcp> ... confirm")
by_provider confirmed (provider ∷ arguments) =
    if lower provider == "aws"
    then aws_quota confirmed arguments
    else if lower provider == "gcp"
    then gcp_quota confirmed arguments
    else err (value_error "usage: quota <aws|gcp> ... confirm")

unfoldable pub parse_quota_command : List String → Result QuotaCommand
unfolding by_provider ends_confirmed without_last
parse_quota_command parts = do
  let confirmed = ends_confirmed parts
  let arguments = rest_of (if confirmed then without_last parts else parts)
  command ← by_provider confirmed arguments
  raise_if (not_positive command.desired_value) (value_error "desired quota value must be positive")
  ok command
