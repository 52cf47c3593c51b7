-- ===== src/Slack/Quota/Requests.antt =====
-- What a parsed quota command asks for.
use model_fleet_operator.Prelude.{
  not-false, String, ◌≡◌, refl, subst, ◌⊎◌, inl, inr, Bool, true, false, not, List, [], ◌∷◌, ◌<◌,
  arith, if◌then◌else◌,
}
use model_fleet_operator.Python.Double.{fin, inf}
use model_fleet_operator.Python.FloatText.{Number, nan, number}
use model_fleet_operator.Python.Result.{
  Exception, Result, ok, err, ◌>>=◌, >>=-eq-ok, raise_if-eq-ok, ok-injective, Returns,
  branch-Returns, ok-Returns,
}
use model_fleet_operator.Slack.Quota.{
  QuotaCommand, parse_quota_command, by_provider, aws_quota, aws_command, gcp_quota, desired,
  all_digits, ends_confirmed, without_last, rest_of, parse_dimensions, not_positive,
}

-- A positive number, or NaN.
abbrev pub IsPositiveOrNan : Number → Type 0
IsPositiveOrNan nan = Unit
IsPositiveOrNan (number minus (fin n)) = (minus ≡ false) × (0 < n)
IsPositiveOrNan (number minus inf) = minus ≡ false

-- The provider is known, a GCP project is a text of digits, and the confirmation is the given one.
abbrev pub IsRequest : Bool → QuotaCommand → Type 0
IsRequest confirmed c =
    ((c.provider ≡ "aws") ⊎ (c.provider ≡ "gcp") × (all_digits c.scope ≡ true))
    × (c.confirmed ≡ confirmed)

aws_of :
    (r : Result Number) (confirmed : Bool) (service quota region : String)
    → Returns (IsRequest confirmed) (r >>= λ n. ok (aws_command service quota n region confirmed))
aws_of (ok n) confirmed service quota region = ok-Returns (IsRequest confirmed) _ (inl refl, refl)
aws_of (err e) confirmed service quota region = record { at = λ c h. cc }

err-Returns : {A : Type 0} (P : A → Type 0) (e : Exception) → Returns P (err e)
err-Returns P e = record { at = λ c h. cc }

aws_quota-IsRequest :
    (confirmed : Bool) (arguments : List String)
    → Returns (IsRequest confirmed) (aws_quota confirmed arguments)
unfolding aws_quota
aws_quota-IsRequest confirmed [] = err-Returns _ _
aws_quota-IsRequest confirmed (a ∷ []) = err-Returns _ _
aws_quota-IsRequest confirmed (a ∷ b ∷ []) = err-Returns _ _
aws_quota-IsRequest confirmed (a ∷ b ∷ v ∷ []) = aws_of (desired v) confirmed a b ""
aws_quota-IsRequest confirmed (a ∷ b ∷ v ∷ r ∷ []) = aws_of (desired v) confirmed a b r
aws_quota-IsRequest confirmed (a ∷ b ∷ v ∷ r ∷ x ∷ xs) = err-Returns _ _

gcp_quota-IsRequest :
    (confirmed : Bool) (arguments : List String) (c : QuotaCommand)
    → gcp_quota confirmed arguments ≡ ok c
    → IsRequest confirmed c
unfolding gcp_quota
gcp_quota-IsRequest confirmed (scope ∷ service ∷ quota ∷ value ∷ items) c h =
    let (digits, h1) = raise_if-eq-ok (not (all_digits scope)) _ _ h in
    let (n, e2, h2) = >>=-eq-ok (desired value) _ h1 in
    let (pairs, e3, h3) = >>=-eq-ok (parse_dimensions items) _ h2 in
    subst (IsRequest confirmed) (ok-injective h3) (inr (refl, not-false _ digits), refl)
gcp_quota-IsRequest confirmed [] c h = absurd (ground arith)
gcp_quota-IsRequest confirmed (a ∷ []) c h = absurd (ground arith)
gcp_quota-IsRequest confirmed (a ∷ b ∷ []) c h = absurd (ground arith)
gcp_quota-IsRequest confirmed (a ∷ b ∷ d ∷ []) c h = absurd (ground arith)

by_provider-IsRequest :
    (confirmed : Bool) (arguments : List String)
    → Returns (IsRequest confirmed) (by_provider confirmed arguments)
unfolding by_provider
by_provider-IsRequest confirmed [] = err-Returns _ _
by_provider-IsRequest confirmed (provider ∷ arguments) =
    branch-Returns _ _ _ _ (aws_quota-IsRequest confirmed arguments) (
      branch-Returns _ _ _ _ (record { at = gcp_quota-IsRequest confirmed arguments })
        (err-Returns _ _))

positive_or_nan : (v : Number) → not_positive v ≡ false → IsPositiveOrNan v
unfolding not_positive
positive_or_nan nan h = tt
positive_or_nan (number true (fin n)) h = absurd (ground arith)
positive_or_nan (number true inf) h = absurd (ground arith)
positive_or_nan (number false (fin n)) h = (refl, ground arith)
positive_or_nan (number false inf) h = refl

-- A parsed quota command is confirmed exactly if the last word of the message is `confirm`, names a
-- known provider, for GCP a project that is a nonempty text of digits as `str.isdigit` knows them, and asks
-- for a value that is positive or NaN.
pub parse_quota_command-IsRequest :
    (parts : List String) (c : QuotaCommand)
    → parse_quota_command parts ≡ ok c
    → IsRequest (ends_confirmed parts) c × IsPositiveOrNan c.desired_value
unfolding parse_quota_command
parse_quota_command-IsRequest parts c h =
    let confirmed = ends_confirmed parts in
    let arguments = rest_of (if confirmed then without_last parts else parts) in
    let (command, e1, h1) = >>=-eq-ok (by_provider confirmed arguments) _ h in
    let (positive, h2) = raise_if-eq-ok (not_positive command.desired_value) _ _ h1 in
    let same_ = ok-injective h2 in
    (
      subst (IsRequest confirmed) same_ ((by_provider-IsRequest confirmed arguments).at command e1),
      subst (λ d. IsPositiveOrNan d.desired_value) same_
          (positive_or_nan command.desired_value positive),
    )
