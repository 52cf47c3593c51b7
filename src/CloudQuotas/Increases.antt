-- ===== src/CloudQuotas/Increases.antt =====
-- When a quota is asked to be increased.
use model_fleet_operator.Prelude.{
  String, ◌≡◌, refl, ap, ◌∙◌, eq_iff, Bool, true, false, Option, none, some, List, [], ◌∷◌, All,
  ◌==◌, if◌then◌else◌, arith,
}
use model_fleet_operator.Python.Value.{Value}
use model_fleet_operator.Python.Library.{Library}
use model_fleet_operator.Python.FloatText.{Number}
use model_fleet_operator.Python.Compare.{number_of, number_le}
use model_fleet_operator.Python.Object.{item}
use model_fleet_operator.Python.Result.{Exception, Result, ok, err, quota_error, ◌>>=◌, >>=-eq-ok}
use model_fleet_operator.Kube.{State}
use model_fleet_operator.Kube.Moves as Moves
use model_fleet_operator.Kube.Moves.{Order, Moves}
use model_fleet_operator.Slack.Quota.{QuotaCommand}
use model_fleet_operator.CloudQuotas.{
  Cloud, Response, Outcome, already_pending, submitted, is_pending, first_pending, quota_value,
  requested_quotas, check_higher, submit_aws, submit_or_wait, aws_error, aws_reply, request_aws,
  region_of,
}
use model_fleet_operator.CloudQuotas.Gcp.{
  Preference, awaited, patched, existing_wait, url_of, preference_payload, patch_or_wait,
  submit_gcp, raise_for_status, gcp_reply, request_gcp, request,
}

-- What AWS answered before an increase is requested: the current value is not as high as the desired
-- one, and no earlier request is pending for as much.
pub record IsWanted (cloud : Cloud) (command : QuotaCommand) : Type 0 where
  pub asked : State
  pub answer : Value
  pub answered : (cloud.get_service_quota command.service command.quota asked).0 ≡ ok answer
  pub current : Value
  pub current_of : quota_value answer ≡ ok current
  pub amount : Number
  pub amount_of : number_of current ≡ ok amount
  pub higher : number_le command.desired_value amount ≡ false
  pub looked : State
  pub history : Value
  pub listed : (cloud.quota_history command.service command.quota looked).0 ≡ ok history
  pub requests : List Value
  pub requests_of : requested_quotas history ≡ ok requests
  pub none_pending : All (λ r. is_pending command.desired_value r ≡ ok false) requests

-- What Google Cloud answered: no preference is being reconciled for as much.
pub record IsOpen (lib : Library) (cloud : Cloud) (command : QuotaCommand) : Type 0 where
  pub asked : State
  pub existing : Response
  pub answered : (cloud.get_preference (url_of lib cloud command) asked).0 ≡ ok existing
  pub open_ : existing_wait command.desired_value existing ≡ ok none

found_none :
    (b : Bool) (request : Value) (rest : Result (Option Value))
    → (if b then ok (some request) else rest) ≡ ok none
    → (b ≡ false) × (rest ≡ ok none)
found_none true request rest h = absurd (ground arith)
found_none false request rest h = (refl, h)

first_pending-eq-none :
    (desired : Number) (requests : List Value)
    → first_pending desired requests ≡ ok none
    → All (λ r. is_pending desired r ≡ ok false) requests
unfolding first_pending
first_pending-eq-none desired [] h = tt
first_pending-eq-none desired (request ∷ requests) h =
    let (found, e, h1) = >>=-eq-ok (is_pending desired request) _ h in
    let (no_, rest) = found_none found request (first_pending desired requests) h1 in
    (rw (e, no_) refl, first_pending-eq-none desired requests rest)

passed :
    (b : Bool) (r : Result String) (e : String → Exception)
    → (if b then (r >>= λ text. err (e text)) else ok (tt {0})) ≡ ok tt
    → b ≡ false
passed true (ok text) e h = absurd (ground arith)
passed true (err raised) e h = absurd (ground arith)
passed false r e h = refl

higher_amount :
    (lib : Library) (cloud : Cloud) (command : QuotaCommand) (current : Value)
    → check_higher lib cloud command current ≡ ok tt
    → (n : Number) × (number_of current ≡ ok n) × (number_le command.desired_value n ≡ false)
unfolding check_higher
higher_amount lib cloud command current h =
    let (n, e, h1) = >>=-eq-ok (number_of current) _ h in (n, e, passed _ _ _ h1)

module _ (o : Order) (lib : Library) (cloud : Cloud) (command : QuotaCommand) where
  aws_error-Moves : (e : Exception) → Moves o (aws_error lib cloud e)
  aws_error-Moves (quota_error message) = Moves.raise o _
  aws_error-Moves e = Moves.raise o _

  aws_reply-Moves : (outcome : Outcome) → Moves o (aws_reply lib cloud command outcome)
  aws_reply-Moves (already_pending reply) = Moves.pure o reply
  aws_reply-Moves (submitted requested) = Moves.lift o _

  submit_or_wait-Moves :
      (pending : Option Value)
      → (pending ≡ none
          → Moves o (cloud.request_increase command.service command.quota command.desired_value))
      → Moves o (submit_or_wait lib cloud command pending)
  submit_or_wait-Moves (some pending) increase = Moves.lift o _
  submit_or_wait-Moves none increase =
      Moves.bind o _ _ (increase refl) λ answer.
        Moves.bind o _ _ (Moves.lift o (item answer "RequestedQuota")) (λ r. Moves.pure o _)

  submit_aws-Moves :
      Moves o (cloud.get_service_quota command.service command.quota)
      → Moves o (cloud.quota_history command.service command.quota)
      → (IsWanted cloud command
          → Moves o (cloud.request_increase command.service command.quota command.desired_value))
      → Moves o (submit_aws lib cloud command)
  unfolding submit_aws
  submit_aws-Moves get_ list_ increase = Moves.bind_known o _ _ get_ λ answer asked answered.
      Moves.bind_lift o (quota_value answer) _ λ current current_of.
        Moves.bind_lift o (check_higher lib cloud command current) _ λ _ above.
          Moves.bind_known o _ _ list_ λ history looked listed.
            Moves.bind_lift o (requested_quotas history) _ λ requests requests_of.
              Moves.bind_lift o (first_pending command.desired_value requests) _ λ pending found.
                submit_or_wait-Moves pending λ nothing.
                  let (n, amount_of, higher) = higher_amount lib cloud command current above in
                  increase (record {
                    asked = asked;
                    answer = answer;
                    answered = answered;
                    current = current;
                    current_of = current_of;
                    amount = n;
                    amount_of = amount_of;
                    higher = higher;
                    looked = looked;
                    history = history;
                    listed = listed;
                    requests = requests;
                    requests_of = requests_of;
                    none_pending =
                        first_pending-eq-none command.desired_value requests
                          (rw (nothing) at found);
                  })

  patch_or_wait-Moves :
      (waiting : Option Number)
      → (waiting ≡ none
          → Moves o (
              cloud.patch_preference
                (url_of lib cloud command)
                (preference_payload lib cloud command)))
      → Moves o (patch_or_wait lib cloud command waiting)
  patch_or_wait-Moves (some preferred) increase = Moves.pure o _
  patch_or_wait-Moves none increase = Moves.bind o _ _ (increase refl) λ response.
      Moves.bind o _ _ (Moves.lift o (raise_for_status response))
        (λ _. Moves.bind o _ _ (Moves.lift o response.json) (λ _. Moves.pure o _))

  gcp_reply-Moves : (preference : Preference) → Moves o (gcp_reply lib cloud command preference)
  gcp_reply-Moves (awaited preferred) = Moves.pure o _
  gcp_reply-Moves (patched result) = Moves.lift o _

  submit_gcp-Moves :
      Moves o (cloud.get_preference (url_of lib cloud command))
      → (IsOpen lib cloud command
          → Moves o (
              cloud.patch_preference
                (url_of lib cloud command)
                (preference_payload lib cloud command)))
      → Moves o (submit_gcp lib cloud command)
  unfolding submit_gcp
  submit_gcp-Moves get_ increase = Moves.bind_known o _ _ get_ λ existing asked answered.
      Moves.bind_lift o (existing_wait command.desired_value existing) _ λ waiting found.
        patch_or_wait-Moves waiting λ nothing. increase (record {
          asked = asked;
          existing = existing;
          answered = answered;
          open_ = found ∙ ap ok nothing;
        })

  -- A relation that the reading calls of the clouds respect is respected by a quota request, where the
  -- call that asks for an increase need only respect it in these cases: at AWS, the current value was
  -- read and the desired one is not at or below it, and no request that AWS lists is pending for as much;
  -- at Google Cloud, the preference was read and is not being reconciled for as much.
  pub request-IsWanted :
      Moves o (cloud.get_service_quota command.service command.quota)
      → Moves o (cloud.quota_history command.service command.quota)
      → (command.provider ≡ "aws"
          → IsWanted cloud command
          → Moves o (cloud.request_increase command.service command.quota command.desired_value))
      → Moves o cloud.transport
      → Moves o (cloud.get_preference (url_of lib cloud command))
      → (IsOpen lib cloud command
          → Moves o (
              cloud.patch_preference
                (url_of lib cloud command)
                (preference_payload lib cloud command)))
      → Moves o (request lib cloud command)
  unfolding request request_aws request_gcp
  request-IsWanted get_ list_ increase transport preference change =
      Moves.branch o (command.provider == "aws") _ _
        (λ aws_.
          Moves.branch o (region_of lib cloud command == "") _ _ (λ _. Moves.raise o _)
            (λ _.
              Moves.bind o _ _
                (Moves.try o _ _
                  (submit_aws-Moves get_ list_ (increase ((eq_iff command.provider "aws").0 aws_)))
                  aws_error-Moves)
                aws_reply-Moves))
        (λ _. Moves.bind o _ _ transport λ ready.
          Moves.bind o _ _
            (Moves.try o _ _ (submit_gcp-Moves preference change) (λ e. Moves.raise o _))
            gcp_reply-Moves)
