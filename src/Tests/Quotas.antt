-- ===== src/Tests/Quotas.antt =====
-- cloud_quotas.py: runs, and the theorem at a concrete input.
use model_fleet_operator.Python.Digits.{is_any_digit}
use model_fleet_operator.Prelude.{◌≡◌, refl, true, ◌*◌, ◌^◌, [], ◌∷◌, pos, false}
use model_fleet_operator.Python.Value.{Fields, null, int, str, dict, list, fields, put}
use model_fleet_operator.Python.Double.{fin}
use model_fleet_operator.Python.FloatText.{number}
use model_fleet_operator.Python.Result.{ok}
use model_fleet_operator.Kube.{pure, call, post}
use model_fleet_operator.Kube.Moves as Moves
use model_fleet_operator.Kube.Moves.{adds, Moves}
use model_fleet_operator.Slack.Quota.{QuotaCommand, aws_command, all_digits}
use model_fleet_operator.CloudQuotas.{Cloud}
use model_fleet_operator.CloudQuotas.Gcp.{request, dimension_fields}
use model_fleet_operator.CloudQuotas.Increases.{IsWanted, request-IsWanted}
use model_fleet_operator.Tests.Samples.{plain_library, empty_cluster}

-- A cloud where the quota is 4 and no request was made.
abbrev cloud : Cloud
cloud = record {
  get_service_quota =
      λ service quota. pure (dict (("Quota", dict (("Value", int (pos 4)) ∷ [])) ∷ []));
  quota_history = λ service quota. pure (dict (("RequestedQuotas", list []) ∷ []));
  request_increase =
      λ service quota desired_value. call empty_cluster (post "increase" "" (str quota));
  transport = pure tt;
  get_preference = λ url. pure (record { status_code = 404; json = ok null });
  patch_preference = λ url payload. pure (record { status_code = 200; json = ok (dict []) });
  general = λ v. ok "4";
  general_float = λ n. "8";
  float_text = λ n. "8.0";
  describe = λ e. "";
  region = "eu-west-1";
  justification = "";
  contact_email = "";
}

abbrev eight_gpus : QuotaCommand
eight_gpus = aws_command "ec2" "L-1" (number false (fin (8 * 2 ^ 1074))) "" false

request-IsWanted_example :
    Moves (adds (λ made. IsWanted cloud eight_gpus)) (request plain_library cloud eight_gpus)
request-IsWanted_example =
    request-IsWanted (adds (λ made. IsWanted cloud eight_gpus)) plain_library cloud eight_gpus
      (Moves.pure _ _) (Moves.pure _ _) (λ _ wanted. Moves.call empty_cluster _ wanted)
      (Moves.pure _ _) (Moves.pure _ _) (λ _. Moves.pure _ _)

superscript_digits : all_digits "4²" ≡ true
unfolding all_digits is_any_digit
superscript_digits = refl

repeated_dimension :
    dimension_fields Fields.end (("region", "a") ∷ ("zone", "z") ∷ ("region", "b") ∷ [])
    ≡ fields (("region", str "b") ∷ ("zone", str "z") ∷ [])
unfolding put
repeated_dimension = refl
