-- ===== src/Permissions.antt =====
-- render_permissions.py: the files of a workload identity ruleset. The configuration is the decoded JSON
-- text; `dumps` and `dumps_indented` are `json.dumps(v)` and `json.dumps(v, indent=2)`. The files are
-- those of the output directory, and the file system does not fail.
pub mod Commands
use model_fleet_operator.Prelude.{
  String, Bool, true, false, not, ◌&&◌, ◌||◌, List, [], ◌∷◌, ◌++◌, map, any, all, ◌==◌,
  if◌then◌else◌,
}
use model_fleet_operator.Python.Value.{Value, null, str, arr, items, list, dict, nil}
use model_fleet_operator.Python.Text.{◌⧺◌, join}
use model_fleet_operator.Python.Object.{get, get_or, has_substring}
use model_fleet_operator.Python.Result.{Result, ok, err, ◌>>=◌, ◌>>◌, raise_if, value_error}
use model_fleet_operator.Python.Shlex.Quote.{shlex_quote}
use model_fleet_operator.Slack.Command.{one_of, is_resource_name}

abbrev pub Files : Type 0
Files = List (String × String)

abbrev pub refused : {A : Type 0} → (key problem : String) → Result A
refused key problem = err (value_error (key ⧺ problem))

abbrev required_value : (key : String) → Value → Result String
unfolding has_substring
required_value key (str value) =
    if value == "" || has_substring value "<" || has_substring value ">"
    then refused key " must be a non-placeholder string"
    else ok value
required_value key v = refused key " must be a non-placeholder string"

unfoldable pub required : (config : Value) → (key : String) → Result String
unfolding get has_substring required_value
required config key = get config key >>= required_value key

-- The items of a list that are all texts and not empty.
abbrev texts : (key : String) → List Value → Result (List String)
texts key [] = ok []
texts key (str s ∷ vs) =
    if s == ""
    then refused key " must be a list of non-empty strings"
    else texts key vs >>= λ rest. ok (s ∷ rest)
texts key (v ∷ vs) = refused key " must be a list of non-empty strings"

abbrev string_items : (key : String) → Value → Result (List String)
string_items key (arr vs) = texts key (items vs)
string_items key v = refused key " must be a list of non-empty strings"

unfoldable pub string_list : (config : Value) → (key : String) → Result (List String)
unfolding get_or
string_list config key = get_or config key (list []) >>= string_items key

abbrev is_empty : List String → Bool
is_empty [] = true
is_empty (s ∷ l) = false

abbrev annotation_lines : (dumps : Value → String) → List (String × String) → List String
annotation_lines dumps [] = []
annotation_lines dumps annotations =
    "  annotations:" ∷ map (λ a. "    " ⧺ a.0 ⧺ ": " ⧺ dumps (str a.1)) annotations

unfoldable pub service_account :
    (dumps : Value → String)
    → (namespace name : String) → (annotations : List (String × String)) → String
unfolding join
service_account dumps namespace name annotations =
    join "\n" (
      ("apiVersion: v1"
        ∷ "kind: ServiceAccount"
        ∷ "metadata:"
        ∷ ("  name: " ⧺ name)
        ∷ ("  namespace: " ⧺ namespace)
        ∷ [])
      ++ annotation_lines dumps annotations
      ++ "automountServiceAccountToken: false" ∷ [])
    ⧺ "\n"

abbrev pub strings : List String → Value
strings l = list (map str l)

-- A statement only where there is something to allow.
abbrev pub statement : (sid : String) → (actions resources : List String) → List Value
statement sid actions [] = []
statement sid actions resources =
    dict (
      ("Sid", str sid)
      ∷ ("Effect", str "Allow")
      ∷ ("Action", strings actions)
      ∷ ("Resource", strings resources)
      ∷ [])
    ∷ []

abbrev pub policy : (reads writes : List String) → Value
policy reads writes = dict (
    ("Version", str "2012-10-17")
    ∷ (
      "Statement",
      list (
          statement "ReadModelArtifacts" ("s3:GetObject" ∷ []) reads
          ++ statement "WriteRunArtifacts" ("s3:AbortMultipartUpload" ∷ "s3:PutObject" ∷ [])
              writes),
    )
    ∷ [])

abbrev apply_line : (output : String) → String
apply_line output = "kubectl apply -f " ⧺ output ⧺ "/service-account.yaml"

abbrev pub grant : (google_account role bucket : String) → String
unfolding shlex_quote
grant google_account role bucket =
    "gcloud storage buckets add-iam-policy-binding "
    ⧺ shlex_quote ("gs://" ⧺ bucket)
    ⧺ " --member="
    ⧺ shlex_quote ("serviceAccount:" ⧺ google_account)
    ⧺ " --role=roles/storage."
    ⧺ role

abbrev pub workload_binding : (project google_account namespace account : String) → String
unfolding shlex_quote
workload_binding project google_account namespace account =
    "gcloud iam service-accounts add-iam-policy-binding "
    ⧺ shlex_quote google_account
    ⧺ " --role=roles/iam.workloadIdentityUser --member="
    ⧺ shlex_quote ("serviceAccount:" ⧺ project ⧺ ".svc.id.goog[" ⧺ namespace ⧺ "/" ⧺ account ⧺ "]")

-- The commands of the list but the last.
unfoldable pub gcp_grants :
    (project google_account namespace account : String) → (reads writes : List String) → List String
unfolding grant workload_binding
gcp_grants project google_account namespace account reads writes =
    (workload_binding project google_account namespace account ∷ [])
    ++ map (grant google_account "objectViewer") reads
    ++ map (grant google_account "objectCreator") writes

-- The files that a profile writes, in order. Each profile reads its configuration first.
unfoldable pub render_aws :
    (dumps dumps_indented : Value → String)
    → (config : Value) → (output namespace account : String) → Result Files
unfolding required string_list service_account
render_aws dumps dumps_indented config output namespace account = do
  role_arn ← required config "roleArn"
  reads ← string_list config "readResources"
  writes ← string_list config "writeResources"
  raise_if (is_empty reads && is_empty writes)
      (value_error "AWS ruleset needs at least one readResources or writeResources ARN")
  ok (
      (
        "service-account.yaml",
        service_account dumps namespace account (("eks.amazonaws.com/role-arn", role_arn) ∷ []),
      )
      ∷ ("aws-policy.json", dumps_indented (policy reads writes) ⧺ "\n")
      ∷ (
        "NEXT_STEPS.txt",
        "Attach aws-policy.json to the configured role, configure its EKS Pod Identity or IRSA trust, then run:\n"
            ⧺ apply_line output
            ⧺ "\n",
      )
      ∷ [])

unfoldable pub render_gcp :
    (dumps : Value → String) → (config : Value) → (output namespace account : String) → Result Files
unfolding required string_list service_account gcp_grants join
render_gcp dumps config output namespace account = do
  project ← required config "projectId"
  google_account ← required config "googleServiceAccount"
  reads ← string_list config "readBuckets"
  writes ← string_list config "writeBuckets"
  raise_if (is_empty reads && is_empty writes)
      (value_error "GCP ruleset needs at least one readBuckets or writeBuckets entry")
  ok (
      (
        "service-account.yaml",
        service_account dumps namespace account
            (("iam.gke.io/gcp-service-account", google_account) ∷ []),
      )
      ∷ (
        "NEXT_STEPS.txt",
        join "\n" (
              gcp_grants project google_account namespace account reads writes
              ++ apply_line output ∷ [])
            ⧺ "\n",
      )
      ∷ [])

unfoldable pub render_bare_metal :
    (dumps : Value → String) → (output namespace account : String) → Result Files
unfolding service_account
render_bare_metal dumps output namespace account = ok (
    ("service-account.yaml", service_account dumps namespace account [])
    ∷ (
      "NEXT_STEPS.txt",
      apply_line output
          ⧺ "\nUse spec.serviceAccountName: "
          ⧺ account
          ⧺ " in workloads that need this identity.\n",
    )
    ∷ [])

abbrev generated_files : List String
generated_files =
    "aws-policy.json" ∷ "gcp-role.yaml" ∷ "NEXT_STEPS.txt" ∷ "service-account.yaml" ∷ []

-- What an earlier run has generated is removed.
abbrev pub unlinked : Files → Files
unlinked [] = []
unlinked (file ∷ files) =
    let rest = unlinked files in if one_of file.0 generated_files then rest else file ∷ rest

-- The profile, the namespace and the service account.
unfoldable pub identity : (config : Value) → Result (String × String × String)
unfolding required is_resource_name
identity config = do
  profile ← required config "profile"
  raise_if (not (one_of profile ("aws" ∷ "bare-metal" ∷ "gcp" ∷ [])))
      (value_error "profile must be one of: aws, bare-metal, gcp")
  namespace ← required config "namespace"
  account ← required config "serviceAccount"
  raise_if (not (is_resource_name namespace) || not (is_resource_name account))
      (value_error "namespace and serviceAccount must be Kubernetes DNS labels")
  ok (profile, namespace, account)

abbrev written : Result Files → Files → Result (Unit {0}) × Files
written (err e) files = (err e, files)
written (ok new) files = (ok tt, new ++ files)

module _ (dumps dumps_indented : Value → String) (config : Value) (output : String) where
  unfoldable pub of_profile : String × String × String → Result Files
  unfolding render_aws render_gcp render_bare_metal
  of_profile (profile, namespace, account) =
      if profile == "aws"
      then render_aws dumps dumps_indented config output namespace account
      else if profile == "gcp"
      then render_gcp dumps config output namespace account
      else render_bare_metal dumps output namespace account

  abbrev pub identified : Result (String × String × String) → Files → Result (Unit {0}) × Files
  unfolding of_profile
  identified (err e) files = (err e, files)
  identified (ok who) files = written (of_profile who) (unlinked files)

  unfoldable pub render : Files → Result (Unit {0}) × Files
  unfolding identity identified
  render files = identified (identity config) files
