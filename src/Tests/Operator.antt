-- ===== src/Tests/Operator.antt =====
-- operator.py: the theorems at concrete inputs.
use model_fleet_operator.Kube.{call, lift}
use model_fleet_operator.Operator.Training.{check_dataset, resolve_reference, resolved_entry}
use model_fleet_operator.Python.Object.{contains, get_or}
use model_fleet_operator.Prelude.{All₂, refl, List, [], ◌∷◌, pos}
use model_fleet_operator.Python.Value.{Value, null, int, str, dict, list}
use model_fleet_operator.Python.Object.{get, item}
use model_fleet_operator.Python.Result.{ok, ok_or}
use model_fleet_operator.Kube.{Call, Oracle, State, Action, initial, update, read, reconciled, pure}
use model_fleet_operator.Kube.Moves.{Adds}
use model_fleet_operator.Operator.Inference.{reconcile_inference}
use model_fleet_operator.Operator.Inference.Ownership.{IsAbout, reconcile_inference-IsAbout}
use model_fleet_operator.Operator.Agents.{reconcile_agent_registration}
use model_fleet_operator.Operator.Agents.Safety.{
  IsConsented, reconcile_agent_registration-IsConsented,
}
use model_fleet_operator.Operator.Training.{resolve_all}
use model_fleet_operator.Operator.Training.Resolved.{IsResolved, resolve_all-IsResolved}
use model_fleet_operator.Tests.Samples.{plain_library, empty_cluster, chat}

reconcile_inference-IsAbout_example :
    Adds
      (IsAbout (str "models") (str "chat"))
      initial
      (reconcile_inference plain_library empty_cluster chat initial).1
unfolding item
reconcile_inference-IsAbout_example =
    reconcile_inference-IsAbout plain_library empty_cluster chat initial
      (record { in_namespace = refl; by_name = refl })

-- A Deployment that is annotated with the registration.
abbrev linked_cluster : Oracle
linked_cluster before (read resource namespace name) = ok (
    dict (
      (
        "metadata",
        dict (("annotations", dict (("fleet.sqe.io/agent-registration", str "helper") ∷ [])) ∷ []),
      )
      ∷ ("spec", dict (("replicas", int (pos 0)) ∷ []))
      ∷ ("status", dict (("readyReplicas", int (pos 0)) ∷ []))
      ∷ []))
linked_cluster before c = ok null

abbrev registration : Value
registration = dict (
    (
      "metadata",
      dict
          (("name", str "helper") ∷ ("namespace", str "agents") ∷ ("generation", int (pos 1)) ∷ []),
    )
    ∷ ("spec", dict (("runtime", dict (("deploymentName", str "helper-runtime") ∷ [])) ∷ []))
    ∷ [])

reconcile_agent_registration-IsConsented_example :
    Adds
      (IsConsented linked_cluster (str "helper"))
      initial
      (reconcile_agent_registration plain_library linked_cluster registration initial).1
unfolding item
reconcile_agent_registration-IsConsented_example =
    reconcile_agent_registration-IsConsented plain_library linked_cluster registration initial refl

abbrev dataset_cluster : Oracle
dataset_cluster before c = ok (
    dict (
      (
        "spec",
        dict (
            ("uri", str "s3://corpus")
            ∷ ("version", str "v2")
            ∷ ("format", str "parquet")
            ∷ ("allowedServiceAccounts", list (str "trainer" ∷ []))
            ∷ []),
      )
      ∷ []))

abbrev reference : Value
reference = dict (
    ("name", str "train")
    ∷ ("datasetRef", str "corpus")
    ∷ ("expectedVersion", str "v2")
    ∷ ("mountPath", str "/data")
    ∷ [])

abbrev resolved : List Value
resolved =
    ok_or []
      (resolve_all plain_library dataset_cluster (str "models") (str "trainer") (reference ∷ [])
        initial).0

resolve_all-IsResolved_example :
    All₂ (IsResolved dataset_cluster (str "models") (str "trainer")) (reference ∷ []) resolved
unfolding resolve_all model_fleet_operator.Kube.◌>>=◌ resolve_reference lift item call check_dataset
    get_or contains resolved_entry get pure
resolve_all-IsResolved_example =
    resolve_all-IsResolved plain_library dataset_cluster (str "models") (str "trainer")
      (reference ∷ []) initial refl
