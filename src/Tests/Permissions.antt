-- ===== src/Tests/Permissions.antt =====
-- render_permissions.py: a run, and the theorem at a concrete input.
use model_fleet_operator.Prelude.{String, ◌≡◌, refl, [], ◌∷◌, ◌++◌, map}
use model_fleet_operator.Python.Value.{Value, str, dict}
use model_fleet_operator.Python.Result.{ok, err, value_error}
use model_fleet_operator.Python.Shlex.{shlex_split}
use model_fleet_operator.Permissions.{gcp_grants, render}
use model_fleet_operator.Permissions.Commands.{binding_words, grant_words, gcp_grants-words}

abbrev dumps : Value → String
dumps v = "..."

abbrev bare_metal : Value
bare_metal = dict (
    ("profile", str "bare-metal")
    ∷ ("namespace", str "models")
    ∷ ("serviceAccount", str "trainer")
    ∷ [])

-- The files of an earlier run are replaced, and others are kept.
replaced_files :
    render dumps dumps bare_metal "out" (("aws-policy.json", "old") ∷ ("notes.txt", "mine") ∷ [])
    ≡ (
      ok tt,
      (
        "service-account.yaml",
        "apiVersion: v1\nkind: ServiceAccount\nmetadata:\n  name: trainer\n  namespace: models\nautomountServiceAccountToken: false\n",
      )
          ∷ (
            "NEXT_STEPS.txt",
            "kubectl apply -f out/service-account.yaml\nUse spec.serviceAccountName: trainer in workloads that need this identity.\n",
          )
          ∷ ("notes.txt", "mine")
          ∷ [],
    )
unfolding render
replaced_files = refl

-- Nothing is removed where the configuration names nobody.
refused_files :
    render dumps dumps
      (dict (("profile", str "gcp") ∷ ("namespace", str "<name>") ∷ []))
      "out"
      (("aws-policy.json", "old") ∷ [])
    ≡ (
      err (value_error "namespace must be a non-placeholder string"),
      ("aws-policy.json", "old") ∷ [],
    )
unfolding render
refused_files = refl

gcp_grants-words_example :
    map shlex_split (gcp_grants "p" "robot@p" "models" "trainer" ("it's; $(rm)" ∷ []) ("out" ∷ []))
    ≡ map ok (
        (binding_words "p" "robot@p" "models" "trainer" ∷ [])
        ++ map (grant_words "robot@p" "objectViewer") ("it's; $(rm)" ∷ [])
        ++ map (grant_words "robot@p" "objectCreator") ("out" ∷ []))
gcp_grants-words_example =
    gcp_grants-words "p" "robot@p" "models" "trainer" ("it's; $(rm)" ∷ []) ("out" ∷ [])
