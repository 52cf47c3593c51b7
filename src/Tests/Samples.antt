-- ===== src/Tests/Samples.antt =====
-- Inputs of the tests.
use model_fleet_operator.Prelude.{[], ◌∷◌, pos, true}
use model_fleet_operator.Python.Value.{Value, null, bool, int, str, dict}
use model_fleet_operator.Python.Result.{ok, err, api_error}
use model_fleet_operator.Python.Library.{Library}
use model_fleet_operator.Kube.{Oracle, read}

abbrev pub plain_library : Library
plain_library = record { dumps = λ v. "{}"; sha256_hex = λ s. s; repr = λ v. "{}" }

-- A cluster in which nothing exists yet and every write succeeds.
abbrev pub empty_cluster : Oracle
empty_cluster before (read resource namespace name) = err (api_error 404 "Not Found" "")
empty_cluster before c = ok null

abbrev pub chat_metadata : Value
chat_metadata = dict (
    ("name", str "chat")
    ∷ ("namespace", str "models")
    ∷ ("uid", str "u1")
    ∷ ("generation", int (pos 2))
    ∷ [])

abbrev pub chat_spec : Value
chat_spec = dict (
    ("model", dict (("name", str "llama") ∷ []))
    ∷ ("container", dict (("image", str "vllm:1") ∷ []))
    ∷ ("suspend", bool true)
    ∷ [])

abbrev pub inference : Value → Value
inference spec = dict (
    ("apiVersion", str "fleet.sqe.io/v1alpha1")
    ∷ ("kind", str "InferenceService")
    ∷ ("metadata", chat_metadata)
    ∷ ("spec", spec)
    ∷ [])

abbrev pub chat : Value
chat = inference chat_spec
