-- ===== src/Operator/Agents/Safety.antt =====
-- The AgentRegistration reconciler scales a Deployment only with that Deployment's consent.
use model_fleet_operator.Prelude.{◌≡◌, refl, true, List, [], ◌∷◌, ◌∙◌, sym, ap}
use model_fleet_operator.Python.Value.{Value, dict, truthy}
use model_fleet_operator.Python.Result.{Result, ok, err, ok-injective}
use model_fleet_operator.Python.Object.{item, get}
use model_fleet_operator.Python.Equality.{same}
use model_fleet_operator.Python.Library.{Library}
use model_fleet_operator.Kube.{
  State, Call, read, create, patch, delete, list_all, produce, flush, commit, post, get_query,
  Oracle, not_found, attribute,
}
use model_fleet_operator.Kube.Moves
use model_fleet_operator.Kube.Moves.{Moves, adds, Adds}
use model_fleet_operator.Operator.Apply.{deployments, deployment_scale, nested_item}
use model_fleet_operator.Operator.Agents.{
  is_linked, scale_to, refuse, scale_linked, found_deployment, managed_agent,
  reconcile_agent_registration,
}

-- The answer to a read of the Deployment, after some calls, shows a Deployment that is annotated
-- with the registration.
pub record Consent (oracle : Oracle) (registration namespace name : Value) : Type 0 where
  pub before : List Call
  pub deployment : Value
  pub answer : oracle before (read deployments namespace name) ≡ ok deployment
  pub linked : is_linked deployment registration ≡ ok true

-- Reads of Deployments are free; a patch is of the scale and has consent; nothing else is called.
abbrev pub IsConsented : Oracle → Value → Call → Type 0
IsConsented oracle registration (read resource ns n) = resource ≡ deployments
IsConsented oracle registration (patch resource ns n body) =
    (resource ≡ deployment_scale) × Consent oracle registration ns n
IsConsented oracle registration (create resource ns body) = ⊥
IsConsented oracle registration (delete resource ns n) = ⊥
IsConsented oracle registration (list_all resource ns) = ⊥
IsConsented oracle registration (post url authorization body) = ⊥
IsConsented oracle registration (get_query url authorization query) = ⊥
IsConsented oracle registration (produce topic payload key) = ⊥
IsConsented oracle registration (flush topic payload key) = ⊥
IsConsented oracle registration commit = ⊥

module _ (lib : Library) (oracle : Oracle) (body : Value) where
  module _ (registration : Value) where
    abbrev scale_body : Value → Value
    scale_body desired = dict (("spec", dict (("replicas", desired) ∷ [])) ∷ [])

    abbrev Consented : {A : Type 0} → (State → Result A × State) → Type 0
    Consented m = Moves (adds (IsConsented oracle registration)) m

    scale_to-IsConsented :
        (ns n deployment desired : Value)
        → Consent oracle registration ns n
        → Consented (scale_to lib oracle ns n deployment desired)
    unfolding scale_to
    scale_to-IsConsented ns n deployment desired c =
        Moves.branch _ (same (attribute (attribute deployment "spec") "replicas") desired) _ _
          (λ _. Moves.pure _ tt)
          (λ _.
            Moves.bind _ _ _
              (Moves.call oracle (patch deployment_scale ns n (scale_body desired)) (refl, c))
              λ _. Moves.pure _ tt)

    refuse-IsConsented : (n : Value) → Consented (refuse lib oracle body n registration)
    unfolding refuse
    refuse-IsConsented n =
        Moves.bind _ _ _ (Moves.lift _ _)
          λ _. Moves.bind _ _ _ (Moves.set_status _) λ _. Moves.raise _ _

    scale_linked-IsConsented :
        (spec runtime ns n deployment : Value)
        → Consent oracle registration ns n
        → Consented (scale_linked lib oracle body spec runtime ns n deployment)
    unfolding scale_linked
    scale_linked-IsConsented spec runtime ns n deployment c =
        Moves.bind _ _ _ (Moves.lift _ _) λ desired.
          Moves.bind _ _ _ (scale_to-IsConsented ns n deployment desired c) λ _.
            Moves.bind _ _ _ (Moves.lift _ _)
              λ _. Moves.bind _ _ _ (Moves.lift _ _) λ _. Moves.set_status _

    found_deployment-IsConsented :
        (spec runtime ns n : Value) (found : Result Value) (before : List Call)
        → oracle before (read deployments ns n) ≡ found
        → Consented (found_deployment lib oracle body spec runtime ns registration n found)
    unfolding found_deployment
    found_deployment-IsConsented spec runtime ns n (ok deployment) before e =
        Moves.bind_lift _ (is_linked deployment registration) _ λ linked is.
          Moves.branch _ linked _ _
            (λ yes_. scale_linked-IsConsented spec runtime ns n deployment (record {
              before = before;
              deployment = deployment;
              answer = e;
              linked = is ∙ ap ok yes_;
            }))
            (λ _. refuse-IsConsented n)
    found_deployment-IsConsented spec runtime ns n (err x) before e =
        Moves.branch _ (not_found x) _ _
          (λ _.
            Moves.bind _ _ _ (Moves.lift _ _)
              λ _. Moves.bind _ _ _ (Moves.set_status _) λ _. Moves.raise _ _)
          (λ _. Moves.raise _ x)

  managed_agent-IsConsented :
      (spec runtime : Value) {registration : Value}
      → nested_item body "metadata" "name" ≡ ok registration
      → Moves (adds (IsConsented oracle registration)) (managed_agent lib oracle body spec runtime)
  unfolding managed_agent
  managed_agent-IsConsented spec runtime {registration} h =
      Moves.bind_lift _ (nested_item body "metadata" "namespace") _ λ ns _.
        Moves.bind_lift _ (nested_item body "metadata" "name") _ λ r is_r.
          let same_r : r ≡ registration = ok-injective (sym is_r ∙ h) in
          rw same_r (
            Moves.bind_lift _ (item runtime "deploymentName") _ λ n _.
              Moves.bind_call oracle (read deployments ns n) _ refl
                λ before. found_deployment-IsConsented registration spec runtime ns n _ before refl)

  -- Whatever the API answers, the reconciler of an AgentRegistration only reads Deployments and
  -- patches scales, and each patch is of a Deployment that a read has shown to carry the annotation
  -- with the registration's name.
  pub reconcile_agent_registration-IsConsented :
      {registration : Value} (s : State)
      → nested_item body "metadata" "name" ≡ ok registration
      → Adds (IsConsented oracle registration) s (reconcile_agent_registration lib oracle body s).1
  unfolding reconcile_agent_registration
  reconcile_agent_registration-IsConsented s h =
      Moves.from
        (Moves.bind_lift _ (item body "spec") _ λ spec _.
          Moves.bind_lift _ (get spec "runtime") _ λ runtime _.
            Moves.branch _ (truthy runtime) _ _ (λ _. managed_agent-IsConsented spec runtime h)
              (λ _. Moves.bind _ _ _ (Moves.lift _ _) λ _. Moves.set_status _))
        s
