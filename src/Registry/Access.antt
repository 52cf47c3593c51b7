-- ===== src/Registry/Access.antt =====
-- Which requests reach the API server.
use model_fleet_operator.Prelude.{String, ◌≡◌, refl, ◌⊎◌, inl, inr, eqb}
use model_fleet_operator.Python.Value.{Value, str}
use model_fleet_operator.Python.Result.{Exception, Result, ok, key_error, api_error}
use model_fleet_operator.Kube.{Call, Oracle, create, patch, read, list_all}
use model_fleet_operator.Kube.Moves as Moves
use model_fleet_operator.Kube.Moves.{adds, Moves}
use model_fleet_operator.ControlAuth.{Admits, require_control_token, require_control_token_iff}
use model_fleet_operator.Registry.{AgentCard, resource_name, agent_registrations}
use model_fleet_operator.Registry.Store.{
  Request, post_card, get_agents, get_agent, get_search, register, all_agents, find_agent, search,
  route, respond, registration_body, patch_existing, missing, unknown_agent,
}

-- The calls that a request is served with: a post writes the registration that bears the card's
-- name, and a get only reads.
abbrev pub IsServed : (namespace : Value) → Request → Call → Type 0
IsServed namespace (post_card card) made =
    (name : String) × (resource_name card.name ≡ ok name)
    × ((made ≡ create agent_registrations namespace (registration_body name card))
        ⊎ (made ≡ patch agent_registrations namespace (str name) (registration_body name card)))
IsServed namespace get_agents made = made ≡ list_all agent_registrations namespace
IsServed namespace (get_agent id) made = made ≡ read agent_registrations namespace (str id)
IsServed namespace (get_search query) made = made ≡ list_all agent_registrations namespace

module _ (oracle : Oracle) (validate : Value → Result AgentCard) (namespace : Value) where
  patch_existing-Moves :
      (card : AgentCard) (name : String)
      → resource_name card.name ≡ ok name
      → (e : Exception)
      → Moves
          (adds (IsServed namespace (post_card card)))
          (patch_existing oracle validate namespace name (registration_body name card) e)
  patch_existing-Moves card name named (api_error status reason text) =
      Moves.branch _ (eqb status 409) _ _ (λ _. Moves.call oracle _ (name, named, inr refl))
        (λ _. Moves.raise _ _)
  patch_existing-Moves card name named e = Moves.raise _ e

  register-Moves :
      (card : AgentCard)
      → Moves (adds (IsServed namespace (post_card card))) (register oracle validate namespace card)
  unfolding register
  register-Moves card = Moves.bind_lift _ (resource_name card.name) _ λ name named.
      Moves.bind _ _ _
        (Moves.try _ _ _ (Moves.call oracle _ (name, named, inl refl))
          (patch_existing-Moves card name named))
        λ resource.
          Moves.bind _ _ _ (Moves.count_metric _)
            λ _. Moves.bind _ _ _ (Moves.lift _ _) (λ _. Moves.pure _ _)

  all_agents-Moves :
      Moves
        (adds (λ made. made ≡ list_all agent_registrations namespace))
        (all_agents oracle validate namespace)
  unfolding all_agents
  all_agents-Moves = Moves.bind _ _ _ (Moves.call oracle _ refl) λ answer.
      Moves.bind _ _ _ (Moves.lift _ _)
        λ objects. Moves.bind _ _ _ (Moves.lift _ _) (λ entries. Moves.pure _ _)

  missing-Moves :
      (id : String) (e : Exception)
      → Moves (adds (IsServed namespace (get_agent id))) (missing oracle validate namespace id e)
  missing-Moves id (api_error status reason text) =
      Moves.branch _ (eqb status 404) _ _ (λ _. Moves.raise _ _) (λ _. Moves.raise _ _)
  missing-Moves id e = Moves.raise _ e

  unknown_agent-Moves :
      (id : String) (e : Exception)
      → Moves (adds (IsServed namespace (get_agent id))) (unknown_agent oracle validate namespace e)
  unknown_agent-Moves id (key_error k) = Moves.raise _ _
  unknown_agent-Moves id e = Moves.raise _ e

  find_agent-Moves :
      (id : String)
      → Moves (adds (IsServed namespace (get_agent id))) (find_agent oracle validate namespace id)
  unfolding find_agent
  find_agent-Moves id =
      Moves.bind _ _ _ (Moves.try _ _ _ (Moves.call oracle _ refl) (missing-Moves id))
        λ resource. Moves.bind _ _ _ (Moves.lift _ _) (λ card. Moves.pure _ _)

  respond-Moves :
      (request : Request)
      → Moves (adds (IsServed namespace request)) (respond oracle validate namespace request)
  unfolding search
  respond-Moves (post_card card) = Moves.bind _ _ _ (register-Moves card) (λ _. Moves.pure _ _)
  respond-Moves get_agents = Moves.bind _ _ _ all_agents-Moves (λ _. Moves.pure _ _)
  respond-Moves (get_agent id) =
      Moves.bind _ _ _ (Moves.try _ _ _ (find_agent-Moves id) (unknown_agent-Moves id))
        (λ _. Moves.pure _ _)
  respond-Moves (get_search query) =
      Moves.bind _ _ _ (Moves.bind _ _ _ all_agents-Moves (λ _. Moves.pure _ _))
        (λ _. Moves.pure _ _)

  -- A request reaches the API server only with the token of the control plane, or if none is configured.
  -- Then a post writes no object but the registration that bears the card's name, and a get only reads
  -- registrations.
  pub route-IsServed :
      (expected authorization : String) (request : Request)
      → Moves
          (adds (λ made. Admits expected authorization × IsServed namespace request made))
          (route oracle validate namespace expected authorization request)
  unfolding route
  route-IsServed expected authorization request =
      Moves.bind_lift _ (require_control_token expected authorization) _ λ _ passed.
        Moves.weaken _
          (λ made served. ((require_control_token_iff expected authorization).0 passed, served))
          (respond-Moves request)
