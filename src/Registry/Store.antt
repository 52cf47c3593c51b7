-- ===== src/Registry/Store.antt =====
-- registry.py: KubernetesRegistry and the routes of the registry's HTTP service.
use model_fleet_operator.Prelude.{String, List, [], ◌∷◌, map, eqb, if◌then◌else◌, sort}
use model_fleet_operator.Python.Value.{Value, str, dict, list, nil, arr}
use model_fleet_operator.Python.Object.{item, get_or, iterate}
use model_fleet_operator.Python.Result.{
  Exception, Result, ok, err, key_error, type_error, api_error, http_exception, ◌>>=◌ as bind,
}
use model_fleet_operator.Kube.{
  Oracle, Action, ◌>>=◌, pure, raise, lift, try, call, count_metric, create, patch, read, list_all,
  registration,
}
use model_fleet_operator.ControlAuth.{require_control_token}
use model_fleet_operator.Registry.{
  AgentCard, Entry, entry_value, dumped, id_le, resource_name, ranked, agent_registrations,
}

abbrev pub registration_body : (name : String) → AgentCard → Value
registration_body name card = dict (
    ("apiVersion", str "fleet.sqe.io/v1alpha1")
    ∷ ("kind", str "AgentRegistration")
    ∷ ("metadata", dict (("name", str name) ∷ []))
    ∷ ("spec", dict (dumped card))
    ∷ [])

-- The requests of the routes.
pub data Request : Type 0 where
  post_card : AgentCard → Request
  get_agents : Request
  get_agent : (agent_id : String) → Request
  get_search : (query : String) → Request

-- The text of a key that `sorted` compares; names of Kubernetes objects are texts.
abbrev text_of : Value → Result String
text_of (str s) = ok s
text_of v = err type_error

-- `validate` is pydantic's `AgentCard.model_validate`.
module _ (validate : Value → Result AgentCard) where
  -- `_card`
  unfoldable pub card_of : Value → Result AgentCard
  unfolding item
  card_of resource = bind (item resource "spec") validate

  unfoldable pub entry_of : Value → Result Entry
  unfolding item card_of
  entry_of resource = bind (item resource "metadata") λ metadata.
      bind (item metadata "name") λ name.
        bind (card_of resource)
          λ card. bind (text_of name) λ id. ok (record { id = id; card = card })

  unfoldable pub entries_of : List Value → Result (List Entry)
  unfolding entry_of
  entries_of [] = ok []
  entries_of (resource ∷ resources) =
      let rest = entries_of resources in
      bind (entry_of resource) λ entry. bind rest λ entries. ok (entry ∷ entries)

-- The namespace is the registry's.
module _ (oracle : Oracle) (validate : Value → Result AgentCard) (namespace : Value) where
  abbrev pub patch_existing : (name : String) → (body : Value) → Exception → Action Value
  patch_existing name body (api_error status reason text) =
      if eqb status 409
      then call oracle (patch agent_registrations namespace (str name) body)
      else raise (api_error status reason text)
  patch_existing name body e = raise e

  unfoldable pub register : AgentCard → Action Entry
  unfolding resource_name card_of
  register card = do
    name ← lift (resource_name card.name)
    resource ←
        try (call oracle (create agent_registrations namespace (registration_body name card)))
          (patch_existing name (registration_body name card))
    counted ← count_metric (registration "register")
    stored ← lift (card_of validate resource)
    pure (record { id = name; card = stored })

  -- `list`
  unfoldable pub all_agents : Action (List Entry)
  unfolding entries_of get_or iterate
  all_agents = do
    answer ← call oracle (list_all agent_registrations namespace)
    objects ← lift (bind (get_or answer "items" (arr nil)) iterate)
    entries ← lift (entries_of validate objects)
    pure (sort id_le entries)

  abbrev pub missing : (agent_id : String) → Exception → Action Value
  missing agent_id (api_error status reason text) =
      if eqb status 404 then raise (key_error agent_id) else raise (api_error status reason text)
  missing agent_id e = raise e

  -- `get`
  unfoldable pub find_agent : (agent_id : String) → Action Entry
  unfolding card_of
  find_agent agent_id = do
    resource ←
        try (call oracle (read agent_registrations namespace (str agent_id))) (missing agent_id)
    card ← lift (card_of validate resource)
    pure (record { id = agent_id; card = card })

  unfoldable pub search : (query : String) → Action (List Entry)
  unfolding all_agents ranked
  search query = do entries ← all_agents; pure (map (λ row. row.1) (ranked query entries))

  abbrev pub unknown_agent : Exception → Action Entry
  unknown_agent (key_error k) = raise (http_exception 404 "agent not found")
  unknown_agent e = raise e

  abbrev pub respond : Request → Action Value
  respond (post_card card) = register card >>= λ entry. pure (entry_value entry)
  respond get_agents = all_agents >>= λ entries. pure (list (map entry_value entries))
  respond (get_agent agent_id) =
      try (find_agent agent_id) unknown_agent >>= λ entry. pure (entry_value entry)
  respond (get_search query) = search query >>= λ entries. pure (list (map entry_value entries))

  -- `Depends(require_control_token)` comes before each route.
  unfoldable pub route : (expected authorization : String) → Request → Action Value
  unfolding register all_agents find_agent search require_control_token
  route expected authorization request = do
    authenticated ← lift (require_control_token expected authorization)
    respond request
