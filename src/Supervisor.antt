-- ===== src/Supervisor.antt =====
-- supervisor.py: how a task finds an agent.
pub mod Routes
pub mod Submit
pub mod Handover
use model_fleet_operator.Prelude.{
  ℕ, String, Bool, true, false, not, ◌&&◌, ◌||◌, Option, none, some, List, [], ◌∷◌, pos, ◌==◌,
  if◌then◌else◌,
}
use Prim.Native.String.{compare}
use Prim.Native.Nat.{Ordering}
use model_fleet_operator.Python.Text.{◌⧺◌}
use model_fleet_operator.Python.Value.{
  Value, Items, Fields, null, int, str, arr, obj, nil, cons, dict, list, truthy, is_text,
}
use model_fleet_operator.Python.Library.{Library, show}
use model_fleet_operator.Python.Object.{item, get_or, iterate}
use model_fleet_operator.Python.Result.{
  Exception, Result, ok, err, value_error, type_error, key_error, index_error, runtime_error,
  raise_if, require, ◌>>=◌ as bind,
}
use model_fleet_operator.Kube.{
  Oracle, Action, ◌>>=◌, ◌>>◌, pure, raise, lift, call, create, patch, produce, count_metric, task,
}

pub record Selection : Type 0 where
  pub agent : String
  pub skill : String

pub record TaskSubmission : Type 0 where
  pub user_id : String
  pub prompt : String
  pub context : Value
  pub skill : Option String

-- `any(skill["id"] == skill_id for skill in skills)`
unfoldable pub any_skill : String → List Value → Result Bool
any_skill skill_id [] = ok false
any_skill skill_id (skill ∷ skills) =
    bind (item skill "id") λ id. if is_text id skill_id then ok true else any_skill skill_id skills

-- `any(skill["id"] == skill_id for skill in card["skills"])`
unfoldable pub offers : String → Value → Result Bool
unfolding any_skill
offers skill_id card =
    bind (item card "skills")
      λ skills. bind (iterate skills) λ elements. any_skill skill_id elements

-- `Selection` takes a text as its agent; `problem` is pydantic's message for another value.
abbrev pub agent_text : (problem : String) → Value → Result String
agent_text problem (str s) = ok s
agent_text problem v = err (value_error problem)

abbrev add_match :
    (problem skill_id : String) → Value → Bool → Result (List String) → Result (List String)
add_match problem skill_id card false rest = rest
add_match problem skill_id card true rest =
    bind (item card "id")
      λ id. bind (agent_text problem id) λ agent. bind rest λ agents. ok (agent ∷ agents)

-- The agents of the cards that offer the skill.
unfoldable pub matches : (problem skill_id : String) → List Value → Result (List String)
unfolding offers
matches problem skill_id [] = ok []
matches problem skill_id (card ∷ cards) =
    let rest = matches problem skill_id cards in
    bind (offers skill_id card) λ found. add_match problem skill_id card found rest

abbrev pub lesser : String → String → String
lesser a b = elim (compare b a) [ Ordering.lt ↦ b | _ ↦ a ]

-- `sorted(matches, key=agent)[0]`
unfoldable pub least : String → List String → String
least a [] = a
least a (b ∷ bs) = least (lesser a b) bs

abbrev pub best : (skill_id : String) → List String → Option Selection
best skill_id [] = none
best skill_id (a ∷ more) = some (record { agent = least a more; skill = skill_id })

unfoldable pub exact_skill :
    (problem : String) → List Value → (skill_id : String) → Result (Option Selection)
unfolding matches least
exact_skill problem cards skill_id =
    bind (matches problem skill_id cards) λ agents. ok (best skill_id agents)

-- `next((item for item in cards if item["id"] == agent), None)`
unfoldable pub card_of : String → List Value → Result (Option Value)
card_of agent [] = ok none
card_of agent (card ∷ cards) =
    bind (item card "id") λ id. if is_text id agent then ok (some card) else card_of agent cards

abbrev pub unavailable : Exception
unavailable = value_error "gateway selected an unavailable agent/skill pair"

abbrev pub check_card : Selection → Option Value → Result Selection
check_card selection none = err unavailable
check_card selection (some card) =
    bind (offers selection.skill card)
      λ found. bind (raise_if (not found) unavailable) λ _. ok selection

-- `decode` is pydantic's `Selection.model_validate_json`.
unfoldable pub validate_selection :
    (decode : Value → Option Selection) → Value → List Value → Result Selection
unfolding card_of offers
validate_selection decode raw cards =
    bind (require (decode raw) (value_error "gateway returned an invalid routing decision"))
      λ selection. bind (card_of selection.agent cards) λ card. check_card selection card

-- `available`: the pairs of agent and skill.
unfoldable pub skill_pairs : Value → List Value → Result (List Value)
skill_pairs card [] = ok []
skill_pairs card (skill ∷ skills) = bind (item card "id") λ agent. bind (item skill "id") λ id.
    bind (skill_pairs card skills) λ rest. ok (dict (("agent", agent) ∷ ("skill", id) ∷ []) ∷ rest)

append_pairs : List Value → List Value → List Value
append_pairs [] ys = ys
append_pairs (x ∷ xs) ys = x ∷ append_pairs xs ys

unfoldable pub available : List Value → Result (List Value)
unfolding skill_pairs append_pairs
available [] = ok []
available (card ∷ cards) = bind (item card "skills") λ skills. bind (iterate skills) λ elements.
    bind (skill_pairs card elements)
      λ pairs. bind (available cards) λ rest. ok (append_pairs pairs rest)

-- `v[0]`
abbrev first_item : Value → Result Value
first_item (arr nil) = err index_error
first_item (arr (cons v vs)) = ok v
first_item (obj fs) = err (key_error "0")
first_item (str s) = bind (iterate (str s)) λ letters. first_letter letters
  where
    first_letter : List Value → Result Value
    first_letter [] = err index_error
    first_letter (v ∷ vs) = ok v
first_item v = err type_error

-- What the supervisor is set up with: the registry's answer, the gateway's answer to a JSON body,
-- pydantic's decoder and message, and `json.dumps` with its defaults.
pub record Routing : Type 0 where
  pub cards : Action Value
  pub post : Value → Action Value
  pub decode : Value → Option Selection
  pub problem : String
  pub dumps : Value → String
  pub gateway_model : String

abbrev chat_body : Routing → (prompt : String) → List Value → Value
chat_body routing prompt pairs = dict (
    ("model", str routing.gateway_model)
    ∷ ("temperature", int (pos 0))
    ∷ (
      "messages",
      list (
          dict (
            ("role", str "system")
            ∷ (
              "content",
              str (
                  "Choose exactly one available route. "
                  ⧺ "Return only JSON with agent and skill."),
            )
            ∷ [])
          ∷ dict (
              ("role", str "user")
              ∷ (
                "content",
                str (
                    routing.dumps (dict (("prompt", str prompt) ∷ ("available", list pairs) ∷ []))),
              )
              ∷ [])
          ∷ []),
    )
    ∷ [])

-- `response.json()["choices"][0]["message"]["content"]`
abbrev content_of : Value → Result Value
content_of response = bind (item response "choices") λ choices.
    bind (first_item choices)
      λ choice. bind (item choice "message") λ message. item message "content"

abbrev empty_list : List Value → Bool
empty_list [] = true
empty_list (v ∷ vs) = false

unfoldable pub ask_gateway : Routing → (prompt : String) → List Value → Action Selection
unfolding available validate_selection
ask_gateway routing prompt cards = do
  pairs ← lift (available cards)
  checked ← lift (raise_if (empty_list pairs) (value_error "no agent skills are registered"))
  response ← routing.post (chat_body routing prompt pairs)
  content ← lift (content_of response)
  lift (validate_selection routing.decode content cards)

-- `if chosen: return chosen`
unfoldable pub select_exact : Routing → (skill_id : String) → List Value → Result Selection
unfolding exact_skill
select_exact routing skill_id cards =
    bind (exact_skill routing.problem cards skill_id)
      λ chosen. require chosen (value_error "requested skill is unavailable")

abbrev pub select_by : Routing → (prompt : String) → List Value → Option String → Action Selection
select_by routing prompt cards none = ask_gateway routing prompt cards
select_by routing prompt cards (some skill_id) =
    if skill_id == ""
    then ask_gateway routing prompt cards
    else lift (select_exact routing skill_id cards)

unfoldable pub select : Routing → TaskSubmission → List Value → Action Selection
unfolding select_exact ask_gateway
select routing submission cards = select_by routing submission.prompt cards submission.skill
