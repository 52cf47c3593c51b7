-- ===== src/Registry.antt =====
-- registry.py: the agent registry over the Kubernetes API, and AgentCard of protocol.py.
pub mod Store
pub mod Ranking
pub mod Access
pub mod Names
use Prim.Native.Char.{code}
use model_fleet_operator.Prelude.{
  ℕ, zero, suc, ◌+◌, String, Bool, true, false, not, ◌&&◌, ◌||◌, Option, none, some, List, [], ◌∷◌,
  map, any, pos, eqb, ltb, ◌==◌, if◌then◌else◌, sort, text_le,
}
use model_fleet_operator.Python.Value.{
  Value, Fields, null, int, str, arr, obj, nil, field, dict, list, find_or,
}
use model_fleet_operator.Python.Text.{
  distinct, ◌⧺◌, single, lower, is_lower, is_digit, prefix, join,
}
use model_fleet_operator.Python.Object.{has_substring}
use model_fleet_operator.Python.Result.{Result, ok, err, value_error}

pub record Skill : Type 0 where
  pub id : String
  pub name : String
  pub description : String
  pub input_schema : Fields

pub record AgentTransport : Type 0 where
  pub protocol : String
  pub endpoint : String

pub record AgentCard : Type 0 where
  pub name : String
  pub description : String
  pub version : String
  pub endpoint : String
  pub kafka_topic : String
  pub kafka_result_topic : String
  pub max_concurrent_tasks : ℕ
  pub timeout_seconds : ℕ
  pub skills : List Skill
  pub transports : List AgentTransport

abbrev skill_value : Skill → Value
skill_value skill = dict (
    ("id", str skill.id)
    ∷ ("name", str skill.name)
    ∷ ("description", str skill.description)
    ∷ ("input_schema", obj skill.input_schema)
    ∷ [])

abbrev transport_value : AgentTransport → Value
transport_value transport =
    dict (("protocol", str transport.protocol) ∷ ("endpoint", str transport.endpoint) ∷ [])

-- `card.model_dump()`
abbrev pub dumped : AgentCard → List (String × Value)
dumped card =
    ("name", str card.name)
    ∷ ("description", str card.description)
    ∷ ("version", str card.version)
    ∷ ("endpoint", str card.endpoint)
    ∷ ("kafka_topic", str card.kafka_topic)
    ∷ ("kafka_result_topic", str card.kafka_result_topic)
    ∷ ("max_concurrent_tasks", int (pos card.max_concurrent_tasks))
    ∷ ("timeout_seconds", int (pos card.timeout_seconds))
    ∷ ("skills", list (map skill_value card.skills))
    ∷ ("transports", list (map transport_value card.transports))
    ∷ []

-- A card with the name of its resource.
pub record Entry : Type 0 where
  pub id : String
  pub card : AgentCard

-- `{"id": ..., **card}`: a card has no field `id`.
abbrev pub entry_value : Entry → Value
entry_value entry = dict (("id", str entry.id) ∷ dumped entry.card)

abbrev pub agent_registrations : String
agent_registrations = "fleet.sqe.io/v1alpha1/agentregistrations"

-- `[a-z0-9.-]`
abbrev pub is_name_char : ℕ → Bool
is_name_char c = is_lower c || is_digit c || eqb c b'.' || eqb c b'-'

-- `re.sub(r"[^a-z0-9.-]+", "-", s)`: `inside` a run that has its dash.
unfoldable pub dashed : (inside : Bool) → String → String
dashed inside String.[] = String.[]
dashed inside (String.◌∷◌ c s) =
    let same = dashed false s in
    let run = dashed true s in
    if is_name_char (code c) then String.◌∷◌ c same else if inside then run else "-" ⧺ run

abbrev pub is_edge : ℕ → Bool
is_edge c = eqb c b'-' || eqb c b'.'

unfoldable pub lstrip_edges : String → String
lstrip_edges String.[] = String.[]
lstrip_edges (String.◌∷◌ c s) =
    let rest = lstrip_edges s in if is_edge (code c) then rest else String.◌∷◌ c s

unfoldable pub rstrip_edges : String → String
rstrip_edges String.[] = String.[]
rstrip_edges (String.◌∷◌ c s) =
    let rest = rstrip_edges s in if is_edge (code c) && rest == "" then "" else String.◌∷◌ c rest

-- `_resource_name`
unfoldable pub resource_name : String → Result String
unfolding dashed lstrip_edges rstrip_edges lower prefix
resource_name name =
    let value = rstrip_edges (lstrip_edges (dashed false (lower name))) in
    if value == ""
    then err (value_error "agent name cannot form a Kubernetes resource name")
    else ok (prefix 253 value)

-- The words of `re.findall(r"[a-z0-9]+", s)`: the one that `s` begins with, if any, comes first.
abbrev pub close_word : String → List String → List String
close_word word words = if word == "" then words else word ∷ words

unfoldable pub words_from : String → String × List String
words_from String.[] = ("", [])
words_from (String.◌∷◌ c s) =
    let (word, words) = words_from s in
    if is_lower (code c) || is_digit (code c)
    then (String.◌∷◌ c word, words)
    else ("", close_word word words)

unfoldable pub find_words : String → List String
unfolding words_from
find_words s = let (word, words) = words_from s in close_word word words

-- `" ".join(...).lower()`
unfoldable pub searchable : AgentCard → String
unfolding lower join
searchable card =
    lower
      (join " " (map (λ skill. skill.id ⧺ " " ⧺ skill.name ⧺ " " ⧺ skill.description) card.skills))

-- `sum(term in searchable for term in terms)`
unfoldable pub score : (searchable : String) → List String → ℕ
unfolding has_substring
score text [] = 0
score text (term ∷ terms) = (if has_substring text term then 1 else 0) + score text terms

-- The key `(-score, id)`.
abbrev pub ranks_before : ℕ × Entry → ℕ × Entry → Bool
ranks_before (m, a) (n, b) = if ltb n m then true else if eqb m n then text_le a.id b.id else false

abbrev pub id_le : Entry → Entry → Bool
id_le a b = text_le a.id b.id

-- The rows that are ranked.
unfoldable pub scored : List String → List Entry → List (ℕ × Entry)
unfolding score searchable
scored terms [] = []
scored terms (entry ∷ entries) =
    let n = score (searchable entry.card) terms in
    let rest = scored terms entries in if eqb n 0 then rest else (n, entry) ∷ rest

unfoldable pub ranked : (query : String) → List Entry → List (ℕ × Entry)
unfolding scored find_words lower
ranked query entries = sort ranks_before (scored (distinct (find_words (lower query))) entries)
