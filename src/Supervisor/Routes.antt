-- ===== src/Supervisor/Routes.antt =====
-- Which agent a task goes to.
use Prim.Native.String.{compare}
use Prim.Native.Nat.{Ordering}
use model_fleet_operator.Prelude.{
  String, ◌≡◌, refl, sym, ap, ◌∙◌, subst, inl, inr, Bool, true, false, not, Option, none, some,
  List, [], ◌∷◌, ◌==◌, eq_iff, arith, if◌then◌else◌, All, Any, All-weaken, not-false,
}
use model_fleet_operator.Python.Value.{Value, null, bool, int, float, str, arr, obj, is_text}
use model_fleet_operator.Python.Object.{item}
use model_fleet_operator.Python.Result.{
  value_error, Exception, Result, ok, require, raise_if, >>=-eq-ok, raise_if-eq-ok, ok-injective,
}
use model_fleet_operator.Kube.{State, lift}
use model_fleet_operator.Kube.Runs.{bind-eq-ok, lift-eq-ok, branch-eq}
use model_fleet_operator.Supervisor.{
  Selection, TaskSubmission, Routing, offers, agent_text, add_match, matches, lesser, least, best,
  exact_skill, available, chat_body, content_of, empty_list, card_of, check_card,
  validate_selection, ask_gateway, select_exact, select_by, select,
}

-- The card is of the agent and lists the skill.
pub record IsOffer (selection : Selection) (card : Value) : Type 0 where
  pub of_agent : item card "id" ≡ ok (str selection.agent)
  pub has_skill : offers selection.skill card ≡ ok true

abbrev pub IsOffered : List Value → Selection → Type 0
IsOffered cards selection = Any (IsOffer selection) cards

abbrev for_skill : String → String → Selection
for_skill skill_id agent = record { agent = agent; skill = skill_id }

agent_text-str :
    (problem : String) (v : Value) {a : String} → agent_text problem v ≡ ok a → v ≡ str a
agent_text-str problem (str s) h = ap str (ok-injective h)
agent_text-str problem null h = cc
agent_text-str problem (bool b) h = cc
agent_text-str problem (int n) h = cc
agent_text-str problem (float d) h = cc
agent_text-str problem (arr xs) h = cc
agent_text-str problem (obj fs) h = cc

some_or : {A : Type 0} → A → Option A → A
some_or d none = d
some_or d (some a) = a

some-injective : {A : Type 0} {a b : A} → some a ≡ some b → a ≡ b
unfolding some_or
some-injective {a} e = ap (some_or a) e

add_match-IsOffered :
    (problem skill_id : String) (card : Value) (cards : List Value) (found : Bool)
    (rest : Result (List String)) (agents : List String)
    → offers skill_id card ≡ ok found
    → ((more : List String)
        → rest ≡ ok more
        → All (λ a. IsOffered cards (for_skill skill_id a)) more)
    → add_match problem skill_id card found rest ≡ ok agents
    → All (λ a. IsOffered (card ∷ cards) (for_skill skill_id a)) agents
add_match-IsOffered problem skill_id card cards false rest agents o before h =
    All-weaken _ _ agents (λ a offered. inr offered) (before agents h)
add_match-IsOffered problem skill_id card cards true rest agents o before h =
    let (id, e1, h1) = >>=-eq-ok (item card "id") _ h in
    let (agent, e2, h2) = >>=-eq-ok (agent_text problem id) _ h1 in
    let (more, e3, h3) = >>=-eq-ok rest _ h2 in
    subst (All (λ a. IsOffered (card ∷ cards) (for_skill skill_id a))) (ok-injective h3) (
      inl (record { of_agent = e1 ∙ ap ok (agent_text-str problem id e2); has_skill = o }),
      All-weaken _ _ more (λ a offered. inr offered) (before more e3),
    )

matches-IsOffered :
    (problem skill_id : String) (cards : List Value) (agents : List String)
    → matches problem skill_id cards ≡ ok agents
    → All (λ a. IsOffered cards (for_skill skill_id a)) agents
unfolding matches
matches-IsOffered problem skill_id [] agents h =
    subst (All (λ a. IsOffered [] (for_skill skill_id a))) (ok-injective h) tt
matches-IsOffered problem skill_id (card ∷ cards) agents h =
    let (found, e, h1) = >>=-eq-ok (offers skill_id card) _ h in
    add_match-IsOffered problem skill_id card cards found (matches problem skill_id cards) agents e
      (λ more e'. matches-IsOffered problem skill_id cards more e') h1

lesser_of :
    (P : String → Type 0) (o : Ordering) (a b : String)
    → P a
    → P b
    → P (elim o [ Ordering.lt ↦ b | _ ↦ a ])
lesser_of P Ordering.lt a b pa pb = pb
lesser_of P Ordering.eq a b pa pb = pa
lesser_of P Ordering.gt a b pa pb = pa

lesser-All : (P : String → Type 0) (a b : String) → P a → P b → P (lesser a b)
lesser-All P a b pa pb = lesser_of P (compare b a) a b pa pb

least-All : (P : String → Type 0) (a : String) (bs : List String) → P a → All P bs → P (least a bs)
unfolding least
least-All P a [] pa h = pa
least-All P a (b ∷ bs) pa h = least-All P (lesser a b) bs (lesser-All P a b pa h.0) h.1

best-IsOffered :
    (cards : List Value) (skill_id : String) (agents : List String) (chosen : Selection)
    → All (λ a. IsOffered cards (for_skill skill_id a)) agents
    → best skill_id agents ≡ some chosen
    → IsOffered cards chosen
best-IsOffered cards skill_id [] chosen h e = absurd (ground arith)
best-IsOffered cards skill_id (a ∷ more) chosen h e =
    subst (IsOffered cards) (some-injective e)
      (least-All (λ x. IsOffered cards (for_skill skill_id x)) a more h.0 h.1)

require-some : {A : Type 0} (o : Option A) (e : Exception) {a : A} → require o e ≡ ok a → o ≡ some a
require-some none e h = cc
require-some (some a) e h = ap some (ok-injective h)

select_exact-IsOffered :
    (routing : Routing) (skill_id : String) (cards : List Value) (chosen : Selection)
    → select_exact routing skill_id cards ≡ ok chosen
    → IsOffered cards chosen
unfolding select_exact exact_skill
select_exact-IsOffered routing skill_id cards chosen h =
    let (found, e1, h1) = >>=-eq-ok (exact_skill routing.problem cards skill_id) _ h in
    let (agents, e2, h2) = >>=-eq-ok (matches routing.problem skill_id cards) _ e1 in
    best-IsOffered cards skill_id agents chosen
      (matches-IsOffered routing.problem skill_id cards agents e2)
      (ok-injective h2 ∙ require-some found _ h1)

is_text-str : (v : Value) (s : String) → is_text v s ≡ true → v ≡ str s
is_text-str (str t) s h = ap str ((eq_iff t s).0 h)
is_text-str null s h = cc
is_text-str (bool b) s h = cc
is_text-str (int n) s h = cc
is_text-str (float d) s h = cc
is_text-str (arr xs) s h = cc
is_text-str (obj fs) s h = cc

-- The card that `next` finds is the agent's, and is one of the cards.
pub Found : (agent : String) → Value → List Value → Type 0
Found agent card cards = Any (λ c. (c ≡ card) × (item card "id" ≡ ok (str agent))) cards

Found-step :
    (same_ : Bool) (agent : String) (id c card : Value) (cards : List Value)
    → item c "id" ≡ ok id
    → is_text id agent ≡ same_
    → (if same_ then ok (some c) else card_of agent cards) ≡ ok (some card)
    → (card_of agent cards ≡ ok (some card) → Found agent card cards)
    → Found agent card (c ∷ cards)
unfolding Found
Found-step true agent id c card cards e t h rest =
    let same_card : c ≡ card = some-injective (ok-injective h) in
    inl (
      same_card,
      subst (λ x. item x "id" ≡ ok (str agent)) same_card (e ∙ ap ok (is_text-str id agent t)),
    )
Found-step false agent id c card cards e t h rest = inr (rest h)

pub card_of-Found :
    (agent : String) (cards : List Value) (card : Value)
    → card_of agent cards ≡ ok (some card)
    → Found agent card cards
unfolding card_of
card_of-Found agent [] card h = absurd (ground arith)
card_of-Found agent (c ∷ cards) card h =
    let (id, e, h1) = >>=-eq-ok (item c "id") _ h in
    Found-step (is_text id agent) agent id c card cards e refl h1 (card_of-Found agent cards card)

offer_of :
    (selection : Selection) (card : Value) (cards : List Value)
    → Found selection.agent card cards
    → offers selection.skill card ≡ ok true
    → IsOffered cards selection
unfolding Found
offer_of selection card [] h o = h
offer_of selection card (c ∷ cards) (inl found) o =
    inl (subst (IsOffer selection) (sym found.0) (record { of_agent = found.1; has_skill = o }))
offer_of selection card (c ∷ cards) (inr rest) o = inr (offer_of selection card cards rest o)

check_card-IsOffered :
    (selection chosen : Selection) (card : Option Value) (cards : List Value)
    → card_of selection.agent cards ≡ ok card
    → check_card selection card ≡ ok chosen
    → IsOffered cards chosen
check_card-IsOffered selection chosen none cards e h = cc
check_card-IsOffered selection chosen (some card) cards e h =
    let (found, e1, h1) = >>=-eq-ok (offers selection.skill card) _ h in
    let (t, h2) = raise_if-eq-ok (not found) _ _ h1 in
    subst (IsOffered cards) (ok-injective h2) (
      offer_of selection card cards (card_of-Found selection.agent cards card e)
        (e1 ∙ ap ok (not-false found t)))

validate_selection-IsOffered :
    (decode : Value → Option Selection) (raw : Value) (cards : List Value) (chosen : Selection)
    → validate_selection decode raw cards ≡ ok chosen
    → IsOffered cards chosen
unfolding validate_selection
validate_selection-IsOffered decode raw cards chosen h =
    let (selection, _, h1) = >>=-eq-ok (require (decode raw) _) _ h in
    let (card, e2, h2) = >>=-eq-ok (card_of selection.agent cards) _ h1 in
    check_card-IsOffered selection chosen card cards e2 h2

lifted :
    {A : Type 0} (r : Result A) (s : State) {a : A} {t : State} → lift r s ≡ (ok a, t) → r ≡ ok a
unfolding lift
lifted r s h = ap (λ (x : Result _ × State). x.0) h

ask_gateway-IsOffered :
    (routing : Routing) (prompt : String) (cards : List Value) (chosen : Selection) (s t : State)
    → ask_gateway routing prompt cards s ≡ (ok chosen, t)
    → IsOffered cards chosen
unfolding ask_gateway
ask_gateway-IsOffered routing prompt cards chosen s t h =
    let (pairs, _, h1) = lift-eq-ok (available cards) _ s h in
    let (_, _, h2) =
      lift-eq-ok (raise_if (empty_list pairs) (value_error "no agent skills are registered")) _ s
        h1 in
    let asked = routing.post (chat_body routing prompt pairs) in
    let (response, _, h3) = bind-eq-ok asked _ s h2 in
    let (content, _, h4) = lift-eq-ok (content_of response) _ (asked s).1 h3 in
    validate_selection-IsOffered routing.decode content cards chosen (lifted _ (asked s).1 h4)

select_by-IsOffered :
    (routing : Routing) (prompt : String) (cards : List Value) (skill : Option String)
    (chosen : Selection) (s t : State)
    → select_by routing prompt cards skill s ≡ (ok chosen, t)
    → IsOffered cards chosen
select_by-IsOffered routing prompt cards none chosen s t h =
    ask_gateway-IsOffered routing prompt cards chosen s t h
select_by-IsOffered routing prompt cards (some skill_id) chosen s t h =
    elim (branch-eq (skill_id == "") _ _ s h) [
      | inl asked ↦ ask_gateway-IsOffered routing prompt cards chosen s t asked
      | inr exact ↦ select_exact-IsOffered routing skill_id cards chosen (lifted _ s exact)
    ]

-- The supervisor selects an agent and a skill only if one of the registered cards is of that agent and
-- lists that skill, whether the task names the skill or the model behind the gateway chooses.
pub select-IsOffered :
    (routing : Routing) (submission : TaskSubmission) (cards : List Value) (chosen : Selection)
    (s t : State)
    → select routing submission cards s ≡ (ok chosen, t)
    → IsOffered cards chosen
unfolding select
select-IsOffered routing submission cards chosen s t h =
    select_by-IsOffered routing submission.prompt cards submission.skill chosen s t h
