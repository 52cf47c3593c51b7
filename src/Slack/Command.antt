-- ===== src/Slack/Command.antt =====
-- slack.py: the commands, and the small regular expressions of the parser.
pub mod Names
use Prim.Native.Char.{code}
use model_fleet_operator.Prelude.{
  ◌≡◌, refl, ◌⊎◌, inl, inr, eq_iff, ℕ, zero, suc, ◌+◌, ◌-◌, String, Bool, true, false, ◌&&◌, ◌||◌,
  Option, none, some, List, [], ◌∷◌, eqb, ◌==◌, if◌then◌else◌,
}
use model_fleet_operator.Python.Text.{all_chars, is_digit, is_lower, ◌⧺◌}

pub record Command : Type 0 where
  pub verb : String
  pub kind : String
  pub namespace : Option String
  pub name : Option String
  pub confirmed : Bool

-- `Command(verb)` with the defaults of the other fields
abbrev pub plain : String → Option String → Command
plain verb namespace = record {
  verb = verb;
  kind = "inference";
  namespace = namespace;
  name = none;
  confirmed = false;
}

pub record AgentCommand : Type 0 where
  pub skill : String
  pub prompt : String

-- `x in {...}`
abbrev pub one_of : String → List String → Bool
one_of s [] = false
one_of s (t ∷ ts) = s == t || one_of s ts

elim_or : {A : Type 0} (a b : Bool) → (a ≡ true → A) → (a || b) ≡ true → A ⊎ (b ≡ true)
elim_or true b f h = inl (f refl)
elim_or false b f h = inr h

pub one_of-cons :
    (s t : String) (ts : List String) → one_of s (t ∷ ts) ≡ true → (s ≡ t) ⊎ (one_of s ts ≡ true)
one_of-cons s t ts h = elim_or (s == t) (one_of s ts) ((eq_iff s t).0) h

abbrev pub is_alnum : ℕ → Bool
is_alnum c = is_lower c || is_digit c

-- `re.fullmatch(r"[a-z0-9][a-z0-9._-]*", skill)`
unfoldable pub is_skill : String → Bool
is_skill String.[] = false
is_skill (String.◌∷◌ c s) =
    is_alnum (code c) && all_chars (λ k. is_alnum k || eqb k b'.' || eqb k b'_' || eqb k b'-') s

-- The rest of a name: characters of a name, the last of them no dash.
name_rest : ℕ → String → Bool
name_rest last String.[] = is_alnum last
name_rest last (String.◌∷◌ c s) = (is_alnum (code c) || eqb (code c) b'-') && name_rest (code c) s

-- `re.fullmatch(r"[a-z0-9]([-a-z0-9]*[a-z0-9])?", name)`
unfoldable pub is_resource_name : String → Bool
unfolding name_rest
is_resource_name String.[] = false
is_resource_name (String.◌∷◌ c s) = is_alnum (code c) && name_rest (code c) s

-- The number of characters before the first `>`.
until_close : String → Option ℕ
until_close String.[] = none
until_close (String.◌∷◌ c s) =
    let rest = until_close s in
    if eqb (code c) b'>' then some 0 else elim rest [ none ↦ none | some n ↦ some (n + 1) ]

abbrev closed_length : Option ℕ → ℕ
closed_length none = 0
closed_length (some zero) = 0
closed_length (some (suc n)) = n + 4

-- The length of the match of `<@[^>]+>` at the head of a text, or 0.
mention_length : String → ℕ
unfolding until_close
mention_length (String.◌∷◌ c (String.◌∷◌ d s)) =
    if eqb (code c) b'<' && eqb (code d) b'@' then closed_length (until_close s) else 0
mention_length s = 0

-- `re.sub(r"<@[^>]+>", "", text)`; `skip` characters belong to a match that is being left out.
without_from : ℕ → String → String
unfolding mention_length
without_from skip String.[] = String.[]
without_from (suc skip) (String.◌∷◌ c s) = without_from skip s
without_from zero (String.◌∷◌ c s) =
    let n = mention_length (String.◌∷◌ c s) in
    let rest = without_from (n - 1) s in if eqb n 0 then String.◌∷◌ c rest else rest

unfoldable pub without_mentions : String → String
unfolding without_from
without_mentions s = without_from 0 s

-- `_canonical`: an f-string shows a missing name as `None`.
abbrev pub or_none : Option String → String
or_none none = "None"
or_none (some s) = s

unfoldable pub canonical : Command → String
canonical c =
    let middle = if one_of c.kind ("training" ∷ "agent" ∷ []) then " " ⧺ c.kind else "" in
    c.verb ⧺ middle ⧺ " " ⧺ or_none c.namespace ⧺ "/" ⧺ or_none c.name
