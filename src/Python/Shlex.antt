-- ===== src/Python/Shlex.antt =====
-- `shlex.split`: POSIX mode, words split at white space, no comments.
pub mod Quote
pub mod Words
use Prim.Native.Char.{Char, code}
use model_fleet_operator.Prelude.{
  ℕ, String, Bool, true, false, not, ◌&&◌, ◌||◌, List, [], ◌∷◌, ◌++◌, eqb, ◌==◌, if◌then◌else◌,
}
use model_fleet_operator.Python.Text.{◌⧺◌, single}
use model_fleet_operator.Python.Result.{Result, ok, err, ◌>>=◌, value_error}

-- Between words, in a word, in quotes of a kind, and behind a backslash in a word or in quotes.
pub data Mode : Type 0 where
  blank word escaped : Mode
  quote escaped_in : (mark : ℕ) → Mode

pub record Lexer : Type 0 where
  pub mode : Mode
  pub quoted : Bool
  pub token : String
  pub emitted : List String

abbrev is_blank : ℕ → Bool
is_blank c = eqb c 32 || eqb c 9 || eqb c 13 || eqb c 10

abbrev is_quote : ℕ → Bool
is_quote c = eqb c 34 || eqb c 39

abbrev is_escape : ℕ → Bool
is_escape c = eqb c 92

-- A token is given out if it has characters or was quoted.
abbrev emit : Bool → String → List String
emit quoted token = if quoted || not (token == "") then token ∷ [] else []

abbrev lexer : Mode → Bool → String → Lexer
lexer mode quoted token = record { mode = mode; quoted = quoted; token = token; emitted = [] }

-- One character outside quotes.
pub open_step : Bool → String → Char → Lexer
open_step quoted token c =
    if is_blank (code c)
    then record { mode = blank; quoted = false; token = ""; emitted = emit quoted token }
    else if is_escape (code c)
    then lexer escaped quoted token
    else if is_quote (code c)
    then lexer (quote (code c)) quoted token
    else lexer word quoted (token ⧺ single c)

pub lex_step : Mode → Bool → String → Char → Lexer
unfolding open_step
lex_step blank quoted token c = open_step quoted token c
lex_step word quoted token c = open_step quoted token c
lex_step escaped quoted token c = lexer word quoted (token ⧺ single c)
lex_step (quote mark) quoted token c =
    if eqb (code c) mark
    then lexer word true token
    else if is_escape (code c) && eqb mark 34
    then lexer (escaped_in mark) true token
    else lexer (quote mark) true (token ⧺ single c)
lex_step (escaped_in mark) quoted token c =
    if is_escape (code c) || eqb (code c) mark
    then lexer (quote mark) quoted (token ⧺ single c)
    else lexer (quote mark) quoted (token ⧺ "\\" ⧺ single c)

pub lex_end : Mode → Bool → String → Result (List String)
lex_end blank quoted token = ok (emit quoted token)
lex_end word quoted token = ok (emit quoted token)
lex_end escaped quoted token = err (value_error "No escaped character")
lex_end (quote mark) quoted token = err (value_error "No closing quotation")
lex_end (escaped_in mark) quoted token = err (value_error "No escaped character")

pub lex_from : Mode → Bool → String → String → Result (List String)
lex_from mode quoted token String.[] = lex_end mode quoted token
lex_from mode quoted token (String.◌∷◌ c s) =
    let next = lex_step mode quoted token c in
    lex_from next.mode next.quoted next.token s >>= λ rest. ok (next.emitted ++ rest)

unfoldable pub shlex_split : String → Result (List String)
unfolding lex_from lex_step lex_end
shlex_split s = lex_from blank false "" s
