-- ===== src/Python/Shlex/Quote.antt =====
-- `shlex.quote`.
pub mod Inside
pub mod Read
use Prim.Native.Char.{Char, code}
use Prim.Native.String.append
use Prim.Native.String.compare
use text.Mathlib.Text.{is_eq}
use text.Mathlib.TextEquality.{Char-path}
use text.Mathlib.TextLemmas.{append-nil, append_assoc}
use model_fleet_operator.Prelude.{
  ℕ, String, ◌≡◌, refl, sym, ap, ◌∙◌, Bool, true, false, not, ◌&&◌, ◌||◌, List, [], ◌∷◌, ◌++◌, All,
  eqb, leb, ◌==◌, eq_iff, subst, if◌then◌else◌, arith,
}
use model_fleet_operator.Python.Text.{◌⧺◌, single, all_chars, is_digit, is_lower}
use model_fleet_operator.Python.Result.{Result, ok, err, ◌>>=◌}
use model_fleet_operator.Python.Shlex.Words.{
  IsWord, is_plain, resume, bind_ok, append-single, and-elim, word_run, word_end, emit-word,
}
use model_fleet_operator.Python.Shlex.{
  Mode, lexer, blank, word, quote, is_escape, emit, open_step, lex_step, lex_end, lex_from,
}

-- The characters that need no quotes: letters, digits and `_@%+=:,./-`.
abbrev pub is_safe : ℕ → Bool
is_safe c =
    is_lower c
    || (leb b'A' c && leb c b'Z')
    || is_digit c
    || eqb c b'_'
    || eqb c b'@'
    || eqb c b'%'
    || eqb c b'+'
    || eqb c b'='
    || eqb c b':'
    || eqb c b','
    || eqb c b'.'
    || eqb c b'/'
    || eqb c b'-'

-- `s.replace("'", "'\"'\"'")`
unfoldable pub escape_quotes : String → String
escape_quotes String.[] = String.[]
escape_quotes (String.◌∷◌ c s) =
    let rest = escape_quotes s in if eqb (code c) 39 then "'\"'\"'" ⧺ rest else String.◌∷◌ c rest

abbrev pub enclose : String → String
enclose s = "'" ⧺ escape_quotes s ⧺ "'"

unfoldable pub shlex_quote : String → String
unfolding escape_quotes
shlex_quote s = if s == "" then "''" else if all_chars is_safe s then s else enclose s
