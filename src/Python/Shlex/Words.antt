-- ===== src/Python/Shlex/Words.antt =====
-- Words without quotes are split at the blanks between them.
use Prim.Native.Char.{Char, code}
use Prim.Native.String.append
use Prim.Native.String.compare
use text.Mathlib.TextLemmas.{append-nil, append_assoc}
use text.Mathlib.Text.{is_eq}
use model_fleet_operator.Prelude.{
  ℕ, String, ◌≡◌, refl, sym, ap, ◌∙◌, Bool, true, false, not, ◌&&◌, List, [], ◌∷◌, ◌++◌, All,
  if◌then◌else◌, arith,
}
use model_fleet_operator.Python.Text.{◌⧺◌, single, all_chars, join}
use model_fleet_operator.Python.Result.{Result, ok, err, ◌>>=◌}
use model_fleet_operator.Python.Shlex.{
  Lexer, lexer, blank, word, is_blank, is_quote, is_escape, emit, open_step, lex_step, lex_end,
  lex_from, shlex_split,
}

-- A character that stands for itself.
abbrev pub is_plain : ℕ → Bool
is_plain c = not (is_blank c) && (not (is_quote c) && not (is_escape c))

-- A word of such characters, and at least one.
abbrev pub IsWord : String → Type 0
IsWord String.[] = ⊥
IsWord (String.◌∷◌ c s) = all_chars is_plain (String.◌∷◌ c s) ≡ true

pub append-single : (t : String) (c : Char) (s : String) → (t ⧺ single c) ⧺ s ≡ t ⧺ String.◌∷◌ c s
append-single t c s =
    append_assoc t (single c) s
    ∙ ap (λ x. t ⧺ x) (append.cons c String.[] s ∙ ap (λ x. String.◌∷◌ c x) (append.nil s))

pub bind_ok : {A : Type 0} (r : Result (List A)) → (r >>= λ rest. ok ([] ++ rest)) ≡ r
bind_ok (ok l) = refl
bind_ok (err e) = refl

pub and-elim : (a b : Bool) → (a && b) ≡ true → (a ≡ true) × (b ≡ true)
and-elim true b h = (refl, h)
and-elim false b h = absurd (ground arith)

not_blank :
    (a b c : Bool) → (not a && (not b && not c)) ≡ true → (a ≡ false) × (c ≡ false) × (b ≡ false)
not_blank false false false h = (refl, refl, refl)
not_blank true b c h = absurd (ground arith)
not_blank false true c h = absurd (ground arith)
not_blank false false true h = absurd (ground arith)

open_plain :
    (token : String) (c : Char)
    → is_plain (code c) ≡ true
    → open_step false token c ≡ lexer word false (token ⧺ single c)
unfolding open_step
open_plain token c h = let b = not_blank (is_blank (code c)) _ _ h in rw (b.0, b.1, b.2) refl

-- The rest of a text after a step.
abbrev pub resume : Lexer → String → Result (List String)
resume l s = lex_from l.mode l.quoted l.token s >>= λ rest. ok (l.emitted ++ rest)

plain_step :
    (token : String) (c : Char) (s : String)
    → is_plain (code c) ≡ true
    → lex_from word false token (String.◌∷◌ c s) ≡ lex_from word false (token ⧺ single c) s
unfolding lex_from lex_step
plain_step token c s h = ap (λ l. resume l s) (open_plain token c h) ∙ bind_ok _

-- Within a word, plain characters are added to it.
plain_run :
    (token w s : String)
    → all_chars is_plain w ≡ true
    → lex_from word false token (w ⧺ s) ≡ lex_from word false (token ⧺ w) s
plain_run token String.[] s h =
    ap (lex_from word false token) (append.nil s)
    ∙ ap (λ t. lex_from word false t s) (sym (append-nil token))
plain_run token (String.◌∷◌ c w) s h =
    let (first, others) = and-elim (is_plain (code c)) (all_chars is_plain w) h in
    ap (lex_from word false token) (append.cons c w s)
    ∙ plain_step token c (w ⧺ s) first
    ∙ plain_run (token ⧺ single c) w s others
    ∙ ap (λ t. lex_from word false t s) (append-single token c w)

-- A word at the start of a word's place.
pub word_run : (w s : String) → IsWord w → lex_from blank false "" (w ⧺ s) ≡ lex_from word false w s
unfolding lex_from lex_step
word_run String.[] s h = absurd h
word_run (String.◌∷◌ c w) s h =
    let (first, others) = and-elim (is_plain (code c)) (all_chars is_plain w) h in
    ap (lex_from blank false "") (append.cons c w s)
    ∙ ap (λ l. resume l (w ⧺ s)) (open_plain "" c first)
    ∙ bind_ok _
    ∙ plain_run ("" ⧺ single c) w s others
    ∙ ap (λ t. lex_from word false t s) (append-single "" c w ∙ append.nil (String.◌∷◌ c w))

pub emit-word : (w : String) → IsWord w → emit false w ≡ w ∷ []
emit-word String.[] h = absurd h
emit-word (String.◌∷◌ c w) h =
    ap (λ b. if not b then String.◌∷◌ c w ∷ [] else []) (ap is_eq (compare.cons-nil c w))

-- A blank ends a word.
pub word_end :
    (w s : String)
    → IsWord w
    → lex_from word false w (" " ⧺ s) ≡ (lex_from blank false "" s >>= λ rest. ok (w ∷ rest))
unfolding lex_from lex_step open_step
word_end w s h =
    ap (lex_from word false w)
      (append.cons " " String.[] s ∙ ap (λ t. String.◌∷◌ " " t) (append.nil s))
    ∙ ap (λ l. lex_from blank false "" s >>= λ rest. ok (l ++ rest)) (emit-word w h)

-- Words that are joined by blanks are split again into the same words.
pub shlex_split-join :
    (words : List String) → All IsWord words → shlex_split (join " " words) ≡ ok words
unfolding shlex_split join lex_from lex_end
shlex_split-join [] h = refl
shlex_split-join (w ∷ []) h =
    ap (lex_from blank false "") (sym (append-nil w)) ∙ word_run w "" h.0 ∙ ap ok (emit-word w h.0)
shlex_split-join (w ∷ v ∷ vs) h =
    word_run w (" " ⧺ join " " (v ∷ vs)) h.0
    ∙ word_end w (join " " (v ∷ vs)) h.0
    ∙ ap (λ r. r >>= λ rest. ok (w ∷ rest)) (shlex_split-join (v ∷ vs) h.1)
