-- ===== src/Python/Shlex/Quote/Inside.antt =====
-- Within single quotes `shlex.split` reads an escaped text back.
use Prim.Native.Char.{Char, code}
use Prim.Native.String.append
use text.Mathlib.TextEquality.{Char-path}
use text.Mathlib.TextLemmas.{append-nil, append_assoc}
use model_fleet_operator.Prelude.{
  String, ◌≡◌, refl, sym, ap, ◌∙◌, Bool, true, false, ◌&&◌, eqb, if◌then◌else◌, arith,
}
use model_fleet_operator.Python.Text.{◌⧺◌, single, all_chars}
use model_fleet_operator.Python.Shlex.Words.{is_plain, resume, bind_ok, append-single, word_run}
use model_fleet_operator.Python.Shlex.{
  Mode, lexer, blank, word, quote, is_escape, open_step, lex_step, lex_from,
}
use model_fleet_operator.Python.Shlex.Quote.{escape_quotes, enclose}

-- A step that gives out no word.
silent :
    (m : Mode) (q : Bool) (t : String) {m' : Mode} {q' : Bool} {t' : String} (c : Char) (s : String)
    → lex_step m q t c ≡ lexer m' q' t'
    → lex_from m q t (String.◌∷◌ c s) ≡ lex_from m' q' t' s
unfolding lex_from
silent m q t c s h = ap (λ l. resume l s) h ∙ bind_ok _

if_not :
    {A : Type 0} (b e : Bool) (x y z : A)
    → b ≡ false
    → (if b then x else if e && false then z else y) ≡ y
if_not true e x y z h = absurd (ground arith)
if_not false true x y z h = refl
if_not false false x y z h = refl

quoted_char :
    (q : Bool) (token : String) (c : Char)
    → eqb (code c) 39 ≡ false
    → lex_step (quote 39) q token c ≡ lexer (quote 39) true (token ⧺ single c)
unfolding lex_step
quoted_char q token c h = if_not (eqb (code c) 39) (is_escape (code c)) _ _ _ h

mark_text :
    (s : String)
    → "'\"'\"'" ⧺ s
      ≡ String.◌∷◌ "'" (String.◌∷◌ "\"" (String.◌∷◌ "'" (String.◌∷◌ "\"" (String.◌∷◌ "'" s))))
mark_text s =
    append.cons "'" "\"'\"'" s
    ∙ ap (λ t. String.◌∷◌ "'" t)
        (append.cons "\"" "'\"'" s
          ∙ ap (λ t. String.◌∷◌ "\"" t)
              (append.cons "'" "\"'" s
                ∙ ap (λ t. String.◌∷◌ "'" t)
                    (append.cons "\"" "'" s
                      ∙ ap (λ t. String.◌∷◌ "\"" t)
                          (append.cons "'" "" s ∙ ap (λ t. String.◌∷◌ "'" t) (append.nil s)))))

-- A single quote that is escaped.
quoted_quote :
    (q : Bool) (token rest : String)
    → lex_from (quote 39) q token ("'\"'\"'" ⧺ rest) ≡ lex_from (quote 39) true (token ⧺ "'") rest
unfolding lex_step open_step
quoted_quote q token rest =
    ap (lex_from (quote 39) q token) (mark_text rest)
    ∙ silent _ _ _ {m' = word} {q' = true} {t' = token} "'" _ refl
    ∙ silent _ _ _ {m' = quote 34} {q' = true} {t' = token} "\"" _ refl
    ∙ silent _ _ _ {m' = quote 34} {q' = true} {t' = token ⧺ "'"} "'" _ refl
    ∙ silent _ _ _ {m' = word} {q' = true} {t' = token ⧺ "'"} "\"" _ refl
    ∙ silent _ _ _ {m' = quote 39} {q' = true} {t' = token ⧺ "'"} "'" _ refl

-- A single quote closes the quotes.
quoted_end :
    (q : Bool) (token rest : String)
    → lex_from (quote 39) q token ("'" ⧺ rest) ≡ lex_from word true token rest
unfolding lex_step
quoted_end q token rest =
    ap (lex_from (quote 39) q token)
      (append.cons "'" "" rest ∙ ap (λ t. String.◌∷◌ "'" t) (append.nil rest))
    ∙ silent _ _ _ {m' = word} {q' = true} {t' = token} "'" _ refl

quoted_next :
    (b q : Bool) (token : String) (c : Char) (s rest : String)
    → eqb (code c) 39 ≡ b
    → ((t : String)
        → lex_from (quote 39) true t (escape_quotes s ⧺ "'" ⧺ rest)
          ≡ lex_from word true (t ⧺ s) rest)
    → lex_from
        (quote 39)
        q
        token
        ((if b then "'\"'\"'" ⧺ escape_quotes s else String.◌∷◌ c (escape_quotes s)) ⧺ "'" ⧺ rest)
      ≡ lex_from word true (token ⧺ String.◌∷◌ c s) rest
quoted_next true q token c s rest e again =
    ap (lex_from (quote 39) q token) (append_assoc "'\"'\"'" (escape_quotes s) ("'" ⧺ rest))
    ∙ quoted_quote q token (escape_quotes s ⧺ "'" ⧺ rest)
    ∙ again (token ⧺ "'")
    ∙ ap (λ t. lex_from word true t rest) (append-single token "'" s)
    ∙ ap (λ k. lex_from word true (token ⧺ String.◌∷◌ k s) rest)
        (sym (Char-path c "'" (ground arith)))
quoted_next false q token c s rest e again =
    ap (lex_from (quote 39) q token) (append.cons c (escape_quotes s) ("'" ⧺ rest))
    ∙ silent _ _ _ {m' = quote 39} {q' = true} {t' = token ⧺ single c} c _ (quoted_char q token c e)
    ∙ again (token ⧺ single c)
    ∙ ap (λ t. lex_from word true t rest) (append-single token c s)

-- Within single quotes an escaped text is read back.
quoted_run :
    (s : String) (q : Bool) (token rest : String)
    → lex_from (quote 39) q token (escape_quotes s ⧺ "'" ⧺ rest)
      ≡ lex_from word true (token ⧺ s) rest
unfolding escape_quotes
quoted_run String.[] q token rest =
    ap (lex_from (quote 39) q token) (append.nil ("'" ⧺ rest))
    ∙ quoted_end q token rest
    ∙ ap (λ t. lex_from word true t rest) (sym (append-nil token))
quoted_run (String.◌∷◌ c s) q token rest =
    quoted_next (eqb (code c) 39) q token c s rest refl (λ t. quoted_run s true t rest)

-- A single quote opens quotes, at the start of a word or behind plain characters.
enter :
    (p rest : String)
    → all_chars is_plain p ≡ true
    → lex_from blank false "" (p ⧺ "'" ⧺ rest) ≡ lex_from (quote 39) false p rest
unfolding lex_step open_step
enter String.[] rest h =
    ap (lex_from blank false "") (
      append.nil ("'" ⧺ rest)
      ∙ append.cons "'" "" rest
      ∙ ap (λ t. String.◌∷◌ "'" t) (append.nil rest))
    ∙ silent _ _ _ {m' = quote 39} {q' = false} {t' = ""} "'" _ refl
enter (String.◌∷◌ c p) rest h =
    word_run (String.◌∷◌ c p) ("'" ⧺ rest) h
    ∙ ap (lex_from word false (String.◌∷◌ c p))
        (append.cons "'" "" rest ∙ ap (λ t. String.◌∷◌ "'" t) (append.nil rest))
    ∙ silent _ _ _ {m' = quote 39} {q' = false} {t' = String.◌∷◌ c p} "'" _ refl

pub enclosed_run :
    (p s rest : String)
    → all_chars is_plain p ≡ true
    → lex_from blank false "" (p ⧺ enclose s ⧺ rest) ≡ lex_from word true (p ⧺ s) rest
enclosed_run p s rest h =
    ap (λ t. lex_from blank false "" (p ⧺ t))
      (append_assoc "'" (escape_quotes s ⧺ "'") rest
        ∙ ap (λ t. "'" ⧺ t) (append_assoc (escape_quotes s) "'" rest))
    ∙ enter p (escape_quotes s ⧺ "'" ⧺ rest) h
    ∙ quoted_run s false p rest
