-- ===== src/Python/Shlex/Quote/Read.antt =====
-- `shlex.split` reads a quoted text back as one word.
use Prim.Native.Char.{code}
use Prim.Native.String.append
use Prim.Native.String.compare
use text.Mathlib.Text.{is_eq}
use text.Mathlib.TextLemmas.{append-nil, append_assoc}
use model_fleet_operator.Prelude.{
  ℕ, String, ◌≡◌, refl, sym, ap, ◌∙◌, Bool, true, false, not, ◌&&◌, ◌||◌, List, [], ◌∷◌, ◌++◌, All,
  eqb, ◌==◌, eq_iff, subst, if◌then◌else◌, arith,
}
use model_fleet_operator.Python.Text.{◌⧺◌, all_chars}
use model_fleet_operator.Python.Result.{Result, ok, err, ◌>>=◌}
use model_fleet_operator.Python.Shlex.Words.{
  IsWord, is_plain, bind_ok, and-elim, word_run, word_end, emit-word,
}
use model_fleet_operator.Python.Shlex.{blank, word, emit, open_step, lex_step, lex_end, lex_from}
use model_fleet_operator.Python.Shlex.Quote.{is_safe, escape_quotes, enclose, shlex_quote}
use model_fleet_operator.Python.Shlex.Quote.Inside.{enclosed_run}

equal_codes : (c k : ℕ) → eqb c k ≡ true → c ≡ k
equal_codes c k h = ground arith

plain_if :
    (a b c d e f g : Bool)
    → a ≡ false
    → b ≡ false
    → c ≡ false
    → d ≡ false
    → e ≡ false
    → f ≡ false
    → g ≡ false
    → (not (a || b || c || d) && (not (e || f) && not g)) ≡ true
plain_if a b c d e f g ha hb hc hd he hf hg = rw (ha, hb, hc, hd, he, hf, hg) refl

eqb-false :
    (b : Bool) (c k : ℕ) → eqb c k ≡ b → is_safe k ≡ false → is_safe c ≡ true → eqb c k ≡ false
eqb-false true c k e out inside =
    let same = equal_codes c k e in
    absurd (let clash = sym inside ∙ ap is_safe same ∙ out in ground arith)
eqb-false false c k e out inside = e

safe-plain : (c : ℕ) → is_safe c ≡ true → is_plain c ≡ true
safe-plain c h =
    let other = λ (k : ℕ) (out : is_safe k ≡ false). eqb-false (eqb c k) c k refl out h in
    plain_if _ _ _ _ _ _ _ (other 32 refl) (other 9 refl) (other 13 refl) (other 10 refl)
      (other 34 refl) (other 39 refl) (other 92 refl)

all_safe-plain : (s : String) → all_chars is_safe s ≡ true → all_chars is_plain s ≡ true
all_safe-plain String.[] h = refl
all_safe-plain (String.◌∷◌ c s) h =
    let (first, others) = and-elim (is_safe (code c)) (all_chars is_safe s) h in
    let a = safe-plain (code c) first in let b = all_safe-plain s others in rw (a, b) refl

all_chars-append :
    (f : ℕ → Bool) (p s : String)
    → all_chars f p ≡ true
    → all_chars f s ≡ true
    → all_chars f (p ⧺ s) ≡ true
all_chars-append f String.[] s hp hs = ap (all_chars f) (append.nil s) ∙ hs
all_chars-append f (String.◌∷◌ c p) s hp hs =
    let (first, others) = and-elim (f (code c)) (all_chars f p) hp in
    let b = all_chars-append f p s others hs in
    ap (all_chars f) (append.cons c p s) ∙ rw (first, b) refl

-- Where a quoted text behind plain characters leaves the lexer: in a word that is given out.
pub record Lexed (p s piece : String) : Type 0 where
  pub quoted : Bool
  pub run :
      (rest : String)
      → lex_from blank false "" (p ⧺ piece ⧺ rest) ≡ lex_from word quoted (p ⧺ s) rest
  pub given : emit quoted (p ⧺ s) ≡ (p ⧺ s) ∷ []

enclosed-Lexed : (p s : String) → all_chars is_plain p ≡ true → Lexed p s (enclose s)
enclosed-Lexed p s h = record { quoted = true; run = λ rest. enclosed_run p s rest h; given = refl }

-- A nonempty text of plain characters is a word.
plain-IsWord : (t : String) → (t == "") ≡ false → all_chars is_plain t ≡ true → IsWord t
plain-IsWord String.[] nonempty h = absurd (ground arith)
plain-IsWord (String.◌∷◌ c t) nonempty h = h

append-nonempty : (p s : String) → (s == "") ≡ false → ((p ⧺ s) == "") ≡ false
append-nonempty String.[] s h = ap (λ t. t == "") (append.nil s) ∙ h
append-nonempty (String.◌∷◌ c p) s h =
    ap (λ t. t == "") (append.cons c p s) ∙ ap is_eq (compare.cons-nil c (p ⧺ s))

safe-Lexed :
    (p s : String)
    → all_chars is_plain p ≡ true
    → (s == "") ≡ false
    → all_chars is_safe s ≡ true
    → Lexed p s s
safe-Lexed p s hp nonempty hs =
    let both = all_chars-append is_plain p s hp (all_safe-plain s hs) in
    let whole = plain-IsWord (p ⧺ s) (append-nonempty p s nonempty) both in
    record {
      quoted = false;
      run = λ rest.
          ap (lex_from blank false "") (sym (append_assoc p s rest)) ∙ word_run (p ⧺ s) rest whole;
      given = emit-word (p ⧺ s) whole;
    }

empty_text : (p : String) → all_chars is_plain p ≡ true → Lexed p "" "''"
unfolding escape_quotes
empty_text p h = enclosed-Lexed p "" h

-- `shlex.quote` makes one word of any text.
quoted-Lexed :
    (empty safe : Bool) (p s : String)
    → all_chars is_plain p ≡ true
    → (s == "") ≡ empty
    → all_chars is_safe s ≡ safe
    → Lexed p s (if empty then "''" else if safe then s else enclose s)
quoted-Lexed true safe p s hp e h =
    subst (λ t. Lexed p t "''") (sym ((eq_iff s "").0 e)) (empty_text p hp)
quoted-Lexed false true p s hp e h = safe-Lexed p s hp e h
quoted-Lexed false false p s hp e h = enclosed-Lexed p s hp

pub shlex_quote-Lexed : (p s : String) → all_chars is_plain p ≡ true → Lexed p s (shlex_quote s)
unfolding shlex_quote
shlex_quote-Lexed p s h = quoted-Lexed (s == "") (all_chars is_safe s) p s h refl refl

-- A quoted text behind plain characters, and a blank: one word.
pub quoted_word :
    (p s rest : String)
    → all_chars is_plain p ≡ true
    → lex_from blank false "" (p ⧺ shlex_quote s ⧺ " " ⧺ rest)
      ≡ (lex_from blank false "" rest >>= λ words. ok ((p ⧺ s) ∷ words))
unfolding lex_from lex_step open_step
quoted_word p s rest h =
    let read = shlex_quote-Lexed p s h in
    read.run (" " ⧺ rest)
    ∙ ap (lex_from word read.quoted (p ⧺ s))
        (append.cons " " "" rest ∙ ap (λ t. String.◌∷◌ " " t) (append.nil rest))
    ∙ ap (λ l. lex_from blank false "" rest >>= λ words. ok (l ++ words)) read.given

pub quoted_last :
    (p s : String)
    → all_chars is_plain p ≡ true
    → lex_from blank false "" (p ⧺ shlex_quote s) ≡ ok ((p ⧺ s) ∷ [])
unfolding lex_from lex_end
quoted_last p s h =
    let read = shlex_quote-Lexed p s h in
    ap (λ t. lex_from blank false "" (p ⧺ t)) (sym (append-nil (shlex_quote s)))
    ∙ read.run ""
    ∙ ap ok read.given

-- Words that stand for themselves, each with a blank behind.
abbrev pub spaced : List String → String
spaced [] = ""
spaced (w ∷ ws) = w ⧺ " " ⧺ spaced ws

bind_bind :
    {A : Type 0} (r : Result (List A)) (w : A) (ws : List A)
    → ((r >>= λ rest. ok (ws ++ rest)) >>= λ rest. ok (w ∷ rest))
      ≡ (r >>= λ rest. ok (w ∷ ws ++ rest))
bind_bind (ok l) w ws = refl
bind_bind (err e) w ws = refl

pub spaced_words :
    (words : List String) (rest : String)
    → All IsWord words
    → lex_from blank false "" (spaced words ⧺ rest)
      ≡ (lex_from blank false "" rest >>= λ more. ok (words ++ more))
spaced_words [] rest h = ap (lex_from blank false "") (append.nil rest) ∙ sym (bind_ok _)
spaced_words (w ∷ ws) rest h =
    ap (lex_from blank false "")
      (append_assoc w (" " ⧺ spaced ws) rest ∙ ap (λ t. w ⧺ t) (append_assoc " " (spaced ws) rest))
    ∙ word_run w (" " ⧺ spaced ws ⧺ rest) h.0
    ∙ word_end w (spaced ws ⧺ rest) h.0
    ∙ ap (λ r. r >>= λ more. ok (w ∷ more)) (spaced_words ws rest h.1)
    ∙ bind_bind _ w ws
