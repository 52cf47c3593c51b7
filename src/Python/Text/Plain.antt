-- ===== src/Python/Text/Plain.antt =====
-- Texts of which every character is of some kind, and what the text methods leave as it is.
use Prim.Native.Char.{Char, code}
use Prim.Native.String.append
use Prim.Native.String.compare
use text.Mathlib.Text.{is_eq}
use text.Mathlib.TextLemmas.{append-nil}
use model_fleet_operator.Prelude.{
  ℕ, String, ◌≡◌, refl, sym, ap, subst, ◌∙◌, Bool, true, false, not, ◌&&◌, some, List, [], ◌∷◌, All,
  eqb, leb, ◌==◌, if◌then◌else◌, arith,
}
use model_fleet_operator.Python.Text.{
  ◌⧺◌, single, all_chars, join, is_space, lower, lower_char, lstrip, rstrip, strip, cut,
}

pub and_elim : (a b : Bool) → (a && b) ≡ true → (a ≡ true) × (b ≡ true)
and_elim true b h = (refl, h)
and_elim false b h = absurd (ground arith)

and_intro : (a b : Bool) → a ≡ true → b ≡ true → (a && b) ≡ true
and_intro a b h k = rw (h, k)

pub all_chars_weaken :
    (p q : ℕ → Bool) (s : String)
    → ((c : ℕ) → p c ≡ true → q c ≡ true)
    → all_chars p s ≡ true
    → all_chars q s ≡ true
all_chars_weaken p q String.[] f h = refl
all_chars_weaken p q (String.◌∷◌ c s) f h =
    let (first, others) = and_elim (p (code c)) (all_chars p s) h in
    and_intro _ _ (f (code c) first) (all_chars_weaken p q s f others)

pub all_chars_append :
    (p : ℕ → Bool) (s t : String)
    → all_chars p s ≡ true
    → all_chars p t ≡ true
    → all_chars p (s ⧺ t) ≡ true
all_chars_append p String.[] t h k = ap (all_chars p) (append.nil t) ∙ k
all_chars_append p (String.◌∷◌ c s) t h k =
    let (first, others) = and_elim (p (code c)) (all_chars p s) h in
    ap (all_chars p) (append.cons c s t) ∙ and_intro _ _ first (all_chars_append p s t others k)

pub all_chars-join :
    (p : ℕ → Bool) (sep : String) (words : List String)
    → all_chars p sep ≡ true
    → All (λ w. all_chars p w ≡ true) words
    → all_chars p (join sep words) ≡ true
unfolding join
all_chars-join p sep [] s h = refl
all_chars-join p sep (w ∷ []) s h = h.0
all_chars-join p sep (w ∷ v ∷ vs) s h =
    all_chars_append p w _ h.0 (all_chars_append p sep _ s (all_chars-join p sep (v ∷ vs) s h.1))

-- At least one character.
abbrev pub IsNonempty : String → Type 0
IsNonempty String.[] = ⊥
IsNonempty (String.◌∷◌ c s) = Unit

pub IsNonempty-eq_empty : (s : String) → IsNonempty s → (s == "") ≡ false
IsNonempty-eq_empty String.[] h = absurd h
IsNonempty-eq_empty (String.◌∷◌ c s) h = ap is_eq (compare.cons-nil c s)

pub append_empty : (s t : String) → IsNonempty t → (s ⧺ t == "") ≡ false
append_empty String.[] t h = ap (λ x. x == "") (append.nil t) ∙ IsNonempty-eq_empty t h
append_empty (String.◌∷◌ c s) t h =
    ap (λ x. x == "") (append.cons c s t) ∙ ap is_eq (compare.cons-nil c (s ⧺ t))

abbrev pub is_ink : ℕ → Bool
is_ink c = not (is_space c)

pub not-true : (b : Bool) → not b ≡ true → b ≡ false
not-true true h = cc
not-true false h = refl

lstrip_append : (w s : String) → IsNonempty w → all_chars is_ink w ≡ true → lstrip (w ⧺ s) ≡ w ⧺ s
unfolding lstrip
lstrip_append String.[] s n h = absurd n
lstrip_append (String.◌∷◌ c w) s n h =
    let (first, _) = and_elim (is_ink (code c)) (all_chars is_ink w) h in
    ap lstrip (append.cons c w s)
    ∙ ap (λ b. if b then lstrip (w ⧺ s) else String.◌∷◌ c (w ⧺ s))
        (not-true (is_space (code c)) first)
    ∙ sym (append.cons c w s)

rstrip_ink : (w : String) → all_chars is_ink w ≡ true → rstrip w ≡ w
unfolding rstrip
rstrip_ink String.[] h = refl
rstrip_ink (String.◌∷◌ c w) h =
    let (first, others) = and_elim (is_ink (code c)) (all_chars is_ink w) h in
    ap (λ b. if b && rstrip w == "" then "" else String.◌∷◌ c (rstrip w))
      (not-true (is_space (code c)) first)
    ∙ ap (λ t. String.◌∷◌ c t) (rstrip_ink w others)

no_blank_end : (b c : Bool) (x y : String) → c ≡ false → (if b && c then x else y) ≡ y
no_blank_end true c x y h = ap (λ d. if d then x else y) h
no_blank_end false c x y h = refl

rstrip_append : (s t : String) → IsNonempty t → rstrip t ≡ t → rstrip (s ⧺ t) ≡ s ⧺ t
unfolding rstrip
rstrip_append String.[] t n h = ap rstrip (append.nil t) ∙ h ∙ sym (append.nil t)
rstrip_append (String.◌∷◌ c s) t n h =
    let ih = rstrip_append s t n h in
    ap rstrip (append.cons c s t)
    ∙ no_blank_end (is_space (code c)) (rstrip (s ⧺ t) == "") _ _
        (ap (λ x. x == "") ih ∙ append_empty s t n)
    ∙ ap (λ x. String.◌∷◌ c x) ih
    ∙ sym (append.cons c s t)

pub IsNonempty-append : (s t : String) → IsNonempty t → IsNonempty (s ⧺ t)
IsNonempty-append String.[] t h = subst IsNonempty (sym (append.nil t)) h
IsNonempty-append (String.◌∷◌ c s) t h = subst IsNonempty (sym (append.cons c s t)) tt

-- A word has a character, and no white space.
abbrev pub IsInked : String → Type 0
IsInked w = IsNonempty w × (all_chars is_ink w ≡ true)

IsNonempty-join :
    (sep w : String) (words : List String)
    → IsInked w
    → All IsInked words
    → IsNonempty (join sep (w ∷ words))
unfolding join
IsNonempty-join sep w [] h hs = h.0
IsNonempty-join sep w (v ∷ vs) h hs =
    IsNonempty-append w _ (IsNonempty-append sep _ (IsNonempty-join sep v vs hs.0 hs.1))

rstrip-join :
    (sep w : String) (words : List String)
    → IsInked w
    → All IsInked words
    → rstrip (join sep (w ∷ words)) ≡ join sep (w ∷ words)
unfolding join
rstrip-join sep w [] h hs = rstrip_ink w h.1
rstrip-join sep w (v ∷ vs) h hs =
    let last = IsNonempty-join sep v vs hs.0 hs.1 in
    rstrip_append w (sep ⧺ join sep (v ∷ vs)) (IsNonempty-append sep _ last)
      (rstrip_append sep (join sep (v ∷ vs)) last (rstrip-join sep v vs hs.0 hs.1))

lstrip-join :
    (sep w : String) (words : List String)
    → IsInked w
    → lstrip (join sep (w ∷ words)) ≡ join sep (w ∷ words)
unfolding join
lstrip-join sep w [] h = ap lstrip (sym (append-nil w)) ∙ lstrip_append w "" h.0 h.1 ∙ append-nil w
lstrip-join sep w (v ∷ vs) h = lstrip_append w _ h.0 h.1

-- A line of words begins and ends with no white space.
pub strip-join :
    (sep w : String) (words : List String)
    → IsInked w
    → All IsInked words
    → strip (join sep (w ∷ words)) ≡ join sep (w ∷ words)
unfolding strip
strip-join sep w words h hs = ap rstrip (lstrip-join sep w words h) ∙ rstrip-join sep w words h hs

abbrev pub is_no_capital : ℕ → Bool
is_no_capital c = not (leb b'A' c && leb c b'Z')

lower_char-no_capital : (c : Char) → is_no_capital (code c) ≡ true → lower_char c ≡ single c
unfolding lower_char
lower_char-no_capital c h = rw (not-true (leb b'A' (code c) && leb (code c) b'Z') h) refl

pub lower_no_capital : (s : String) → all_chars is_no_capital s ≡ true → lower s ≡ s
unfolding lower
lower_no_capital String.[] h = refl
lower_no_capital (String.◌∷◌ c s) h =
    let (first, others) = and_elim (is_no_capital (code c)) (all_chars is_no_capital s) h in
    ap (λ x. x ⧺ lower s) (lower_char-no_capital c first)
    ∙ append.cons c String.[] (lower s)
    ∙ ap (λ x. String.◌∷◌ c x) (append.nil (lower s) ∙ lower_no_capital s others)

-- A text is cut at its first slash.
pub cut_slash :
    (s t : String)
    → all_chars (λ c. not (eqb c b'/')) s ≡ true
    → cut b'/' (s ⧺ "/" ⧺ t) ≡ some (s, t)
unfolding cut
cut_slash String.[] t h =
    ap (cut b'/') (append.nil ("/" ⧺ t) ∙ append.cons "/" String.[] t)
    ∙ ap (λ x. some ("", x)) (append.nil t)
cut_slash (String.◌∷◌ c s) t h =
    let (first, others) =
      and_elim (not (eqb (code c) b'/')) (all_chars (λ c. not (eqb c b'/')) s) h in
    ap (cut b'/') (append.cons c s ("/" ⧺ t))
    ∙ (rw (not-true (eqb (code c) b'/') first, cut_slash s t others) refl)
