-- ===== src/Python/Text.antt =====
-- Python's `str` methods that the program calls, character by character. The case methods and the
-- white space are those of ASCII.
pub mod Plain
use Prim.Native.Char.{Char, code}
use Prim.Native.String
use model_fleet_operator.Prelude.{
  ℕ, zero, suc, ◌+◌, ◌-◌, ◌/◌, ◌%◌, String, Option, none, some, Bool, true, false, ◌&&◌, ◌||◌, List,
  [], ◌∷◌, ltb, leb, eqb, if◌then◌else◌, ◌==◌, any, ℤ, pos, negsuc,
}

infixr 65 ◌⧺◌
abbrev pub ◌⧺◌ : String → String → String
s ⧺ t = String.◌++◌ s t

abbrev pub single : Char → String
single c = String.◌∷◌ c String.[]

-- The characters of a text, each a text.
unfoldable pub chars : String → List String
chars String.[] = []
chars (String.◌∷◌ c s) = single c ∷ chars s

abbrev pub all_chars : (ℕ → Bool) → String → Bool
all_chars p String.[] = true
all_chars p (String.◌∷◌ c s) = p (code c) && all_chars p s

abbrev pub is_digit : ℕ → Bool
is_digit c = leb b'0' c && leb c b'9'

abbrev pub is_lower : ℕ → Bool
is_lower c = leb b'a' c && leb c b'z'

abbrev pub is_space : ℕ → Bool
is_space c = eqb c 32 || (leb 9 c && leb c 13) || (leb 28 c && leb c 31)

-- The text of an upper-case letter in lower case.
lower_char : Char → String
lower_char c =
    let n = code c in
    if leb b'A' n && leb n b'Z' then letter (n - b'A') "abcdefghijklmnopqrstuvwxyz" else single c
  where
    letter : ℕ → String → String
    letter i String.[] = single c
    letter zero (String.◌∷◌ d s) = single d
    letter (suc i) (String.◌∷◌ d s) = letter i s

unfoldable pub lower : String → String
unfolding lower_char
lower String.[] = String.[]
lower (String.◌∷◌ c s) = lower_char c ⧺ lower s

unfoldable pub lstrip : String → String
lstrip String.[] = String.[]
lstrip (String.◌∷◌ c s) = let rest = lstrip s in if is_space (code c) then rest else String.◌∷◌ c s

unfoldable pub rstrip : String → String
rstrip String.[] = String.[]
rstrip (String.◌∷◌ c s) =
    let rest = rstrip s in if is_space (code c) && rest == "" then "" else String.◌∷◌ c rest

unfoldable pub strip : String → String
unfolding lstrip rstrip
strip s = rstrip (lstrip s)

-- `s.split(c, 1)` and `s.partition(c)`: what stands before and after the first `c`, if there is one.
unfoldable pub cut : ℕ → String → Option (String × String)
cut c String.[] = none
cut c (String.◌∷◌ d s) =
    let rest = cut c s in
    if eqb (code d) c
    then some ("", s)
    else elim rest [ none ↦ none | some (a, b) ↦ some (String.◌∷◌ d a, b) ]

-- `s.split(c)`: the current piece first.
split_at : ℕ → String → String × List String
split_at c String.[] = ("", [])
split_at c (String.◌∷◌ d s) =
    let (piece, more) = split_at c s in
    if eqb (code d) c then ("", piece ∷ more) else (String.◌∷◌ d piece, more)

unfoldable pub split : ℕ → String → List String
unfolding split_at
split c s = let (piece, more) = split_at c s in piece ∷ more

-- `s.startswith(c)` for one character
abbrev pub starts_with_char : ℕ → String → Bool
starts_with_char c String.[] = false
starts_with_char c (String.◌∷◌ d s) = eqb (code d) c

-- `len(s)`
unfoldable pub length_of : String → ℕ
length_of String.[] = 0
length_of (String.◌∷◌ c s) = length_of s + 1

-- `s[:n]`
unfoldable pub prefix : ℕ → String → String
prefix zero s = String.[]
prefix (suc n) String.[] = String.[]
prefix (suc n) (String.◌∷◌ c s) = String.◌∷◌ c (prefix n s)

-- The texts in `set(words)`.
abbrev pub distinct : List String → List String
distinct [] = []
distinct (w ∷ ws) = let rest = distinct ws in if any (λ v. v == w) rest then rest else w ∷ rest

-- `" ".join(parts)` and the like
unfoldable pub join : String → List String → String
join sep [] = ""
join sep (s ∷ []) = s
join sep (s ∷ t ∷ r) = s ⧺ sep ⧺ join sep (t ∷ r)

digit : ℕ → String
digit n =
    if eqb n 0
    then "0"
    else if eqb n 1
    then "1"
    else if eqb n 2
    then "2"
    else if eqb n 3
    then "3"
    else if eqb n 4
    then "4"
    else if eqb n 5
    then "5"
    else if eqb n 6
    then "6"
    else if eqb n 7
    then "7"
    else if eqb n 8
    then "8"
    else "9"

-- Decimal digits, the last one first; a number has no more of them than its value, or one.
digits_from : ℕ → ℕ → String → String
digits_from zero n acc = acc
digits_from (suc fuel) n acc =
    let acc' = digit (n % 10) ⧺ acc in
    let more = digits_from fuel (n / 10) acc' in if ltb n 10 then acc' else more

unfoldable pub decimal : ℕ → String
unfolding digits_from digit
decimal n = digits_from (suc n) n ""

unfoldable pub decimal_ℤ : ℤ → String
unfolding decimal
decimal_ℤ (pos n) = decimal n
decimal_ℤ (negsuc n) = "-" ⧺ decimal (suc n)
