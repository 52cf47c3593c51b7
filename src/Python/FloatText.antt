-- ===== src/Python/FloatText.antt =====
-- `float(text)`.
use Prim.Native.Char.{code}
use model_fleet_operator.Prelude.{
  ℕ, ◌+◌, ◌-◌, ◌*◌, ◌^◌, String, Bool, true, false, ◌||◌, Option, none, some, eqb, ◌==◌,
  if◌then◌else◌,
}
use model_fleet_operator.Python.Text.{is_digit, strip, lower}
use model_fleet_operator.Python.Double.{Double, inf, of_ratio}

-- A float; `minus` is the sign of one that is not NaN.
pub data Number : Type 0 where
  nan : Number
  number : (minus : Bool) → Double → Number

-- Where a decimal literal stands.
pub data Phase : Type 0 where
  intro int_digit int_under bare_dot dot frac_digit frac_under : Phase
  exp_mark exp_sign exp_digit exp_under bad : Phase

pub record Literal : Type 0 where
  pub phase : Phase
  pub mantissa : ℕ
  pub scale : ℕ
  pub exponent : ℕ
  pub exponent_minus : Bool

abbrev digit_or : ℕ → Phase → Phase → Phase
digit_or c p otherwise = if is_digit c then p else otherwise

abbrev is_e : ℕ → Bool
is_e c = eqb c b'e' || eqb c b'E'

abbrev is_sign : ℕ → Bool
is_sign c = eqb c b'+' || eqb c b'-'

next_phase : Phase → ℕ → Phase
next_phase intro c = digit_or c int_digit (if eqb c b'.' then bare_dot else bad)
next_phase int_digit c =
    digit_or c int_digit (
      if eqb c b'_'
      then int_under
      else if eqb c b'.'
      then dot
      else if is_e c
      then exp_mark
      else bad)
next_phase int_under c = digit_or c int_digit bad
next_phase bare_dot c = digit_or c frac_digit bad
next_phase dot c = digit_or c frac_digit (if is_e c then exp_mark else bad)
next_phase frac_digit c =
    digit_or c frac_digit (if eqb c b'_' then frac_under else if is_e c then exp_mark else bad)
next_phase frac_under c = digit_or c frac_digit bad
next_phase exp_mark c = digit_or c exp_digit (if is_sign c then exp_sign else bad)
next_phase exp_sign c = digit_or c exp_digit bad
next_phase exp_digit c = digit_or c exp_digit (if eqb c b'_' then exp_under else bad)
next_phase exp_under c = digit_or c exp_digit bad
next_phase bad c = bad

-- The character's part in the literal, by the phase that it leads to.
read_char : Phase → ℕ → Literal → Literal
read_char int_digit c l = record l { phase = int_digit; mantissa = l.mantissa * 10 + (c - b'0') }
read_char frac_digit c l = record l {
  phase = frac_digit;
  mantissa = l.mantissa * 10 + (c - b'0');
  scale = l.scale + 1;
}
read_char exp_digit c l = record l { phase = exp_digit; exponent = l.exponent * 10 + (c - b'0') }
read_char exp_sign c l = record l { phase = exp_sign; exponent_minus = eqb c b'-' }
read_char p c l = record l { phase = p }

read_literal : Literal → String → Literal
unfolding next_phase read_char
read_literal l String.[] = l
read_literal l (String.◌∷◌ c s) =
    read_literal (read_char (next_phase l.phase (code c)) (code c) l) s

value_of : Literal → Double
value_of l =
    if l.exponent_minus
    then of_ratio l.mantissa (10 ^ (l.scale + l.exponent))
    else of_ratio (l.mantissa * 10 ^ l.exponent) (10 ^ l.scale)

accepted : Phase → Bool
accepted int_digit = true
accepted dot = true
accepted frac_digit = true
accepted exp_digit = true
accepted _ = false

unsigned : Bool → String → Option Number
unfolding read_literal value_of accepted
unsigned minus s =
    let word = lower s in
    let l =
      read_literal
        (record { phase = intro; mantissa = 0; scale = 0; exponent = 0; exponent_minus = false })
        s in
    if word == "nan"
    then some nan
    else if word == "inf" || word == "infinity"
    then some (number minus inf)
    else if accepted l.phase
    then some (number minus (value_of l))
    else none

signed_text : String → Option Number
unfolding unsigned
signed_text String.[] = none
signed_text (String.◌∷◌ c s) =
    if eqb (code c) b'-'
    then unsigned true s
    else if eqb (code c) b'+'
    then unsigned false s
    else unsigned false (String.◌∷◌ c s)

-- `none` stands for `ValueError`.
unfoldable pub to_float : String → Option Number
unfolding signed_text strip lower of_ratio
to_float s = signed_text (strip s)
