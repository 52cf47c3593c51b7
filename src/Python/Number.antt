-- ===== src/Python/Number.antt =====
-- Python's numbers: `int()`, `max()` and the tests on a value's type that the program makes.
use Prim.Native.Char.{code}
use model_fleet_operator.Prelude.{
  ℕ, zero, suc, ◌+◌, ◌-◌, ◌*◌, ◌^◌, ◌/◌, ◌%◌, String, Bool, true, false, ◌&&◌, Option, none, some,
  eqb, if◌then◌else◌, ℤ, pos, negsuc, leb_ℤ,
}
use model_fleet_operator.Python.Text.{is_digit, strip}
use model_fleet_operator.Python.Value.{Value, bool, int, float, str}
use model_fleet_operator.Python.Double.{unit, is_finite, is_negative, magnitude}
use model_fleet_operator.Python.Equality.{units}
use model_fleet_operator.Python.Result.{Result, ok, err, type_error, value_error, overflow_error}

-- `isinstance(v, int) and not isinstance(v, bool) and v >= 1`, with the number.
unfoldable pub positive_whole : Value → Option ℕ
positive_whole (int (pos zero)) = none
positive_whole (int (pos (suc n))) = some (suc n)
positive_whole _ = none

abbrev negate : ℕ → ℤ
negate zero = pos 0
negate (suc n) = negsuc n

-- The digits of a text for `int()`; one `_` may stand between two digits.
digits_value : ℕ → Bool → String → Option ℕ
digits_value n digit_last String.[] = if digit_last then some n else none
digits_value n digit_last (String.◌∷◌ c s) =
    let k = code c in
    let underscore = digits_value n false s in
    let digit = digits_value (n * 10 + (k - b'0')) true s in
    if is_digit k then digit else if eqb k b'_' && digit_last then underscore else none

signed : (ℕ → ℤ) → Option ℕ → Result ℤ
signed sign none = err (value_error "invalid literal for int()")
signed sign (some n) = ok (sign n)

-- `int(text)`
unfoldable pub parse_int : String → Result ℤ
unfolding digits_value signed strip
parse_int text = parse_stripped (strip text)
  where
    parse_stripped : String → Result ℤ
    parse_stripped String.[] = signed pos none
    parse_stripped (String.◌∷◌ c s) =
        if eqb (code c) b'-'
        then signed negate (digits_value 0 false s)
        else if eqb (code c) b'+'
        then signed pos (digits_value 0 false s)
        else signed pos (digits_value 0 false (String.◌∷◌ c s))

-- `int(v)`; a `float` is truncated towards zero.
unfoldable pub to_int : Value → Result ℤ
unfolding parse_int is_finite magnitude unit
to_int (bool true) = ok (pos 1)
to_int (bool false) = ok (pos 0)
to_int (int n) = ok n
to_int (float bits) =
    if is_finite bits
    then ok ((if is_negative bits then negate else pos) (magnitude bits / unit))
    else if eqb (bits % 2 ^ 52) 0
    then err overflow_error
    else err (value_error "cannot convert float NaN to integer")
to_int (str s) = parse_int s
to_int _ = err type_error

-- `max(a, b)`, which keeps `a` unless `b` is larger. Texts and lists are not compared by the program.
unfoldable pub max_value : Value → Value → Result Value
unfolding units
max_value a b = larger (units a) (units b)
  where
    larger : Option ℤ → Option ℤ → Result Value
    larger (some m) (some n) = ok (if leb_ℤ n m then a else b)
    larger _ _ = err type_error
