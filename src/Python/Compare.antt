-- ===== src/Python/Compare.antt =====
-- `float(v)` of a value, and `<=` of two floats.
use model_fleet_operator.Prelude.{
  Bool, true, false, ◌&&◌, eqb, leb, if◌then◌else◌, pos, negsuc, suc,
}
use model_fleet_operator.Python.Value.{Value, bool, int, float, str}
use model_fleet_operator.Python.Double.{
  Double, fin, inf, of_ℕ, to_double, is_negative, is_finite, magnitude, is_infinite,
}
use model_fleet_operator.Python.FloatText.{Number, nan, number, to_float}
use model_fleet_operator.Python.Result.{Result, ok, err, type_error, value_error, require, ◌>>=◌}

abbrev signed : Bool → Result Double → Result Number
signed minus d = d >>= λ x. ok (number minus x)

unfoldable pub number_of : Value → Result Number
unfolding to_float to_double of_ℕ is_finite magnitude is_infinite
number_of (bool true) = ok (number false (of_ℕ 1))
number_of (bool false) = ok (number false (of_ℕ 0))
number_of (int (pos n)) = signed false (to_double n)
number_of (int (negsuc n)) = signed true (to_double (suc n))
number_of (float bits) = ok (
    if is_finite bits
    then number (is_negative bits) (fin (magnitude bits))
    else if is_infinite bits
    then number (is_negative bits) inf
    else nan)
number_of (str s) = require (to_float s) (value_error "could not convert string to float")
number_of v = err type_error

abbrev pub double_le : Double → Double → Bool
double_le (fin a) (fin b) = leb a b
double_le d inf = true
double_le inf (fin b) = false

abbrev pub is_zero : Double → Bool
is_zero (fin a) = eqb a 0
is_zero inf = false

-- No comparison with NaN holds, and the two zeros are equal.
unfoldable pub number_le : Number → Number → Bool
number_le nan n = false
number_le (number a x) nan = false
number_le (number false x) (number false y) = double_le x y
number_le (number true x) (number true y) = double_le y x
number_le (number true x) (number false y) = true
number_le (number false x) (number true y) = is_zero x && is_zero y
