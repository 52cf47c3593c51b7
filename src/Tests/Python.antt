-- ===== src/Tests/Python.antt =====
-- Runs of the Python operations.
use model_fleet_operator.Prelude.{◌≡◌, refl, pos}
use model_fleet_operator.Python.Result.{ok}
use model_fleet_operator.Python.Double.{of_ℕ, add, mul, div, ceil}
use model_fleet_operator.Python.Text.{decimal, lower, strip}
use model_fleet_operator.Python.Number.{parse_int}

-- `math.ceil(50 * (1 + 10 / 100))` is 56 in Python, and 11 for 10.
ceil_rounding :
    (ceil (mul (of_ℕ 50) (add (of_ℕ 1) (div (of_ℕ 10) (of_ℕ 100)))) ≡ ok 56)
    × (ceil (mul (of_ℕ 10) (add (of_ℕ 1) (div (of_ℕ 10) (of_ℕ 100)))) ≡ ok 11)
unfolding ceil mul of_ℕ add div
ceil_rounding = (refl, refl)

text_runs : (decimal 1207 ≡ "1207") × (lower "Wake-UP" ≡ "wake-up") × (strip "  a b " ≡ "a b")
unfolding decimal lower strip
text_runs = (refl, refl, refl)

int_runs : parse_int " 1_0 " ≡ ok (pos 10)
unfolding parse_int
int_runs = refl
