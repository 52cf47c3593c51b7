-- ===== src/Python/Signed.antt =====
-- Arithmetic of floats with their signs, `math.isfinite`, and the formats `.2f`, `,.2f` and the like.
use model_fleet_operator.Prelude.{
  ℕ, zero, suc, ◌*◌, ◌/◌, ◌%◌, ◌^◌, String, Bool, true, false, not, ◌&&◌, ◌||◌, eqb, ltb,
  if◌then◌else◌,
}
use model_fleet_operator.Python.Text.{◌⧺◌, decimal, length_of, single}
use model_fleet_operator.Python.Double.{Double, fin, inf, add, mul, div, sub, nearest, unit, of_ℕ}
use model_fleet_operator.Python.FloatText.{Number, nan, number}
use model_fleet_operator.Python.Compare.{double_le, is_zero}

abbrev pub zero_number : Number
zero_number = number false (fin 0)

-- A sum of opposite signs: the difference, with the sign of the larger; equal ones give 0.0.
abbrev cancel : Bool → Double → Double → Number
cancel minus inf inf = nan
cancel minus x y =
    if double_le x y && double_le y x
    then zero_number
    else if double_le y x
    then number minus (sub x y)
    else number (not minus) (sub y x)

unfoldable pub add_number : Number → Number → Number
unfolding add sub
add_number nan n = nan
add_number (number a x) nan = nan
add_number (number false x) (number false y) = number false (add x y)
add_number (number true x) (number true y) = number true (add x y)
add_number (number false x) (number true y) = cancel false x y
add_number (number true x) (number false y) = cancel true x y

abbrev differ : Bool → Bool → Bool
differ true b = not b
differ false b = b

abbrev is_inf : Double → Bool
is_inf inf = true
is_inf (fin n) = false

unfoldable pub mul_number : Number → Number → Number
unfolding mul
mul_number nan n = nan
mul_number (number a x) nan = nan
mul_number (number a x) (number b y) =
    if (is_inf x && is_zero y) || (is_zero x && is_inf y)
    then nan
    else number (differ a b) (mul x y)

-- `truthy` of a float
abbrev pub is_zero_number : Number → Bool
is_zero_number nan = false
is_zero_number (number minus x) = is_zero x

abbrev quotient : Bool → Double → Double → Number
quotient minus inf inf = nan
quotient minus (fin a) inf = number minus (fin 0)
quotient minus x y = number minus (div x y)

-- The divisor is not zero wherever the program divides.
unfoldable pub div_number : Number → Number → Number
unfolding div
div_number nan n = nan
div_number (number a x) nan = nan
div_number (number a x) (number b y) = quotient (differ a b) x y

-- `math.isfinite`
abbrev pub is_finite_number : Number → Bool
is_finite_number (number minus (fin n)) = true
is_finite_number n = false

-- A whole number as a float.
unfoldable pub whole : ℕ → Number
unfolding of_ℕ
whole n = number false (of_ℕ n)

-- The digits of `n`, with zeros in front up to `k` of them.
unfoldable pub padded : ℕ → String → String
padded zero s = s
padded (suc k) s = if ltb (length_of s) (suc k) then "0" ⧺ padded k s else s

-- Commas between groups of three digits.
unfoldable pub grouped : String → String
grouped String.[] = String.[]
grouped (String.◌∷◌ c s) =
    let rest = grouped s in
    let n = length_of s in single c ⧺ (if eqb (n % 3) 0 && not (eqb n 0) then "," ⧺ rest else rest)

abbrev after_point : (places : ℕ) → ℕ → String
after_point zero q = ""
after_point (suc k) q = "." ⧺ padded (suc k) (decimal (q % 10 ^ suc k))

unfoldable pub fixed : (commas : Bool) → (places : ℕ) → Number → String
unfolding decimal padded grouped nearest unit
fixed commas places nan = "nan"
fixed commas places (number minus inf) = if minus then "-inf" else "inf"
fixed commas places (number minus (fin n)) =
    let q = nearest (n * 10 ^ places) unit in
    let digits = decimal (q / 10 ^ places) in
    (if minus then "-" else "") ⧺ (if commas then grouped digits else digits) ⧺ after_point places q
