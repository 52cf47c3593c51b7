-- ===== src/Python/Double.antt =====
-- Python's `float` on the values that are not negative: IEEE 754 binary64, rounded to nearest, ties
-- to even. `fin n` is n / 2 ^ 1074, so that every finite double is a whole number of units.
use model_fleet_operator.Prelude.{
  ℕ, zero, suc, ◌+◌, ◌-◌, ◌*◌, ◌/◌, ◌%◌, ◌^◌, Bool, not, ◌&&◌, ◌||◌, ltb, leb, eqb, if◌then◌else◌,
}
use model_fleet_operator.Python.Result.{Result, ok, err, overflow_error}

pub data Double : Type 0 where
  fin : ℕ → Double
  inf : Double

-- One, in units.
unfoldable pub unit : ℕ
unit = 2 ^ 1074

-- The number of binary digits of n, if the fuel is at least that.
bit_length : ℕ → ℕ → ℕ
bit_length zero n = 0
bit_length (suc fuel) n = let rest = suc (bit_length fuel (n / 2)) in if eqb n 0 then 0 else rest

-- A product of two finite doubles has fewer digits than this.
fuel_bits : ℕ
fuel_bits = 4400

-- num / den to the nearest whole number of steps of the size d, ties to even.
unfoldable pub nearest : ℕ → ℕ → ℕ
nearest num den =
    let q = num / den in
    let r = num % den in if ltb den (2 * r) || (eqb den (2 * r) && eqb (q % 2) 1) then q + 1 else q

too_large : ℕ → Double
unfolding unit
too_large n = if leb (2 ^ 1024 * unit) n then inf else fin n

-- num / den units, rounded to 53 binary digits.
round : ℕ → ℕ → Double
unfolding bit_length fuel_bits nearest too_large
round num den =
    let shift = bit_length fuel_bits (num / den) - 53 in
    too_large (nearest num (den * 2 ^ shift) * 2 ^ shift)

unfoldable pub add : Double → Double → Double
unfolding round
add (fin a) (fin b) = round (a + b) 1
add _ _ = inf

unfoldable pub mul : Double → Double → Double
unfolding round unit
mul (fin a) (fin b) = round (a * b) unit
mul _ _ = inf

-- The divisor is finite and positive wherever the program divides.
unfoldable pub div : Double → Double → Double
unfolding round unit
div (fin a) (fin b) = round (a * unit) b
div _ _ = inf

unfoldable pub of_ℕ : ℕ → Double
unfolding round unit
of_ℕ n = round (n * unit) 1

-- The double nearest to num / den.
unfoldable pub of_ratio : ℕ → ℕ → Double
unfolding round unit
of_ratio num den = round (num * unit) den

abbrev finite : Double → Result Double
finite (fin n) = ok (fin n)
finite inf = err overflow_error

-- `int` to `float`: too large a number raises `OverflowError`.
unfoldable pub to_double : ℕ → Result Double
unfolding of_ℕ
to_double n = finite (of_ℕ n)

-- `math.ceil`
unfoldable pub ceil : Double → Result ℕ
unfolding unit
ceil (fin n) = ok ((n + (unit - 1)) / unit)
ceil inf = err overflow_error

abbrev exponent : ℕ → ℕ
exponent bits = bits / 2 ^ 52 % 2 ^ 11

abbrev mantissa : ℕ → ℕ
mantissa bits = bits % 2 ^ 52

abbrev pub is_negative : ℕ → Bool
is_negative bits = leb (2 ^ 63) bits

-- `math.isfinite`
unfoldable pub is_finite : ℕ → Bool
is_finite bits = not (eqb (exponent bits) 2047)

-- The magnitude of a finite bit pattern, in units.
unfoldable pub magnitude : ℕ → ℕ
magnitude bits =
    if eqb (exponent bits) 0
    then mantissa bits
    else (mantissa bits + 2 ^ 52) * 2 ^ (exponent bits - 1)

-- Of the patterns that are not finite, the infinities have no mantissa; the others are NaN.
unfoldable pub is_infinite : ℕ → Bool
is_infinite bits = eqb (mantissa bits) 0

-- The difference of a double and one that is not larger.
unfoldable pub sub : Double → Double → Double
unfolding round
sub (fin a) (fin b) = round (a - b) 1
sub _ _ = inf
