-- ===== src/Python/Equality.antt =====
-- `==` on values. Numbers are compared by value across `bool`, `int` and `float`, dictionaries
-- without their order. (A `float` that is not a number differs from all; an infinite one is taken
-- as larger than every finite one, in units.)
use model_fleet_operator.Prelude.{
  ℕ, suc, ◌*◌, ◌^◌, ◌%◌, Bool, true, false, ◌&&◌, ◌||◌, Option, none, some, List, [], ◌∷◌, ℤ, pos,
  negsuc, eqb, eqb_ℤ, if◌then◌else◌, length,
}
use model_fleet_operator.Python.Value.{
  Value, Items, Fields, null, bool, int, float, str, arr, obj, nil, cons, end, field, find, is_text,
  is_null, keys,
}
use model_fleet_operator.Python.Double.{unit, is_finite, is_negative, magnitude}

abbrev signed_units : Bool → ℕ → ℤ
signed_units true (suc n) = negsuc n
signed_units _ n = pos n

-- A number in units of 2 ^ -1074; `none` for what is not one.
unfoldable pub units : Value → Option ℤ
unfolding unit is_finite magnitude
units (bool true) = some (pos unit)
units (bool false) = some (pos 0)
units (int (pos n)) = some (pos (n * unit))
units (int (negsuc n)) = some (signed_units true (suc n * unit))
units (float bits) =
    if is_finite bits
    then some (signed_units (is_negative bits) (magnitude bits))
    else if eqb (bits % 2 ^ 52) 0
    then some (signed_units (is_negative bits) (2 ^ 3000))
    else none
units _ = none

abbrev same_number : Option ℤ → Option ℤ → Bool
same_number (some a) (some b) = eqb_ℤ a b
same_number _ _ = false

unfoldable mutual
  unfolding units find

  pub same : Value → Value → Bool
  same null w = is_null w
  same (str s) w = is_text w s
  same (arr xs) (arr ys) = same_items xs ys
  same (obj fs) (obj gs) = eqb (length (keys fs)) (length (keys gs)) && same_fields fs gs
  same (arr xs) w = false
  same (obj fs) w = false
  same v w = same_number (units v) (units w)

  pub same_items : Items → Items → Bool
  same_items nil nil = true
  same_items (cons v vs) (cons w ws) = same v w && same_items vs ws
  same_items vs ws = false

  pub same_fields : Fields → Fields → Bool
  same_fields end gs = true
  same_fields (field k v fs) gs =
      elim (find k gs) [ none ↦ false | some w ↦ same v w ] && same_fields fs gs

-- `v in l` for a list or a set of values
unfoldable pub member : Value → List Value → Bool
unfolding same
member v [] = false
member v (w ∷ l) = same v w || member v l
