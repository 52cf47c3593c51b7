-- ===== src/Python/Object.antt =====
-- The operations on dictionaries and lists, with the exceptions that they raise on other values.
use text.Mathlib.Text.{starts_with}
use model_fleet_operator.Prelude.{
  any, ◌||◌, ◌==◌, String, none, some, Bool, true, false, List, [], ◌∷◌, ◌++◌, map,
}
use model_fleet_operator.Python.Value.{
  Value, Fields, is_text, null, str, arr, obj, items, array, keys, find, put,
}
use model_fleet_operator.Python.Text.{chars}
use model_fleet_operator.Python.Result.{Result, ok, err, attribute_error, type_error, key_error}

-- `v.get(k, default)`: the default stands for a missing key, not for a stored `None`.
unfoldable pub get_or : Value → String → Value → Result Value
unfolding find
get_or (obj fs) k d = ok (elim (find k fs) [ none ↦ d | some v ↦ v ])
get_or _ k d = err attribute_error

unfoldable pub get : Value → String → Result Value
unfolding get_or
get v k = get_or v k null

-- `v[k]`
unfoldable pub item : Value → String → Result Value
unfolding find
item (obj fs) k = elim (find k fs) [ none ↦ err (key_error k) | some v ↦ ok v ]
item _ k = err type_error

-- `v[k] = w`
unfoldable pub store : Value → String → Value → Result Value
unfolding put
store (obj fs) k w = ok (obj (put k w fs))
store _ k w = err type_error

-- `v.setdefault(k, d)`: the value found or stored, and the dictionary afterwards.
unfoldable pub setdefault : Value → String → Value → Result (Value × Value)
unfolding find put
setdefault (obj fs) k d =
    ok (elim (find k fs) [ none ↦ (d, obj (put k d fs)) | some v ↦ (v, obj fs) ])
setdefault _ k d = err attribute_error

-- `for x in v`: the elements of a list, the keys of a dict, the characters of a text.
unfoldable pub iterate : Value → Result (List Value)
iterate (arr vs) = ok (items vs)
iterate (obj fs) = ok (map str (keys fs))
iterate (str s) = ok (map str (chars s))
iterate _ = err type_error

-- `v.append(w)`
unfoldable pub append : Value → Value → Result Value
append (arr vs) w = ok (arr (array (items vs ++ w ∷ [])))
append _ w = err attribute_error

unfoldable pub has_key : String → Fields → Bool
unfolding find
has_key k fs = elim (find k fs) [ none ↦ false | some v ↦ true ]

-- `t in s` for two texts.
unfoldable pub has_substring : String → String → Bool
has_substring String.[] t = t == ""
has_substring (String.◌∷◌ c s) t = starts_with (String.◌∷◌ c s) t || has_substring s t

-- `text in v`
unfoldable pub contains : Value → String → Result Bool
unfolding has_substring has_key
contains (arr vs) t = ok (any (λ v. is_text v t) (items vs))
contains (obj fs) t = ok (has_key t fs)
contains (str s) t = ok (has_substring s t)
contains _ t = err type_error
