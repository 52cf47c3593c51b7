-- ===== src/Python/Value.antt =====
-- Python's run-time values, as JSON documents and Kubernetes objects hold them. A `dict` keeps its
-- insertion order. A `float` is its IEEE 754 binary64 bit pattern.
use model_fleet_operator.Prelude.{
  ℕ, String, Bool, true, false, Option, none, some, List, [], ◌∷◌, ℤ, ◌==◌, if◌then◌else◌, eqb, pos,
  ◌||◌, ◌^◌, not, eqb_ℤ,
}

mutual
  pub data Value : Type 0 where
    null : Value
    bool : Bool → Value
    int : ℤ → Value
    float : ℕ → Value
    str : String → Value
    arr : Items → Value
    obj : Fields → Value

  pub data Items : Type 0 where
    nil : Items
    cons : (head : Value) → (tail : Items) → Items

  pub data Fields : Type 0 where
    end : Fields
    field : (key : String) → (value : Value) → (more : Fields) → Fields

abbrev pub items : Items → List Value
items nil = []
items (cons v vs) = v ∷ items vs

abbrev pub array : List Value → Items
array [] = nil
array (v ∷ vs) = cons v (array vs)

abbrev pub keys : Fields → List String
keys end = []
keys (field k v fs) = k ∷ keys fs

-- A dictionary display; its keys are distinct literals.
abbrev pub fields : List (String × Value) → Fields
fields [] = end
fields ((k, v) ∷ l) = field k v (fields l)

abbrev pub dict : List (String × Value) → Value
dict l = obj (fields l)

abbrev pub list : List Value → Value
list l = arr (array l)

unfoldable pub find : String → Fields → Option Value
find k end = none
find k (field j v fs) = if j == k then some v else find k fs

-- `d[k] = v`: an old key keeps its place, a new one comes last.
unfoldable pub put : String → Value → Fields → Fields
put k v end = field k v end
put k v (field j w fs) = if j == k then field j v fs else field j w (put k v fs)

-- Python's truth test. 0 and 2 ^ 63 are the patterns of 0.0 and -0.0.
unfoldable pub truthy : Value → Bool
truthy null = false
truthy (bool b) = b
truthy (int n) = not (eqb_ℤ n (pos 0))
truthy (float bits) = not (eqb bits 0 || eqb bits (2 ^ 63))
truthy (str s) = not (s == "")
truthy (arr nil) = false
truthy (arr (cons v vs)) = true
truthy (obj end) = false
truthy (obj (field k v fs)) = true

abbrev pub is_null : Value → Bool
is_null null = true
is_null _ = false

abbrev pub is_obj : Value → Bool
is_obj (obj fs) = true
is_obj _ = false

abbrev pub is_str : Value → Bool
is_str (str s) = true
is_str _ = false

-- `v == "text"`: only a `str` is equal to a `str`.
abbrev pub is_text : Value → String → Bool
is_text (str s) t = s == t
is_text _ t = false

abbrev pub or_null : Option Value → Value
or_null none = null
or_null (some v) = v

abbrev pub field_of : String → Value → Option Value
field_of k (obj fs) = find k fs
field_of k _ = none

abbrev pub under : (Value → Option Value) → Option Value → Option Value
under f none = none
under f (some v) = f v

-- What stands under a path of keys, for statements about built objects.
unfoldable pub at : List String → Value → Option Value
at [] v = some v
at (k ∷ ks) v = under (at ks) (field_of k v)

-- `d.get(k, default)` where `d` is known to be a dictionary.
unfoldable pub find_or : String → Value → Fields → Value
unfolding find
find_or k d fs = elim (find k fs) [ none ↦ d | some v ↦ v ]
