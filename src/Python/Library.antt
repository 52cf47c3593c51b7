-- ===== src/Python/Library.antt =====
-- The standard library's functions that are taken as they are: no theorem assumes a law of them.
use model_fleet_operator.Prelude.{String, true, false}
use model_fleet_operator.Python.Text.{decimal_ℤ}
use model_fleet_operator.Python.Value.{Value, null, bool, int, str}

-- `json.dumps(v, sort_keys=True, separators=(",", ":"))`, the hexadecimal SHA-256 digest of a text,
-- and `repr` of a float, a list or a dict.
pub record Library : Type 0 where
  pub dumps : Value → String
  pub sha256_hex : String → String
  pub repr : Value → String

-- `str(v)`
unfoldable pub show : Library → Value → String
unfolding decimal_ℤ
show lib null = "None"
show lib (bool true) = "True"
show lib (bool false) = "False"
show lib (int n) = decimal_ℤ n
show lib (str s) = s
show lib v = lib.repr v
