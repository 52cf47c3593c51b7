-- ===== src/Resources/Gpu.antt =====
-- resources.py: the GPU classes and the memory that each selected GPU must have.
pub mod Classes
use model_fleet_operator.Prelude.{
  ℕ, zero, suc, String, Bool, true, false, not, Option, none, some, List, [], ◌∷◌, ◌==◌, ℤ, pos,
  negsuc, leb_ℤ, leb, eqb, ◌&&◌, ◌*◌, max, if◌then◌else◌,
}
use model_fleet_operator.Python.Text.{◌⧺◌}
use model_fleet_operator.Python.Value.{
  Value, Items, null, int, float, arr, str, truthy, is_null, is_text,
}
use model_fleet_operator.Python.Result.{Result, ok, err, ◌>>=◌, ◌>>◌, raise_if, require, invalid}
use model_fleet_operator.Python.Object.{get, get_or, iterate}
use model_fleet_operator.Python.Number.{positive_whole}
use model_fleet_operator.Python.Double.{
  Double, fin, inf, unit, add, mul, div, of_ℕ, to_double, ceil, is_finite, is_negative, magnitude,
}
use model_fleet_operator.Python.Library.{Library, show}

abbrev pub gpu_class_label : String
gpu_class_label = "model-fleet.sqe.io/gpu-class"

abbrev pub gpu_product_label : String
gpu_product_label = "nvidia.com/gpu.product"

-- `GPU_CLASS_CAPACITY_GIB.get(name)`: "gpu-80gb-plus" has no bound.
unfoldable pub gpu_class_capacity : String → Option ℕ
gpu_class_capacity name =
    if name == "gpu-24gb"
    then some 24
    else if name == "gpu-48gb"
    then some 48
    else if name == "gpu-80gb"
    then some 80
    else none

abbrev pub class_table : List (ℕ × String)
class_table = (24, "gpu-24gb") ∷ (48, "gpu-48gb") ∷ (80, "gpu-80gb") ∷ []

-- The loop of `gpu_class`.
first_class : ℤ → List (ℕ × String) → String
first_class minimum [] = "gpu-80gb-plus"
first_class minimum ((upper_bound, name) ∷ rest) =
    if leb_ℤ minimum (pos upper_bound) then name else first_class minimum rest

unfoldable pub gpu_class : ℤ → Result String
unfolding first_class
gpu_class minimum =
    if leb_ℤ minimum (pos 0)
    then err (invalid "spec.accelerator.minimumMemoryGiB must be positive")
    else ok (first_class minimum class_table)

-- A finite number that is not negative, as a `float`; `none` for any other value. `math.isfinite`
-- of too large an `int` raises.
unfoldable pub finite_number : Value → Result (Option Double)
unfolding to_double is_finite magnitude
finite_number (int (pos n)) = do d ← to_double n; ok (some d)
finite_number (int (negsuc n)) = do d ← to_double (suc n); ok none
finite_number (float bits) =
    if is_finite bits && not (is_negative bits && not (eqb (magnitude bits) 0))
    then ok (some (fin (magnitude bits)))
    else ok none
finite_number _ = ok none

abbrev positive : Option Double → Option Double
positive (some (fin (suc n))) = some (fin (suc n))
positive _ = none

abbrev percentage : Option Double → Option Double
percentage (some (fin n)) = if leb n (100 * unit) then some (fin n) else none
percentage _ = none

-- The two totals of the loop over `modules`: sharded and replicated memory.
abbrev pub Totals : Type 0
Totals = Double × Double

-- The branches on `distribution`.
place : Library → Bool → Bool → Value → Double → Totals → Result Totals
place lib sharded replicated name gib (sharded_gib, replicated_gib) =
    if sharded
    then ok (add sharded_gib gib, replicated_gib)
    else if replicated
    then ok (sharded_gib, add replicated_gib gib)
    else err (
        invalid ("GPU fit module " ⧺ show lib name ⧺ " distribution must be sharded or replicated"))

declared_memory : Value → Result (Option ℕ)
declared_memory null = ok none
declared_memory v = do
  n ←
      require (positive_whole v)
        (invalid "spec.accelerator.minimumMemoryGiB must be a positive whole number")
  ok (some n)

-- `declared or 0`
abbrev pub or_zero : Option ℕ → ℕ
or_zero none = 0
or_zero (some n) = n

module _ (lib : Library) where
  -- One round of the loop over `modules`.
  add_module : Totals → Value → Result Totals
  unfolding finite_number truthy place
  add_module (sharded_gib, replicated_gib) m = do
    name ← get m "name"
    memory ← get m "memoryGiB"
    distribution ← get_or m "distribution" (str "replicated")
    raise_if (not (truthy name)) (invalid "each spec.accelerator.fit.modules entry requires name")
    number ← finite_number memory
    gib ←
        require (positive number)
          (invalid ("GPU fit module " ⧺ show lib name ⧺ " memoryGiB must be positive"))
    place lib (is_text distribution "sharded") (is_text distribution "replicated") name gib
        (sharded_gib, replicated_gib)

  pub sum_modules : Totals → List Value → Result Totals
  sum_modules totals [] = ok totals
  sum_modules totals (m ∷ rest) = do next ← add_module totals m; sum_modules next rest

  -- `math.ceil((sharded_gib / count + replicated_gib) * (1 + margin / 100))`
  unfoldable pub per_device : ℕ → Totals → Double → Result ℕ
  unfolding to_double ceil
  per_device count (sharded_gib, replicated_gib) margin = do
    devices ← to_double count
    ceil (mul (add (div sharded_gib devices) replicated_gib) (add (of_ℕ 1) (div margin (of_ℕ 100))))

  -- The part of `gpu_memory_requirement` from `modules = fit.get("modules", [])` on.
  pub fit_memory : ℕ → Option ℕ → Value → Result ℕ
  unfolding unit
  fit_memory count declared fit = do
    modules ← get_or fit "modules" (arr Items.nil)
    raise_if (not (truthy modules)) (invalid "spec.accelerator.fit.modules must not be empty")
    ms ← iterate modules
    totals ← sum_modules (fin 0, fin 0) ms
    margin ← get_or fit "safetyMarginPercent" (int (pos 10))
    number ← finite_number margin
    percent ←
        require (percentage number)
          (invalid "spec.accelerator.fit.safetyMarginPercent must be between 0 and 100")
    calculated ← per_device count totals percent
    ok (max (or_zero declared) calculated)

  abbrev pub requirement : ℕ → Option ℕ → Value → Result (Option ℕ)
  requirement count declared null = ok declared
  requirement count declared fit = do n ← fit_memory count declared fit; ok (some n)

  unfoldable pub gpu_memory_requirement : Value → Result (Option ℕ)
  unfolding declared_memory
  gpu_memory_requirement accelerator = do
    count ← get_or accelerator "count" (int (pos 1))
    n ←
        require (positive_whole count)
          (invalid "spec.accelerator.count must be a positive whole number")
    minimum ← get accelerator "minimumMemoryGiB"
    declared ← declared_memory minimum
    fit ← get accelerator "fit"
    requirement n declared fit
