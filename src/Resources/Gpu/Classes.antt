-- ===== src/Resources/Gpu/Classes.antt =====
-- What `gpu_class` and `gpu_memory_requirement` guarantee.
use model_fleet_operator.Prelude.{
  ℕ, ◌≤◌, ◌<◌, String, Option, none, some, List, [], ◌∷◌, ◌≡◌, pos, arith, All, refl, true, ◌⊎◌,
  inl, inr,
}
use model_fleet_operator.Python.Value.{Value, null, int}
use model_fleet_operator.Python.Result.{ok, >>=-eq-ok, require}
use model_fleet_operator.Python.Object.{get, get_or}
use model_fleet_operator.Python.Number.{positive_whole}
use model_fleet_operator.Python.Library.{Library}
use model_fleet_operator.Slack.Command.{one_of}
use model_fleet_operator.Resources.Gpu.{
  gpu_class, gpu_class_capacity, declared_memory, fit_memory, requirement, or_zero,
  gpu_memory_requirement,
}

-- A device of the class has at least the memory.
abbrev pub Fits : ℕ → Option ℕ → Type 0
Fits minimum none = Unit
Fits minimum (some capacity) = minimum ≤ capacity

abbrev pub class_names : List String
class_names = "gpu-24gb" ∷ "gpu-48gb" ∷ "gpu-80gb" ∷ "gpu-80gb-plus" ∷ []

abbrev pub NoLarger : Option ℕ → Option ℕ → Type 0
NoLarger a none = Unit
NoLarger none (some n) = ⊥
NoLarger (some m) (some n) = m ≤ n

-- `c` is one of the classes, fits the requirement `n`, and is a least one that does. The class without a
-- capacity is the one of devices that hold more than any of the others.
abbrev pub IsLeast : ℕ → String → Type 0
IsLeast n c =
    (one_of c class_names ≡ true)
    × Fits n (gpu_class_capacity c)
    × All
        (λ d.
          Fits n (gpu_class_capacity d) → NoLarger (gpu_class_capacity c) (gpu_class_capacity d))
        class_names

bands : (n : ℕ) → (n ≤ 24) ⊎ (24 < n) × (n ≤ 48) ⊎ (48 < n) × (n ≤ 80) ⊎ (80 < n)
bands n = omega arith

-- For each positive requirement, `gpu_class` returns one of the four GPU classes that fits it, and every
-- class that fits it has at least the capacity of the one returned.
pub gpu_class-IsLeast : (n : ℕ) → 0 < n → (c : String) × (gpu_class (pos n) ≡ ok c) × IsLeast n c
unfolding gpu_class gpu_class_capacity
gpu_class-IsLeast n h = elim (bands n) [
  | inl b ↦ ("gpu-24gb", ground arith, (refl, omega arith, omega arith))
  | inr (inl b) ↦ ("gpu-48gb", ground arith, (refl, omega arith, omega arith))
  | inr (inr (inl b)) ↦ ("gpu-80gb", ground arith, (refl, omega arith, omega arith))
  | inr (inr (inr b)) ↦ ("gpu-80gb-plus", ground arith, (refl, omega arith, omega arith))
]

fit_memory-ge-declared :
    (lib : Library) (count : ℕ) (declared : Option ℕ) (fit : Value) {n : ℕ}
    → fit_memory lib count declared fit ≡ ok n
    → or_zero declared ≤ n
unfolding fit_memory
fit_memory-ge-declared lib count declared fit h = ground arith

requirement-ge :
    (lib : Library) (count d : ℕ) (declared : Option ℕ) (fit : Value) {r : Option ℕ}
    → declared ≡ some d
    → requirement lib count declared fit ≡ ok r
    → (m : ℕ) × (r ≡ some m) × (d ≤ m)
requirement-ge lib count d declared null e h = (d, ground arith, omega arith)
requirement-ge lib count d declared fit e h =
    let (m, computed, same) = >>=-eq-ok (fit_memory lib count declared fit) _ h in
    (m, ground arith, ground (arith, fit_memory-ge-declared lib count declared fit computed))

declared_memory_int :
    (d : ℕ) (v : Value) {o : Option ℕ} → v ≡ int (pos d) → declared_memory v ≡ ok o → o ≡ some d
unfolding declared_memory positive_whole
declared_memory_int d v e h = ground arith

-- What is declared is never lowered: with `minimumMemoryGiB` d, a computed requirement is a number
-- of at least d.
gpu_memory_requirement-ge-declared :
    (lib : Library) (accelerator : Value) (d : ℕ) {r : Option ℕ}
    → get accelerator "minimumMemoryGiB" ≡ ok (int (pos d))
    → gpu_memory_requirement lib accelerator ≡ ok r
    → (m : ℕ) × (r ≡ some m) × (d ≤ m)
unfolding gpu_memory_requirement
gpu_memory_requirement-ge-declared lib accelerator d g h =
    let (count, _, h1) = >>=-eq-ok (get_or accelerator "count" (int (pos 1))) _ h in
    let (n, _, h2) = >>=-eq-ok (require (positive_whole count) _) _ h1 in
    let (minimum, is_minimum, h3) = >>=-eq-ok (get accelerator "minimumMemoryGiB") _ h2 in
    let (declared, is_declared, h4) = >>=-eq-ok (declared_memory minimum) _ h3 in
    let (fit, _, h5) = >>=-eq-ok (get accelerator "fit") _ h4 in
    requirement-ge lib n d declared fit
      (declared_memory_int d minimum (cc (g, is_minimum)) is_declared) h5
