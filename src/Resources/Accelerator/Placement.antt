-- ===== src/Resources/Accelerator/Placement.antt =====
-- Where `_apply_accelerator` leaves its GPU class and count.
use model_fleet_operator.Prelude.{
  ℕ, zero, suc, String, Bool, true, false, not, Option, none, some, List, [], ◌∷◌, ◌≡◌, refl, pos,
  arith, subst, ◌∙◌, ◌==◌, ◌||◌, Bool-cases, inl, inr, if◌then◌else◌,
}
use model_fleet_operator.Python.Value.{
  Value, Fields, int, str, obj, dict, find, find_or, put, truthy, is_text, at,
}
use model_fleet_operator.Python.Result.{Result, ok, err, ◌>>=◌, >>=-eq-ok, raise_if-eq-ok, invalid}
use model_fleet_operator.Python.Object.{get, get_or, store, setdefault}
use model_fleet_operator.Python.Laws.{at-put_self, at-put_ne, at-nil, at-store_self, at-store_ne}
use model_fleet_operator.Python.Library.{Library}
use model_fleet_operator.Resources.Gpu.{
  gpu_class, gpu_class_capacity, gpu_class_label, gpu_product_label, gpu_memory_requirement,
}
use model_fleet_operator.Resources.Gpu.Classes.{Fits, class_names, gpu_class-IsLeast}
use model_fleet_operator.Slack.Command.{one_of}
use model_fleet_operator.Resources.Accelerator.{
  auto_class, named_class, select_class, exceeds, set_gpu_class, set_gpu_count, gpu_request,
  count_text, count_differs, check_products, excluded, require_product, apply_gpu_product_affinity,
  apply_products, apply_present, Applied,
}

-- No requirement is fitted by every class.
abbrev pub FitsRequirement : Option ℕ → Option ℕ → Type 0
FitsRequirement none capacity = Unit
FitsRequirement (some minimum) capacity = Fits minimum capacity

gpu_class_zero :
    gpu_class (pos zero) ≡ err (invalid "spec.accelerator.minimumMemoryGiB must be positive")
unfolding gpu_class
gpu_class_zero = refl

-- One of the GPU classes, whose capacity holds the requirement.
abbrev pub IsFittingClass : Option ℕ → String → Type 0
IsFittingClass minimum c =
    (one_of c class_names ≡ true) × FitsRequirement minimum (gpu_class_capacity c)

auto_class-Fits :
    (minimum : Option ℕ) {c : String} → auto_class minimum ≡ ok c → IsFittingClass minimum c
unfolding auto_class
auto_class-Fits none h = cc
auto_class-Fits (some zero) h = cc gpu_class_zero
auto_class-Fits (some (suc n)) {c} h =
    let (least, e, (known, fits, _)) = gpu_class-IsLeast (suc n) (omega arith) in
    let same : least ≡ c = cc (e, h) in subst (IsFittingClass (some (suc n))) same (known, fits)

not-exceeds-Fits :
    (minimum capacity : Option ℕ)
    → exceeds minimum capacity ≡ false
    → FitsRequirement minimum capacity
not-exceeds-Fits none capacity h = tt
not-exceeds-Fits (some n) none h = tt
not-exceeds-Fits (some n) (some c) h = ground arith

any_of_four :
    (a b c d : Bool) → not (a || b || c || d) ≡ false → (a || (b || (c || (d || false)))) ≡ true
any_of_four a b c d h = ground arith

-- The test of `named_class` is the membership in the list of classes.
listed :
    (name : String)
    → not
        (name == "gpu-24gb" || name == "gpu-48gb" || name == "gpu-80gb" || name == "gpu-80gb-plus")
      ≡ false
    → one_of name class_names ≡ true
listed name h =
    any_of_four (name == "gpu-24gb") (name == "gpu-48gb") (name == "gpu-80gb")
      (name == "gpu-80gb-plus") h

named_class-Fits :
    (lib : Library) (v : Value) (minimum : Option ℕ) {c : String}
    → named_class lib v minimum ≡ ok c
    → IsFittingClass minimum c
unfolding named_class
named_class-Fits lib (str name) minimum {c} h =
    let (unknown, h1) =
      raise_if-eq-ok
        (not (
          name == "gpu-24gb"
          || name == "gpu-48gb"
          || name == "gpu-80gb"
          || name == "gpu-80gb-plus"))
        _ _ h in
    let (fits, h2) = raise_if-eq-ok (exceeds minimum (gpu_class_capacity name)) _ _ h1 in
    let same : name ≡ c = cc h2 in
    subst (IsFittingClass minimum) same
      (listed name unknown, not-exceeds-Fits minimum (gpu_class_capacity name) fits)
named_class-Fits lib Value.null minimum h = cc
named_class-Fits lib _ minimum h = cc

-- Whatever is selected is a GPU class, and its devices hold the requirement.
pub select_class-Fits :
    (lib : Library) (v : Value) (minimum : Option ℕ) {c : String}
    → select_class lib v minimum ≡ ok c
    → IsFittingClass minimum c
unfolding select_class
select_class-Fits lib v minimum h = elim (Bool-cases (is_text v "auto")) [
  | inl auto ↦ auto_class-Fits minimum (rw auto at h)
  | inr named ↦ named_class-Fits lib v minimum (rw named at h)
]

abbrev pub class_path : List String
class_path = "nodeSelector" ∷ gpu_class_label ∷ []

set_gpu_class-at :
    (c : String) (pod : Fields) {pod' : Fields}
    → set_gpu_class c pod ≡ ok pod'
    → at class_path (obj pod') ≡ some (str c)
unfolding set_gpu_class
set_gpu_class-at c pod {pod'} h =
    let selector = find_or "nodeSelector" (dict []) pod in
    let (current, _, h1) = >>=-eq-ok (get_or selector gpu_class_label (str c)) _ h in
    let (_, h2) = raise_if-eq-ok (not (is_text current c)) _ _ h1 in
    let (selector', stored, h3) = >>=-eq-ok (store selector gpu_class_label (str c)) _ h2 in
    let same : put "nodeSelector" selector' pod ≡ pod' = cc h3 in
    rw (← same) (
      at-put_self "nodeSelector" selector' (gpu_class_label ∷ []) pod
      ∙ at-store_self selector gpu_class_label (str c) [] stored
      ∙ at-nil (str c))

affinity-keeps_class :
    (b : Bool) (m : Result Value) (pod : Fields) {pod' : Fields}
    → (if b then ok pod else (m >>= λ a. ok (put "affinity" a pod))) ≡ ok pod'
    → at class_path (obj pod') ≡ at class_path (obj pod)
affinity-keeps_class true m pod h = ground arith
affinity-keeps_class false (ok a) pod {pod'} h =
    let same : put "affinity" a pod ≡ pod' = cc h in
    rw (← same) (at-put_ne "affinity" "nodeSelector" a (gpu_class_label ∷ []) pod refl)
affinity-keeps_class false (err e) pod h = cc

apply_products-keeps_class :
    (products : Option Value) (pod : Fields) {pod' : Fields}
    → apply_products products pod ≡ ok pod'
    → at class_path (obj pod') ≡ at class_path (obj pod)
unfolding apply_gpu_product_affinity
apply_products-keeps_class none pod h = ground arith
apply_products-keeps_class (some products) pod h =
    let (_, _, h1) = >>=-eq-ok (check_products products) _ h in
    let (selected, _, h2) =
      >>=-eq-ok (get (find_or "nodeSelector" (dict []) pod) gpu_product_label) _ h1 in
    let (clash, _, h3) = >>=-eq-ok (excluded selected products) _ h2 in
    let (_, h4) = raise_if-eq-ok clash _ _ h3 in
    affinity-keeps_class (truthy selected)
      (require_product products (find_or "affinity" (dict []) pod)) pod h4

abbrev pub request_path : List String
request_path = "resources" ∷ "requests" ∷ "nvidia.com/gpu" ∷ []

abbrev pub limit_path : List String
limit_path = "resources" ∷ "limits" ∷ "nvidia.com/gpu" ∷ []

set_gpu_count-at :
    (count : Value) (c : Fields) {c' : Fields}
    → set_gpu_count count c ≡ ok c'
    → (at request_path (obj c') ≡ some (str (count_text count)))
      × (at limit_path (obj c') ≡ some (str (count_text count)))
unfolding set_gpu_count
set_gpu_count-at count c {c'} h =
    let resources = find_or "resources" (dict []) c in
    let ((requests, resources1), _, h1) =
      >>=-eq-ok (setdefault resources "requests" (dict [])) _ h in
    let ((limits, resources2), _, h2) = >>=-eq-ok (setdefault resources1 "limits" (dict [])) _ h1 in
    let (existing, _, h3) = >>=-eq-ok (gpu_request requests count) _ h2 in
    let (_, h4) = raise_if-eq-ok (count_differs existing count) _ _ h3 in
    let text = str (count_text count) in
    let (requests', in_requests, h5) = >>=-eq-ok (store requests "nvidia.com/gpu" text) _ h4 in
    let (limits', in_limits, h6) = >>=-eq-ok (store limits "nvidia.com/gpu" text) _ h5 in
    let (resources3, first, h7) = >>=-eq-ok (store resources2 "requests" requests') _ h6 in
    let (resources4, second, h8) = >>=-eq-ok (store resources3 "limits" limits') _ h7 in
    let same : put "resources" resources4 c ≡ c' = cc h8 in
    rw (← same) (
      at-put_self "resources" resources4 ("requests" ∷ "nvidia.com/gpu" ∷ []) c
          ∙ at-store_ne resources3 "limits" "requests" limits' ("nvidia.com/gpu" ∷ []) refl second
          ∙ at-store_self resources2 "requests" requests' ("nvidia.com/gpu" ∷ []) first
          ∙ at-store_self requests "nvidia.com/gpu" text [] in_requests
          ∙ at-nil text,
      at-put_self "resources" resources4 ("limits" ∷ "nvidia.com/gpu" ∷ []) c
          ∙ at-store_self resources3 "limits" limits' ("nvidia.com/gpu" ∷ []) second
          ∙ at-store_self limits "nvidia.com/gpu" text [] in_limits
          ∙ at-nil text,
    )

-- What holds of the pod and of the container that `_apply_accelerator` leaves.
pub record IsPlaced (accelerator : Fields) (r : Applied) : Type 0 where
  pub gpu_class : String
  pub fits : IsFittingClass r.minimum_memory gpu_class
  pub selected : at class_path (obj r.pod_spec) ≡ some (str gpu_class)
  pub requested :
      at request_path (obj r.container)
      ≡ some (str (count_text (find_or "count" (int (pos 1)) accelerator)))
  pub limited :
      at limit_path (obj r.container)
      ≡ some (str (count_text (find_or "count" (int (pos 1)) accelerator)))

-- When `_apply_accelerator` succeeds on an accelerator, the pod's node selector names one of the four GPU
-- classes, whose capacity holds the memory requirement that is returned, and the container's GPU request and
-- limit are both the accelerator's count.
pub apply_present-IsPlaced :
    (lib : Library) (accelerator pod container : Fields) {r : Applied}
    → apply_present lib accelerator pod container ≡ ok r
    → IsPlaced accelerator r
unfolding apply_present
apply_present-IsPlaced lib accelerator pod container {r} h =
    let (minimum, _, h1) = >>=-eq-ok (gpu_memory_requirement lib (obj accelerator)) _ h in
    let wanted = find_or "class" (str "auto") accelerator in
    let (c, chosen, h2) = >>=-eq-ok (select_class lib wanted minimum) _ h1 in
    let count = find_or "count" (int (pos 1)) accelerator in
    let (container', counted, h3) = >>=-eq-ok (set_gpu_count count container) _ h2 in
    let (pod', classed, h4) = >>=-eq-ok (set_gpu_class c pod) _ h3 in
    let (pod'', kept, h5) = >>=-eq-ok (apply_products (find "products" accelerator) pod') _ h4 in
    let (requests, limits) = set_gpu_count-at count container counted in
    let result : Applied = record {
      minimum_memory = minimum;
      pod_spec = pod'';
      container = container';
    } in
    let same : result ≡ r = cc h5 in
    subst (IsPlaced accelerator) same (record {
      gpu_class = c;
      fits = select_class-Fits lib wanted minimum chosen;
      selected =
          apply_products-keeps_class (find "products" accelerator) pod' kept
          ∙ set_gpu_class-at c pod classed;
      requested = requests;
      limited = limits;
    })
