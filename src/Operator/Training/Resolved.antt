-- ===== src/Operator/Training/Resolved.antt =====
-- Which Datasets a TrainingRun gets.
use model_fleet_operator.Prelude.{All₂, ◌≡◌, ap, subst, true, false, List, [], ◌∷◌, ◌⊎◌, arith}
use model_fleet_operator.Python.Value.{Value, truthy, list}
use model_fleet_operator.Python.Result.{Result, ok, >>=-eq-ok}
use model_fleet_operator.Python.Object.{item, get_or}
use model_fleet_operator.Python.Equality.{same}
use model_fleet_operator.Python.Library.{Library}
use model_fleet_operator.Kube.{Oracle, State, Call, read, pure, lift}
use model_fleet_operator.Kube.Runs.{bind-eq-ok, lift-eq-ok, call-eq-ok, called}
use model_fleet_operator.Operator.Apply.{datasets}
use model_fleet_operator.Operator.Training.{
  listed, check_dataset, resolved_entry, resolve_reference, resolve_all,
}

-- The Dataset has the version that is expected and lets the service account use it: it lists no
-- account, or this one.
pub record IsUsable (expected account spec : Value) : Type 0 where
  pub version : Value
  pub has_version : item spec "version" ≡ ok version
  pub as_expected : same version expected ≡ true
  pub allowed : Value
  pub has_allowed : get_or spec "allowedServiceAccounts" (list []) ≡ ok allowed
  pub admitted : (truthy allowed ≡ false) ⊎ (listed account allowed ≡ ok true)

pub check_dataset-IsUsable :
    (lib : Library) (resource expected account spec : Value)
    → check_dataset lib resource expected account spec ≡ ok tt
    → IsUsable expected account spec
unfolding check_dataset
check_dataset-IsUsable lib resource expected account spec h =
    let (version, ev, h1) = >>=-eq-ok (item spec "version") _ h in
    let (allowed, ea, h2) = >>=-eq-ok (get_or spec "allowedServiceAccounts" (list [])) _ h1 in
    record {
      version = version;
      has_version = ev;
      as_expected = ground arith;
      allowed = allowed;
      has_allowed = ea;
      admitted = ground arith;
    }

-- `entry` was made from the answer to a read of the Dataset that `reference` names, and that
-- Dataset is usable.
pub record IsResolved (oracle : Oracle) (namespace account reference entry : Value) : Type 0 where
  pub resource : Value
  pub has_resource : item reference "datasetRef" ≡ ok resource
  pub before : List Call
  pub dataset : Value
  pub answer : oracle before (read datasets namespace resource) ≡ ok dataset
  pub spec : Value
  pub has_spec : item dataset "spec" ≡ ok spec
  pub expected : Value
  pub has_expected : item reference "expectedVersion" ≡ ok expected
  pub usable : IsUsable expected account spec
  pub made : resolved_entry reference resource spec ≡ ok entry

module _ (lib : Library) (oracle : Oracle) (namespace account : Value) where
  resolve_reference-IsResolved :
      (reference : Value) (s : State) {entry : Value} {t : State}
      → resolve_reference lib oracle namespace account reference s ≡ (ok entry, t)
      → IsResolved oracle namespace account reference entry
  unfolding resolve_reference lift
  resolve_reference-IsResolved reference s {entry} h =
      let (resource, er, h1) = lift-eq-ok (item reference "datasetRef") _ s h in
      let (dataset, ed, h2) = call-eq-ok oracle (read datasets namespace resource) _ s h1 in
      let s' = called (read datasets namespace resource) s in
      let (spec, es, h3) = lift-eq-ok (item dataset "spec") _ s' h2 in
      let (expected, ee, h4) = lift-eq-ok (item reference "expectedVersion") _ s' h3 in
      let (_, checked, h5) =
        lift-eq-ok (check_dataset lib resource expected account spec) _ s' h4 in
      record {
        resource = resource;
        has_resource = er;
        before = s.calls;
        dataset = dataset;
        answer = ed;
        spec = spec;
        has_spec = es;
        expected = expected;
        has_expected = ee;
        usable = check_dataset-IsUsable lib resource expected account spec checked;
        made = ap (λ (p : Result Value × State). p.0) h5;
      }

  -- If the datasets of a TrainingRun are resolved, there is one entry for each reference, in order,
  -- made from a Dataset that the API returned for it; that Dataset has the expected version, and
  -- lists no service account or the one of the run.
  pub resolve_all-IsResolved :
      (references : List Value) (s : State) {entries : List Value} {t : State}
      → resolve_all lib oracle namespace account references s ≡ (ok entries, t)
      → All₂ (IsResolved oracle namespace account) references entries
  unfolding resolve_all pure
  resolve_all-IsResolved [] s {entries} h =
      let same : [] ≡ entries = ground arith in
      subst (All₂ (IsResolved oracle namespace account) []) same tt
  resolve_all-IsResolved (r ∷ rs) s {entries = out} h =
      let m = resolve_reference lib oracle namespace account r in
      let (entry, one, h1) = bind-eq-ok m _ s h in
      let (entries, rest, h2) =
        bind-eq-ok (resolve_all lib oracle namespace account rs) _ (m s).1 h1 in
      let same : entry ∷ entries ≡ out = ground arith in
      subst (All₂ (IsResolved oracle namespace account) (r ∷ rs)) same (
        resolve_reference-IsResolved r s (ap (λ x. (x, (m s).1)) one),
        resolve_all-IsResolved rs (m s).1
            (ap (λ x. (x, (resolve_all lib oracle namespace account rs (m s).1).1)) rest),
      )
