-- ===== src/Resources/Datasets/Applied.antt =====
-- What the whole of `_apply_datasets` does to the volume mounts of a container.
use model_fleet_operator.Prelude.{
  none, some, List, [], ◌∷◌, ◌++◌, ◌≡◌, refl, sym, ap, ◌∙◌, subst, All, if◌then◌else◌,
}
use model_fleet_operator.Python.Value.{Value, Fields, list, items, array, find_or, put, truthy}
use model_fleet_operator.Python.Result.{ok, ok-injective, >>=-eq-ok, raise_if-eq-ok}
use model_fleet_operator.Python.Object.{iterate}
use model_fleet_operator.Python.Laws.{find-put}
use model_fleet_operator.Python.Library.{Library}
use model_fleet_operator.Resources.Datasets.{
  Mounting, names_under, reserved_used, mount_all, apply_datasets,
}
use model_fleet_operator.Resources.Datasets.Mounts.{
  IsReadOnly, Apart, Extends, names_under-Tracks, mount_all-Extends,
}

-- The volume mounts of a container.
abbrev pub mounts_of : Fields → Value
mounts_of container = find_or "volumeMounts" (list []) container

-- The container has the mounts it had, in their order, and further ones, read-only and at free paths.
pub record Mounted (container container' : Fields) : Type 0 where
  pub before : List Value
  pub added : List Value
  pub listed : iterate (mounts_of container) ≡ ok before
  pub mounts : iterate (mounts_of container') ≡ ok (before ++ added)
  pub read_only : All IsReadOnly added
  pub apart : Apart before added

items-array : (vs : List Value) → items (array vs) ≡ vs
items-array [] = refl
items-array (v ∷ vs) = ap (λ l. v ∷ l) (items-array vs)

mounts_of-put_env :
    (v : Value) (container : Fields) → mounts_of (put "env" v container) ≡ mounts_of container
unfolding find_or
mounts_of-put_env v container =
    ap (λ o. elim o [ none ↦ list [] | some w ↦ w ]) (find-put "env" "volumeMounts" v container)

iterate-put :
    (vs : List Value) (container : Fields)
    → iterate (mounts_of (put "volumeMounts" (list vs) container)) ≡ ok vs
unfolding find_or iterate
iterate-put vs container =
    ap (λ o. iterate (elim o [ none ↦ list [] | some w ↦ w ]))
      (find-put "volumeMounts" "volumeMounts" (list vs) container)
    ∙ ap ok (items-array vs)

-- `if mounts: container["volumeMounts"] = mounts`, where the mounts begin with those that are there.
written :
    (container : Fields) (before added : List Value)
    → iterate (mounts_of container) ≡ ok before
    → iterate (
        mounts_of (
          if truthy (list (before ++ added))
          then put "volumeMounts" (list (before ++ added)) container
          else container))
      ≡ ok (before ++ added)
unfolding truthy
written container [] [] h = h
written container [] (v ∷ vs) h = iterate-put (v ∷ vs) container
written container (v ∷ vs) added h = iterate-put (v ∷ (vs ++ added)) container

-- From the value that `_apply_datasets` returns.
Mounted-written :
    (container container1 container' : Fields) (m m' : Mounting)
    → mounts_of container1 ≡ mounts_of container
    → iterate (mounts_of container1) ≡ ok m.mounts
    → Extends m m'
    → (if truthy (list m'.mounts)
        then put "volumeMounts" (list m'.mounts) container1
        else container1)
      ≡ container'
    → Mounted container container'
Mounted-written container container1 container' m m' kept listed e h = record {
  before = m.mounts;
  added = e.added;
  listed = ap iterate (sym kept) ∙ listed;
  mounts =
      ap (λ c. iterate (mounts_of c)) (sym h)
      ∙ subst
          (λ l.
            iterate (
              mounts_of
                (if truthy (list l) then put "volumeMounts" (list l) container1 else container1))
            ≡ ok (m.mounts ++ e.added))
          (sym e.mounts) (written container1 m.mounts e.added listed);
  read_only = e.read_only;
  apart = e.apart;
}

module _ (lib : Library) where
  -- Where there are datasets, `_apply_datasets` keeps the volume mounts of the container, in their order, and
  -- adds only mounts that are read-only and of which none is mounted at a path where another mount, one
  -- that was there or one that is added, is.
  pub apply_datasets-Mounted :
      (container pod_spec : Fields) (d : Value) (ds : List Value) {container' pod_spec' : Fields}
      → apply_datasets lib container pod_spec (d ∷ ds) ≡ ok (container', pod_spec')
      → Mounted container container'
  unfolding apply_datasets
  apply_datasets-Mounted container pod_spec d ds {container'} h =
      let (env, _, h1) = >>=-eq-ok (iterate (find_or "env" (list []) container)) _ h in
      let (reserved, _, h2) = >>=-eq-ok (reserved_used env) _ h1 in
      let (_, h3) = raise_if-eq-ok reserved _ _ h2 in
      let (volumes, _, h4) = >>=-eq-ok (iterate (find_or "volumes" (list []) pod_spec)) _ h3 in
      let (before, listed, h5) = >>=-eq-ok _ _ h4 in
      let (names, _, h6) = >>=-eq-ok (names_under "name" volumes) _ h5 in
      let (paths, named, h7) = >>=-eq-ok (names_under "mountPath" before) _ h6 in
      let start : Mounting = record {
        volumes = volumes;
        mounts = before;
        volume_names = names;
        mount_paths = paths;
      } in
      let (m, all, h8) = >>=-eq-ok (mount_all lib start (d ∷ ds)) _ h7 in
      let extends =
        mount_all-Extends lib start (d ∷ ds) all
          (λ path. names_under-Tracks before paths path named) in
      Mounted-written container _ container' start m (mounts_of-put_env _ container) listed extends
        (ap (λ r. r.0) (ok-injective h8))
