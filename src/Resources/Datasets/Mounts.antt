-- ===== src/Resources/Datasets/Mounts.antt =====
-- What the loop of `_apply_datasets` does to the volume mounts.
use model_fleet_operator.Prelude.{
  String, true, false, not, some, List, [], ◌∷◌, ◌++◌, ◌≡◌, refl, arith, sym, ap, ◌∙◌, subst, All,
  All-append, Any, ◌⊎◌, Bool, ◌||◌, eq_refl, if◌then◌else◌, Bool-cases, inl, inr,
}
use mathlib.Core.List.{append_assoc, append-nil}
use model_fleet_operator.Python.Value.{Value, obj, or_null, str, null, bool, dict, truthy, at, find}
use model_fleet_operator.Python.Result.{ok, ok-injective, >>=-eq-ok, raise_if-eq-ok}
use model_fleet_operator.Python.Object.{get, get_or, item}
use model_fleet_operator.Python.Equality.{member, same}
use model_fleet_operator.Python.Library.{Library}
use model_fleet_operator.Resources.Pod.{is_container}
use model_fleet_operator.Resources.Datasets.{
  Mounting, names_under, encoded, add_volume, claim_of, mount_entry, mount_claim, mount_dataset,
  mount_all, volume_of,
}

abbrev pub IsReadOnly : Value → Type 0
IsReadOnly mount = at ("readOnly" ∷ []) mount ≡ some (bool true)

-- Where a mount is mounted.
abbrev pub MountedAt : (path : String) → Value → Type 0
MountedAt path mount = at ("mountPath" ∷ []) mount ≡ some (str path)

-- The set of paths that the loop keeps knows each path at which something is mounted.
abbrev pub Tracks : Mounting → Type 0
Tracks m = (path : String) → Any (MountedAt path) m.mounts → member (str path) m.mount_paths ≡ true

-- No further mount is mounted at a path at which an earlier one is.
abbrev pub Apart : (before added : List Value) → Type 0
Apart before [] = Unit
Apart before (mount ∷ added) =
    ((path : String) → MountedAt path mount → ¬ (Any (MountedAt path) before))
    × Apart (before ++ mount ∷ []) added

-- `m'` has the mounts of `m`, in their order, and further ones that are read-only and mounted at paths at
-- which nothing is mounted yet.
pub record Extends (m m' : Mounting) : Type 0 where
  pub added : List Value
  pub mounts : m'.mounts ≡ m.mounts ++ added
  pub read_only : All IsReadOnly added
  pub apart : Apart m.mounts added
  pub tracks : Tracks m'

Extends-refl : (m : Mounting) → Tracks m → Extends m m
Extends-refl m h = record {
  added = [];
  mounts = sym (append-nil m.mounts);
  read_only = tt;
  apart = tt;
  tracks = h;
}

Apart-append :
    (before first second : List Value)
    → Apart before first
    → Apart (before ++ first) second
    → Apart before (first ++ second)
Apart-append before [] second h k = subst (λ l. Apart l second) (append-nil before) k
Apart-append before (mount ∷ first) second h k = (
  h.0,
  Apart-append (before ++ mount ∷ []) first second h.1
      (subst (λ l. Apart l second) (sym (append_assoc before (mount ∷ []) first)) k),
)

Extends-trans : {a b c : Mounting} → Extends a b → Extends b c → Extends a c
Extends-trans {a} e f = record {
  added = e.added ++ f.added;
  mounts = f.mounts ∙ ap (λ l. l ++ f.added) e.mounts ∙ append_assoc a.mounts e.added f.added;
  read_only = All-append IsReadOnly e.added f.added e.read_only f.read_only;
  apart =
      Apart-append a.mounts e.added f.added e.apart (subst (λ l. Apart l f.added) e.mounts f.apart);
  tracks = f.tracks;
}

mount_entry-path :
    (name : String) (path sub_path : Value)
    → at ("mountPath" ∷ []) (mount_entry name path sub_path) ≡ some path
unfolding mount_entry at find
mount_entry-path name path sub_path = ground arith

Any-append : (P : Value → Type 0) (xs ys : List Value) → Any P (xs ++ ys) → (Any P xs) ⊎ (Any P ys)
Any-append P [] ys h = inr h
Any-append P (x ∷ xs) ys (inl h) = inl (inl h)
Any-append P (x ∷ xs) ys (inr h) = elim (Any-append P xs ys h) [
  | inl first ↦ inl (inr first)
  | inr second ↦ inr second
]

-- A path that is not tracked yet is free.
new-free :
    (m : Mounting) (entry v : Value)
    → Tracks m
    → member v m.mount_paths ≡ false
    → at ("mountPath" ∷ []) entry ≡ some v
    → (path : String) → MountedAt path entry
    → ¬ (Any (MountedAt path) m.mounts)
new-free m entry v known new of_v path here used =
    let same : v ≡ str path = ap or_null (sym of_v ∙ here) in
    let tracked = known path used in
    let clash = sym tracked ∙ ap (λ u. member u m.mount_paths) (sym same) ∙ new in
    absurd (ground arith)

or_true : (a b : Bool) → b ≡ true → (a || b) ≡ true
or_true true b h = refl
or_true false b h = h

-- A new mount is tracked under its path.
new-Tracks :
    (m m' : Mounting) (entry v : Value)
    → Tracks m
    → at ("mountPath" ∷ []) entry ≡ some v
    → m'.mounts ≡ m.mounts ++ entry ∷ []
    → m'.mount_paths ≡ v ∷ m.mount_paths
    → Tracks m'
unfolding member
new-Tracks m m' entry v known of_v mounts paths path used =
    ap (member (str path)) paths
    ∙ elim (Any-append (MountedAt path) m.mounts (entry ∷ [])
        (subst (Any (MountedAt path)) mounts used)) [
          | inl old ↦ or_true (same (str path) v) (member (str path) m.mount_paths) (known path old)
          | inr (inl here) ↦
              (let same_ : v ≡ str path = ap or_null (sym of_v ∙ here) in
                ap (λ u. member (str path) (u ∷ m.mount_paths)) same_
                ∙ ap (λ b. b || member (str path) m.mount_paths) (eq_refl path))
          | inr (inr nothing) ↦ absurd nothing
        ]

mount_entry-IsReadOnly :
    (name : String) (path sub_path : Value) → IsReadOnly (mount_entry name path sub_path)
unfolding mount_entry at find
mount_entry-IsReadOnly name path sub_path = ground arith

mount_paths-add_volume :
    (name : String) (claim : Value) (m : Mounting)
    → (add_volume name claim m).mount_paths ≡ m.mount_paths
unfolding add_volume
mount_paths-add_volume name claim m = ground arith

item-path :
    (mount v : Value) (path : String)
    → item mount "mountPath" ≡ ok v
    → MountedAt path mount
    → v ≡ str path
unfolding item at
item-path (obj fs) v path h here = ground arith
item-path Value.null v path h here = cc
item-path _ v path h here = cc

-- The set with which `_apply_datasets` begins holds the paths of the mounts at the start.
pub names_under-Tracks :
    (mounts : List Value) (paths : List Value) (path : String)
    → names_under "mountPath" mounts ≡ ok paths
    → Any (MountedAt path) mounts
    → member (str path) paths ≡ true
unfolding names_under member
names_under-Tracks [] paths path h used = absurd used
names_under-Tracks (mount ∷ mounts) paths path h used =
    let (v, named, h1) = >>=-eq-ok (item mount "mountPath") _ h in
    let (_, h2) = raise_if-eq-ok (is_container v) _ _ h1 in
    let (rest, others, h3) = >>=-eq-ok (names_under "mountPath" mounts) _ h2 in
    let all : (v ∷ rest) ≡ paths = ok-injective h3 in
    ap (member (str path)) (sym all) ∙ elim used [
      | inl here ↦
          ap (λ u. member (str path) (u ∷ rest)) (item-path mount v path named here)
          ∙ ap (λ b. b || member (str path) rest) (eq_refl path)
      | inr later ↦
          or_true (same (str path) v) (member (str path) rest)
            (names_under-Tracks mounts rest path others later)
    ]

module _ (lib : Library) where
  mount_claim-Extends :
      (dataset pvc : Value) (m : Mounting) {m' : Mounting}
      → mount_claim lib dataset pvc m ≡ ok m'
      → Tracks m
      → Extends m m'
  unfolding mount_claim
  mount_claim-Extends dataset pvc m {m'} h known =
      let (path, _, h1) = >>=-eq-ok (get dataset "mountPath") _ h in
      let (_, _, h2) = >>=-eq-ok (if truthy path then ok null else item dataset "name") _ h1 in
      let (_, h3) = raise_if-eq-ok (not (truthy path)) _ _ h2 in
      let (_, h4) = raise_if-eq-ok (is_container path) _ _ h3 in
      let (new, h5) = raise_if-eq-ok (member path m.mount_paths) _ _ h4 in
      let (resource, _, h6) = >>=-eq-ok (item dataset "resourceName") _ h5 in
      let (name, _, h7) = >>=-eq-ok (encoded resource) _ h6 in
      let (claim, _, h8) = >>=-eq-ok (claim_of (volume_of lib name) pvc m) _ h7 in
      let (sub_path, _, h9) = >>=-eq-ok (get pvc "subPath") _ h8 in
      let entry = mount_entry (volume_of lib name) path sub_path in
      let added = add_volume (volume_of lib name) claim m in
      let result : Mounting = record added {
        mounts = m.mounts ++ entry ∷ [];
        mount_paths = path ∷ m.mount_paths;
      } in
      let same : result ≡ m' = cc h9 in
      subst (Extends m) same (record {
        added = entry ∷ [];
        mounts = refl;
        read_only = (mount_entry-IsReadOnly (volume_of lib name) path sub_path, tt);
        apart = (
          new-free m entry path known new (mount_entry-path (volume_of lib name) path sub_path),
          tt,
        );
        tracks =
            new-Tracks m result entry path known
              (mount_entry-path (volume_of lib name) path sub_path) refl refl;
      })

  mount_dataset-Extends :
      (m : Mounting) (dataset : Value) {m' : Mounting}
      → mount_dataset lib m dataset ≡ ok m'
      → Tracks m
      → Extends m m'
  unfolding mount_dataset
  mount_dataset-Extends m dataset {m'} h known =
      let (storage, _, h1) = >>=-eq-ok (get_or dataset "storage" (dict [])) _ h in
      let (pvc, _, h2) = >>=-eq-ok (get storage "pvc") _ h1 in
      elim (Bool-cases (truthy pvc)) [
        | inl claimed ↦ mount_claim-Extends dataset pvc m (rw claimed at h2) known
        | inr other ↦
            let same : m ≡ m' = ground arith in subst (Extends m) same (Extends-refl m known)
      ]

  -- The loop of `_apply_datasets` keeps the mounts that are there, in their order, and adds only mounts
  -- that are read-only and of which none is mounted at a path where another mount, an old or an added one,
  -- is. The set of used paths is taken to hold the paths of the mounts at the start.
  pub mount_all-Extends :
      (m : Mounting) (datasets : List Value) {m' : Mounting}
      → mount_all lib m datasets ≡ ok m'
      → Tracks m
      → Extends m m'
  unfolding mount_all
  mount_all-Extends m [] {m'} h known =
      let same_ : m ≡ m' = cc h in subst (Extends m) same_ (Extends-refl m known)
  mount_all-Extends m (d ∷ ds) h known =
      let (next, one, rest) = >>=-eq-ok (mount_dataset lib m d) _ h in
      let first = mount_dataset-Extends m d one known in
      Extends-trans first (mount_all-Extends next ds rest first.tracks)
