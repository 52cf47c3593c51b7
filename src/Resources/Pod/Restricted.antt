-- ===== src/Resources/Pod/Restricted.antt =====
-- The init containers that `_init_containers` lets through.
use model_fleet_operator.Prelude.{
  String, Bool, true, false, not, some, List, [], ◌∷◌, ◌≡◌, refl, arith, ◌||◌, ◌==◌, ◌∙◌, subst,
  sym, All₂, ap, Option, none, ◌⊎◌, inl, inr,
}
use model_fleet_operator.Python.Value.{
  Value, obj, find, put, under, bool, str, dict, list, truthy, at,
}
use model_fleet_operator.Python.Result.{Result, ok, ok-injective, >>=-eq-ok, raise_if-eq-ok}
use model_fleet_operator.Python.Object.{get, store, setdefault, iterate}
use model_fleet_operator.Python.Laws.{
  at-nil, at-store_self, at-store_ne, at-setdefault_self, at-setdefault_ne, get-eq-at,
  at-eq_of_truthy,
}
use model_fleet_operator.Resources.Pod.{
  check_security, seal, restrict, restrict_all, init_containers,
}

abbrev pub drop_path : List String
drop_path = "securityContext" ∷ "capabilities" ∷ "drop" ∷ []

-- Has a name and an image, is not privileged, cannot gain privileges, adds no capability, and drops the
-- capabilities that the given container says it drops, or all if that says nothing.
pub record IsRestricted (given c : Value) : Type 0 where
  pub named : (v : Value) × (at ("name" ∷ []) c ≡ some v) × (truthy v ≡ true)
  pub imaged : (v : Value) × (at ("image" ∷ []) c ≡ some v) × (truthy v ≡ true)
  pub contained : at ("securityContext" ∷ "allowPrivilegeEscalation" ∷ []) c ≡ some (bool false)
  pub unprivileged :
      (v : Value) → at ("securityContext" ∷ "privileged" ∷ []) c ≡ some v → truthy v ≡ false
  pub nothing_added :
      (v : Value)
      → at ("securityContext" ∷ "capabilities" ∷ "add" ∷ []) c ≡ some v
      → truthy v ≡ false
  pub dropped :
      ((v : Value) × (at drop_path given ≡ some v) × (at drop_path c ≡ some v))
      ⊎ ((at drop_path given ≡ none) × (at drop_path c ≡ some (list (str "ALL" ∷ []))))

at-empty : (j : String) (ks : List String) → at (j ∷ ks) (dict []) ≡ none
unfolding at find
at-empty j ks = refl

default-source :
    (o : Option Value) (d : Value) (stored : Value) (given : Value → Value) (ks : List String)
    {w v' : Value}
    → ◌≡◌ {A = Result (Value × Value)}
        (ok (elim o [ none ↦ (d, stored) | some x ↦ (x, given x) ]))
        (ok (w, v'))
    → (under (at ks) o ≡ at ks w) ⊎ ((under (at ks) o ≡ none) × (w ≡ d))
default-source none d stored given ks h = inr (refl, sym (ap (λ p. p.0) (ok-injective h)))
default-source (some x) d stored given ks h = inl (ap (λ p. at ks p.0) (ok-injective h))

-- What `setdefault` gives stood there, or nothing did and it is the default.
setdefault-source :
    (v : Value) (k : String) (d : Value) (ks : List String) {w v' : Value}
    → setdefault v k d ≡ ok (w, v')
    → (at (k ∷ ks) v ≡ at ks w) ⊎ ((at (k ∷ ks) v ≡ none) × (w ≡ d))
unfolding at setdefault
setdefault-source (obj fs) k d ks h =
    default-source (find k fs) d (obj (put k d fs)) (λ x. obj fs) ks h
setdefault-source Value.null k d ks h = cc
setdefault-source _ k d ks h = cc

-- Under an empty dictionary nothing stands.
setdefault-empty :
    (v : Value) (k j : String) (ks : List String) {w v' : Value}
    → setdefault v k (dict []) ≡ ok (w, v')
    → at (k ∷ j ∷ ks) v ≡ at (j ∷ ks) w
setdefault-empty v k j ks h = elim (setdefault-source v k (dict []) (j ∷ ks) h) [
  | inl same ↦ same
  | inr (missing, empty) ↦ missing ∙ sym (ap (at (j ∷ ks)) empty ∙ at-empty j ks)
]

neither : (a b : Bool) → (a || b) ≡ false → (a ≡ false) × (b ≡ false)
neither a b h = ground arith

both : (a b : Bool) → (not a || not b) ≡ false → (a ≡ true) × (b ≡ true)
both a b h = ground arith

module _ (security capabilities : Value) where
  abbrev IsFalseAt : String → Value → Type 0
  IsFalseAt k v = (w : Value) → at (k ∷ []) v ≡ some w → truthy w ≡ false

  check_security-IsFalseAt :
      check_security security capabilities ≡ ok tt
      → IsFalseAt "privileged" security × IsFalseAt "add" capabilities
  unfolding check_security
  check_security-IsFalseAt h =
      let (privileged, is_privileged, h1) = >>=-eq-ok (get security "privileged") _ h in
      let (escalation, _, h2) = >>=-eq-ok (get security "allowPrivilegeEscalation") _ h1 in
      let (tame, h3) = raise_if-eq-ok (truthy privileged || truthy escalation) _ _ h2 in
      let (not_privileged, _) = neither (truthy privileged) (truthy escalation) tame in
      let (added, is_added, h4) = >>=-eq-ok (get capabilities "add") _ h3 in
      let not_added : truthy added ≡ false = ground arith in
      (
        λ w e. rw (get-eq-at security "privileged" is_privileged e) not_privileged,
        λ w e. rw (get-eq-at capabilities "add" is_added e) not_added,
      )

  -- What the assignments set, and what they leave.
  seal_lem :
      {s : Value}
      → seal security capabilities ≡ ok s
      → (at ("allowPrivilegeEscalation" ∷ []) s ≡ some (bool false))
        × (at ("privileged" ∷ []) s ≡ at ("privileged" ∷ []) security)
        × (at ("capabilities" ∷ "add" ∷ []) s ≡ at ("add" ∷ []) capabilities)
        × (((v : Value) × (at ("drop" ∷ []) capabilities ≡ some v)
              × (at ("capabilities" ∷ "drop" ∷ []) s ≡ some v))
            ⊎ ((at ("drop" ∷ []) capabilities ≡ none)
                × (at ("capabilities" ∷ "drop" ∷ []) s ≡ some (list (str "ALL" ∷ [])))))
  unfolding seal
  seal_lem h =
      let escalation : String = "allowPrivilegeEscalation" in
      let (security', s1, h1) = >>=-eq-ok (store security escalation (bool false)) _ h in
      let all = list (str "ALL" ∷ []) in
      let ((drop, capabilities'), d, s2) = >>=-eq-ok (setdefault capabilities "drop" all) _ h1 in
      let within =
        λ (ks : List String). at-store_self security' "capabilities" capabilities' ks s2 in
      (
        at-store_ne security' "capabilities" escalation capabilities' [] refl s2
            ∙ at-store_self security escalation (bool false) [] s1
            ∙ at-nil (bool false),
        at-store_ne security' "capabilities" "privileged" capabilities' [] refl s2
            ∙ at-store_ne security escalation "privileged" (bool false) [] refl s1,
        within ("add" ∷ []) ∙ at-setdefault_ne capabilities "drop" "add" all [] refl d,
        (let now = within ("drop" ∷ []) ∙ at-setdefault_self capabilities "drop" all [] d in
            elim (setdefault-source capabilities "drop" all [] d) [
              | inl was ↦ inl (drop, was ∙ at-nil drop, now ∙ at-nil drop)
              | inr (missing, default) ↦ inr (missing, now ∙ ap (at []) default ∙ at-nil all)
            ]),
      )

pub restrict-IsRestricted : (c : Value) {c' : Value} → restrict c ≡ ok c' → IsRestricted c c'
unfolding restrict
restrict-IsRestricted c h =
    let (name, is_name, h1) = >>=-eq-ok (get c "name") _ h in
    let (image, is_image, h2) = >>=-eq-ok (get c "image") _ h1 in
    let (present, h3) = raise_if-eq-ok (not (truthy name) || not (truthy image)) _ _ h2 in
    let (has_name, has_image) = both (truthy name) (truthy image) present in
    let ((context, c1), d, h4) = >>=-eq-ok (setdefault c "securityContext" (dict [])) _ h3 in
    let ((capabilities, security), d2, h5) =
      >>=-eq-ok (setdefault context "capabilities" (dict [])) _ h4 in
    let (_, checked, h6) = >>=-eq-ok (check_security security capabilities) _ h5 in
    let (sealed, set, stored) = >>=-eq-ok (seal security capabilities) _ h6 in
    let (not_privileged, not_added) = check_security-IsFalseAt security capabilities checked in
    let (escalation, privileged, added, drops) = seal_lem security capabilities set in
    let inside = λ (ks : List String). at-store_self c1 "securityContext" sealed ks stored in
    let outside = λ (k : String) (ne : ("securityContext" == k) ≡ false).
      at-store_ne c1 "securityContext" k sealed [] ne stored
      ∙ at-setdefault_ne c "securityContext" k (dict []) [] ne d in
    record {
      named = (name, outside "name" refl ∙ at-eq_of_truthy c "name" is_name has_name, has_name);
      imaged =
          (image, outside "image" refl ∙ at-eq_of_truthy c "image" is_image has_image, has_image);
      contained = inside ("allowPrivilegeEscalation" ∷ []) ∙ escalation;
      unprivileged = λ v e. not_privileged v (sym (inside ("privileged" ∷ []) ∙ privileged) ∙ e);
      nothing_added = λ v e. not_added v (sym (inside ("capabilities" ∷ "add" ∷ []) ∙ added) ∙ e);
      dropped =
          (let given =
              setdefault-empty c "securityContext" "capabilities" ("drop" ∷ []) d
              ∙ setdefault-empty context "capabilities" "drop" [] d2 in
            let now = inside ("capabilities" ∷ "drop" ∷ []) in
            elim drops [
              | inl (v, was, is) ↦ inl (v, given ∙ was, now ∙ is)
              | inr (missing, is) ↦ inr (given ∙ missing, now ∙ is)
            ]);
    }

restrict_all-IsRestricted :
    (cs : List Value) {cs' : List Value} → restrict_all cs ≡ ok cs' → All₂ IsRestricted cs cs'
unfolding restrict_all
restrict_all-IsRestricted [] {cs' = out} h =
    let same : [] ≡ out = cc h in subst (All₂ IsRestricted []) same tt
restrict_all-IsRestricted (c ∷ cs) {cs' = out} h =
    let (c', one, h1) = >>=-eq-ok (restrict c) _ h in
    let (cs', rest, h2) = >>=-eq-ok (restrict_all cs) _ h1 in
    let same : (c' ∷ cs') ≡ out = cc h2 in
    subst (All₂ IsRestricted (c ∷ cs)) same
      (restrict-IsRestricted c one, restrict_all-IsRestricted cs rest)

-- Every init container that `_init_containers` returns is restricted: it has a name and an image,
-- is not privileged, forbids privilege escalation, adds no capability, and drops the capabilities that
-- the container of the specification says, in the same order, or all of them if that says nothing.
pub init_containers-IsRestricted :
    (containers : Value) {out : Value}
    → init_containers containers ≡ ok out
    → (given cs : List Value) × (iterate containers ≡ ok given)
      × (out ≡ list cs)
      × All₂ IsRestricted given cs
unfolding init_containers
init_containers-IsRestricted containers {out} h =
    let (cs, listed, h1) = >>=-eq-ok (iterate containers) _ h in
    let (cs', restricted, h2) = >>=-eq-ok (restrict_all cs) _ h1 in
    (cs, cs', listed, cc h2, restrict_all-IsRestricted cs restricted)
