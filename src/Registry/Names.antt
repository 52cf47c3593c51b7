-- ===== src/Registry/Names.antt =====
-- The names of registrations.
use Prim.Native.Char.{code}
use Prim.Native.String.append
use Prim.Native.String.compare
use text.Mathlib.Text.{is_eq}
use model_fleet_operator.Prelude.{
  ℕ, zero, suc, ◌≤◌, String, ◌≡◌, refl, subst, ap, ◌∙◌, Bool, true, false, ◌&&◌, ◌||◌, ◌==◌,
  if◌then◌else◌, arith,
}
use model_fleet_operator.Python.Text.{◌⧺◌, all_chars, lower, prefix, length_of, is_lower, is_digit}
use model_fleet_operator.Python.Result.{Exception, ok, err, ok-injective}
use model_fleet_operator.Registry.{
  is_name_char, is_edge, dashed, lstrip_edges, rstrip_edges, resource_name,
}

abbrev pub is_name : String → Bool
is_name s = all_chars is_name_char s

-- The first character is there and is a letter or a digit.
abbrev pub starts_alnum : String → Bool
starts_alnum String.[] = false
starts_alnum (String.◌∷◌ c s) = is_lower (code c) || is_digit (code c)

and-elim : (a b : Bool) → (a && b) ≡ true → (a ≡ true) × (b ≡ true)
and-elim true b h = (refl, h)
and-elim false b h = absurd (ground arith)

and-intro : (a b : Bool) → a ≡ true → b ≡ true → (a && b) ≡ true
and-intro a b h k = rw (h, k)

chosen :
    (b : Bool) (x y : String)
    → (b ≡ true → is_name x ≡ true)
    → is_name y ≡ true
    → is_name (if b then x else y) ≡ true
chosen true x y h k = h refl
chosen false x y h k = k

append-is_name : (s t : String) → is_name s ≡ true → is_name t ≡ true → is_name (s ⧺ t) ≡ true
append-is_name String.[] t h k = ap is_name (append.nil t) ∙ k
append-is_name (String.◌∷◌ c s) t h k =
    let (first, others) = and-elim (is_name_char (code c)) (is_name s) h in
    ap is_name (append.cons c s t) ∙ and-intro _ _ first (append-is_name s t others k)

dashed-is_name : (inside : Bool) (s : String) → is_name (dashed inside s) ≡ true
unfolding dashed
dashed-is_name inside String.[] = refl
dashed-is_name inside (String.◌∷◌ c s) =
    chosen (is_name_char (code c)) _ _ (λ e. and-intro _ _ e (dashed-is_name false s))
      (chosen inside _ _ (λ _. dashed-is_name true s)
        (append-is_name "-" (dashed true s) refl (dashed-is_name true s)))

lstrip_edges-is_name : (s : String) → is_name s ≡ true → is_name (lstrip_edges s) ≡ true
unfolding lstrip_edges
lstrip_edges-is_name String.[] h = refl
lstrip_edges-is_name (String.◌∷◌ c s) h = let ih = lstrip_edges-is_name s in ground arith

rstrip_edges-is_name : (s : String) → is_name s ≡ true → is_name (rstrip_edges s) ≡ true
unfolding rstrip_edges
rstrip_edges-is_name String.[] h = refl
rstrip_edges-is_name (String.◌∷◌ c s) h =
    let (first, others) = and-elim (is_name_char (code c)) (is_name s) h in
    chosen (is_edge (code c) && rstrip_edges s == "") _ _ (λ _. refl)
      (and-intro _ _ first (rstrip_edges-is_name s others))

prefix-is_name : (n : ℕ) (s : String) → is_name s ≡ true → is_name (prefix n s) ≡ true
unfolding prefix
prefix-is_name zero s h = refl
prefix-is_name (suc n) String.[] h = refl
prefix-is_name (suc n) (String.◌∷◌ c s) h = let ih = prefix-is_name n s in ground arith

length-prefix : (n : ℕ) (s : String) → length_of (prefix n s) ≤ n
unfolding prefix length_of
length-prefix zero s = omega arith
length-prefix (suc n) String.[] = omega arith
length-prefix (suc n) (String.◌∷◌ c s) = let ih = length-prefix n s in omega arith

lstrip_edges-starts :
    (s : String)
    → is_name s ≡ true
    → (lstrip_edges s == "") ≡ false
    → starts_alnum (lstrip_edges s) ≡ true
unfolding lstrip_edges
lstrip_edges-starts String.[] h k = absurd (ground arith)
lstrip_edges-starts (String.◌∷◌ c s) h k = let ih = lstrip_edges-starts s in ground arith

rstrip_edges-starts : (s : String) → starts_alnum s ≡ true → starts_alnum (rstrip_edges s) ≡ true
unfolding rstrip_edges
rstrip_edges-starts String.[] h = absurd (ground arith)
rstrip_edges-starts (String.◌∷◌ c s) h = ground arith

prefix-starts :
    (n : ℕ) (s : String) → starts_alnum s ≡ true → starts_alnum (prefix (suc n) s) ≡ true
unfolding prefix
prefix-starts n String.[] h = absurd (ground arith)
prefix-starts n (String.◌∷◌ c s) h = h

pub record IsName (name : String) : Type 0 where
  pub characters : is_name name ≡ true
  pub first : starts_alnum name ≡ true
  pub bounded : length_of name ≤ 253

stripped-IsName :
    (s : String)
    → is_name s ≡ true
    → (lstrip_edges s == "") ≡ false
    → IsName (prefix 253 (rstrip_edges (lstrip_edges s)))
stripped-IsName s h k = record {
  characters = prefix-is_name 253 _ (rstrip_edges-is_name _ (lstrip_edges-is_name s h));
  first = prefix-starts 252 _ (rstrip_edges-starts _ (lstrip_edges-starts s h k));
  bounded = length-prefix 253 (rstrip_edges (lstrip_edges s));
}

rstrip_edges-nonempty : (s : String) → (rstrip_edges s == "") ≡ false → (s == "") ≡ false
unfolding rstrip_edges
rstrip_edges-nonempty String.[] h = h
rstrip_edges-nonempty (String.◌∷◌ c s) h = ap is_eq (compare.cons-nil c s)

named :
    (b : Bool) (e : Exception) (s name : String)
    → is_name s ≡ true
    → (rstrip_edges (lstrip_edges s) == "") ≡ b
    → (if b then err e else ok (prefix 253 (rstrip_edges (lstrip_edges s)))) ≡ ok name
    → IsName name
named true e s name h k r = absurd (ground arith)
named false e s name h k r =
    subst IsName (ok-injective r) (stripped-IsName s h (rstrip_edges-nonempty _ k))

-- The name of the resource that an agent is registered as consists of at most 253 lower-case letters,
-- digits, dots and dashes, and begins with a letter or a digit.
pub resource_name-IsName : (name value : String) → resource_name name ≡ ok value → IsName value
unfolding resource_name
resource_name-IsName name value h =
    named _ _ (dashed false (lower name)) value (dashed-is_name false (lower name)) refl h
