-- ===== src/Prelude/Sorting.antt =====
-- The stable sort that the program calls, `sorted`, as insertion from the right, and the order of texts.
use Prim.Native.Char.{code}
use Prim.Native.String.{String}
use mathlib.Core.Path.{◌≡◌, refl}
use mathlib.Core.Bool.{Bool, true, false}
use mathlib.Core.Logic.{inl, inr}
use mathlib.Core.List.{List, [], ◌∷◌, Perm}
use mathlib.Core.List.Perm
use native.Mathlib.Omega.{arith}
use model_fleet_operator.Prelude.Tests.{ltb, eqb, if◌then◌else◌, Bool-cases}
use model_fleet_operator.Prelude.Lists.{All, All-weaken}

-- The order of code points.
abbrev pub text_le : String → String → Bool
text_le String.[] t = true
text_le (String.◌∷◌ c s) String.[] = false
text_le (String.◌∷◌ c s) (String.◌∷◌ d t) =
    if ltb (code c) (code d) then true else if eqb (code c) (code d) then text_le s t else false

-- What a sort needs of its test.
pub record Linear {A : Type 0} (le : A → A → Bool) : Type 0 where
  pub total : (a b : A) → le a b ≡ false → le b a ≡ true
  pub trans : (a b c : A) → le a b ≡ true → le b c ≡ true → le a c ≡ true

module _ {A : Type 0} (le : A → A → Bool) where
  abbrev pub insert : A → List A → List A
  insert a [] = a ∷ []
  insert a (b ∷ bs) = let rest = insert a bs in if le a b then a ∷ b ∷ bs else b ∷ rest

  abbrev pub sort : List A → List A
  sort [] = []
  sort (a ∷ xs) = insert a (sort xs)

  abbrev pub IsSorted : List A → Type 0
  IsSorted [] = Unit
  IsSorted (a ∷ xs) = All (λ b. le a b ≡ true) xs × IsSorted xs

  insert-All : (P : A → Type 0) (a : A) (bs : List A) → P a → All P bs → All P (insert a bs)
  insert-All P a [] p ps = (p, tt)
  insert-All P a (b ∷ bs) p ps = elim (Bool-cases (le a b)) [
    | inl e ↦ rw (e) (p, ps)
    | inr e ↦ rw (e) (ps.0, insert-All P a bs p ps.1)
  ]

  pub sort-All : (P : A → Type 0) (xs : List A) → All P xs → All P (sort xs)
  sort-All P [] ps = tt
  sort-All P (a ∷ xs) ps = insert-All P a (sort xs) ps.0 (sort-All P xs ps.1)

  insert-IsSorted : Linear le → (a : A) (bs : List A) → IsSorted bs → IsSorted (insert a bs)
  insert-IsSorted l a [] s = (tt, tt)
  insert-IsSorted l a (b ∷ bs) s = elim (Bool-cases (le a b)) [
    | inl e ↦ rw (e) ((e, All-weaken _ _ bs (λ c h. l.trans a b c e h) s.0), s)
    | inr e ↦ rw (e) (insert-All _ a bs (l.total a b e) s.0, insert-IsSorted l a bs s.1)
  ]

  pub sort-IsSorted : Linear le → (xs : List A) → IsSorted (sort xs)
  sort-IsSorted l [] = tt
  sort-IsSorted l (a ∷ xs) = insert-IsSorted l a (sort xs) (sort-IsSorted l xs)

  insert-Perm : (a : A) (bs : List A) → Perm (insert a bs) (a ∷ bs)
  insert-Perm a [] = Perm.rfl
  insert-Perm a (b ∷ bs) = elim (Bool-cases (le a b)) [
    | inl e ↦ rw (e) Perm.rfl
    | inr e ↦ rw (e) (Perm.trans (Perm.cons b (insert-Perm a bs)) (Perm.swap a b bs))
  ]

  pub sort-Perm : (xs : List A) → Perm (sort xs) xs
  sort-Perm [] = Perm.rfl
  sort-Perm (a ∷ xs) = Perm.trans (insert-Perm a (sort xs)) (Perm.cons a (sort-Perm xs))

pub text_le_total : (s t : String) → text_le s t ≡ false → text_le t s ≡ true
text_le_total String.[] t h = absurd (ground arith)
text_le_total (String.◌∷◌ c s) String.[] h = refl
text_le_total (String.◌∷◌ c s) (String.◌∷◌ d t) h = let ih = text_le_total s t in ground arith

pub text_le_trans : (s t u : String) → text_le s t ≡ true → text_le t u ≡ true → text_le s u ≡ true
text_le_trans String.[] t u h k = refl
text_le_trans (String.◌∷◌ c s) String.[] u h k = absurd (ground arith)
text_le_trans (String.◌∷◌ c s) (String.◌∷◌ d t) String.[] h k = absurd (ground arith)
text_le_trans (String.◌∷◌ c s) (String.◌∷◌ d t) (String.◌∷◌ e u) h k =
    let ih = text_le_trans s t u in ground arith
