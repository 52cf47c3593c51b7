-- ===== src/Python/Result.antt =====
-- Exceptions, and code that may raise one.
use model_fleet_operator.Prelude.{
  ℕ, String, ◌≡◌, refl, ap, subst, if◌then◌else◌, Bool, true, false, Option, none, some,
}

-- `invalid` is `InvalidSpec` and `quota_error` is `QuotaError`; `api_error` is Kubernetes'
-- `ApiException` with its status, reason and body; the last ones are kopf's and FastAPI's.
pub data Exception : Type 0 where
  invalid : String → Exception
  value_error : String → Exception
  key_error : String → Exception
  type_error : Exception
  index_error : Exception
  attribute_error : Exception
  overflow_error : Exception
  runtime_error : String → Exception
  quota_error : String → Exception
  api_error : ℕ → String → String → Exception
  http_error : Exception
  permanent_error : String → Exception
  temporary_error : String → (delay : ℕ) → Exception
  http_exception : ℕ → String → Exception

pub data Result {ℓ} (A : Type ℓ) : Type ℓ where
  ok : A → Result A
  err : Exception → Result A

infixl 5 ◌>>=◌ ◌>>◌
-- `if test: raise e`
abbrev pub raise_if : Bool → Exception → Result (Unit {0})
raise_if true e = err e
raise_if false e = ok tt

-- What follows an exception is not run.
abbrev pub ◌>>=◌ {ℓ κ} : {A : Type ℓ} {B : Type κ} → Result A → (A → Result B) → Result B
err raised >>= rest = err raised
ok value >>= rest = rest value

abbrev pub require {ℓ} : {A : Type ℓ} → Option A → Exception → Result A
require none e = err e
require (some a) e = ok a

abbrev pub ◌>>◌ {ℓ} : {B : Type ℓ} → Result (Unit {0}) → Result B → Result B
first >> second = first >>= λ done. second

-- Inversion of a successful bind.
pub >>=-eq-ok {ℓ κ} :
    {X : Type ℓ} {Y : Type κ} (first : Result X) (rest : X → Result Y) {out : Y}
    → (first >>= rest) ≡ ok out
    → (value : X) × (first ≡ ok value) × (rest value ≡ ok out)
>>=-eq-ok (err raised) rest h = cc
>>=-eq-ok (ok value) rest h = (value, refl, h)

abbrev pub ok_or {ℓ} : {A : Type ℓ} → A → Result A → A
ok_or d (ok a) = a
ok_or d (err e) = d

pub ok-injective {ℓ} : {A : Type ℓ} {a b : A} → ok a ≡ ok b → a ≡ b
ok-injective {a} h = ap (ok_or a) h

-- Passing a guard: its test is false, and the rest returns.
pub raise_if-eq-ok {ℓ} :
    {B : Type ℓ} (b : Bool) (e : Exception) (f : Unit {0} → Result B) {r : B}
    → (raise_if b e >>= f) ≡ ok r
    → (b ≡ false) × (f tt ≡ ok r)
raise_if-eq-ok true e f h = cc
raise_if-eq-ok false e f h = (refl, h)

-- `P` holds of what is returned, as a rule to build from the shape of the code.
pub record Returns {ℓ κ} {A : Type ℓ} (P : A → Type κ) (r : Result A) : Type (ℓ ⊔ κ) where
  pub at : (a : A) → r ≡ ok a → P a

pub branch-Returns {ℓ κ} :
    {A : Type ℓ} (P : A → Type κ) (b : Bool) (m n : Result A)
    → Returns P m
    → Returns P n
    → Returns P (if b then m else n)
branch-Returns P true m n hm hn = hm
branch-Returns P false m n hm hn = hn

pub ok-Returns {ℓ κ} : {A : Type ℓ} (P : A → Type κ) (a : A) → P a → Returns P (ok a)
ok-Returns P a h = record { at = λ b e. subst P (ok-injective e) h }
