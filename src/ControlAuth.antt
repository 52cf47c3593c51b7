-- ===== src/ControlAuth.antt =====
-- control_auth.py: the bearer token of the control plane's endpoints. A header that is missing and a key
-- that is not configured are the empty text: the code treats both alike. `hmac.compare_digest` compares
-- two ASCII texts and raises TypeError for others.
use Prim.Native.String.append
use Prim.Native.Char.{code}
use text.Mathlib.TextEquality.{Char-path}
use model_fleet_operator.Prelude.{
  ℕ, String, ◌≡◌, refl, sym, ap, ◌∙◌, ◌↔◌, ◌⊎◌, inl, inr, Bool, true, false, ◌&&◌, Option, none,
  some, ◌==◌, eq_iff, eq_refl, ltb, eqb, if◌then◌else◌, arith,
}
use model_fleet_operator.Python.Text.{◌⧺◌, all_chars}
use model_fleet_operator.Python.Result.{Result, ok, err, type_error, http_exception, ◌>>=◌}

-- `s.startswith(p)` and, where it does, `s.removeprefix(p)`
unfoldable pub without_prefix : (p s : String) → Option String
without_prefix String.[] s = some s
without_prefix (String.◌∷◌ c p) String.[] = none
without_prefix (String.◌∷◌ c p) (String.◌∷◌ d s) =
    if eqb (code c) (code d) then without_prefix p s else none

abbrev pub is_ascii : String → Bool
is_ascii s = all_chars (λ c. ltb c 128) s

unfoldable pub compare_digest : (supplied expected : String) → Result Bool
compare_digest supplied expected =
    if is_ascii supplied && is_ascii expected then ok (supplied == expected) else err type_error

abbrev pub denied : Result (Unit {0})
denied = err (http_exception 401 "invalid bearer token")

-- Without the word `Bearer` the comparison is not reached.
abbrev pub check_token : (expected : String) → Option String → Result (Unit {0})
check_token expected none = denied
check_token expected (some supplied) =
    compare_digest supplied expected >>= λ same. if same then ok tt else denied

unfoldable pub require_control_token : (expected authorization : String) → Result (Unit {0})
unfolding without_prefix compare_digest
require_control_token expected authorization =
    if expected == "" then ok tt else check_token expected (without_prefix "Bearer " authorization)

abbrev some_or : String → Option String → String
some_or d none = d
some_or d (some s) = s

eqb-eq : (m n : ℕ) → eqb m n ≡ true → m ≡ n
eqb-eq m n h = ground arith

eqb_refl : (n : ℕ) → eqb n n ≡ true
eqb_refl n = ground arith

branch-some :
    (b : Bool) (found : Option String) (r : String)
    → (if b then found else none) ≡ some r
    → (b ≡ true) × (found ≡ some r)
branch-some true found r h = (refl, h)
branch-some false found r h = absurd (ground arith)

without_prefix_sound : (p s r : String) → without_prefix p s ≡ some r → s ≡ p ⧺ r
unfolding without_prefix
without_prefix_sound String.[] s r h = ap (some_or "") h ∙ sym (append.nil r)
without_prefix_sound (String.◌∷◌ c p) String.[] r h = absurd (ground arith)
without_prefix_sound (String.◌∷◌ c p) (String.◌∷◌ d s) r h =
    let (same, rest) = branch-some (eqb (code c) (code d)) (without_prefix p s) r h in
    ap (λ k. String.◌∷◌ k s) (sym (Char-path c d (eqb-eq (code c) (code d) same)))
    ∙ ap (λ u. String.◌∷◌ c u) (without_prefix_sound p s r rest)
    ∙ sym (append.cons c p r)

without_prefix-append : (p r : String) → without_prefix p (p ⧺ r) ≡ some r
unfolding without_prefix
without_prefix-append String.[] r = ap some (append.nil r)
without_prefix-append (String.◌∷◌ c p) r =
    ap (without_prefix (String.◌∷◌ c p)) (append.cons c p r)
    ∙ ap (λ b. if b then without_prefix p (p ⧺ r) else none) (eqb_refl (code c))
    ∙ without_prefix-append p r

-- Which header lets a request in.
abbrev pub Admits : (expected authorization : String) → Type 0
Admits expected authorization =
    (expected ≡ "") ⊎ ((authorization ≡ "Bearer " ⧺ expected) × (is_ascii expected ≡ true))

digest-cases :
    (a b c : Bool)
    → ((if a && b then ok c else err type_error) >>= λ same. if same then ok tt else denied) ≡ ok tt
    → (b ≡ true) × (c ≡ true)
digest-cases true true true h = (refl, refl)
digest-cases true true false h = absurd (ground arith)
digest-cases true false c h = absurd (ground arith)
digest-cases false b c h = absurd (ground arith)

digest-eq :
    (supplied expected : String)
    → (compare_digest supplied expected >>= λ same. if same then ok tt else denied) ≡ ok tt
    → (supplied ≡ expected) × (is_ascii expected ≡ true)
unfolding compare_digest
digest-eq supplied expected h =
    let (ascii, same) =
      digest-cases (is_ascii supplied) (is_ascii expected) (supplied == expected) h in
    ((eq_iff supplied expected).0 same, ascii)

accepted :
    (expected authorization : String) (found : Option String)
    → without_prefix "Bearer " authorization ≡ found
    → check_token expected found ≡ ok tt
    → (authorization ≡ "Bearer " ⧺ expected) × (is_ascii expected ≡ true)
accepted expected authorization none e h = absurd (ground arith)
accepted expected authorization (some supplied) e h =
    let (same, ascii) = digest-eq supplied expected h in
    (without_prefix_sound "Bearer " authorization supplied e ∙ ap (λ t. "Bearer " ⧺ t) same, ascii)

admitted :
    (b : Bool) (expected authorization : String)
    → (expected == "") ≡ b
    → (if b then ok tt else check_token expected (without_prefix "Bearer " authorization)) ≡ ok tt
    → Admits expected authorization
admitted true expected authorization e h = inl ((eq_iff expected "").0 e)
admitted false expected authorization e h = inr (accepted expected authorization _ refl h)

digest_refl :
    (expected : String) → is_ascii expected ≡ true → compare_digest expected expected ≡ ok true
unfolding compare_digest
digest_refl expected h = rw (h, eq_refl expected)

bearer-accepted :
    (expected : String)
    → is_ascii expected ≡ true
    → check_token expected (without_prefix "Bearer " ("Bearer " ⧺ expected)) ≡ ok tt
bearer-accepted expected h =
    ap (check_token expected) (without_prefix-append "Bearer " expected)
    ∙ ap (λ r. r >>= λ same. if same then ok tt else denied) (digest_refl expected h)

either-ok : (b : Bool) (r : Result (Unit {0})) → r ≡ ok tt → (if b then ok tt else r) ≡ ok tt
either-ok true r h = refl
either-ok false r h = h

-- A request is let in exactly if no key is configured, or its header is the word Bearer, a space and the
-- configured key, which consists of ASCII characters.
pub require_control_token_iff :
    (expected authorization : String)
    → (require_control_token expected authorization ≡ ok tt) ↔ Admits expected authorization
unfolding require_control_token
require_control_token_iff expected authorization = (
  admitted (expected == "") expected authorization refl,
  λ h. elim h [
    | inl empty ↦
        ap (λ b. if b then ok tt else check_token expected (without_prefix "Bearer " authorization))
          (ap (λ k. k == "") empty)
    | inr (bearer, ascii) ↦ either-ok (expected == "") _ (
        ap (λ k. check_token expected (without_prefix "Bearer " k)) bearer
        ∙ bearer-accepted expected ascii)
  ],
)
