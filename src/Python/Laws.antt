-- ===== src/Python/Laws.antt =====
-- Laws of the dictionary operations.
use model_fleet_operator.Prelude.{
  String, ◌≡◌, refl, sym, ap, ◌∙◌, some, true, false, arith, eq_iff, ◌==◌, if◌then◌else◌, List, [],
  ◌∷◌,
}
use model_fleet_operator.Python.Value.{Value, Fields, obj, end, field, find, put, at, truthy}
use model_fleet_operator.Python.Result.{ok}
use model_fleet_operator.Python.Object.{store, setdefault, get}

pub find-put :
    (k j : String) (v : Value) (fs : Fields)
    → find j (put k v fs) ≡ (if k == j then some v else find j fs)
unfolding find put
find-put k j v end = refl
find-put k j v (field i w fs) =
    ground (arith, eq_iff k j, eq_iff i k, eq_iff i j, find-put k j v fs)

pub find-put_self : (k : String) (v : Value) (fs : Fields) → find k (put k v fs) ≡ some v
find-put_self k v fs = ground (arith, find-put k k v fs, eq_iff k k)

-- A successful `v[k] = w` is on a dictionary.
pub store-eq-ok :
    (v : Value) (k : String) (w : Value) {v' : Value}
    → store v k w ≡ ok v'
    → (fs : Fields) × (v ≡ obj fs) × (v' ≡ obj (put k w fs))
unfolding store
store-eq-ok (obj fs) k w h = (fs, refl, ground arith)
store-eq-ok Value.null k w h = cc
store-eq-ok _ k w h = cc

pub at-nil : (v : Value) → at [] v ≡ some v
unfolding at
at-nil v = refl

-- After `v[k] = w` the key holds w, and another key what it held.
pub at-store_self :
    (v : Value) (k : String) (w : Value) (ks : List String) {v' : Value}
    → store v k w ≡ ok v'
    → at (k ∷ ks) v' ≡ at ks w
unfolding at
at-store_self v k w ks h = let (fs, _, stored) = store-eq-ok v k w h in rw (stored, find-put_self)

at-put_after :
    (k j : String) (w : Value) (ks : List String) (fs : Fields) {v : Value}
    → (k == j) ≡ false
    → v ≡ obj (put k w fs)
    → at (j ∷ ks) v ≡ at (j ∷ ks) (obj fs)
unfolding at
at-put_after k j w ks fs ne e = rw (e, find-put, ne)

pub at-store_ne :
    (v : Value) (k j : String) (w : Value) (ks : List String) {v' : Value}
    → (k == j) ≡ false
    → store v k w ≡ ok v'
    → at (j ∷ ks) v' ≡ at (j ∷ ks) v
unfolding at
at-store_ne v k j w ks ne h =
    let (fs, was, stored) = store-eq-ok v k w h in
    at-put_after k j w ks fs ne stored ∙ sym (ap (at (j ∷ ks)) was)

pub at-put_self :
    (k : String) (v : Value) (ks : List String) (fs : Fields)
    → at (k ∷ ks) (obj (put k v fs)) ≡ at ks v
unfolding at
at-put_self k v ks fs = rw find-put_self

pub at-put_ne :
    (k j : String) (v : Value) (ks : List String) (fs : Fields)
    → (k == j) ≡ false
    → at (j ∷ ks) (obj (put k v fs)) ≡ at (j ∷ ks) (obj fs)
unfolding at
at-put_ne k j v ks fs ne = rw (find-put, ne)

pub at-setdefault_self :
    (v : Value) (k : String) (d : Value) (ks : List String) {w v' : Value}
    → setdefault v k d ≡ ok (w, v')
    → at (k ∷ ks) v' ≡ at ks w
unfolding at setdefault
at-setdefault_self (obj fs) k d ks h = ground (arith, find-put_self k d fs)
at-setdefault_self Value.null k d ks h = cc
at-setdefault_self _ k d ks h = cc

pub at-setdefault_ne :
    (v : Value) (k j : String) (d : Value) (ks : List String) {w v' : Value}
    → (k == j) ≡ false
    → setdefault v k d ≡ ok (w, v')
    → at (j ∷ ks) v' ≡ at (j ∷ ks) v
unfolding at setdefault
at-setdefault_ne (obj fs) k j d ks ne h = ground (arith, find-put k j d fs)
at-setdefault_ne Value.null k j d ks ne h = cc
at-setdefault_ne _ k j d ks ne h = cc

-- `v.get(k)` returns what stands under the key.
pub get-eq-at :
    (v : Value) (k : String) {w x : Value} → get v k ≡ ok w → at (k ∷ []) v ≡ some x → x ≡ w
unfolding get at
get-eq-at (obj fs) k h e = ground arith
get-eq-at Value.null k h e = cc
get-eq-at _ k h e = cc

-- A truthy answer of `v.get(k)` is not the `None` of a missing key.
pub at-eq_of_truthy :
    (v : Value) (k : String) {w : Value} → get v k ≡ ok w → truthy w ≡ true → at (k ∷ []) v ≡ some w
unfolding get at truthy
at-eq_of_truthy (obj fs) k h t = ground arith
at-eq_of_truthy Value.null k h t = cc
at-eq_of_truthy _ k h t = cc
