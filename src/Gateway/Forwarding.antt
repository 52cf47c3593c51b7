-- ===== src/Gateway/Forwarding.antt =====
-- Where a completion is forwarded to.
use model_fleet_operator.Prelude.{
  String, ◌≡◌, refl, ap, ◌⊎◌, inl, inr, Bool, true, false, Option, none, some, ◌==◌, eq_iff,
  if◌then◌else◌, arith, sym, ◌∙◌,
}
use model_fleet_operator.Python.Value.{
  Value, Fields, null, bool, int, float, str, arr, obj, find_or,
}
use model_fleet_operator.Python.Text.{◌⧺◌}
use model_fleet_operator.Python.Result.{Exception, ok, err, ok-injective}
use model_fleet_operator.ControlAuth.{Admits, require_control_token_iff}
use model_fleet_operator.Kube.{Call, Oracle}
use model_fleet_operator.Kube.Moves as Moves
use model_fleet_operator.Kube.Moves.{Order, adds, Moves}
use model_fleet_operator.Gateway.{
  Route, Routes, find_route, select_route, credential, upstream_post, completions, credential_of,
  named,
}
use model_fleet_operator.Gateway.Steps.{completions-Moves, send-Moves}

-- The header that a route's own credential stands in.
abbrev pub HasCredential : (env : String → String) → Route → String → Type 0
HasCredential env route header =
    (((route.api_key_env ≡ none) ⊎ (route.api_key_env ≡ some "")) × (header ≡ ""))
    ⊎ ((name : String) × (route.api_key_env ≡ some name)
        × (¬ (env name ≡ ""))
        × (header ≡ "Bearer " ⧺ env name))

-- The request of a payload: to the upstream of the alias that it names, as it is but for the model.
abbrev pub IsForwarded : (env : String → String) → Routes → (payload : Fields) → Call → Type 0
IsForwarded env routes payload made =
    (alias : String) × (route : Route) × (header : String) × (find_or "model" null payload
      ≡ str alias)
    × (find_route alias routes ≡ some route)
    × HasCredential env route header
    × (made ≡ upstream_post route header payload)

key_header-eq :
    (b : Bool) (key header : String) (e : Exception)
    → (key == "") ≡ b
    → (if b then err e else ok ("Bearer " ⧺ key)) ≡ ok header
    → (¬ (key ≡ "")) × (header ≡ "Bearer " ⧺ key)
key_header-eq true key header e t h = absurd (ground arith)
key_header-eq false key header e t h =
    (λ empty. absurd (let same = (eq_iff key "").1 empty in ground arith), sym (ok-injective h))

named_variable :
    (env : String → String) (b : Bool) (name header : String) (e : Exception)
    → (name == "") ≡ b
    → (if b then ok "" else if env name == "" then err e else ok ("Bearer " ⧺ env name)) ≡ ok header
    → ((name ≡ "") × (header ≡ "")) ⊎ ((¬ (env name ≡ "")) × (header ≡ "Bearer " ⧺ env name))
named_variable env true name header e t h = inl ((eq_iff name "").0 t, sym (ok-injective h))
named_variable env false name header e t h =
    inr (key_header-eq (env name == "") (env name) header e refl h)

of_variable :
    (env : String → String) (route : Route) (variable : Option String) (header : String)
    → route.api_key_env ≡ variable
    → credential_of env variable ≡ ok header
    → HasCredential env route header
of_variable env route none header e h = inl (inl e, sym (ok-injective h))
of_variable env route (some name) header e h =
    elim (named_variable env (name == "") name header _ refl h) [
      | inl (empty, nothing) ↦ inl (inr (e ∙ ap some empty), nothing)
      | inr (present, bearer) ↦ inr (name, e, present, bearer)
    ]

credential-HasCredential :
    (env : String → String) (route : Route) (header : String)
    → credential env route ≡ ok header
    → HasCredential env route header
unfolding credential
credential-HasCredential env route header h = of_variable env route route.api_key_env header refl h

named-some :
    (name : String) (found : Option Route) (selected : String × Route)
    → named name found ≡ ok selected
    → (name ≡ selected.0) × (found ≡ some selected.1)
named-some name none selected h = absurd (ground arith)
named-some name (some route) selected h =
    let same = ok-injective h in (ap (λ p. p.0) same, ap (λ p. some p.1) same)

-- What is selected is the configured route of the alias.
select_route-find :
    (routes : Routes) (v : Value) (selected : String × Route)
    → select_route routes v ≡ ok selected
    → (v ≡ str selected.0) × (find_route selected.0 routes ≡ some selected.1)
unfolding select_route
select_route-find routes (str name) selected h =
    let (same, found) = named-some name (find_route name routes) selected h in
    (ap str same, ap (λ k. find_route k routes) (sym same) ∙ found)
select_route-find routes (arr vs) selected h = absurd (ground arith)
select_route-find routes (obj fs) selected h = absurd (ground arith)
select_route-find routes null selected h = absurd (ground arith)
select_route-find routes (bool b) selected h = absurd (ground arith)
select_route-find routes (int n) selected h = absurd (ground arith)
select_route-find routes (float n) selected h = absurd (ground arith)

-- A completion makes no call but one: with the token of the control plane, or if none is configured,
-- the payload is posted to the upstream of the configured alias that it names, unchanged but for the
-- model, with the credential that the route itself names, which is then present.
pub completions-IsForwarded :
    (oracle : Oracle) (env : String → String) (routes : Routes) (expected authorization : String)
    (payload : Fields)
    → Moves
        (adds (λ made. Admits expected authorization × IsForwarded env routes payload made))
        (completions oracle env routes expected authorization payload)
completions-IsForwarded oracle env routes expected authorization payload =
    completions-Moves (adds _) (λ m _. Moves.count_metric m) oracle env routes expected
      authorization payload
      λ selected header passed known held.
        send-Moves (adds _) (λ m _. Moves.count_metric m) oracle selected.0 selected.1 header
          payload
          (let (named_, found) =
              select_route-find routes (find_or "model" null payload) selected known in
            Moves.call oracle _ (
              (require_control_token_iff expected authorization).0 passed,
              (
                selected.0,
                selected.1,
                header,
                named_,
                found,
                credential-HasCredential env selected.1 header held,
                refl,
              ),
            ))
          (Moves.count_metric _)
