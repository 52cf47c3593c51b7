-- ===== src/Kafka/Commands.antt =====
-- What a validated command is, and that the commands which are sent are valid.
use model_fleet_operator.Prelude.{
  String, ◌≡◌, refl, sym, ap, ◌∙◌, subst, Bool, true, false, not, ◌&&◌, ◌||◌, Option, none, some,
  List, [], ◌∷◌, pos, ◌==◌, arith,
}
use model_fleet_operator.Python.Value.{
  Value, Fields, null, bool, int, float, str, arr, obj, find, find_or, truthy, is_text,
}
use model_fleet_operator.Python.Text.{length_of}
use model_fleet_operator.Python.Object.{get}
use model_fleet_operator.Python.Equality.{same}
use model_fleet_operator.Python.Result.{Result, ok, err, >>=-eq-ok, raise_if-eq-ok, ok-injective}
use model_fleet_operator.Slack.Command.{one_of}
use model_fleet_operator.Kafka.{
  valid_verbs, valid_kinds, method, in_set, either, negate, is_event_id, is_nonempty_text,
  validate_params, validate_command,
}
use model_fleet_operator.Worker.{text_item, command_of, as_text}

-- What the parameters of a valid command hold.
pub record IsCommand (params : Fields) : Type 0 where
  pub verb : String
  pub kind : String
  pub namespace : String
  pub name : String
  pub actor : String
  pub event_id : String
  pub has_actor : text_item params "actor" ≡ ok actor
  pub has_event_id : text_item params "event_id" ≡ ok event_id
  pub event_id_length : length_of event_id ≡ 32
  pub verb_valid : one_of verb valid_verbs ≡ true
  pub kind_valid : one_of kind valid_kinds ≡ true
  pub has_command :
      command_of params
      ≡ ok (record {
        verb = verb;
        kind = kind;
        namespace = some namespace;
        name = some name;
        confirmed = truthy (find_or "confirmed" null params);
      })
  pub confirmed :
      one_of verb ("sleep" ∷ "cancel" ∷ []) ≡ true → truthy (find_or "confirmed" null params) ≡ true

in_set-true :
    (v : Value) (l : List String)
    → in_set v l ≡ ok true
    → (s : String) × (v ≡ str s) × (one_of s l ≡ true)
unfolding in_set
in_set-true (str s) l h = (s, refl, ok-injective h)
in_set-true null l h = absurd (ground arith)
in_set-true (bool b) l h = absurd (ground arith)
in_set-true (int n) l h = absurd (ground arith)
in_set-true (float d) l h = absurd (ground arith)
in_set-true (arr xs) l h = absurd (ground arith)
in_set-true (obj fs) l h = absurd (ground arith)

negate-false : (r : Result Bool) → negate r ≡ ok false → r ≡ ok true
negate-false (ok true) h = refl
negate-false (ok false) h = absurd (ground arith)
negate-false (err e) h = absurd (ground arith)

either-false : (a b : Result Bool) → either a b ≡ ok false → (a ≡ ok false) × (b ≡ ok false)
either-false (ok true) b h = absurd (ground arith)
either-false (ok false) b h = (refl, h)
either-false (err e) b h = absurd (ground arith)

is_nonempty_text-str : (v : Value) → is_nonempty_text v ≡ true → (s : String) × (v ≡ str s)
is_nonempty_text-str (str s) h = (s, refl)
is_nonempty_text-str null h = absurd (ground arith)
is_nonempty_text-str (bool b) h = absurd (ground arith)
is_nonempty_text-str (int n) h = absurd (ground arith)
is_nonempty_text-str (float d) h = absurd (ground arith)
is_nonempty_text-str (arr xs) h = absurd (ground arith)
is_nonempty_text-str (obj fs) h = absurd (ground arith)

is_event_id-str :
    (v : Value) → is_event_id v ≡ true → (s : String) × (v ≡ str s) × (length_of s ≡ 32)
is_event_id-str (str s) h = (s, refl, ground arith)
is_event_id-str null h = absurd (ground arith)
is_event_id-str (bool b) h = absurd (ground arith)
is_event_id-str (int n) h = absurd (ground arith)
is_event_id-str (float d) h = absurd (ground arith)
is_event_id-str (arr xs) h = absurd (ground arith)
is_event_id-str (obj fs) h = absurd (ground arith)

as_text-str :
    (k s : String) (o : Option Value)
    → elim o [ none ↦ null | some v ↦ v ] ≡ str s
    → as_text k o ≡ ok s
as_text-str k s none h = absurd (ground arith)
as_text-str k s (some v) h = rw h

text_item-find_or :
    (params : Fields) (k s : String) → find_or k null params ≡ str s → text_item params k ≡ ok s
unfolding text_item find_or
text_item-find_or params k s h = as_text-str k s (find k params) h

command_of-eq :
    (params : Fields) (verb kind namespace name : String)
    → find_or "verb" null params ≡ str verb
    → find_or "kind" null params ≡ str kind
    → find_or "namespace" null params ≡ str namespace
    → find_or "name" null params ≡ str name
    → command_of params
      ≡ ok (record {
        verb = verb;
        kind = kind;
        namespace = some namespace;
        name = some name;
        confirmed = truthy (find_or "confirmed" null params);
      })
unfolding command_of
command_of-eq params verb kind namespace name hv hk hn hm = rw (
  text_item-find_or params "verb" verb hv,
  text_item-find_or params "kind" kind hk,
  text_item-find_or params "namespace" namespace hn,
  text_item-find_or params "name" name hm,
)

is_text-str : (v : Value) (s k : String) → v ≡ str s → is_text v k ≡ (s == k)
is_text-str v s k h = rw h

-- Tests that came out false.
all_three : (a b c : Bool) → not (a && b && c) ≡ false → (a ≡ true) × (b ≡ true) × (c ≡ true)
all_three true true true h = (refl, refl, refl)
all_three a b c h = absurd (ground arith)

neither : (a b : Bool) → (not a || not b) ≡ false → (a ≡ true) × (b ≡ true)
neither true true h = (refl, refl)
neither a b h = absurd (ground arith)

confirmed_if :
    (verb : String) (v : Value) (c : Bool)
    → v ≡ str verb
    → ((is_text v "sleep" || is_text v "cancel") && not c) ≡ false
    → one_of verb ("sleep" ∷ "cancel" ∷ []) ≡ true
    → c ≡ true
confirmed_if verb v true e t destructive = refl
confirmed_if verb v false e t destructive =
    let sleeps = is_text-str v verb "sleep" e in
    let cancels = is_text-str v verb "cancel" e in absurd (ground arith)

-- The guards of `validate_command`, passed.
validate_params-IsCommand :
    (payload : Value) (params checked : Fields)
    → validate_params payload (obj params) ≡ ok checked
    → (checked ≡ params) × IsCommand params
unfolding validate_params
validate_params-IsCommand payload params checked h0 =
    let (id, e1, h1) = >>=-eq-ok (get payload "id") _ h0 in
    let (t1, h2) =
      raise_if-eq-ok
        (not (same id (find_or "event_id" null params))
          || not (is_event_id (find_or "event_id" null params)))
        _ _ h1 in
    let (t2, h3) =
      raise_if-eq-ok (not (same (find_or "schema_version" null params) (int (pos 1)))) _ _ h2 in
    let (wrong, e3, h4) =
      >>=-eq-ok
        (either (negate (in_set (find_or "verb" null params) valid_verbs))
          (negate (in_set (find_or "kind" null params) valid_kinds)))
        _ h3 in
    let (t4, h5) = raise_if-eq-ok wrong _ _ h4 in
    let (t5, h6) =
      raise_if-eq-ok
        (not (
          is_nonempty_text (find_or "actor" null params)
          && is_nonempty_text (find_or "namespace" null params)
          && is_nonempty_text (find_or "name" null params)))
        _ _ h5 in
    let (t6, h7) =
      raise_if-eq-ok
        ((is_text (find_or "verb" null params) "sleep"
            || is_text (find_or "verb" null params) "cancel")
          && not (truthy (find_or "confirmed" null params)))
        _ _ h6 in
    let (ev, ek) =
      either-false (negate (in_set (find_or "verb" null params) valid_verbs))
        (negate (in_set (find_or "kind" null params) valid_kinds)) (e3 ∙ ap ok t4) in
    let (verb, fv, verb_valid) = in_set-true _ valid_verbs (negate-false _ ev) in
    let (kind, fk, kind_valid) = in_set-true _ valid_kinds (negate-false _ ek) in
    let (ta, tn, tm) =
      all_three (is_nonempty_text (find_or "actor" null params))
        (is_nonempty_text (find_or "namespace" null params))
        (is_nonempty_text (find_or "name" null params)) t5 in
    let (actor, fa) = is_nonempty_text-str _ ta in
    let (namespace, fn) = is_nonempty_text-str _ tn in
    let (name, fm) = is_nonempty_text-str _ tm in
    let (ts, te) =
      neither (same id (find_or "event_id" null params))
        (is_event_id (find_or "event_id" null params)) t1 in
    let (event_id, fe, len) = is_event_id-str _ te in
    (
      sym (ok-injective h7),
      record {
        verb = verb;
        kind = kind;
        namespace = namespace;
        name = name;
        actor = actor;
        event_id = event_id;
        has_actor = text_item-find_or params "actor" actor fa;
        has_event_id = text_item-find_or params "event_id" event_id fe;
        event_id_length = len;
        verb_valid = verb_valid;
        kind_valid = kind_valid;
        has_command = command_of-eq params verb kind namespace name fv fk fn fm;
        confirmed = confirmed_if verb _ (truthy (find_or "confirmed" null params)) fv t6;
      },
    )

params_of :
    (payload v : Value) (params : Fields)
    → validate_params payload v ≡ ok params
    → (v ≡ obj params) × IsCommand params
unfolding validate_params
params_of payload (obj fs) params h =
    let (same_, is_command) = validate_params-IsCommand payload fs params h in
    (ap obj (sym same_), subst IsCommand (sym same_) is_command)
params_of payload null params h = cc
params_of payload (bool b) params h = cc
params_of payload (int n) params h = cc
params_of payload (float d) params h = cc
params_of payload (str s) params h = cc
params_of payload (arr xs) params h = cc

-- A payload passes `validate_command` only if its `params` are a dictionary of a known verb and
-- kind, with a target, an actor and an identity of 32 characters, all texts, confirmed if the verb
-- stops compute. So the worker's command can be read from them without an exception.
pub validate_command-IsCommand :
    (payload : Value) (params : Fields)
    → validate_command payload ≡ ok params
    → (get payload "params" ≡ ok (obj params)) × IsCommand params
unfolding validate_command
validate_command-IsCommand payload params h =
    let (v, e1, h1) = >>=-eq-ok (get payload "params") _ h in
    let (jsonrpc, e2, h2) = >>=-eq-ok (get payload "jsonrpc") _ h1 in
    let (name, e3, h3) = >>=-eq-ok (get payload "method") _ h2 in
    let (t, h4) =
      raise_if-eq-ok (not (is_text jsonrpc "2.0") || not (is_text name method)) _ _ h3 in
    let (same_, is_command) = params_of payload v params h4 in (e1 ∙ ap ok same_, is_command)
