-- ===== src/Permissions/Commands.antt =====
-- The commands of a ruleset for Google Cloud, as shlex.split reads them.
use Prim.Native.String.append
use text.Mathlib.TextLemmas.{append_assoc}
use model_fleet_operator.Prelude.{String, ◌≡◌, refl, sym, ap, ◌∙◌, false, List, [], ◌∷◌, ◌++◌, map}
use model_fleet_operator.Python.Text.{◌⧺◌}
use model_fleet_operator.Python.Result.{ok, ◌>>=◌}
use model_fleet_operator.Python.Shlex.{shlex_split, lex_from, blank}
use model_fleet_operator.Python.Shlex.Quote.{shlex_quote}
use model_fleet_operator.Python.Shlex.Quote.Read.{quoted_word, quoted_last, spaced_words}
use model_fleet_operator.Permissions.{grant, workload_binding, gcp_grants}

-- The words of a command that gives an account a role at a bucket.
abbrev pub grant_words : (google_account role bucket : String) → List String
grant_words google_account role bucket =
    "gcloud"
    ∷ "storage"
    ∷ "buckets"
    ∷ "add-iam-policy-binding"
    ∷ ("gs://" ⧺ bucket)
    ∷ ("--member=serviceAccount:" ⧺ google_account)
    ∷ ("--role=roles/storage." ⧺ role)
    ∷ []

abbrev pub binding_words : (project google_account namespace account : String) → List String
binding_words project google_account namespace account =
    "gcloud"
    ∷ "iam"
    ∷ "service-accounts"
    ∷ "add-iam-policy-binding"
    ∷ google_account
    ∷ "--role=roles/iam.workloadIdentityUser"
    ∷ ("--member=serviceAccount:" ⧺ project ⧺ ".svc.id.goog[" ⧺ namespace ⧺ "/" ⧺ account ⧺ "]")
    ∷ []

-- The roles at buckets are words.
viewer_option :
    shlex_split "--role=roles/storage.objectViewer" ≡ ok ("--role=roles/storage.objectViewer" ∷ [])
unfolding shlex_split
viewer_option = refl

creator_option :
    shlex_split "--role=roles/storage.objectCreator"
    ≡ ok ("--role=roles/storage.objectCreator" ∷ [])
unfolding shlex_split
creator_option = refl

-- The words in front of the names.
abbrev grant_lead : List String
grant_lead = "gcloud" ∷ "storage" ∷ "buckets" ∷ "add-iam-policy-binding" ∷ []

abbrev binding_lead : List String
binding_lead = "gcloud" ∷ "iam" ∷ "service-accounts" ∷ "add-iam-policy-binding" ∷ []

abbrev binding_role : List String
binding_role = "--role=roles/iam.workloadIdentityUser" ∷ []

-- A quoted text by itself, a blank, and the rest.
quoted_alone :
    (s rest : String)
    → lex_from blank false "" (shlex_quote s ⧺ " " ⧺ rest)
      ≡ (lex_from blank false "" rest >>= λ words. ok (s ∷ words))
quoted_alone s rest =
    ap (lex_from blank false "") (sym (append.nil (shlex_quote s ⧺ " " ⧺ rest)))
    ∙ quoted_word "" s rest refl
    ∙ ap (λ t. lex_from blank false "" rest >>= λ words. ok (t ∷ words)) (append.nil s)

-- The option of a member, quoted, and the rest.
member_option :
    (s rest : String)
    → lex_from blank false "" ("--member=" ⧺ shlex_quote ("serviceAccount:" ⧺ s) ⧺ " " ⧺ rest)
      ≡ (lex_from blank false "" rest >>= λ words. ok (("--member=serviceAccount:" ⧺ s) ∷ words))
member_option s rest =
    quoted_word "--member=" ("serviceAccount:" ⧺ s) rest refl
    ∙ ap (λ t. lex_from blank false "" rest >>= λ words. ok (t ∷ words))
        (sym (append_assoc "--member=" "serviceAccount:" s))

grant-words :
    (google_account role bucket : String)
    → shlex_split ("--role=roles/storage." ⧺ role) ≡ ok (("--role=roles/storage." ⧺ role) ∷ [])
    → shlex_split (grant google_account role bucket) ≡ ok (grant_words google_account role bucket)
unfolding shlex_split grant
grant-words google_account role bucket last =
    let option = "--role=roles/storage." ⧺ role in
    let member = shlex_quote ("serviceAccount:" ⧺ google_account) in
    let target = shlex_quote ("gs://" ⧺ bucket) in
    spaced_words grant_lead (target ⧺ " --member=" ⧺ member ⧺ " --role=roles/storage." ⧺ role)
      (refl, (refl, (refl, (refl, tt))))
    ∙ ap (λ r. r >>= λ more. ok (grant_lead ++ more))
        (ap (λ t. lex_from blank false "" (target ⧺ " --member=" ⧺ member ⧺ t))
            (append_assoc " " "--role=roles/storage." role)
          ∙ ap (λ t. lex_from blank false "" (target ⧺ t))
              (append_assoc " " "--member=" (member ⧺ " " ⧺ option))
          ∙ quoted_alone ("gs://" ⧺ bucket) ("--member=" ⧺ member ⧺ " " ⧺ option)
          ∙ ap (λ r. r >>= λ words. ok (("gs://" ⧺ bucket) ∷ words))
              (member_option google_account option
                ∙ ap
                    (λ r. r >>= λ words. ok (("--member=serviceAccount:" ⧺ google_account) ∷ words))
                    last))

binding-words :
    (project google_account namespace account : String)
    → shlex_split (workload_binding project google_account namespace account)
      ≡ ok (binding_words project google_account namespace account)
unfolding shlex_split workload_binding
binding-words project google_account namespace account =
    let who = project ⧺ ".svc.id.goog[" ⧺ namespace ⧺ "/" ⧺ account ⧺ "]" in
    let member = shlex_quote ("serviceAccount:" ⧺ who) in
    spaced_words binding_lead
      (shlex_quote google_account ⧺ " --role=roles/iam.workloadIdentityUser --member=" ⧺ member)
      (refl, (refl, (refl, (refl, tt))))
    ∙ ap (λ r. r >>= λ more. ok (binding_lead ++ more))
        (ap (λ t. lex_from blank false "" (shlex_quote google_account ⧺ t))
            (append_assoc " " "--role=roles/iam.workloadIdentityUser --member=" member)
          ∙ quoted_alone google_account ("--role=roles/iam.workloadIdentityUser --member=" ⧺ member)
          ∙ ap (λ r. r >>= λ words. ok (google_account ∷ words))
              (ap (lex_from blank false "")
                  (append_assoc "--role=roles/iam.workloadIdentityUser " "--member=" member)
                ∙ spaced_words binding_role ("--member=" ⧺ member) (refl, tt)
                ∙ ap (λ r. r >>= λ more. ok (binding_role ++ more))
                    (quoted_last "--member=" ("serviceAccount:" ⧺ who) refl
                      ∙ ap (λ t. ok (t ∷ []))
                          (sym (append_assoc "--member=" "serviceAccount:" who)))))

grants-words :
    (google_account role : String) (buckets : List String)
    → shlex_split ("--role=roles/storage." ⧺ role) ≡ ok (("--role=roles/storage." ⧺ role) ∷ [])
    → map shlex_split (map (grant google_account role) buckets)
      ≡ map ok (map (grant_words google_account role) buckets)
grants-words google_account role [] last = refl
grants-words google_account role (bucket ∷ buckets) last =
    ap (λ r. r ∷ map shlex_split (map (grant google_account role) buckets))
      (grant-words google_account role bucket last)
    ∙ ap (λ l. ok (grant_words google_account role bucket) ∷ l)
        (grants-words google_account role buckets last)

map-append : {A B : Type 0} (f : A → B) (xs ys : List A) → map f (xs ++ ys) ≡ map f xs ++ map f ys
map-append f [] ys = refl
map-append f (x ∷ xs) ys = ap (λ l. f x ∷ l) (map-append f xs ys)

-- Whatever characters the names of the buckets, the project and the accounts have, shlex.split reads the
-- commands as meant: one that binds the Kubernetes account to the Google account, one for each bucket to
-- read that lets the account view objects, and one for each bucket to write that lets it create them,
-- each name in one word.
pub gcp_grants-words :
    (project google_account namespace account : String) (reads writes : List String)
    → map shlex_split (gcp_grants project google_account namespace account reads writes)
      ≡ map ok (
          (binding_words project google_account namespace account ∷ [])
          ++ map (grant_words google_account "objectViewer") reads
          ++ map (grant_words google_account "objectCreator") writes)
unfolding gcp_grants
gcp_grants-words project google_account namespace account reads writes =
    let viewer = grants-words google_account "objectViewer" reads viewer_option in
    let creator = grants-words google_account "objectCreator" writes creator_option in
    ap
      (λ r.
        r
        ∷ map shlex_split (
            map (grant google_account "objectViewer") reads
            ++ map (grant google_account "objectCreator") writes))
      (binding-words project google_account namespace account)
    ∙ ap (λ l. ok (binding_words project google_account namespace account) ∷ l)
        (map-append shlex_split (map (grant google_account "objectViewer") reads) _
          ∙ ap (λ l. l ++ map shlex_split (map (grant google_account "objectCreator") writes))
              viewer
          ∙ ap (λ l. map ok (map (grant_words google_account "objectViewer") reads) ++ l) creator
          ∙ sym (map-append ok (map (grant_words google_account "objectViewer") reads) _))
