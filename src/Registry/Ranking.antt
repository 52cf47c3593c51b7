-- ===== src/Registry/Ranking.antt =====
-- The order of the registry's lists.
use mathlib.Core.List.{Perm}
use mathlib.Core.List.Perm
use mathlib.Core.Path.{fun_ext}
use model_fleet_operator.Prelude.{
  ℕ, String, ◌≡◌, refl, subst, inl, inr, ap, Bool, not, List, [], ◌∷◌, map, All, eqb, if◌then◌else◌,
  Bool-cases, ◌⊎◌, ◌<◌, ◌∙◌, ◌||◌, sym, true, false, ltb, All-weaken, length, arith, sort, text_le,
  text_le_total, text_le_trans, IsSorted, Linear, sort-IsSorted, sort-Perm, sort-All,
}
use model_fleet_operator.Registry.{
  AgentCard, Entry, id_le, ranks_before, score, searchable, scored, ranked, find_words, words_from,
  close_word,
}
use Prim.Native.Char.{Char, code}
use Prim.Native.String.append
use text.Mathlib.TextLemmas.{append-nil, append_assoc}
use model_fleet_operator.Python.Object.{has_substring}
use model_fleet_operator.Python.Text.{◌⧺◌, distinct, lower, join, single, is_lower, is_digit}
use model_fleet_operator.Python.Value.{Value}
use model_fleet_operator.Python.Result.{Result, ok, ok-injective}
use model_fleet_operator.Kube.{Oracle, State, pure}
use model_fleet_operator.Kube.Runs.{bind-eq-ok, call-eq-ok, lift-eq-ok}
use model_fleet_operator.Registry.Store.{all_agents, search, entries_of}

pub id_le-Linear : Linear id_le
id_le-Linear = record {
  total = λ a b h. text_le_total a.id b.id h;
  trans = λ a b c h k. text_le_trans a.id b.id c.id h k;
}

pub ranks_before-Linear : Linear ranks_before
ranks_before-Linear = record {
  total = λ (m, a) (n, b) h. let t = text_le_total a.id b.id in ground arith;
  trans = λ (m, a) (n, b) (k, c) h j. let t = text_le_trans a.id b.id c.id in ground arith;
}

abbrev pub keep : {A : Type 0} → (A → Bool) → List A → List A
keep p [] = []
keep p (x ∷ xs) = if p x then x ∷ keep p xs else keep p xs

-- The words of a text, read from the left: the letters and digits of the one at hand are `word`.
abbrev pub words : (word : String) → String → List String
words word String.[] = close_word word []
words word (String.◌∷◌ c s) = elim (is_lower (code c) || is_digit (code c)) [
  | true ↦ words (word ⧺ single c) s
  | false ↦ close_word word (words "" s)
]

prepend : (word rest : String) (c : Char) → (word ⧺ single c) ⧺ rest ≡ word ⧺ String.◌∷◌ c rest
prepend word rest c =
    append_assoc word (single c) rest
    ∙ ap (λ t. word ⧺ t) (append.cons c String.[] rest ∙ ap (λ t. String.◌∷◌ c t) (append.nil rest))

words-eq : (word s : String) → words word s ≡ close_word (word ⧺ (words_from s).0) (words_from s).1
unfolding words_from
words-eq word String.[] = ap (λ w. close_word w []) (sym (append-nil word))
words-eq word (String.◌∷◌ c s) =
    let (w, ws) = words_from s in
    elim (Bool-cases (is_lower (code c) || is_digit (code c))) [
      | inl e ↦
          rw (words, e)
            (words-eq (word ⧺ single c) s ∙ ap (λ t. close_word t ws) (prepend word w c))
      | inr e ↦
          rw (words, e)
            (ap (close_word word) (words-eq "" s ∙ ap (λ t. close_word t ws) (append.nil w))
              ∙ ap (λ t. close_word t (close_word w ws)) (sym (append-nil word)))
    ]

-- What a card says of its skills.
abbrev pub spoken : AgentCard → String
spoken card = lower (
    join " " (map (λ skill. join " " (skill.id ∷ skill.name ∷ skill.description ∷ [])) card.skills))

-- How many of the query's distinct words occur in what a card says of its skills.
abbrev pub relevance : (query : String) → Entry → ℕ
relevance query entry =
    length (keep (has_substring (spoken entry.card)) (distinct (words "" (lower query))))

abbrev pub relevant : (query : String) → Entry → Bool
relevant query entry = not (eqb (relevance query entry) 0)

score-length :
    (text : String) (terms : List String)
    → score text terms ≡ length (keep (has_substring text) terms)
unfolding score
score-length text [] = refl
score-length text (term ∷ terms) = elim (Bool-cases (has_substring text term)) [
  | inl e ↦ rw (e) (let ih = score-length text terms in ground arith)
  | inr e ↦ rw (e) (let ih = score-length text terms in ground arith)
]

relevance-eq :
    (query : String) (entry : Entry)
    → score (searchable entry.card) (distinct (find_words (lower query))) ≡ relevance query entry
unfolding searchable find_words join
relevance-eq query entry =
    ap (λ ws. score (searchable entry.card) (distinct ws))
      (sym (
        words-eq "" (lower query)
        ∙ ap (λ t. close_word t (words_from (lower query)).1)
            (append.nil (words_from (lower query)).0)))
    ∙ score-length (spoken entry.card) (distinct (words "" (lower query)))

module _ (terms : List String) where
  abbrev points : Entry → ℕ
  points entry = score (searchable entry.card) terms

  scored-All : (entries : List Entry) → All (λ row. row.0 ≡ points row.1) (scored terms entries)
  unfolding scored
  scored-All [] = tt
  scored-All (entry ∷ entries) = elim (Bool-cases (eqb (points entry) 0)) [
    | inl e ↦ rw (e) (scored-All entries)
    | inr e ↦ rw (e) (refl, scored-All entries)
  ]

  scored-keep :
      (entries : List Entry)
      → map (λ row. row.1) (scored terms entries) ≡ keep (λ e. not (eqb (points e) 0)) entries
  unfolding scored
  scored-keep [] = refl
  scored-keep (entry ∷ entries) = elim (Bool-cases (eqb (points entry) 0)) [
    | inl e ↦ rw (e) (scored-keep entries)
    | inr e ↦ rw (e) (ap (λ l. entry ∷ l) (scored-keep entries))
  ]

-- `P` holds between each element and those after it.
abbrev pub Each : {A : Type 0} → (A → A → Type 0) → List A → Type 0
Each P [] = Unit
Each P (x ∷ xs) = All (P x) xs × Each P xs

-- More words, or as many and a name that is not later.
abbrev pub Precedes : ℕ × Entry → ℕ × Entry → Type 0
Precedes (m, a) (n, b) = (n < m) ⊎ ((m ≡ n) × (text_le a.id b.id ≡ true))

ranks_before-Precedes : (x y : ℕ × Entry) → ranks_before x y ≡ true → Precedes x y
ranks_before-Precedes (m, a) (n, b) h = elim (Bool-cases (ltb n m)) [
  | inl e ↦ inl (ground arith)
  | inr e ↦ elim (Bool-cases (eqb m n)) [
    | inl f ↦ inr (ground arith, ground arith)
    | inr f ↦ absurd (ground arith)
  ]
]

IsSorted-Each : (rows : List (ℕ × Entry)) → IsSorted ranks_before rows → Each Precedes rows
IsSorted-Each [] s = tt
IsSorted-Each (row ∷ rows) s =
    (All-weaken _ _ rows (ranks_before-Precedes row) s.0, IsSorted-Each rows s.1)

pub record Ranked (query : String) (entries found : List Entry) : Type 0 where
  pub rows : List (ℕ × Entry)
  pub shown : map (λ row. row.1) rows ≡ found
  pub in_order : Each Precedes rows
  pub scores : All (λ row. row.0 ≡ relevance query row.1) rows
  pub complete : Perm found (keep (relevant query) entries)

ranked-Ranked :
    (query : String) (entries : List Entry)
    → Ranked query entries (map (λ row. row.1) (ranked query entries))
unfolding ranked
ranked-Ranked query entries =
    let terms = distinct (find_words (lower query)) in
    let rows = scored terms entries in
    record {
      rows = sort ranks_before rows;
      shown = refl;
      in_order = IsSorted-Each _ (sort-IsSorted ranks_before ranks_before-Linear rows);
      scores =
          sort-All ranks_before _ rows (
            All-weaken _ _ rows (λ row e. e ∙ relevance-eq query row.1) (scored-All terms entries));
      complete =
          subst (λ l. Perm (map (λ row. row.1) (sort ranks_before rows)) l)
            (scored-keep terms entries
              ∙ ap (λ points. keep (λ e. not (eqb (points e) 0)) entries)
                  (fun_ext (relevance-eq query)))
            (Perm.map (λ row. row.1) (sort-Perm ranks_before rows));
    }

-- The list of agents is made of the resources that the API server listed, in the order of their names.
pub all_agents-IsSorted :
    (oracle : Oracle) (validate : Value → Result AgentCard) (namespace : Value)
    (entries : List Entry) (s t : State)
    → all_agents oracle validate namespace s ≡ (ok entries, t)
    → IsSorted id_le entries
      × (objects : List Value) × (listed : List Entry) × (entries_of validate objects ≡ ok listed)
      × Perm entries listed
unfolding all_agents pure
all_agents-IsSorted oracle validate namespace entries s t h =
    let (answer, _, h1) = call-eq-ok _ _ _ _ h in
    let (objects, _, h2) = lift-eq-ok _ _ _ h1 in
    let (listed, read_, h3) = lift-eq-ok _ _ _ h2 in
    let sorted = ok-injective (ap (λ x. x.0) h3) in
    (
      subst (IsSorted id_le) sorted (sort-IsSorted id_le id_le-Linear listed),
      objects,
      listed,
      read_,
      subst (λ l. Perm l listed) sorted (sort-Perm id_le listed),
    )

-- A search finds exactly the listed agents for which at least one word of the query occurs in the
-- ids, names and descriptions of their skills, in either case and also inside a word; those for
-- which more of its different words occur come first, those with as many in the order of their names.
pub search-Ranked :
    (oracle : Oracle) (validate : Value → Result AgentCard) (namespace : Value) (query : String)
    (found : List Entry) (s t : State)
    → search oracle validate namespace query s ≡ (ok found, t)
    → (entries : List Entry) × ((all_agents oracle validate namespace s).0 ≡ ok entries)
      × Ranked query entries found
unfolding search pure
search-Ranked oracle validate namespace query found s t h =
    let (entries, e, h1) = bind-eq-ok _ _ s h in
    (
      entries,
      e,
      subst (Ranked query entries) (ok-injective (ap (λ x. x.0) h1)) (ranked-Ranked query entries),
    )
