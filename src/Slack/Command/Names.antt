-- ===== src/Slack/Command/Names.antt =====
-- The characters of resource names, and texts without mentions.
use Prim.Native.Char.{Char, code}
use model_fleet_operator.Prelude.{ℕ, String, ◌≡◌, refl, ap, Bool, true, not, ◌||◌, eqb, arith}
use model_fleet_operator.Python.Text.{all_chars}
use model_fleet_operator.Python.Text.Plain.{and_elim, not-true}
use model_fleet_operator.Slack.Command.{
  is_alnum, name_rest, is_resource_name, without_from, mention_length, without_mentions,
}

abbrev pub is_label_char : ℕ → Bool
is_label_char c = is_alnum c || eqb c b'-'

name_rest-label :
    (last : ℕ) (s : String) → name_rest last s ≡ true → all_chars is_label_char s ≡ true
unfolding name_rest
name_rest-label last String.[] h = refl
name_rest-label last (String.◌∷◌ c s) h =
    let (first, others) = and_elim (is_label_char (code c)) (name_rest (code c) s) h in
    rw (first) (name_rest-label (code c) s others)

pub is_resource_name-label :
    (s : String) → is_resource_name s ≡ true → all_chars is_label_char s ≡ true
unfolding is_resource_name
is_resource_name-label String.[] h = absurd (ground arith)
is_resource_name-label (String.◌∷◌ c s) h =
    let (first, others) = and_elim (is_alnum (code c)) (name_rest (code c) s) h in
    rw (first) (name_rest-label (code c) s others)

abbrev pub is_no_angle : ℕ → Bool
is_no_angle c = not (eqb c b'<')

mention_length-no_angle :
    (c : Char) (s : String) → is_no_angle (code c) ≡ true → mention_length (String.◌∷◌ c s) ≡ 0
unfolding mention_length
mention_length-no_angle c String.[] h = refl
mention_length-no_angle c (String.◌∷◌ d s) h = rw (not-true (eqb (code c) b'<') h) refl

pub without_mentions-no_angle :
    (s : String) → all_chars is_no_angle s ≡ true → without_mentions s ≡ s
unfolding without_mentions without_from
without_mentions-no_angle String.[] h = refl
without_mentions-no_angle (String.◌∷◌ c s) h =
    let (first, others) = and_elim (is_no_angle (code c)) (all_chars is_no_angle s) h in
    rw (mention_length-no_angle c s first)
      (ap (λ t. String.◌∷◌ c t) (without_mentions-no_angle s others))
