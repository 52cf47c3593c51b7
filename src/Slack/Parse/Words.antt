-- ===== src/Slack/Parse/Words.antt =====
-- A command that is written as plain words is parsed word by word.
use model_fleet_operator.Prelude.{
  ℕ, String, ◌≡◌, refl, ap, ◌∙◌, Bool, true, ◌||◌, List, ◌∷◌, All, All-weaken, eqb, arith,
}
use model_fleet_operator.Python.Text.{all_chars, join, strip}
use model_fleet_operator.Python.Text.Plain.{
  all_chars_weaken, all_chars-join, IsNonempty, IsInked, is_ink, strip-join,
}
use model_fleet_operator.Python.Result.{◌>>=◌}
use model_fleet_operator.Python.Shlex.{shlex_split}
use model_fleet_operator.Python.Shlex.Words.{IsWord, is_plain, shlex_split-join}
use model_fleet_operator.Slack.Command.Names.{is_label_char, is_no_angle, without_mentions-no_angle}
use model_fleet_operator.Slack.Parse.{parts_or_raise, parse_parts, parse_command}

-- The characters of `namespace/name`.
abbrev pub is_target_char : ℕ → Bool
is_target_char c = is_label_char c || eqb c b'/'

-- A word of them.
abbrev pub IsTargetWord : String → Type 0
IsTargetWord w = IsNonempty w × (all_chars is_target_char w ≡ true)

target-ink : (c : ℕ) → is_target_char c ≡ true → is_ink c ≡ true
target-ink c h = ground arith

target-plain : (c : ℕ) → is_target_char c ≡ true → is_plain c ≡ true
target-plain c h = ground arith

target-no_angle : (c : ℕ) → is_target_char c ≡ true → is_no_angle c ≡ true
target-no_angle c h = ground arith

inked : (w : String) → IsTargetWord w → IsInked w
inked w h = (h.0, all_chars_weaken is_target_char is_ink w target-ink h.1)

plain-IsWord : (w : String) → IsTargetWord w → IsWord w
plain-IsWord String.[] h = absurd h.0
plain-IsWord (String.◌∷◌ c w) h =
    all_chars_weaken is_target_char is_plain (String.◌∷◌ c w) target-plain h.1

no_angle : (w : String) → IsTargetWord w → all_chars is_no_angle w ≡ true
no_angle w h = all_chars_weaken is_target_char is_no_angle w target-no_angle h.1

pub parse_command-join :
    (w : String) (words : List String) (default_namespace : String)
    → IsTargetWord w
    → All IsTargetWord words
    → parse_command (join " " (w ∷ words)) default_namespace
      ≡ parse_parts default_namespace (w ∷ words)
unfolding parse_command
parse_command-join w words default_namespace h hs =
    let all_ : All IsTargetWord (w ∷ words) = (h, hs) in
    ap (λ t. parts_or_raise (shlex_split (strip t)) >>= parse_parts default_namespace)
      (without_mentions-no_angle (join " " (w ∷ words)) (
        all_chars-join is_no_angle " " (w ∷ words) refl (All-weaken _ _ (w ∷ words) no_angle all_)))
    ∙ ap (λ t. parts_or_raise (shlex_split t) >>= parse_parts default_namespace)
        (strip-join " " w words (inked w h) (All-weaken _ _ words inked hs))
    ∙ ap (λ r. parts_or_raise r >>= parse_parts default_namespace)
        (shlex_split-join (w ∷ words) (All-weaken _ _ (w ∷ words) plain-IsWord all_))
