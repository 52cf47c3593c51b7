-- ===== src/Slack/Status/Reads.antt =====
-- The views only read.
use model_fleet_operator.Prelude.{String, ◌≡◌, refl}
use model_fleet_operator.Python.Value.{Value}
use model_fleet_operator.Python.Library.{Library}
use model_fleet_operator.Kube.{Call, Oracle, list_all}
use model_fleet_operator.Kube.Moves as Moves
use model_fleet_operator.Kube.Moves.{adds, Moves}
use model_fleet_operator.Slack.Status.{list_objects, gpu_line, status}

-- A call that lists objects.
abbrev pub IsList : Call → Type 0
IsList made = (resource : String) × (namespace : Value) × (made ≡ list_all resource namespace)

pub list_objects-Moves :
    (oracle : Oracle) (plural : String) (namespace : Value)
    → Moves (adds IsList) (list_objects oracle plural namespace)
unfolding list_objects
list_objects-Moves oracle plural namespace =
    Moves.bind _ _ _ (Moves.call oracle _ (_, _, refl)) (λ result. Moves.lift _ _)

gpu_line-Moves : (oracle : Oracle) → Moves (adds IsList) (gpu_line oracle)
unfolding gpu_line
gpu_line-Moves oracle = Moves.bind _ _ _ (Moves.call oracle _ (_, _, refl)) λ nodes.
    Moves.bind _ _ _ (Moves.lift _ _)
      λ elements. Moves.bind _ _ _ (Moves.lift _ _) (λ totals. Moves.pure _ _)

-- The status only lists objects.
pub status-Moves :
    (oracle : Oracle) (lib : Library) (profile : String) (namespace : Value)
    → Moves (adds IsList) (status oracle lib profile namespace)
unfolding status
status-Moves oracle lib profile namespace =
    Moves.bind _ _ _ (list_objects-Moves oracle "inferenceservices" namespace) λ inference.
      Moves.bind _ _ _ (list_objects-Moves oracle "trainingruns" namespace) λ training.
        Moves.bind _ _ _ (list_objects-Moves oracle "datasets" namespace) λ datasets.
          Moves.bind _ _ _ (list_objects-Moves oracle "agentregistrations" namespace) λ agents.
            Moves.bind _ _ _ (gpu_line-Moves oracle) λ gpu. Moves.bind _ _ _ (Moves.lift _ _) λ _.
              Moves.bind _ _ _ (Moves.lift _ _) λ _.
                Moves.bind _ _ _ (Moves.lift _ _)
                  λ _. Moves.bind _ _ _ (Moves.lift _ _) (λ _. Moves.pure _ _)
