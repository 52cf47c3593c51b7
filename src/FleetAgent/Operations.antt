-- ===== src/FleetAgent/Operations.antt =====
-- What the fleet agent does to the cluster.
use model_fleet_operator.Prelude.{String, ◌≡◌, ◌⊎◌}
use model_fleet_operator.Python.Value.{Value, Fields}
use model_fleet_operator.Python.Library.{Library}
use model_fleet_operator.Kube.{Call, Oracle}
use model_fleet_operator.Python.Result.{ok}
use model_fleet_operator.Kube.Moves as Moves
use model_fleet_operator.Kube.Moves.{Moves}
use model_fleet_operator.Slack.Status.Reads.{IsList}
use model_fleet_operator.AgentRuntime.{Agent, RpcTask, skill_of}
use model_fleet_operator.FleetAgent.{handlers}
use model_fleet_operator.FleetAgent.Control.{IsRequested}

-- What a task of a skill may do: the status skill lists objects, and the control skill of a kind patches
-- the resource of the command that the task's parameters ask for.
abbrev pub IsOperation : Library → (now skill : String) → (params : Fields) → Call → Type 0
IsOperation lib now skill params made =
    ((skill ≡ "fleet.status") × IsList made)
    ⊎ ((skill ≡ "fleet.inference.control") × IsRequested lib now "inference" params made)
    ⊎ ((skill ≡ "fleet.training.control") × IsRequested lib now "training" params made)
    ⊎ ((skill ≡ "fleet.agent.control") × IsRequested lib now "agent" params made)

-- The fleet agent, with the given handlers.
abbrev pub operating : Agent → Oracle → Library → (now profile : String) → Agent
operating agent oracle lib now profile = record agent { handlers = handlers oracle lib now profile }

-- Of a task of the payload.
abbrev pub IsTaskOperation : Library → Agent → (now : String) → (payload : Value) → Call → Type 0
IsTaskOperation lib agent now payload made =
    (task : RpcTask) × (agent.decode payload ≡ ok task)
    × IsOperation lib now (skill_of lib task) task.params made
