-- ===== src/Tests/Home.antt =====
-- slack.py: the home tab's theorem at a concrete input.
use model_fleet_operator.Slack.Command.{is_resource_name}
use model_fleet_operator.Prelude.{All₂, refl}
use model_fleet_operator.Python.Value.{null}
use model_fleet_operator.Slack.Status.{Row}
use model_fleet_operator.Slack.Home.{target, buttons}
use model_fleet_operator.Slack.Home.Buttons.{
  IsNamed, Sends, service_buttons, agent_buttons, buttons-eq_commanded,
}

abbrev chat : Row
chat = record { namespace = "models"; name = "chat"; object = null }

abbrev chat_names : IsNamed chat
unfolding is_resource_name
chat_names = record { namespace_valid = refl; name_valid = refl }

buttons-eq_commanded_example :
    All₂ (Sends "default") (service_buttons chat) (buttons "inference" (target chat))
    × All₂ (Sends "default") (agent_buttons chat) (buttons "agent" (target chat))
buttons-eq_commanded_example = buttons-eq_commanded chat chat_names "default"
