-- ===== src/Automation/Risk.antt =====
-- Risk levels of actions (the enum ActionRiskLevel) and the catalogue of registered actions, as far as
-- the engine reads it, backend/src/modules/automation/automation.actions-registry.ts.
use infra_inventory.Prelude.{Option, String}
use infra_inventory.Prelude.Dict
use infra_inventory.Prelude.Dict.{Dict}

pub data RiskLevel : Type 0 where
  read_only low medium high critical : RiskLevel

pub record ActionDefinition : Type 0 where
  pub name : String
  pub risk_level : RiskLevel

abbrev pub Registry : Type 0
Registry = Dict ActionDefinition

unfoldable pub register : ActionDefinition → Registry → Registry
register action actions = Dict.set action.name action actions

unfoldable pub get_action : String → Registry → Option ActionDefinition
get_action name actions = Dict.get name actions
