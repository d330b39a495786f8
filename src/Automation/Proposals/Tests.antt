-- ===== src/Automation/Proposals/Tests.antt =====
-- A board with one rejected proposal, whose action fails when it runs.
use infra_inventory.Prelude.{◌≡◌, ◌⊎◌, refl, false, some, [], ◌∷◌, String}
use infra_inventory.Prelude.Dict
use infra_inventory.Store.{Table, dict_table}
use infra_inventory.Automation.Risk.{RiskLevel, ActionDefinition, Registry, get_action}
use infra_inventory.Automation.Worker.Effects.{Execution, returned, ActionResult}
use infra_inventory.Automation.Proposals.{
  ProposalStatus, Proposal, Choice, ok, with_status, decide_ai_proposal, decide, run_proposal,
  after_execution,
}
use infra_inventory.Automation.Proposals.Decisions.{B, IsIdle, decide_ai_proposal-acts}

abbrev db : Table Proposal
db = dict_table Proposal

abbrev reboot : ActionDefinition
reboot = record { name = "reboot"; risk_level = RiskLevel.critical }

abbrev registry : Registry
registry = ("reboot", reboot) ∷ []

abbrev failure : ActionResult
failure = record { success = false; output = ""; error = some "unreachable"; duration_ms = 3 }

abbrev act : String → String → Execution
act name target = returned failure

abbrev p : Proposal
p = record { proposed_action = "reboot"; target_id = "db1"; status = ProposalStatus.rejected }

abbrev board : B db registry act
board = record { rows = ("p1", p) ∷ []; executed = [] }

-- The status of the proposal does not matter: the rejected one is executed.
executed : decide_ai_proposal db registry act "p1" Choice.execute board ≡ (
  ok (with_status ProposalStatus.executed p),
  record {
    rows = ("p1", with_status ProposalStatus.executed p) ∷ [];
    executed = ("reboot", "db1") ∷ [];
  },
)
unfolding decide_ai_proposal decide run_proposal after_execution get_action Dict.get Dict.set
executed = refl

decide_ai_proposal-acts_example :
    let after = (decide_ai_proposal db registry act "p1" Choice.execute board).1 in
    ((after.executed ≡ []) × IsIdle db registry act Choice.execute (Dict.get "p1" board.rows))
    ⊎ ((Choice.execute ≡ Choice.execute)
        × ((q : Proposal) × (def : ActionDefinition) × (Dict.get "p1" board.rows ≡ some q)
            × (get_action q.proposed_action registry ≡ some def)
            × (after.executed ≡ (def.name, q.target_id) ∷ [])))
decide_ai_proposal-acts_example = decide_ai_proposal-acts db registry act "p1" Choice.execute board
