-- ===== src/Automation/Proposals.antt =====
-- Actions that the assistant proposes: `createAIProposal` and `decideAIProposal` of
-- backend/src/modules/automation/automation.service.ts. An action, and the database, may fail.
pub mod Decisions
mod Tests
use infra_inventory.Prelude.{Bool, true, false, Option, none, some, List, [], ◌∷◌, String}
use infra_inventory.Store.{Table}
use infra_inventory.Automation.Risk.{ActionDefinition, Registry, get_action}
use infra_inventory.Automation.Worker.Effects.{Execution, returned, raised, ActionResult}

pub data ProposalStatus : Type 0 where
  proposed accepted rejected executed discarded : ProposalStatus

-- The columns of AIActionProposal that the service reads or computes.
pub record Proposal : Type 0 where
  pub proposed_action : String
  pub target_id : String
  pub status : ProposalStatus

pub data Choice : Type 0 where
  accept reject execute : Choice

pub data Error : Type 0 where
  not_found : Error
  unknown_action : String → Error
  action_raised : (message : String) → Error

pub data Result : Type 0 where
  ok : Proposal → Result
  err : Error → Result

abbrev pub with_status : ProposalStatus → Proposal → Proposal
with_status status p = record p { status = status }

pub new_proposal : String → String → Proposal
new_proposal action target = record {
  proposed_action = action;
  target_id = target;
  status = ProposalStatus.proposed;
}

-- What the call of `actionDef.execute` leads to: its result is not looked at.
pub after_execution : Proposal → Execution → Result
after_execution p (returned r) = ok (with_status ProposalStatus.executed p)
after_execution p (raised message) = err (action_raised message)

module _ (table : Table Proposal) (registry : Registry) (act : String → String → Execution) where
  open table use {Rows, find, put}

  -- The proposals, and the actions executed on which targets, newest first.
  pub record Board : Type 0 where
    pub rows : Rows
    pub executed : List (String × String)

  pub create_ai_proposal : String → Proposal → Board → Board
  create_ai_proposal id p board = record board { rows = put id p board.rows }

  abbrev saved : String → Result → Board → Result × Board
  saved id (ok p) board = (ok p, record board { rows = put id p board.rows })
  saved id (err e) board = (err e, board)

  -- The EXECUTE branch, on what the catalogue says.
  pub run_proposal : String → Proposal → Option ActionDefinition → Board → Result × Board
  run_proposal id p none board = (err (unknown_action p.proposed_action), board)
  run_proposal id p (some def) board =
      saved id (after_execution p (act def.name p.target_id))
        (record board { executed = (def.name, p.target_id) ∷ board.executed })

  pub decide : String → Choice → Option Proposal → Board → Result × Board
  decide id choice none board = (err not_found, board)
  decide id Choice.reject (some p) board =
      saved id (ok (with_status ProposalStatus.rejected p)) board
  decide id Choice.accept (some p) board =
      saved id (ok (with_status ProposalStatus.accepted p)) board
  decide id Choice.execute (some p) board =
      run_proposal id p (get_action p.proposed_action registry) board

  pub decide_ai_proposal : String → Choice → Board → Result × Board
  decide_ai_proposal id choice board = decide id choice (find id board.rows) board
