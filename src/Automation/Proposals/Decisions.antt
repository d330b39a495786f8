-- ===== src/Automation/Proposals/Decisions.antt =====
-- When a proposed action is executed.
use infra_inventory.Prelude.{◌≡◌, ◌≢◌, refl, ◌⊎◌, inl, inr, Option, none, some, ◌∷◌, String}
use infra_inventory.Store.{Table}
use infra_inventory.Automation.Risk.{ActionDefinition, Registry, get_action}
use infra_inventory.Automation.Worker.Effects.{Execution}
use infra_inventory.Automation.Proposals.{
  Proposal, Choice, Result, ok, err, after_execution, Board, saved, run_proposal, decide,
  decide_ai_proposal,
}

module _ (table : Table Proposal) (registry : Registry) (act : String → String → Execution) where
  open table use {Rows, find, put, find-put}

  abbrev pub B : Type 0
  B = Board table registry act

  -- There is nothing to execute: the choice is another one, or there is no proposal, or its action
  -- is not registered.
  abbrev pub IsIdle : Choice → Option Proposal → Type 0
  IsIdle choice o =
      (choice ≢ Choice.execute)
      ⊎ ((o ≡ none)
          ⊎ ((p : Proposal) × (o ≡ some p) × (get_action p.proposed_action registry ≡ none)))

  -- The list of executed actions after a decision.
  abbrev Acts : Choice → Option Proposal → B → Result × B → Type 0
  Acts choice o board result =
      ((result.1.executed ≡ board.executed) × IsIdle choice o)
      ⊎ ((choice ≡ Choice.execute)
          × ((p : Proposal) × (def : ActionDefinition) × (o ≡ some p)
              × (get_action p.proposed_action registry ≡ some def)
              × (result.1.executed ≡ (def.name, p.target_id) ∷ board.executed)))

  saved-executed :
      (id : String) (r : Result) (board : B)
      → (saved table registry act id r board).1.executed ≡ board.executed
  saved-executed id (ok p) board = refl
  saved-executed id (err e) board = refl

  run_proposal-Acts :
      (id : String) (p : Proposal) (o : Option ActionDefinition) (board : B)
      → get_action p.proposed_action registry ≡ o
      → Acts Choice.execute (some p) board (run_proposal table registry act id p o board)
  unfolding run_proposal
  run_proposal-Acts id p none board h = inl (refl, inr (inr (p, refl, h)))
  run_proposal-Acts id p (some def) board h =
      inr (
        refl,
        (p, def, refl, h, saved-executed id (after_execution p (act def.name p.target_id)) _),
      )

  decide-Acts :
      (id : String) (choice : Choice) (o : Option Proposal) (board : B)
      → Acts choice o board (decide table registry act id choice o board)
  unfolding decide
  decide-Acts id choice none board = inl (refl, inr (inl refl))
  decide-Acts id Choice.accept (some p) board = inl (refl, inl (λ e. absurd cc))
  decide-Acts id Choice.reject (some p) board = inl (refl, inl (λ e. absurd cc))
  decide-Acts id Choice.execute (some p) board =
      run_proposal-Acts id p (get_action p.proposed_action registry) board refl

  -- A decision executes exactly one action, if it is EXECUTE, a proposal is stored under the id and
  -- its action is registered: that action, on the target that the proposal names. In every other case
  -- it executes none.
  pub decide_ai_proposal-acts :
      (id : String) (choice : Choice) (board : B)
      → let after = (decide_ai_proposal table registry act id choice board).1 in
        ((after.executed ≡ board.executed) × IsIdle choice (find id board.rows))
        ⊎ ((choice ≡ Choice.execute)
            × ((p : Proposal) × (def : ActionDefinition) × (find id board.rows ≡ some p)
                × (get_action p.proposed_action registry ≡ some def)
                × (after.executed ≡ (def.name, p.target_id) ∷ board.executed)))
  unfolding decide_ai_proposal
  decide_ai_proposal-acts id choice board = decide-Acts id choice (find id board.rows) board
