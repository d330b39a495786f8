-- ===== src/Automation/Approvals/Tests.antt =====
-- The approval theorems over a concrete table.
use infra_inventory.Prelude.{◌≡◌, refl, none, some, List, [], ◌∷◌}
use infra_inventory.Prelude.Dict
use infra_inventory.Prelude.Dict.{Dict}
use infra_inventory.Store.{Table, dict_table}
use infra_inventory.Automation.Risk.{RiskLevel}
use infra_inventory.Automation.Approvals.{
  ApprovalStatus, ApprovalRequest, Decision, err, four_eyes_violation, new_request, decided, decide,
  violates_four_eyes, decide_approval, create_approval_request,
}
use infra_inventory.Automation.Approvals.FourEyes.{
  Event, requests, decides, step, run, AllFourEyes, run-IsFourEyes, run-resolved,
}

abbrev db : Table ApprovalRequest
db = dict_table ApprovalRequest

abbrev asked : ApprovalRequest
asked = record {
  action_name = "REBOOT";
  target_identifier = "db1";
  risk_level = RiskLevel.high;
  requested_by_id = "ana";
  status = ApprovalStatus.pending;
  expires_at = 9000;
  approved_by_id = none;
  approved_at = none;
  rejected_at = none;
  rejection_reason = none;
}

abbrev refused_row : ApprovalRequest
refused_row = record asked {
  status = ApprovalStatus.rejected;
  approved_by_id = some "eva";
  rejected_at = some 500;
}

abbrev history : List Event
history =
    requests "a1" "REBOOT" "db1" RiskLevel.high "ana" 9000
    ∷ decides "a1" Decision.approve "ana" 10 none
    ∷ decides "a1" Decision.approve "eva" 20 none
    ∷ []

unfolds : Unit {0}
unfolding decide_approval decide violates_four_eyes decided new_request create_approval_request step
    run Dict.get Dict.set
unfolds = tt

own_approval :
    (decide_approval db "a1" Decision.approve "ana" 10 none (("a1", asked) ∷ [])).1
    ≡ err four_eyes_violation
unfolding unfolds
own_approval = refl

history_result :
    Dict.get "a1" (run db [] history)
    ≡ some (record asked {
      status = ApprovalStatus.approved;
      approved_by_id = some "eva";
      approved_at = some 20;
    })
unfolding unfolds
history_result = refl

run-IsFourEyes_example : AllFourEyes db (run db [] history)
run-IsFourEyes_example = run-IsFourEyes db history

found : Dict.get "a1" (("a1", refused_row) ∷ []) ≡ some refused_row
unfolding Dict.get
found = refl

run-resolved_example :
    Dict.get "a1"
      (run db (("a1", refused_row) ∷ []) (decides "a1" Decision.approve "eva" 20 none ∷ []))
    ≡ some refused_row
run-resolved_example =
    run-resolved db "a1" refused_row (("a1", refused_row) ∷ [])
      (decides "a1" Decision.approve "eva" 20 none ∷ []) refl found (tt, tt)
