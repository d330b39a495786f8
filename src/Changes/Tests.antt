-- ===== src/Changes/Tests.antt =====
-- Changes over a concrete table.
use infra_inventory.Prelude.{◌≡◌, ◌≢◌, refl, none, some, List, [], ◌∷◌}
use infra_inventory.Prelude.Dict
use infra_inventory.Store.{Table, dict_table}
use infra_inventory.Changes.{
  Change, ChangeStatus, Decision, CreateInput, or_else, is_in_progress, is_completed, next_number,
  new_change, updated, decided, Desk, create_change, update_found, update_change, decide_found,
  decide_approval,
}
use infra_inventory.Changes.Numbers.{
  Event, creates, updates, decides, step, run, fresh_desk, run-next_number,
}

abbrev db : Table Change
db = dict_table Change

abbrev input : CreateInput
input = record { status = none; requester_id = some "ana"; approver_id = none }

abbrev first : Change
first = record {
  change_number = 1;
  status = ChangeStatus.draft;
  requester_id = some "ana";
  approver_id = none;
  actual_start = none;
  actual_end = none;
}

abbrev desk : Desk db
desk = record { rows = ("c1", first) ∷ []; sequence = some 1; approvals = [] }

unfolds : Unit {0}
unfolding Dict.get Dict.set or_else is_in_progress is_completed next_number new_change updated
    decided create_change update_found update_change decide_found decide_approval step run
    fresh_desk
unfolds = tt

created : run db (fresh_desk db) (creates "c1" input none ∷ []) ≡ desk
unfolding unfolds
created = refl

started :
    Dict.get "c1"
      (run db desk (
        updates "c1"
          (record {
            status = some ChangeStatus.in_progress;
            requester_id = none;
            approver_id = none;
          })
          70
        ∷ [])).rows
    ≡ some (record first { status = ChangeStatus.in_progress; actual_start = some 70 })
unfolding unfolds
started = refl

-- A change is created, started and approved, and a second one created.
abbrev history : List Event
history =
    creates "c1" input none
    ∷ updates "c1"
        (record { status = some ChangeStatus.in_progress; requester_id = none; approver_id = none })
        70
    ∷ decides "c1" Decision.approve (some "bea")
    ∷ creates "c2" input (some "bea")
    ∷ []

abbrev approved_change : Change
approved_change = record first {
  status = ChangeStatus.approved;
  approver_id = some "bea";
  actual_start = some 70;
}

stored : Dict.get "c1" (run db (fresh_desk db) history).rows ≡ some approved_change
unfolding unfolds
stored = refl

next_is_third : next_number (run db (fresh_desk db) history).sequence ≡ 3
unfolding unfolds
next_is_third = refl

run-next_number_example : 1 ≢ next_number (run db (fresh_desk db) history).sequence
run-next_number_example = run-next_number db history "c1" approved_change stored
