-- ===== src/Changes.antt =====
-- Infrastructure changes, backend/src/modules/changes/infra-change.service.ts, in the columns that
-- decide; texts and plans are copied from the input and left out. The change log is left out.
pub mod Numbers
pub mod Decisions
mod Tests
use infra_inventory.Prelude.{
  ℕ, suc, Bool, true, false, not, ◌&&◌, Option, none, some, List, [], ◌∷◌, String, if◌then◌else◌,
}
use infra_inventory.Store.{Table}

pub data ChangeStatus : Type 0 where
  draft pending_approval approved scheduled in_progress : ChangeStatus
  completed failed rolled_back cancelled : ChangeStatus

pub record Change : Type 0 where
  pub change_number : ℕ
  pub status : ChangeStatus
  pub requester_id : Option String
  pub approver_id : Option String
  pub actual_start : Option ℕ
  pub actual_end : Option ℕ

pub data Decision : Type 0 where
  approve reject : Decision

pub record ChangeApproval : Type 0 where
  pub change_id : String
  pub user_id : Option String
  pub decision : Decision

-- The fields of the inputs; `none` is an absent field.
pub record CreateInput : Type 0 where
  pub status : Option ChangeStatus
  pub requester_id : Option String
  pub approver_id : Option String

pub record UpdateInput : Type 0 where
  pub status : Option ChangeStatus
  pub requester_id : Option (Option String)
  pub approver_id : Option (Option String)

unfoldable pub or_else : {A : Type 0} → Option A → A → A
or_else none b = b
or_else (some a) b = a

-- `requesterId || data.requesterId || null`.
abbrev or_option : Option String → Option String → Option String
or_option none o = o
or_option (some a) o = some a

unfoldable pub is_in_progress : ChangeStatus → Bool
is_in_progress ChangeStatus.in_progress = true
is_in_progress _ = false

unfoldable pub is_completed : ChangeStatus → Bool
is_completed ChangeStatus.completed = true
is_completed _ = false

-- The upsert of the sequence: the row's last number plus one, or one.
unfoldable pub next_number : Option ℕ → ℕ
next_number none = 1
next_number (some last) = suc last

unfoldable pub new_change : ℕ → CreateInput → Option String → Change
new_change number data_in requester = record {
  change_number = number;
  status = or_else data_in.status ChangeStatus.draft;
  requester_id = or_option requester data_in.requester_id;
  approver_id = data_in.approver_id;
  actual_start = none;
  actual_end = none;
}

-- The row that an update writes: the dates by the two branches on the new status.
unfoldable pub updated : UpdateInput → ℕ → Change → Change
updated input now c =
    let wanted = or_else input.status c.status in
    record {
      change_number = c.change_number;
      status = wanted;
      requester_id = or_else input.requester_id c.requester_id;
      approver_id = or_else input.approver_id c.approver_id;
      actual_start =
          if is_in_progress wanted && not (is_in_progress c.status)
          then some now
          else c.actual_start;
      actual_end =
          if is_completed wanted && not (is_completed c.status) then some now else c.actual_end;
    }

unfoldable pub decided : Decision → Option String → Change → Change
decided Decision.approve user c = record c { status = ChangeStatus.approved; approver_id = user }
decided Decision.reject user c = record c { status = ChangeStatus.draft; approver_id = user }

module _ (table : Table Change) where
  open table use {Rows, find, put}

  pub record Desk : Type 0 where
    pub rows : Rows
    -- `lastNumber` of the sequence CHG
    pub sequence : Option ℕ
    -- newest first
    pub approvals : List ChangeApproval

  unfoldable pub create_change : String → CreateInput → Option String → Desk → Desk
  create_change id input requester desk =
      let number = next_number desk.sequence in
      record desk {
        rows = put id (new_change number input requester) desk.rows;
        sequence = some number;
      }

  unfoldable pub update_found : String → UpdateInput → ℕ → Option Change → Desk → Bool × Desk
  update_found id input now none desk = (false, desk)
  update_found id input now (some c) desk =
      (true, record desk { rows = put id (updated input now c) desk.rows })

  -- Whether the change exists, and the desk afterwards.
  unfoldable pub update_change : String → UpdateInput → ℕ → Desk → Bool × Desk
  update_change id input now desk = update_found id input now (find id desk.rows) desk

  unfoldable pub decide_found :
      String → Decision → Option String → Option Change → Desk → Bool × Desk
  decide_found id d user none desk = (false, desk)
  decide_found id d user (some c) desk = (
    true,
    record desk {
      rows = put id (decided d user c) desk.rows;
      approvals = record { change_id = id; user_id = user; decision = d } ∷ desk.approvals;
    },
  )

  unfoldable pub decide_approval : String → Decision → Option String → Desk → Bool × Desk
  decide_approval id d user desk = decide_found id d user (find id desk.rows) desk
