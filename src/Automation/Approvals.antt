-- ===== src/Automation/Approvals.antt =====
-- Approval requests and the four-eyes principle: `createApprovalRequest` and `decideApproval` of
-- backend/src/modules/automation/automation.service.ts.
pub mod FourEyes
mod Tests
use infra_inventory.Prelude.{
  ℕ, ◌+◌, ◌*◌, Bool, true, false, ◌&&◌, Option, none, some, List, [], ◌∷◌, String, ◌==◌, str_eq,
  if◌then◌else◌,
}
use infra_inventory.Store.{Table}
use infra_inventory.Automation.Risk.{RiskLevel}

pub data ApprovalStatus : Type 0 where
  pending approved rejected expired cancelled : ApprovalStatus

-- The columns of ApprovalRequest that the service reads or computes.
pub record ApprovalRequest : Type 0 where
  pub action_name : String
  pub target_identifier : String
  pub risk_level : RiskLevel
  pub requested_by_id : String
  pub status : ApprovalStatus
  pub expires_at : ℕ
  pub approved_by_id : Option String
  pub approved_at : Option ℕ
  pub rejected_at : Option ℕ
  pub rejection_reason : Option String

pub data Decision : Type 0 where
  approve reject : Decision

pub data Error : Type 0 where
  not_found : Error
  already_resolved : ApprovalStatus → Error
  four_eyes_violation : Error

pub data Result (A : Type 0) : Type 0 where
  ok : A → Result A
  err : Error → Result A

abbrev pub is_pending : ApprovalStatus → Bool
is_pending ApprovalStatus.pending = true
is_pending _ = false

-- `expiresInMinutes || 1440`, as an instant; `expiresAt` overrides it.
pub expiry : Option ℕ → Option ℕ → ℕ → ℕ
expiry (some at) minutes now = at
expiry none (some minutes) now = now + (if minutes == 0 then 1440 else minutes) * 60 * 1000
expiry none none now = now + 1440 * 60 * 1000

unfoldable pub new_request : String → String → RiskLevel → String → ℕ → ApprovalRequest
new_request action target risk requester expires_at = record {
  action_name = action;
  target_identifier = target;
  risk_level = risk;
  requested_by_id = requester;
  status = ApprovalStatus.pending;
  expires_at = expires_at;
  approved_by_id = none;
  approved_at = none;
  rejected_at = none;
  rejection_reason = none;
}

-- The row that a decision writes.
pub decided : Decision → String → ℕ → Option String → ApprovalRequest → ApprovalRequest
decided Decision.approve user now reason r = record r {
  status = ApprovalStatus.approved;
  approved_by_id = some user;
  approved_at = some now;
  rejected_at = none;
  rejection_reason = none;
}
decided Decision.reject user now reason r = record r {
  status = ApprovalStatus.rejected;
  approved_by_id = some user;
  approved_at = none;
  rejected_at = some now;
  rejection_reason = reason;
}

-- `decision === 'APPROVE' && approval.requestedById === userId`.
pub violates_four_eyes : Decision → String → ApprovalRequest → Bool
violates_four_eyes Decision.approve user r = str_eq r.requested_by_id user
violates_four_eyes Decision.reject user r = false

-- The checks of `decideApproval` on the row found, and the row to write.
pub decide : Decision → String → ℕ → Option String → Option ApprovalRequest → Result ApprovalRequest
decide d user now reason none = err not_found
decide d user now reason (some r) =
    if is_pending r.status
    then if violates_four_eyes d user r
      then err four_eyes_violation
      else ok (decided d user now reason r)
    else err (already_resolved r.status)

module _ (table : Table ApprovalRequest) where
  open table use {Rows, find, put}

  -- The database gives the id.
  unfoldable pub create_approval_request : String → ApprovalRequest → Rows → Rows
  create_approval_request id request rows = put id request rows

  abbrev saved : String → Rows → Result ApprovalRequest → Rows
  saved id rows (ok r) = put id r rows
  saved id rows (err e) = rows

  pub decide_approval :
      String → Decision → String → ℕ → Option String → Rows → Rows × Result ApprovalRequest
  decide_approval id d user now reason rows =
      let result = decide d user now reason (find id rows) in (saved id rows result, result)
