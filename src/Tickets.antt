-- ===== src/Tickets.antt =====
-- Tickets and the SLAs that date them: backend/src/modules/tickets/ticket.service.ts and
-- slas/sla.service.ts, in the columns that decide. Texts, links to other records and the change log
-- are left out. Times are milliseconds; a date in an input is the time that it stands for.
pub mod Service
pub mod Moves
pub mod Numbers
pub mod Dates
mod Tests
use infra_inventory.Prelude.{
  ℕ, suc, ◌+◌, ◌*◌, Bool, true, false, not, ◌&&◌, Option, none, some, List, [], ◌∷◌, ◌++◌, String,
  ltb, str_eq, if◌then◌else◌, is_truthy,
}
use infra_inventory.Store.{Table}
use infra_inventory.Store.Queries.{Queries, find}

pub data TicketType : Type 0 where
  incident request task maintenance change question other : TicketType

pub data TicketPriority : Type 0 where
  low normal high urgent critical : TicketPriority

pub data TicketStatus : Type 0 where
  open_ in_progress pending waiting resolved closed cancelled : TicketStatus

pub data SlaStatus : Type 0 where
  on_track : SlaStatus

unfoldable pub priority_text : TicketPriority → String
priority_text TicketPriority.low = "LOW"
priority_text TicketPriority.normal = "NORMAL"
priority_text TicketPriority.high = "HIGH"
priority_text TicketPriority.urgent = "URGENT"
priority_text TicketPriority.critical = "CRITICAL"

unfoldable pub status_text : TicketStatus → String
status_text TicketStatus.open_ = "OPEN"
status_text TicketStatus.in_progress = "IN_PROGRESS"
status_text TicketStatus.pending = "PENDING"
status_text TicketStatus.waiting = "WAITING"
status_text TicketStatus.resolved = "RESOLVED"
status_text TicketStatus.closed = "CLOSED"
status_text TicketStatus.cancelled = "CANCELLED"

pub record Sla : Type 0 where
  pub id : String
  pub priority : TicketPriority
  pub enabled : Bool
  pub response_time_minutes : ℕ
  pub resolution_time_minutes : ℕ

-- The number is `prefix-NNNNNN`, kept apart.
pub record Ticket : Type 0 where
  pub id : String
  pub prefix : String
  pub number : ℕ
  pub ticket_type : TicketType
  pub priority : TicketPriority
  pub status : TicketStatus
  pub created_by_id : Option String
  pub assigned_to_id : Option String
  pub sla_id : Option String
  pub sla_status : SlaStatus
  pub response_due : Option ℕ
  pub first_responded_at : Option ℕ
  pub resolution_due : Option ℕ
  pub due_date : Option ℕ
  pub resolved_at : Option ℕ
  pub closed_at : Option ℕ

pub record CreateInput : Type 0 where
  pub ticket_type : TicketType
  pub priority : TicketPriority
  pub assigned_to_id : Option String
  pub due_date : Option ℕ

-- `none` is an absent field, `some none` is `null`.
pub record UpdateInput : Type 0 where
  pub ticket_type : Option TicketType
  pub priority : Option TicketPriority
  pub status : Option TicketStatus
  pub assigned_to_id : Option (Option String)
  pub due_date : Option (Option ℕ)

-- The parts of the text of an UPDATE entry.
pub data Change : Type 0 where
  status_changed : (before after : TicketStatus) → Change
  priority_changed : (before after : TicketPriority) → Change
  assignment_changed : Option String → Change

pub data HistoryAction : Type 0 where
  created commented : HistoryAction
  updated_by : List Change → HistoryAction

pub record HistoryEntry : Type 0 where
  pub ticket_id : String
  pub user_id : Option String
  pub user_name : String
  pub action : HistoryAction

pub record Comment : Type 0 where
  pub ticket_id : String
  pub user_id : Option String
  pub author_name : String
  pub content : String
  pub is_internal : Bool

pub data Error : Type 0 where
  not_found refused : Error

pub data Result (A : Type 0) : Type 0 where
  fails : Error → Result A
  returns : A → Result A

abbrev pub ticket_id : Ticket → String
ticket_id t = t.id

abbrev pub sla_id : Sla → String
sla_id a = a.id

-- `a || null`
unfoldable pub or_null : Option String → Option String
or_null o = if is_truthy o then o else none

abbrev pub or_else {ℓ} : {A : Type ℓ} → Option A → A → A
or_else none b = b
or_else (some a) b = a

-- `data.dueDate ? new Date(data.dueDate) : resolutionDue`
unfoldable pub date_or : Option ℕ → Option ℕ → Option ℕ
date_or none d = d
date_or (some a) d = some a

unfoldable pub is_status : TicketStatus → TicketStatus → Bool
is_status a b = str_eq (status_text a) (status_text b)

unfoldable pub is_priority : TicketPriority → TicketPriority → Bool
is_priority a b = str_eq (priority_text a) (priority_text b)

unfoldable pub is_incident : TicketType → Bool
is_incident TicketType.incident = true
is_incident _ = false

unfoldable pub prefix_of : TicketType → String
prefix_of t = if is_incident t then "INC" else "TCK"

-- The upsert of the sequence.
unfoldable pub next_number : Option ℕ → ℕ
next_number none = 1
next_number (some last) = suc last

unfoldable pub default_hours : TicketPriority → ℕ
default_hours TicketPriority.critical = 4
default_hours TicketPriority.urgent = 8
default_hours TicketPriority.high = 24
default_hours _ = 72

pub record Dues : Type 0 where
  pub sla : Option String
  pub response : ℕ
  pub resolution : ℕ

-- The deadlines by the SLA found, or by default.
unfoldable pub dues : Option Sla → TicketPriority → ℕ → Dues
dues (some a) priority now = record {
  sla = some a.id;
  response = now + a.response_time_minutes * 60 * 1000;
  resolution = now + a.resolution_time_minutes * 60 * 1000;
}
dues none priority now =
    let hours = default_hours priority in
    record {
      sla = none;
      response = now + (if ltb 4 hours then 60 else 15) * 60 * 1000;
      resolution = now + hours * 60 * 60 * 1000;
    }

unfoldable pub new_ticket : String → ℕ → Dues → CreateInput → Option String → Ticket
new_ticket id number d input actor = record {
  id = id;
  prefix = prefix_of input.ticket_type;
  number = number;
  ticket_type = input.ticket_type;
  priority = input.priority;
  status = TicketStatus.open_;
  created_by_id = or_null actor;
  assigned_to_id = or_null input.assigned_to_id;
  sla_id = d.sla;
  sla_status = on_track;
  response_due = some d.response;
  first_responded_at = none;
  resolution_due = some d.resolution;
  due_date = date_or input.due_date (some d.resolution);
  resolved_at = none;
  closed_at = none;
}
