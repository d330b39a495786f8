-- ===== src/Tickets/Tests.antt =====
-- The tickets at a concrete desk.
use infra_inventory.Prelude.{ℕ, ◌≡◌, refl, true, false, none, some, List, [], ◌∷◌, arith, str_eq}
use infra_inventory.Prelude.Dict
use infra_inventory.Store.{dict_table}
use infra_inventory.Store.InMemory.{list_queries, search, others, added}
use infra_inventory.Store.Queries.{Queries, countp}
use infra_inventory.Store.Always.{Holds}
use infra_inventory.Tickets.{
  TicketType, TicketPriority, TicketStatus, on_track, Sla, Ticket, CreateInput, UpdateInput,
  ticket_id, sla_id, or_null, date_or, is_status, is_priority, status_text, priority_text,
  is_incident, prefix_of, next_number, default_hours, dues, new_ticket,
}
use infra_inventory.Tickets.Service.{
  Desk, same_id, asks_for, resolves, closes, first_of, resolved_time, closed_time, updated,
  status_change, priority_change, assignment_change, changes_of, responds, answered, is_answer,
  stored, create_ticket, update_entries, update_found, update_ticket, answer, comment_found,
  add_comment, delete_found, delete_ticket,
}
use infra_inventory.Tickets.Moves.{Call, creates, updates, comments, deletes, step, run}
use infra_inventory.Tickets.Numbers.{IsNumbered, run-IsNumbered}
use infra_inventory.Tickets.Dates.{is_dated, run-dated}

abbrev db : Queries Ticket ticket_id
db = list_queries Ticket ticket_id

abbrev slas : Queries Sla sla_id
slas = list_queries Sla sla_id

abbrev gold : Sla
gold = record {
  id = "s1";
  priority = TicketPriority.high;
  enabled = true;
  response_time_minutes = 30;
  resolution_time_minutes = 240;
}

abbrev desk : Desk db slas (dict_table ℕ)
desk = record { tickets = []; agreements = gold ∷ []; numbers = []; history = []; comments = [] }

abbrev outage : CreateInput
outage = record {
  ticket_type = TicketType.incident;
  priority = TicketPriority.high;
  assigned_to_id = none;
  due_date = none;
}

abbrev closing : UpdateInput
closing = record {
  ticket_type = none;
  priority = none;
  status = some TicketStatus.closed;
  assigned_to_id = none;
  due_date = none;
}

abbrev history : List Call
history =
    creates "t1" outage (some "u1") "Ana" 1000
    ∷ creates "t2"
        (record outage { ticket_type = TicketType.request; priority = TicketPriority.low }) none
        "Bo" 2000
    ∷ comments "t1" "Looking" false (some "u2") "Eve" 3000
    ∷ updates "t1" closing (some "u2") "Eve" 4000
    ∷ deletes "t2"
    ∷ creates "t3" outage (some "u1") "Ana" 5000
    ∷ []

unfolds : Unit {0}
unfolding or_null date_or is_status is_priority status_text priority_text is_incident prefix_of
    next_number default_hours dues new_ticket same_id asks_for resolves closes first_of
    resolved_time closed_time updated status_change priority_change assignment_change changes_of
    responds answered is_answer stored create_ticket update_entries update_found update_ticket
    answer comment_found add_comment delete_found delete_ticket step run countp search added others
    Dict.get Dict.set
unfolds = tt

numbers_given : (run db slas (dict_table ℕ) desk history).numbers ≡ ("INC", 2) ∷ ("TCK", 1) ∷ []
unfolding unfolds
numbers_given = refl

-- The first answer and the closure of the incident, with the deadlines of the SLA.
abbrev incident_closed : Ticket
incident_closed = record {
  id = "t1";
  prefix = "INC";
  number = 1;
  ticket_type = TicketType.incident;
  priority = TicketPriority.high;
  status = TicketStatus.closed;
  created_by_id = some "u1";
  assigned_to_id = none;
  sla_id = some "s1";
  sla_status = on_track;
  response_due = some 1801000;
  first_responded_at = some 3000;
  resolution_due = some 14401000;
  due_date = some 14401000;
  resolved_at = some 4000;
  closed_at = some 4000;
}

incident_found :
    search (λ (t : Ticket). str_eq t.id "t1") (run db slas (dict_table ℕ) desk history).tickets
    ≡ some incident_closed
unfolding unfolds
incident_found = refl

nothing-IsNumbered : IsNumbered db slas (dict_table ℕ) desk
unfolding countp
nothing-IsNumbered = record {
  keyed = λ id. omega arith;
  counted = refl;
  unique = λ p n. omega arith;
}

run-IsNumbered_example : IsNumbered db slas (dict_table ℕ) (run db slas (dict_table ℕ) desk history)
run-IsNumbered_example = run-IsNumbered db slas (dict_table ℕ) desk history nothing-IsNumbered

nothing_dated : Holds is_dated []
unfolding countp
nothing_dated = refl

run-dated_example : Holds is_dated (run db slas (dict_table ℕ) desk history).tickets
run-dated_example = run-dated db slas (dict_table ℕ) desk history nothing_dated
