-- ===== src/Tickets/Service.antt =====
-- The operations of TicketService. The writes of comments, history and sequences are taken to
-- succeed; a write of a ticket may be refused.
use infra_inventory.Prelude.{
  ℕ, Bool, true, false, not, ◌&&◌, ◌||◌, Option, none, some, List, [], ◌∷◌, ◌++◌, String, str_eq,
  if◌then◌else◌, is_truthy,
}
use infra_inventory.Store.{Table}
use infra_inventory.Store.Queries.{Queries, find}
use infra_inventory.Tickets.{
  TicketPriority, TicketStatus, Sla, Ticket, CreateInput, UpdateInput, Change, status_changed,
  priority_changed, assignment_changed, created, commented, updated_by, HistoryEntry, Comment,
  not_found, refused, Result, fails, returns, ticket_id, sla_id, or_null, or_else, is_status,
  is_priority, prefix_of, next_number, dues, new_ticket,
}

-- `a === b` on ids or null.
unfoldable pub same_id : Option String → Option String → Bool
same_id none none = true
same_id (some a) (some b) = str_eq a b
same_id _ _ = false

-- `data.status === status`
unfoldable pub asks_for : Option TicketStatus → TicketStatus → Bool
asks_for none status = false
asks_for (some wanted) status = is_status wanted status

unfoldable pub resolves : UpdateInput → Ticket → Bool
resolves input t =
    asks_for input.status TicketStatus.resolved && not (is_status t.status TicketStatus.resolved)

unfoldable pub closes : UpdateInput → Ticket → Bool
closes input t =
    asks_for input.status TicketStatus.closed && not (is_status t.status TicketStatus.closed)

unfoldable pub first_of : Option ℕ → ℕ → Option ℕ
first_of none now = some now
first_of (some at) now = some at

unfoldable pub resolved_time : UpdateInput → ℕ → Ticket → Option ℕ
resolved_time input now t =
    if resolves input t
    then some now
    else if closes input t
    then first_of t.resolved_at now
    else t.resolved_at

unfoldable pub closed_time : UpdateInput → ℕ → Ticket → Option ℕ
closed_time input now t =
    if resolves input t then t.closed_at else if closes input t then some now else t.closed_at

unfoldable pub updated : UpdateInput → ℕ → Ticket → Ticket
updated input now t = record t {
  ticket_type = or_else input.ticket_type t.ticket_type;
  priority = or_else input.priority t.priority;
  status = or_else input.status t.status;
  assigned_to_id = or_else input.assigned_to_id t.assigned_to_id;
  due_date = or_else input.due_date t.due_date;
  resolved_at = resolved_time input now t;
  closed_at = closed_time input now t;
}

unfoldable pub status_change : Option TicketStatus → TicketStatus → List Change
status_change none before = []
status_change (some after) before =
    if is_status after before then [] else status_changed before after ∷ []

unfoldable pub priority_change : Option TicketPriority → TicketPriority → List Change
priority_change none before = []
priority_change (some after) before =
    if is_priority after before then [] else priority_changed before after ∷ []

unfoldable pub assignment_change : Option (Option String) → Option String → List Change
assignment_change none before = []
assignment_change (some after) before =
    if same_id after before then [] else assignment_changed after ∷ []

unfoldable pub changes_of : UpdateInput → Ticket → List Change
changes_of input t =
    status_change input.status t.status
    ++ (priority_change input.priority t.priority
        ++ assignment_change input.assigned_to_id t.assigned_to_id)

-- An answer by a user who is not the creator, the first one.
unfoldable pub responds : Option String → Ticket → Bool
responds user t = is_truthy user && not (same_id user t.created_by_id)

unfoldable pub answered : Option String → ℕ → Ticket → Ticket
answered user now t = record t {
  first_responded_at =
      if responds user t then first_of t.first_responded_at now else t.first_responded_at;
  status = if is_status t.status TicketStatus.open_ then TicketStatus.in_progress else t.status;
}

abbrev pub is_unanswered : Option ℕ → Bool
is_unanswered none = true
is_unanswered (some at) = false

-- `Object.keys(updateData).length > 0`
unfoldable pub is_answer : Option String → Ticket → Bool
is_answer user t =
    is_status t.status TicketStatus.open_ || (is_unanswered t.first_responded_at && responds user t)

module _ (db : Queries Ticket ticket_id) (slas : Queries Sla sla_id) (sequences : Table ℕ) where
  pub record Desk : Type 0 where
    pub tickets : db.Rows
    pub agreements : slas.Rows
    pub numbers : sequences.Rows
    -- newest first
    pub history : List HistoryEntry
    pub comments : List Comment

  unfoldable pub stored : Option db.Rows → Ticket → List HistoryEntry → Desk → Result Ticket × Desk
  stored none t es d = (fails refused, d)
  stored (some rows) t es d = (returns t, record d { tickets = rows; history = es ++ d.history })

  abbrev pub sla_for : TicketPriority → Sla → Bool
  sla_for priority a = is_priority a.priority priority && a.enabled

  unfoldable pub create_ticket :
      String → CreateInput → Option String → String → ℕ → Desk → Result Ticket × Desk
  create_ticket id input actor actor_name now d =
      let prefix = prefix_of input.ticket_type in
      let number = next_number (sequences.find prefix d.numbers) in
      let deadlines =
        dues (slas.find_first (sla_for input.priority) d.agreements) input.priority now in
      let t = new_ticket id number deadlines input actor in
      stored (db.create t d.tickets) t
        (record {
          ticket_id = id;
          user_id = or_null actor;
          user_name = actor_name;
          action = created;
        }
          ∷ [])
        (record d { numbers = sequences.put prefix number d.numbers })

  unfoldable pub update_entries : String → List Change → Option String → String → List HistoryEntry
  update_entries id [] actor actor_name = []
  update_entries id (c ∷ cs) actor actor_name =
      record {
        ticket_id = id;
        user_id = or_null actor;
        user_name = actor_name;
        action = updated_by (c ∷ cs);
      }
      ∷ []

  unfoldable pub update_found :
      Option Ticket → UpdateInput → Option String → String → ℕ → Desk → Result Ticket × Desk
  update_found none input actor actor_name now d = (fails not_found, d)
  update_found (some t) input actor actor_name now d =
      let new = updated input now t in
      stored (db.update new d.tickets) new
        (update_entries t.id (changes_of input t) actor actor_name) d

  unfoldable pub update_ticket :
      String → UpdateInput → Option String → String → ℕ → Desk → Result Ticket × Desk
  update_ticket id input actor actor_name now d =
      update_found (find db id d.tickets) input actor actor_name now d

  -- The row after the comment, if it is written.
  unfoldable pub answer : Bool → Ticket → db.Rows → Option db.Rows
  answer true new rows = db.update new rows
  answer false new rows = some rows

  unfoldable pub comment_found :
      Option Ticket → String → Bool → Option String → String → ℕ → Desk → Result Ticket × Desk
  comment_found none content internal user user_name now d = (fails not_found, d)
  comment_found (some t) content internal user user_name now d =
      let new = answered user now t in
      stored (answer (is_answer user t) new d.tickets) new
        (record {
          ticket_id = t.id;
          user_id = or_null user;
          user_name = user_name;
          action = commented;
        }
          ∷ [])
        (record d {
          comments =
              record {
                ticket_id = t.id;
                user_id = or_null user;
                author_name = user_name;
                content = content;
                is_internal = internal;
              }
              ∷ d.comments;
        })

  unfoldable pub add_comment :
      String → String → Bool → Option String → String → ℕ → Desk → Result Ticket × Desk
  add_comment id content internal user user_name now d =
      comment_found (find db id d.tickets) content internal user user_name now d

  unfoldable pub delete_found : String → Option Ticket → Desk → Result Ticket × Desk
  delete_found id none d = (fails not_found, d)
  delete_found id (some t) d = stored (db.remove id d.tickets) t [] d

  unfoldable pub delete_ticket : String → Desk → Result Ticket × Desk
  delete_ticket id d = delete_found id (find db id d.tickets) d
