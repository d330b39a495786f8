-- ===== src/Tickets/Dates.antt =====
-- The times of resolution and closure.
use infra_inventory.Prelude.{
  ℕ, ◌≡◌, refl, Bool, true, false, not, ◌&&◌, Option, none, some, List, [], ◌∷◌, String,
  if◌then◌else◌,
}
use infra_inventory.Store.{Table}
use infra_inventory.Store.Queries.{Queries}
use infra_inventory.Store.Always.{Holds, Holds-row, Holds-create, Holds-update, Holds-remove}
use infra_inventory.Tickets.{
  TicketStatus, Sla, Ticket, UpdateInput, ticket_id, sla_id, or_else, status_text, is_status,
  new_ticket,
}
use infra_inventory.Tickets.Service.{
  Desk, asks_for, resolves, closes, first_of, resolved_time, closed_time, updated, answered,
}
use infra_inventory.Tickets.Moves.{
  Call, Turns, updates_to, answers_to, Move, stays, counts, adds, turns, removes, step, run,
  step-Move,
}

abbrev pub has_time : Option ℕ → Bool
has_time none = false
has_time (some at) = true

-- A resolved ticket has a time of resolution, a closed one a time of closure and one of resolution.
unfoldable pub dated : TicketStatus → Option ℕ → Option ℕ → Bool
dated TicketStatus.resolved resolved_at closed_at = has_time resolved_at
dated TicketStatus.closed resolved_at closed_at = has_time closed_at && has_time resolved_at
dated _ resolved_at closed_at = true

unfoldable pub is_dated : Ticket → Bool
is_dated t = dated t.status t.resolved_at t.closed_at

has_time-first_of : (r : Option ℕ) (now : ℕ) → has_time (first_of r now) ≡ true
unfolding first_of
has_time-first_of none now = refl
has_time-first_of (some at) now = refl

dated-core :
    (wanted : Option TicketStatus) (s : TicketStatus) (r c : Option ℕ) (now : ℕ)
    → dated s r c ≡ true
    → dated
        (or_else wanted s)
        (if asks_for wanted TicketStatus.resolved && not (is_status s TicketStatus.resolved)
          then some now
          else if asks_for wanted TicketStatus.closed && not (is_status s TicketStatus.closed)
          then first_of r now
          else r)
        (if asks_for wanted TicketStatus.resolved && not (is_status s TicketStatus.resolved)
          then c
          else if asks_for wanted TicketStatus.closed && not (is_status s TicketStatus.closed)
          then some now
          else c)
      ≡ true
unfolding dated asks_for is_status status_text
dated-core none s r c now h = h
dated-core (some TicketStatus.open_) s r c now h = refl
dated-core (some TicketStatus.in_progress) s r c now h = refl
dated-core (some TicketStatus.pending) s r c now h = refl
dated-core (some TicketStatus.waiting) s r c now h = refl
dated-core (some TicketStatus.cancelled) s r c now h = refl
dated-core (some TicketStatus.resolved) TicketStatus.open_ r c now h = refl
dated-core (some TicketStatus.resolved) TicketStatus.in_progress r c now h = refl
dated-core (some TicketStatus.resolved) TicketStatus.pending r c now h = refl
dated-core (some TicketStatus.resolved) TicketStatus.waiting r c now h = refl
dated-core (some TicketStatus.resolved) TicketStatus.resolved r c now h = h
dated-core (some TicketStatus.resolved) TicketStatus.closed r c now h = refl
dated-core (some TicketStatus.resolved) TicketStatus.cancelled r c now h = refl
dated-core (some TicketStatus.closed) TicketStatus.open_ r c now h = has_time-first_of r now
dated-core (some TicketStatus.closed) TicketStatus.in_progress r c now h = has_time-first_of r now
dated-core (some TicketStatus.closed) TicketStatus.pending r c now h = has_time-first_of r now
dated-core (some TicketStatus.closed) TicketStatus.waiting r c now h = has_time-first_of r now
dated-core (some TicketStatus.closed) TicketStatus.resolved r c now h = has_time-first_of r now
dated-core (some TicketStatus.closed) TicketStatus.closed r c now h = h
dated-core (some TicketStatus.closed) TicketStatus.cancelled r c now h = has_time-first_of r now

is_dated-updated :
    (input : UpdateInput) (now : ℕ) (t : Ticket)
    → is_dated t ≡ true
    → is_dated (updated input now t) ≡ true
unfolding is_dated updated resolved_time closed_time resolves closes
is_dated-updated input now t h = dated-core input.status t.status t.resolved_at t.closed_at now h

dated_answered :
    (s : TicketStatus) (r c : Option ℕ)
    → dated s r c ≡ true
    → dated (if is_status s TicketStatus.open_ then TicketStatus.in_progress else s) r c ≡ true
unfolding dated is_status status_text
dated_answered TicketStatus.open_ r c h = refl
dated_answered TicketStatus.in_progress r c h = h
dated_answered TicketStatus.pending r c h = h
dated_answered TicketStatus.waiting r c h = h
dated_answered TicketStatus.resolved r c h = h
dated_answered TicketStatus.closed r c h = h
dated_answered TicketStatus.cancelled r c h = h

is_dated-answered :
    (user : Option String) (now : ℕ) (t : Ticket)
    → is_dated t ≡ true
    → is_dated (answered user now t) ≡ true
unfolding is_dated answered
is_dated-answered user now t h = dated_answered t.status t.resolved_at t.closed_at h

is_dated-turn : (old new : Ticket) → Turns old new → is_dated old ≡ true → is_dated new ≡ true
is_dated-turn old new (updates_to input now e) h = rw e (is_dated-updated input now old h)
is_dated-turn old new (answers_to user now e) h = rw e (is_dated-answered user now old h)

module _ (db : Queries Ticket ticket_id) (slas : Queries Sla sla_id) (sequences : Table ℕ) where
  Move-dated :
      (d d' : Desk db slas sequences)
      → Move db slas sequences d d'
      → Holds is_dated (db.rows d.tickets)
      → Holds is_dated (db.rows d'.tickets)
  unfolding new_ticket is_dated dated
  Move-dated d d' (stays et en) h = rw et h
  Move-dated d d' (counts p et en) h = rw et h
  Move-dated d d' (adds id deadlines input actor en e) h =
      Holds-create db is_dated _ d.tickets d'.tickets e refl h
  Move-dated d d' (turns old new row turn en e) h =
      Holds-update db is_dated new d.tickets d'.tickets e
        (is_dated-turn old new turn (Holds-row is_dated old (db.rows d.tickets) h row)) h
  Move-dated d d' (removes id en e) h = Holds-remove db is_dated id d.tickets d'.tickets e h

  -- After any sequence of creations, updates, comments and deletions, every resolved ticket has a
  -- time of resolution, and every closed one a time of closure and one of resolution, if that is so
  -- at first.
  pub run-dated :
      (d : Desk db slas sequences) (cs : List Call)
      → Holds is_dated (db.rows d.tickets)
      → Holds is_dated (db.rows (run db slas sequences d cs).tickets)
  unfolding run
  run-dated d [] h = h
  run-dated d (c ∷ cs) h =
      run-dated (step db slas sequences d c) cs (Move-dated d _ (step-Move db slas sequences d c) h)
