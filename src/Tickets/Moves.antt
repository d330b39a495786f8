-- ===== src/Tickets/Moves.antt =====
-- The calls of the ticket service as moves of the table of tickets and of the sequences.
use infra_inventory.Prelude.{
  ℕ, ◌≡◌, refl, Bool, true, false, Option, none, some, List, [], ◌∷◌, String, Option-cases, inl,
  inr,
}
use infra_inventory.Store.{Table}
use infra_inventory.Store.Queries.{Queries, find, has_key, IsRow}
use infra_inventory.Store.Writes.{found-IsRow}
use infra_inventory.Tickets.{
  Sla, Ticket, CreateInput, UpdateInput, HistoryEntry, ticket_id, sla_id, prefix_of, next_number,
  Dues, dues, new_ticket,
}
use infra_inventory.Tickets.Service.{
  Desk, updated, answered, is_answer, stored, sla_for, create_ticket, update_found, update_ticket,
  answer, comment_found, add_comment, delete_found, delete_ticket,
}

pub data Call : Type 0 where
  creates :
      (id : String) (input : CreateInput) (actor : Option String) (actor_name : String) (now : ℕ)
      → Call
  updates :
      (id : String) (input : UpdateInput) (actor : Option String) (actor_name : String) (now : ℕ)
      → Call
  comments :
      (id content : String) (internal : Bool) (user : Option String) (user_name : String) (now : ℕ)
      → Call
  deletes : (id : String) → Call

-- What a call makes of a ticket.
pub data Turns (old new : Ticket) : Type 0 where
  updates_to : (input : UpdateInput) (now : ℕ) → new ≡ updated input now old → Turns old new
  answers_to : (user : Option String) (now : ℕ) → new ≡ answered user now old → Turns old new

module _ (db : Queries Ticket ticket_id) (slas : Queries Sla sla_id) (sequences : Table ℕ) where
  unfoldable pub step : Desk db slas sequences → Call → Desk db slas sequences
  step d (creates id input actor actor_name now) =
      (create_ticket db slas sequences id input actor actor_name now d).1
  step d (updates id input actor actor_name now) =
      (update_ticket db slas sequences id input actor actor_name now d).1
  step d (comments id content internal user user_name now) =
      (add_comment db slas sequences id content internal user user_name now d).1
  step d (deletes id) = (delete_ticket db slas sequences id d).1

  unfoldable pub run : Desk db slas sequences → List Call → Desk db slas sequences
  run d [] = d
  run d (c ∷ cs) = run (step d c) cs

  pub data Move (d d' : Desk db slas sequences) : Type 0 where
    stays : d'.tickets ≡ d.tickets → d'.numbers ≡ d.numbers → Move d d'
    counts :
        (prefix : String)
        → d'.tickets ≡ d.tickets
        → d'.numbers
          ≡ sequences.put prefix (next_number (sequences.find prefix d.numbers)) d.numbers
        → Move d d'
    adds :
        (id : String) (deadlines : Dues) (input : CreateInput) (actor : Option String)
        → d'.numbers
          ≡ sequences.put
              (prefix_of input.ticket_type)
              (next_number (sequences.find (prefix_of input.ticket_type) d.numbers))
              d.numbers
        → db.create
            (new_ticket id
              (next_number (sequences.find (prefix_of input.ticket_type) d.numbers))
              deadlines
              input
              actor)
            d.tickets
          ≡ some d'.tickets
        → Move d d'
    turns :
        (old new : Ticket)
        → IsRow old (db.rows d.tickets)
        → Turns old new
        → d'.numbers ≡ d.numbers
        → db.update new d.tickets ≡ some d'.tickets
        → Move d d'
    removes :
        (id : String)
        → d'.numbers ≡ d.numbers
        → db.remove id d.tickets ≡ some d'.tickets
        → Move d d'

  stored-Move :
      (o : Option db.Rows) (t : Ticket) (es : List HistoryEntry) (d₀ d : Desk db slas sequences)
      → (o ≡ none → Move d₀ d)
      → ((rows : db.Rows)
          → o ≡ some rows
          → (d' : Desk db slas sequences) → d'.tickets ≡ rows
          → d'.numbers ≡ d.numbers
          → Move d₀ d')
      → Move d₀ (stored db slas sequences o t es d).1
  unfolding stored
  stored-Move none t es d₀ d fail done = fail refl
  stored-Move (some rows) t es d₀ d fail done = done rows refl _ refl refl

  found :
      (id : String) (d : Desk db slas sequences) (t : Ticket)
      → find db id d.tickets ≡ some t
      → IsRow t (db.rows d.tickets)
  found id d t e = (found-IsRow db (has_key ticket_id id) d.tickets t e).0

  create_ticket-Move :
      (id : String) (input : CreateInput) (actor : Option String) (actor_name : String) (now : ℕ)
      (d : Desk db slas sequences)
      → Move d (create_ticket db slas sequences id input actor actor_name now d).1
  unfolding create_ticket
  create_ticket-Move id input actor actor_name now d =
      stored-Move _ _ _ d _ (λ e. counts (prefix_of input.ticket_type) refl refl)
        (λ rows e d' et en.
          adds id
            (dues (slas.find_first (sla_for db slas sequences input.priority) d.agreements)
              input.priority now)
            input actor en (rw et e))

  update_ticket-Move :
      (id : String) (input : UpdateInput) (actor : Option String) (actor_name : String) (now : ℕ)
      (d : Desk db slas sequences)
      → Move d (update_ticket db slas sequences id input actor actor_name now d).1
  unfolding update_ticket update_found
  update_ticket-Move id input actor actor_name now d = elim (Option-cases (find db id d.tickets)) [
    | inl e ↦ rw e (stays refl refl)
    | inr (t, e) ↦ rw e (
        stored-Move _ _ _ d d (λ _. stays refl refl)
          (λ rows eq d' et en.
            turns t (updated input now t) (found id d t e) (updates_to input now refl) en
              (rw et eq)))
  ]

  add_comment-Move :
      (id content : String) (internal : Bool) (user : Option String) (user_name : String) (now : ℕ)
      (d : Desk db slas sequences)
      → Move d (add_comment db slas sequences id content internal user user_name now d).1
  unfolding add_comment comment_found answer
  add_comment-Move id content internal user user_name now d =
      elim (Option-cases (find db id d.tickets)) [
        | inl e ↦ rw e (stays refl refl)
        | inr (t, e) ↦
            rw e (stored-Move _ _ _ d _ (λ _. stays refl refl) (written t e (is_answer user t)))
      ]
    where
      written :
          (t : Ticket)
          → find db id d.tickets ≡ some t
          → (b : Bool) (rows : db.Rows)
          → answer db slas sequences b (answered user now t) d.tickets ≡ some rows
          → (d' : Desk db slas sequences) → d'.tickets ≡ rows
          → d'.numbers ≡ d.numbers
          → Move d d'
      written t e true rows eq d' et en =
          turns t (answered user now t) (found id d t e) (answers_to user now refl) en (rw et eq)
      written t e false rows eq d' et en = stays (cc) en

  delete_ticket-Move :
      (id : String) (d : Desk db slas sequences) → Move d (delete_ticket db slas sequences id d).1
  unfolding delete_ticket delete_found
  delete_ticket-Move id d = elim (Option-cases (find db id d.tickets)) [
    | inl e ↦ rw e (stays refl refl)
    | inr (t, e) ↦ rw e (
        stored-Move _ _ _ d d (λ _. stays refl refl) (λ rows eq d' et en. removes id en (rw et eq)))
  ]

  pub step-Move : (d : Desk db slas sequences) (c : Call) → Move d (step d c)
  unfolding step
  step-Move d (creates id input actor actor_name now) =
      create_ticket-Move id input actor actor_name now d
  step-Move d (updates id input actor actor_name now) =
      update_ticket-Move id input actor actor_name now d
  step-Move d (comments id content internal user user_name now) =
      add_comment-Move id content internal user user_name now d
  step-Move d (deletes id) = delete_ticket-Move id d
