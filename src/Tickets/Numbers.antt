-- ===== src/Tickets/Numbers.antt =====
-- The numbers of the tickets.
use infra_inventory.Prelude.{
  ℕ, ◌≤◌, ◌<◌, ◌≡◌, refl, sym, ap, subst, Bool, true, not, ◌&&◌, List, [], ◌∷◌, String, arith,
  eq_iff, str_eq, leb, ◌==◌, if◌then◌else◌, suc,
}
use infra_inventory.Store.{Table}
use infra_inventory.Store.Queries.{
  Queries, countp, other_than, IsKeyed, countp-le_left, countp_mono,
}
use infra_inventory.Store.Writes.{IsKeyed-create, IsKeyed-update, IsKeyed-remove, update-adds_none}
use infra_inventory.Store.Always.{
  Holds, Holds-row, Holds-weaken, Holds-create, Holds-update, Holds-remove,
}
use infra_inventory.Tickets.{
  Sla, Ticket, ticket_id, sla_id, prefix_of, next_number, new_ticket, or_else,
}
use infra_inventory.Tickets.Service.{Desk, updated, answered}
use infra_inventory.Tickets.Moves.{
  Call, Turns, updates_to, answers_to, Move, stays, counts, adds, turns, removes, step, run,
  step-Move,
}

-- What a turn leaves alone.
pub id-turn : (old new : Ticket) → Turns old new → new.id ≡ old.id
unfolding updated answered
id-turn old new (updates_to input now e) = ap ticket_id e
id-turn old new (answers_to user now e) = ap ticket_id e

prefix-turn : (old new : Ticket) → Turns old new → new.prefix ≡ old.prefix
unfolding updated answered
prefix-turn old new (updates_to input now e) = ap (λ t. t.prefix) e
prefix-turn old new (answers_to user now e) = ap (λ t. t.prefix) e

number-turn : (old new : Ticket) → Turns old new → new.number ≡ old.number
unfolding updated answered
number-turn old new (updates_to input now e) = ap (λ t. t.number) e
number-turn old new (answers_to user now e) = ap (λ t. t.number) e

abbrev pub has_number : String → ℕ → Ticket → Bool
has_number prefix n t = str_eq t.prefix prefix && (t.number == n)

module _ (db : Queries Ticket ticket_id) (slas : Queries Sla sla_id) (sequences : Table ℕ) where
  abbrev last : sequences.Rows → String → ℕ
  last numbers prefix = or_else (sequences.find prefix numbers) 0

  abbrev is_counted : sequences.Rows → Ticket → Bool
  is_counted numbers t = leb t.number (last numbers t.prefix)

  -- Primary keys, no number above the last one of its sequence, and no number twice.
  pub record IsNumbered (d : Desk db slas sequences) : Type 0 where
    pub keyed : IsKeyed ticket_id (db.rows d.tickets)
    pub counted : Holds (is_counted d.numbers) (db.rows d.tickets)
    pub unique : (prefix : String) (n : ℕ) → countp (has_number prefix n) (db.rows d.tickets) ≤ 1

  last-put :
      (numbers : sequences.Rows) (prefix p : String)
      → last (sequences.put prefix (next_number (sequences.find prefix numbers)) numbers) p
        ≡ (if str_eq prefix p then suc (last numbers prefix) else last numbers p)
  unfolding next_number
  last-put numbers prefix p = ground (
    arith,
    sequences.find-put prefix p (next_number (sequences.find prefix numbers)) numbers,
    eq_iff prefix p,
  )

  is_counted-put :
      (numbers : sequences.Rows) (prefix : String) (t : Ticket)
      → is_counted numbers t ≡ true
      → is_counted (sequences.put prefix (next_number (sequences.find prefix numbers)) numbers) t
        ≡ true
  is_counted-put numbers prefix t h =
      ground (arith, last-put numbers prefix t.prefix, eq_iff prefix t.prefix)

  next_number-last :
      (numbers : sequences.Rows) (prefix : String)
      → next_number (sequences.find prefix numbers) ≡ suc (last numbers prefix)
  unfolding next_number
  next_number-last numbers prefix = ground arith

  fresh :
      (numbers : sequences.Rows) (prefix : String)
      → leb
          (next_number (sequences.find prefix numbers))
          (last (sequences.put prefix (next_number (sequences.find prefix numbers)) numbers) prefix)
        ≡ true
  fresh numbers prefix =
      ground (
        arith,
        last-put numbers prefix prefix,
        next_number-last numbers prefix,
        eq_iff prefix prefix,
      )

  -- No ticket has a number above the last one.
  none_above :
      (d : Desk db slas sequences) (prefix : String) (n : ℕ)
      → Holds (is_counted d.numbers) (db.rows d.tickets)
      → last d.numbers prefix < n
      → countp (has_number prefix n) (db.rows d.tickets) ≡ 0
  none_above d prefix n h above = omega (
    arith,
    h,
    countp_mono (has_number prefix n) (λ t. not (is_counted d.numbers t)) uncounted
        (db.rows d.tickets),
  )
    where
      same_last : (p : String) → p ≡ prefix → last d.numbers p ≡ last d.numbers prefix
      same_last p e = ap (last d.numbers) e

      uncounted : (t : Ticket) → has_number prefix n t ≡ true → not (is_counted d.numbers t) ≡ true
      uncounted t e = ground (arith, eq_iff t.prefix prefix, same_last t.prefix)

  Move-counted :
      (d d' : Desk db slas sequences)
      → Move db slas sequences d d'
      → Holds (is_counted d.numbers) (db.rows d.tickets)
      → Holds (is_counted d'.numbers) (db.rows d'.tickets)
  unfolding new_ticket
  Move-counted d d' (stays et en) h = rw (et, en) h
  Move-counted d d' (counts prefix et en) h =
      rw (et, en) (Holds-weaken _ _ (is_counted-put d.numbers prefix) (db.rows d.tickets) h)
  Move-counted d d' (adds id deadlines input actor en e) h = rw en (
      Holds-create db _ _ d.tickets d'.tickets e (fresh d.numbers (prefix_of input.ticket_type)) (
        Holds-weaken _ _ (is_counted-put d.numbers (prefix_of input.ticket_type))
          (db.rows d.tickets) h))
  Move-counted d d' (turns old new row turn en e) h = rw en (
      Holds-update db _ new d.tickets d'.tickets e
        (rw (number-turn old new turn, prefix-turn old new turn)
          (Holds-row (is_counted d.numbers) old (db.rows d.tickets) h row))
        h)
  Move-counted d d' (removes id en e) h = rw en (Holds-remove db _ id d.tickets d'.tickets e h)

  Move-unique :
      (d d' : Desk db slas sequences)
      → Move db slas sequences d d'
      → IsNumbered d
      → (prefix : String) (n : ℕ) → countp (has_number prefix n) (db.rows d'.tickets) ≤ 1
  unfolding new_ticket
  Move-unique d d' (stays et en) h prefix n = rw et (h.unique prefix n)
  Move-unique d d' (counts p et en) h prefix n = rw et (h.unique prefix n)
  Move-unique d d' (adds id deadlines input actor en e) h prefix n = ground (
    arith,
    db.create-rows _ d.tickets d'.tickets e (has_number prefix n),
    h.unique prefix n,
    none_above d prefix n h.counted,
    next_number-last d.numbers (prefix_of input.ticket_type),
    eq_iff (prefix_of input.ticket_type) prefix,
    ap (last d.numbers) {x = prefix_of input.ticket_type} {y = prefix},
  )
  Move-unique d d' (turns old new row turn en e) h prefix n = omega (
    arith,
    update-adds_none db (has_number prefix n) old new d.tickets d'.tickets h.keyed row
        (id-turn old new turn) (rw (number-turn old new turn, prefix-turn old new turn) refl) e,
    h.unique prefix n,
  )
  Move-unique d d' (removes id en e) h prefix n = omega (
    arith,
    db.remove-rows id d.tickets d'.tickets e (has_number prefix n),
    countp-le_left (has_number prefix n) (other_than ticket_id id) (db.rows d.tickets),
    h.unique prefix n,
  )

  pub Move-IsKeyed :
      (d d' : Desk db slas sequences)
      → Move db slas sequences d d'
      → IsKeyed ticket_id (db.rows d.tickets)
      → IsKeyed ticket_id (db.rows d'.tickets)
  Move-IsKeyed d d' (stays et en) h = subst (λ r. IsKeyed ticket_id (db.rows r)) (sym et) h
  Move-IsKeyed d d' (counts p et en) h = subst (λ r. IsKeyed ticket_id (db.rows r)) (sym et) h
  Move-IsKeyed d d' (adds id deadlines input actor en e) h =
      IsKeyed-create db _ d.tickets d'.tickets e h
  Move-IsKeyed d d' (turns old new row turn en e) h = IsKeyed-update db new d.tickets d'.tickets e h
  Move-IsKeyed d d' (removes id en e) h = IsKeyed-remove db id d.tickets d'.tickets e h

  -- The numbers are sound after any sequence of creations, updates, comments and deletions, if they
  -- are at first: no two tickets have the same number, and none has one above the last number of
  -- its sequence, so that none is given twice.
  pub run-IsNumbered :
      (d : Desk db slas sequences) (cs : List Call)
      → IsNumbered d
      → IsNumbered (run db slas sequences d cs)
  unfolding run
  run-IsNumbered d [] h = h
  run-IsNumbered d (c ∷ cs) h =
      let move = step-Move db slas sequences d c in
      let d' = step db slas sequences d c in
      run-IsNumbered d' cs (record {
        keyed = Move-IsKeyed d d' move h.keyed;
        counted = Move-counted d d' move h.counted;
        unique = Move-unique d d' move h;
      })
