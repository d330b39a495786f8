-- ===== src/Changes/Numbers.antt =====
-- The numbers of changes are never given twice.
use infra_inventory.Prelude.{
  ℕ, suc, ◌<◌, ◌≡◌, refl, ap, ◌≢◌, Bool, true, false, Option, none, some, List, [], ◌∷◌, String,
  arith, str_eq, if◌then◌else◌,
}
use infra_inventory.Store.{Table}
use infra_inventory.Changes.{
  Change, Decision, CreateInput, UpdateInput, next_number, new_change, updated, decided, Desk,
  create_change, update_found, update_change, decide_found, decide_approval,
}

pub data Event : Type 0 where
  creates : (id : String) → CreateInput → (requester : Option String) → Event
  updates : (id : String) → UpdateInput → (now : ℕ) → Event
  decides : (id : String) → Decision → (user : Option String) → Event

module _ (table : Table Change) where
  open table use {Rows, find, put, empty, find-put, find-empty}

  unfoldable pub step : Desk table → Event → Desk table
  step desk (creates id input requester) = create_change table id input requester desk
  step desk (updates id input now) = (update_change table id input now desk).1
  step desk (decides id d user) = (decide_approval table id d user desk).1

  unfoldable pub run : Desk table → List Event → Desk table
  run desk [] = desk
  run desk (e ∷ es) = run (step desk e) es

  unfoldable pub fresh_desk : Desk table
  fresh_desk = record { rows = empty; sequence = none; approvals = [] }

  abbrev RowBelow : ℕ → Option Change → Type 0
  RowBelow n none = Unit
  RowBelow n (some c) = c.change_number < n

  -- Every number in the table comes before the next one.
  AllBelow : Desk table → Type 0
  AllBelow desk = (j : String) → RowBelow (next_number desk.sequence) (find j desk.rows)

  RowBelow-if :
      (same : Bool) (n : ℕ) (c : Change) (o : Option Change)
      → c.change_number < n
      → RowBelow n o
      → RowBelow n (if same then some c else o)
  RowBelow-if true n c o h k = h
  RowBelow-if false n c o h k = k

  RowBelow-suc : (n : ℕ) (o : Option Change) → RowBelow n o → RowBelow (suc n) o
  RowBelow-suc n none h = tt
  RowBelow-suc n (some c) h = omega arith

  update-AllBelow :
      (id : String) (input : UpdateInput) (now : ℕ) (o : Option Change) (desk : Desk table)
      → RowBelow (next_number desk.sequence) o
      → AllBelow desk
      → AllBelow (update_found table id input now o desk).1
  unfolding AllBelow update_found updated
  update-AllBelow id input now none desk h all j = all j
  update-AllBelow id input now (some c) desk h all j = rw find-put (
      RowBelow-if (str_eq id j) (next_number desk.sequence) (updated input now c) (find j desk.rows)
        h (all j))

  decided-number :
      (d : Decision) (user : Option String) (c : Change)
      → (decided d user c).change_number ≡ c.change_number
  unfolding decided
  decided-number Decision.approve user c = refl
  decided-number Decision.reject user c = refl

  decide-AllBelow :
      (id : String) (d : Decision) (user : Option String) (o : Option Change) (desk : Desk table)
      → RowBelow (next_number desk.sequence) o
      → AllBelow desk
      → AllBelow (decide_found table id d user o desk).1
  unfolding AllBelow decide_found
  decide-AllBelow id d user none desk h all j = all j
  decide-AllBelow id d user (some c) desk h all j = rw find-put (
      RowBelow-if (str_eq id j) (next_number desk.sequence) (decided d user c) (find j desk.rows)
        (omega (arith, h, decided-number d user c)) (all j))

  step-AllBelow : (desk : Desk table) (e : Event) → AllBelow desk → AllBelow (step desk e)
  unfolding step AllBelow create_change update_change decide_approval new_change next_number
  step-AllBelow desk (creates id input requester) all j = rw find-put (
      RowBelow-if (str_eq id j) _ _ (find j desk.rows) (omega arith)
        (RowBelow-suc (next_number desk.sequence) (find j desk.rows) (all j)))
  step-AllBelow desk (updates id input now) all j =
      update-AllBelow id input now (find id desk.rows) desk (all id) all j
  step-AllBelow desk (decides id d user) all j =
      decide-AllBelow id d user (find id desk.rows) desk (all id) all j

  run-AllBelow : (desk : Desk table) (es : List Event) → AllBelow desk → AllBelow (run desk es)
  unfolding run
  run-AllBelow desk [] all = all
  run-AllBelow desk (e ∷ es) all = run-AllBelow (step desk e) es (step-AllBelow desk e all)

  number_of :
      (c d : Change) → ◌≡◌ {A = Option Change} (some c) (some d) → c.change_number ≡ d.change_number
  number_of c d e = ap (λ (o : Option Change). elim o [ none ↦ 0 | some x ↦ x.change_number ]) e

  RowBelow-at :
      (n : ℕ) (o : Option Change) (c : Change) → o ≡ some c → RowBelow n o → c.change_number ≢ n
  RowBelow-at n none c e h = absurd cc
  RowBelow-at n (some c₀) c e h =
      let same : c₀.change_number ≡ c.change_number = number_of c₀ c e in
      λ k. omega (arith, same, k, h)

  fresh-AllBelow : AllBelow fresh_desk
  unfolding AllBelow fresh_desk
  fresh-AllBelow j = rw find-empty tt

  run-below :
      (es : List Event) (j : String)
      → RowBelow (next_number (run fresh_desk es).sequence) (find j (run fresh_desk es).rows)
  unfolding AllBelow
  run-below es j = run-AllBelow fresh_desk es fresh-AllBelow j

  -- After any sequence of creations, updates and decisions, the number that the next change gets is
  -- the number of no stored change.
  pub run-next_number :
      (es : List Event) (j : String) (c : Change)
      → find j (run fresh_desk es).rows ≡ some c
      → c.change_number ≢ next_number (run fresh_desk es).sequence
  run-next_number es j c found =
      RowBelow-at (next_number (run fresh_desk es).sequence) (find j (run fresh_desk es).rows) c
        found (run-below es j)
