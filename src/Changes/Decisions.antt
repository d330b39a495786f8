-- ===== src/Changes/Decisions.antt =====
-- What a decision on a change does.
use infra_inventory.Prelude.{
  ◌≡◌, refl, ◌⊎◌, inl, inr, true, false, Option, none, some, ◌∷◌, String, str_eq_self, Option-cases,
}
use infra_inventory.Store.{Table}
use infra_inventory.Changes.{Change, Decision, decided, Desk, decide_found, decide_approval}

module _ (table : Table Change) where
  open table use {Rows, find, put, find-put}

  -- `decideApproval` works on a change in any status: it records the decision, makes the change
  -- APPROVED or sends it back to DRAFT, and names the decider as its approver; without a change under
  -- the id nothing happens.
  pub decide_approval-any_status :
      (id : String) (d : Decision) (user : Option String) (desk : Desk table)
      → let (exists, after) = decide_approval table id d user desk in
        ((c : Change) × (find id desk.rows ≡ some c)
          × (exists ≡ true)
          × (find id after.rows ≡ some (decided d user c))
          × (after.approvals
              ≡ record { change_id = id; user_id = user; decision = d } ∷ desk.approvals)
          × (after.sequence ≡ desk.sequence))
        ⊎ ((find id desk.rows ≡ none) × (exists ≡ false) × (after ≡ desk))
  unfolding decide_approval decide_found
  decide_approval-any_status id d user desk = elim (Option-cases (find id desk.rows)) [
    | inl e ↦ inr (e, rw e refl, rw e refl)
    | inr (c, e) ↦
        inl (c, e, rw e refl, rw e (rw find-put (rw (str_eq_self id) refl)), rw e refl, rw e refl)
  ]
