-- ===== src/Automation/Approvals/FourEyes.antt =====
-- The four-eyes principle over histories, and the finality of decisions.
use infra_inventory.Prelude.{
  ℕ, ◌≡◌, refl, ◌≢◌, ◌⊎◌, inl, inr, Bool, true, false, Option, none, some, List, [], ◌∷◌, String,
  arith, str_eq, eq_iff, str_eq_ne, All, ◌∙◌, subst, if◌then◌else◌, Bool-cases, Option-cases,
}
use infra_inventory.Store.{Table}
use infra_inventory.Automation.Risk.{RiskLevel}
use infra_inventory.Automation.Approvals.{
  ApprovalStatus, ApprovalRequest, Decision, Error, Result, ok, err, not_found, four_eyes_violation,
  already_resolved, is_pending, new_request, decided, violates_four_eyes, decide,
  create_approval_request, saved, decide_approval,
}

-- A request that is approved was approved by somebody other than its requester.
abbrev pub IsFourEyes : ApprovalRequest → Type 0
IsFourEyes r =
    (r.status ≢ ApprovalStatus.approved)
    ⊎ ((user : String) × (r.approved_by_id ≡ some user) × (user ≢ r.requested_by_id))

abbrev pub RowFourEyes : Option ApprovalRequest → Type 0
RowFourEyes none = Unit
RowFourEyes (some r) = IsFourEyes r

decided-IsFourEyes :
    (d : Decision) (user : String) (now : ℕ) (reason : Option String) (r : ApprovalRequest)
    → violates_four_eyes d user r ≡ false
    → IsFourEyes (decided d user now reason r)
unfolding decided violates_four_eyes
decided-IsFourEyes Decision.approve user now reason r h =
    inr (user, refl, λ e. ground (arith, eq_iff r.requested_by_id user))
decided-IsFourEyes Decision.reject user now reason r h = inl (λ e. cc)

decide-IsFourEyes :
    (d : Decision) (user : String) (now : ℕ) (reason : Option String) (o : Option ApprovalRequest)
    (r : ApprovalRequest)
    → decide d user now reason o ≡ ok r
    → IsFourEyes r
unfolding decide
decide-IsFourEyes d user now reason none r h = cc
decide-IsFourEyes d user now reason (some r₀) r h =
    elim (Bool-cases (violates_four_eyes d user r₀)) [
      | inl bad ↦ absurd (ground arith)
      | inr good ↦
          subst IsFourEyes {x = decided d user now reason r₀} {y = r} (ground arith)
            (decided-IsFourEyes d user now reason r₀ good)
    ]

decide-resolved :
    (d : Decision) (user : String) (now : ℕ) (reason : Option String) (r : ApprovalRequest)
    → is_pending r.status ≡ false
    → decide d user now reason (some r) ≡ err (already_resolved r.status)
unfolding decide
decide-resolved d user now reason r h = rw h

-- What happens to the table of requests.
pub data Event : Type 0 where
  requests :
      (id action target : String) (risk : RiskLevel) (requester : String) (expires_at : ℕ) → Event
  decides : (id : String) → Decision → (user : String) (now : ℕ) (reason : Option String) → Event

module _ (table : Table ApprovalRequest) where
  open table use {Rows, find, put, empty, find-put, find-empty}

  unfoldable pub step : Rows → Event → Rows
  step rows (requests id action target risk requester expires_at) =
      create_approval_request table id (new_request action target risk requester expires_at) rows
  step rows (decides id d user now reason) = (decide_approval table id d user now reason rows).0

  unfoldable pub run : Rows → List Event → Rows
  run rows [] = rows
  run rows (e ∷ es) = run (step rows e) es

  abbrev pub AllFourEyes : Rows → Type 0
  AllFourEyes rows = (j : String) → RowFourEyes (find j rows)

  RowFourEyes-if :
      (same : Bool) (r : ApprovalRequest) (o : Option ApprovalRequest)
      → IsFourEyes r
      → RowFourEyes o
      → RowFourEyes (if same then some r else o)
  RowFourEyes-if true r o h k = h
  RowFourEyes-if false r o h k = k

  put-AllFourEyes :
      (id : String) (r : ApprovalRequest) (rows : Rows)
      → IsFourEyes r
      → AllFourEyes rows
      → AllFourEyes (put id r rows)
  put-AllFourEyes id r rows h all j = rw find-put (RowFourEyes-if (str_eq id j) r _ h (all j))

  saved-AllFourEyes :
      (id : String) (rows : Rows) (result : Result ApprovalRequest)
      → ((r : ApprovalRequest) → result ≡ ok r → IsFourEyes r)
      → AllFourEyes rows
      → AllFourEyes (saved table id rows result)
  saved-AllFourEyes id rows (ok r) h all = put-AllFourEyes id r rows (h r refl) all
  saved-AllFourEyes id rows (err e) h all = all

  step-AllFourEyes : (rows : Rows) (e : Event) → AllFourEyes rows → AllFourEyes (step rows e)
  unfolding step create_approval_request decide_approval new_request
  step-AllFourEyes rows (requests id action target risk requester expires_at) all =
      put-AllFourEyes id _ rows (inl (λ e. cc)) all
  step-AllFourEyes rows (decides id d user now reason) all =
      saved-AllFourEyes id rows (decide d user now reason (find id rows))
        (decide-IsFourEyes d user now reason (find id rows)) all

  run-AllFourEyes : (rows : Rows) (es : List Event) → AllFourEyes rows → AllFourEyes (run rows es)
  unfolding run
  run-AllFourEyes rows [] all = all
  run-AllFourEyes rows (e ∷ es) all = run-AllFourEyes (step rows e) es (step-AllFourEyes rows e all)

  -- From an empty table, after any sequence of requests and decisions, every approved request was
  -- approved by a user who is not its requester.
  pub run-IsFourEyes : (es : List Event) → AllFourEyes (run empty es)
  run-IsFourEyes es = run-AllFourEyes empty es (λ j. rw find-empty tt)

  -- The event does not create a request under the id.
  abbrev pub Spares : String → Event → Type 0
  Spares id (requests j action target risk requester expires_at) = j ≢ id
  Spares id (decides j d user now reason) = Unit

  saved-other :
      (id j : String) (rows : Rows) (result : Result ApprovalRequest)
      → str_eq j id ≡ false
      → find id (saved table j rows result) ≡ find id rows
  saved-other id j rows (ok r) h = rw find-put (rw h)
  saved-other id j rows (err e) h = refl

  step-resolved :
      (id : String) (r : ApprovalRequest) (rows : Rows) (e : Event)
      → is_pending r.status ≡ false
      → find id rows ≡ some r
      → Spares id e
      → find id (step rows e) ≡ some r
  unfolding step create_approval_request decide_approval
  step-resolved id r rows (requests j action target risk requester expires_at) done h sp =
      rw find-put (rw (str_eq_ne j id sp) h)
  step-resolved id r rows (decides j d user now reason) done h sp =
      elim (Bool-cases (str_eq j id)) [
        | inl same ↦
            rw ((eq_iff j id).0 same) (rw h (rw (decide-resolved d user now reason r done) h))
        | inr other ↦ saved-other id j rows _ other ∙ h
      ]

  -- A decision is final: whatever is requested under other ids or decided afterwards, a resolved
  -- request stays as it is.
  pub run-resolved :
      (id : String) (r : ApprovalRequest) (rows : Rows) (es : List Event)
      → is_pending r.status ≡ false
      → find id rows ≡ some r
      → All (Spares id) es
      → find id (run rows es) ≡ some r
  unfolding run
  run-resolved id r rows [] done h sp = h
  run-resolved id r rows (e ∷ es) done h sp =
      run-resolved id r (step rows e) es done (step-resolved id r rows e done h sp.0) sp.1

  -- `decideApproval` succeeds exactly on a pending request, decided by another user than the
  -- requester or rejected; every failure leaves the table as it was.
  pub decide_approval-outcome :
      (id : String) (d : Decision) (user : String) (now : ℕ) (reason : Option String) (rows : Rows)
      → let (rows', result) = decide_approval table id d user now reason rows in
        ((r : ApprovalRequest) × (find id rows ≡ some r)
          × (r.status ≡ ApprovalStatus.pending)
          × ((d ≡ Decision.reject) ⊎ (r.requested_by_id ≢ user))
          × (result ≡ ok (decided d user now reason r))
          × (rows' ≡ put id (decided d user now reason r) rows))
        ⊎ ((e : Error) × (result ≡ err e)
            × (rows' ≡ rows)
            × ((find id rows ≡ none)
                ⊎ ((r : ApprovalRequest) × (find id rows ≡ some r)
                    × ((r.status ≢ ApprovalStatus.pending)
                        ⊎ ((d ≡ Decision.approve) × (r.requested_by_id ≡ user))))))
  unfolding decide_approval decide violates_four_eyes
  decide_approval-outcome id d user now reason rows = elim (Option-cases (find id rows)) [
    | inl e ↦ inr (not_found, ground arith, ground arith, inl e)
    | inr (r, e) ↦ elim (Bool-cases (is_pending r.status)) [
      | inl open_request ↦ elim (Bool-cases (violates_four_eyes d user r)) [
        | inl bad ↦ inr (
          four_eyes_violation,
          ground arith,
          ground arith,
          inr (r, e, inr (ground arith, ground (arith, eq_iff r.requested_by_id user))),
        )
        | inr good ↦ inl (
          r,
          e,
          ground arith,
          ground (arith, eq_iff r.requested_by_id user),
          ground arith,
          ground arith,
        )
      ]
      | inr closed ↦
          inr
            (already_resolved r.status, ground arith, ground arith, inr (r, e, inl (ground arith)))
    ]
  ]
