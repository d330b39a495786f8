-- ===== src/Store/Always.antt =====
-- Conditions that all rows of a table meet, and the writes that keep them.
use infra_inventory.Prelude.{
  ◌≡◌, refl, ap, Bool, true, not, some, List, [], ◌∷◌, inl, inr, String, arith, Bool-cases,
  if◌then◌else◌,
}
use infra_inventory.Store.Queries.{
  Queries, bit, countp, has_key, other_than, IsRow, countp-IsRow, countp-le_left, countp-replace,
}

abbrev pub Holds : {Row : Type 0} → (Row → Bool) → List Row → Type 0
Holds p rs = countp (λ r. not (p r)) rs ≡ 0

pub Holds-row :
    {Row : Type 0} (p : Row → Bool) (r : Row) (rs : List Row) → Holds p rs → IsRow r rs → p r ≡ true
Holds-row p r rs h row = elim (Bool-cases (p r)) [
  | inl good ↦ good
  | inr bad ↦ absurd (omega (arith, h, countp-IsRow (λ x. not (p x)) r rs row (ap not bad)))
]

-- A condition that follows from another one.
pub Holds-weaken :
    {Row : Type 0} (p q : Row → Bool)
    → ((r : Row) → p r ≡ true → q r ≡ true)
    → (rs : List Row) → Holds p rs
    → Holds q rs
unfolding countp
Holds-weaken p q f [] h = refl
Holds-weaken p q f (x ∷ xs) h = ground (arith, f x, Holds-weaken p q f xs)

module _ {Row : Type 0} {key : Row → String} (db : Queries Row key) (p : Row → Bool) where
  open db use {rows, create, update, remove, create-rows, update-rows, remove-rows}

  pub Holds-create :
      (r : Row) (t t' : db.Rows)
      → create r t ≡ some t'
      → p r ≡ true
      → Holds p (rows t)
      → Holds p (rows t')
  Holds-create r t t' e good h =
      omega (arith, create-rows r t t' e (λ x. not (p x)), ap (λ b. bit (not b)) good, h)

  pub Holds-update :
      (r : Row) (t t' : db.Rows)
      → update r t ≡ some t'
      → p r ≡ true
      → Holds p (rows t)
      → Holds p (rows t')
  Holds-update r t t' e good h = omega (
    arith,
    update-rows r t t' e (λ x. not (p x)),
    countp-replace key (λ x. not (p x)) r (rows t),
    countp-le_left (λ x. not (p x)) (other_than key (key r)) (rows t),
    ap (λ b. if not b then countp (has_key key (key r)) (rows t) else 0) good,
    h,
  )

  pub Holds-remove :
      (id : String) (t t' : db.Rows) → remove id t ≡ some t' → Holds p (rows t) → Holds p (rows t')
  Holds-remove id t t' e h = omega (
    arith,
    remove-rows id t t' e (λ x. not (p x)),
    countp-le_left (λ x. not (p x)) (other_than key id) (rows t),
    h,
  )
