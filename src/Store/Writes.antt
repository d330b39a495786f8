-- ===== src/Store/Writes.antt =====
-- What a write to a table keeps: the primary keys, and that some row meets a condition.
use infra_inventory.Prelude.{
  ◌+◌, ◌≤◌, ◌≡◌, refl, ap, Bool, true, false, not, none, some, List, [], ◌∷◌, inl, inr, String,
  arith, str_eq_self, Bool-cases, eq_iff, ◌∙◌, map, if◌then◌else◌,
}
use infra_inventory.Store.Queries.{
  Queries, bit, countp, both, has_key, other_than, replace, IsKeyed, IsRow, countp-IsRow,
  countp-both, countp-le_left, countp-replace, countp_unique,
}

-- Replacing a row changes no key.
pub countp-replace_key :
    {Row : Type 0} (key : Row → String) (id : String) (new : Row) (rs : List Row)
    → countp (has_key key id) (map (replace key new) rs) ≡ countp (has_key key id) rs
unfolding countp
countp-replace_key key id new [] = refl
countp-replace_key key id new (x ∷ xs) = ground (
  arith,
  countp-replace_key key id new xs,
  eq_iff (key x) (key new),
  eq_iff (key x) id,
  eq_iff (key new) id,
)

pub countp-none :
    {Row : Type 0} (p : Row → Bool) → ((r : Row) → p r ≡ false) → (rs : List Row) → countp p rs ≡ 0
unfolding countp
countp-none p h [] = refl
countp-none p h (x ∷ xs) = omega (arith, ap bit (h x), countp-none p h xs)

module _ {Row : Type 0} {key : Row → String} (db : Queries Row key) where
  open db use {rows, create, update, remove, create-unique, create-rows, update-rows, remove-rows}

  pub found-IsRow :
      (p : Row → Bool) (t : db.Rows) (r : Row)
      → db.find_first p t ≡ some r
      → IsRow r (rows t) × (p r ≡ true)
  found-IsRow p t r e = rw e at (db.find_first-Found p t)

  pub found-none : (p : Row → Bool) (t : db.Rows) → db.find_first p t ≡ none → countp p (rows t) ≡ 0
  found-none p t e = rw e at (db.find_first-Found p t)

  pub IsKeyed-create :
      (r : Row) (t t' : db.Rows)
      → create r t ≡ some t'
      → IsKeyed key (rows t)
      → IsKeyed key (rows t')
  IsKeyed-create r t t' e keyed id = ground (
    arith,
    create-rows r t t' e (has_key key id),
    create-unique r t t' e,
    keyed id,
    eq_iff (key r) id,
  )

  pub IsKeyed-update :
      (r : Row) (t t' : db.Rows)
      → update r t ≡ some t'
      → IsKeyed key (rows t)
      → IsKeyed key (rows t')
  IsKeyed-update r t t' e keyed id =
      omega (
        arith,
        update-rows r t t' e (has_key key id),
        countp-replace_key key id r (rows t),
        keyed id,
      )

  pub IsKeyed-remove :
      (id : String) (t t' : db.Rows)
      → remove id t ≡ some t'
      → IsKeyed key (rows t)
      → IsKeyed key (rows t')
  IsKeyed-remove id t t' e keyed j = omega (
    arith,
    remove-rows id t t' e (has_key key j),
    countp-le_left (has_key key j) (other_than key id) (rows t),
    keyed j,
  )

  -- An update of a row found by its key keeps a row that meets `p`, if another one meets it
  -- wherever the row itself ceases to.
  pub update-keeps :
      (p : Row → Bool) (old new : Row) (t t' : db.Rows)
      → IsKeyed key (rows t)
      → IsRow old (rows t)
      → key new ≡ key old
      → (p old ≡ true → p new ≡ false → 1 ≤ countp (both p (other_than key (key old))) (rows t))
      → update new t ≡ some t'
      → 1 ≤ countp p (rows t)
      → 1 ≤ countp p (rows t')
  update-keeps p old new t t' keyed row same other e some_row = elim (Bool-cases (p new)) [
    | inl good ↦ ground (arith, after, here, good)
    | inr bad ↦ elim (Bool-cases (p old)) [
      | inl was ↦ ground (arith, after, other was bad, bad, same)
      | inr never ↦ ground (
        arith,
        after,
        bad,
        same,
        countp_unique key p old (rows t) keyed row never,
        countp-both p (has_key key (key old)) (rows t),
      )
    ]
  ]
    where
      after :
          countp p (rows t')
          ≡ countp (both p (other_than key (key new))) (rows t)
            + (if p new then countp (has_key key (key new)) (rows t) else 0)
      after = update-rows new t t' e p ∙ countp-replace key p new (rows t)

      here : 1 ≤ countp (has_key key (key new)) (rows t)
      here = countp-IsRow (has_key key (key new)) old (rows t) row (rw same (str_eq_self (key old)))

  -- So does a removal of a row found by its key, if another one meets `p` wherever it does.
  pub remove-keeps :
      (p : Row → Bool) (old : Row) (id : String) (t t' : db.Rows)
      → IsKeyed key (rows t)
      → IsRow old (rows t)
      → key old ≡ id
      → (p old ≡ true → 1 ≤ countp (both p (other_than key id)) (rows t))
      → remove id t ≡ some t'
      → 1 ≤ countp p (rows t)
      → 1 ≤ countp p (rows t')
  remove-keeps p old id t t' keyed row same other e some_row = elim (Bool-cases (p old)) [
    | inl was ↦ omega (arith, remove-rows id t t' e p, other was)
    | inr never ↦ omega (
      arith,
      remove-rows id t t' e p,
      rw same at (countp_unique key p old (rows t) keyed row never),
      countp-both p (has_key key id) (rows t),
    )
  ]

  -- An update of a row found by its key that leaves `p` as it was on the row adds no row that
  -- meets `p`.
  pub update-adds_none :
      (p : Row → Bool) (old new : Row) (t t' : db.Rows)
      → IsKeyed key (rows t)
      → IsRow old (rows t)
      → key new ≡ key old
      → p new ≡ p old
      → update new t ≡ some t'
      → countp p (rows t') ≤ countp p (rows t)
  update-adds_none p old new t t' keyed row same kept e = ground (
    arith,
    update-rows new t t' e p,
    countp-replace key p new (rows t),
    countp-both p (has_key key (key new)) (rows t),
    keyed (key new),
    here,
  )
    where
      here : p old ≡ true → 1 ≤ countp (both p (has_key key (key new))) (rows t)
      here h =
          countp-IsRow (both p (has_key key (key new))) old (rows t) row
            (rw (h, same, str_eq_self (key old)) refl)

  -- After an update, the rows under its key meet what the new row meets.
  pub update-row :
      (q : Row → Bool) (new r : Row) (t t' : db.Rows)
      → update new t ≡ some t'
      → q new ≡ true
      → IsRow r (rows t')
      → key r ≡ key new
      → q r ≡ true
  update-row q new r t t' e good row same = elim (Bool-cases (q r)) [
    | inl fine ↦ fine
    | inr bad ↦ absurd (
        omega (
          arith,
          update-rows new t t' e odd,
          countp-replace key odd new (rows t),
          countp-IsRow odd r (rows t') row (rw (bad, same, str_eq_self (key new)) refl),
          countp-none (both odd (other_than key (key new))) (λ x. ground arith) (rows t),
          ap (λ b. if b then countp (has_key key (key new)) (rows t) else 0) never,
        ))
  ]
    where
      odd : Row → Bool
      odd = both (has_key key (key new)) (λ x. not (q x))

      never : odd new ≡ false
      never = ground (arith, good)
