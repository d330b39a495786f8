-- ===== src/Store/Queries.antt =====
-- A table of the database behind Prisma that is queried by conditions: what the services rely on
-- when they call `findFirst`, `count`, `create`, `update` and `delete`. Two tables with the same
-- rows may list them in different orders, so the laws count rows. A write may be refused, by a
-- constraint or a lost connection; the call then throws.
use infra_inventory.Prelude.{
  ℕ, ◌+◌, ◌≤◌, ◌≡◌, refl, ◌⊎◌, inl, inr, Bool, true, false, not, ◌&&◌, Option, none, some, List, [],
  ◌∷◌, map, String, arith, str_eq, str_eq_self, if◌then◌else◌,
}

abbrev pub bit : Bool → ℕ
bit true = 1
bit false = 0

module _ {Row : Type 0} where
  unfoldable pub countp : (Row → Bool) → List Row → ℕ
  countp p [] = 0
  countp p (r ∷ rs) = bit (p r) + countp p rs

  abbrev pub both : (Row → Bool) → (Row → Bool) → Row → Bool
  both p q r = p r && q r

  abbrev pub IsRow : Row → List Row → Type 0
  IsRow r [] = ⊥
  IsRow r (x ∷ xs) = (x ≡ r) ⊎ IsRow r xs

  -- The answer of a search: no row, if none meets the condition, or one that does.
  abbrev pub Found : (Row → Bool) → List Row → Option Row → Type 0
  Found p rs none = countp p rs ≡ 0
  Found p rs (some r) = IsRow r rs × (p r ≡ true)

  abbrev pub rewrite : (Row → Bool) → (Row → Row) → Row → Row
  rewrite where_ f r = if where_ r then f r else r

  module _ (key : Row → String) where
    abbrev pub has_key : String → Row → Bool
    has_key id r = str_eq (key r) id

    -- `NOT: { id }`
    abbrev pub other_than : String → Row → Bool
    other_than id r = not (has_key id r)

    abbrev pub replace : Row → Row → Row
    replace new r = if has_key (key new) r then new else r

    -- Primary keys: no two rows share one.
    abbrev pub IsKeyed : List Row → Type 0
    IsKeyed rs = (id : String) → countp (has_key id) rs ≤ 1

pub record Queries (Row : Type 0) (key : Row → String) : Type 1 where
  pub Rows : Type 0
  pub rows : Rows → List Row
  pub find_first : (Row → Bool) → Rows → Option Row
  pub count : (Row → Bool) → Rows → ℕ
  -- `none`: the write is refused, and the call throws
  pub create : Row → Rows → Option Rows
  pub update : Row → Rows → Option Rows
  pub remove : String → Rows → Option Rows
  -- `updateMany`: the rows that meet the condition are changed
  pub update_many : (Row → Bool) → (Row → Row) → Rows → Option Rows
  pub find_first-Found : (p : Row → Bool) (t : Rows) → Found p (rows t) (find_first p t)
  pub count_lem : (p : Row → Bool) (t : Rows) → count p t ≡ countp p (rows t)
  pub create-unique :
      (r : Row) (t t' : Rows) → create r t ≡ some t' → countp (has_key key (key r)) (rows t) ≡ 0
  pub create-rows :
      (r : Row) (t t' : Rows)
      → create r t ≡ some t'
      → (p : Row → Bool) → countp p (rows t') ≡ bit (p r) + countp p (rows t)
  pub update-rows :
      (r : Row) (t t' : Rows)
      → update r t ≡ some t'
      → (p : Row → Bool) → countp p (rows t') ≡ countp p (map (replace key r) (rows t))
  pub remove-rows :
      (id : String) (t t' : Rows)
      → remove id t ≡ some t'
      → (p : Row → Bool) → countp p (rows t') ≡ countp (both p (other_than key id)) (rows t)
  pub update_many-rows :
      (where_ : Row → Bool) (f : Row → Row) (t t' : Rows)
      → update_many where_ f t ≡ some t'
      → (p : Row → Bool) → countp p (rows t') ≡ countp p (map (rewrite where_ f) (rows t))

-- `findUnique({ where: { id } })`
abbrev pub find :
    {Row : Type 0} {key : Row → String} (db : Queries Row key) → String → db.Rows → Option Row
find {key = key} db id t = db.find_first (has_key key id) t

-- Counting the rows of a list.
module _ {Row : Type 0} where
  pub countp-IsRow :
      (p : Row → Bool) (r : Row) (rs : List Row) → IsRow r rs → p r ≡ true → 1 ≤ countp p rs
  unfolding countp
  countp-IsRow p r [] m h = absurd m
  countp-IsRow p r (x ∷ xs) (inl e) h = ground (arith, e)
  countp-IsRow p r (x ∷ xs) (inr m) h = omega (arith, countp-IsRow p r xs m h)

  pub countp-both :
      (p q : Row → Bool) (rs : List Row)
      → countp p rs ≡ countp (both p (λ r. not (q r))) rs + countp (both p q) rs
  unfolding countp
  countp-both p q [] = omega arith
  countp-both p q (x ∷ xs) = ground (arith, countp-both p q xs)

  pub countp-le_right : (p q : Row → Bool) (rs : List Row) → countp (both p q) rs ≤ countp q rs
  unfolding countp
  countp-le_right p q [] = omega arith
  countp-le_right p q (x ∷ xs) = ground (arith, countp-le_right p q xs)

  pub countp-le_left : (p q : Row → Bool) (rs : List Row) → countp (both p q) rs ≤ countp p rs
  unfolding countp
  countp-le_left p q [] = omega arith
  countp-le_left p q (x ∷ xs) = ground (arith, countp-le_left p q xs)

  pub countp_mono :
      (p q : Row → Bool)
      → ((r : Row) → p r ≡ true → q r ≡ true)
      → (rs : List Row) → countp p rs ≤ countp q rs
  unfolding countp
  countp_mono p q h [] = omega arith
  countp_mono p q h (x ∷ xs) = ground (arith, h x, countp_mono p q h xs)

  -- Replacing the rows under a key.
  pub countp-replace :
      (key : Row → String) (p : Row → Bool) (new : Row) (rs : List Row)
      → countp p (map (replace key new) rs)
        ≡ countp (both p (other_than key (key new))) rs
          + (if p new then countp (has_key key (key new)) rs else 0)
  unfolding countp
  countp-replace key p new [] = ground arith
  countp-replace key p new (x ∷ xs) = ground (arith, countp-replace key p new xs)

  -- Two rows under one key are one row too many.
  pub countp_unique :
      (key : Row → String) (p : Row → Bool) (old : Row) (rs : List Row)
      → IsKeyed key rs
      → IsRow old rs
      → p old ≡ false
      → countp (both p (has_key key (key old))) rs ≡ 0
  countp_unique key p old rs keyed row h = omega (
    arith,
    keyed (key old),
    countp-both (has_key key (key old)) p rs,
    countp-IsRow (both (has_key key (key old)) (λ r. not (p r))) old rs row
        (rw (h, str_eq_self (key old)) refl),
    countp_mono (both p (has_key key (key old))) (both (has_key key (key old)) p)
        (λ r e. ground arith) rs,
  )
