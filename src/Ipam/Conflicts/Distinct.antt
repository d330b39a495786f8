-- ===== src/Ipam/Conflicts/Distinct.antt =====
-- Lists of texts whose distinct members are counted, as `new Set(…).size` does.
use infra_inventory.Prelude.{
  ◌<◌, ◌≡◌, ◌∙◌, refl, sym, subst, ◌⊎◌, inl, inr, Bool, true, false, List, [], ◌∷◌, String, arith,
  eq_iff, str_eq, Bool-cases, length,
}
use infra_inventory.Store.Queries.{IsRow}
use infra_inventory.Ipam.Conflicts.{includes, distinct}

-- Two different members.
abbrev pub Differ : List String → Type 0
Differ xs = (x : String) × (y : String) × IsRow x xs × IsRow y xs × (str_eq x y ≡ false)

includes-row : (x : String) (ys : List String) → includes x ys ≡ true → IsRow x ys
unfolding includes
includes-row x [] h = absurd cc
includes-row x (y ∷ ys) h = elim (Bool-cases (str_eq y x)) [
  | inl e ↦ inl ((eq_iff y x).0 e)
  | inr e ↦ inr (includes-row x ys (rw e at h))
]

row-includes : (x : String) (ys : List String) → IsRow x ys → includes x ys ≡ true
unfolding includes
row-includes x [] row = absurd row
row-includes x (y ∷ ys) (inl e) = rw ((eq_iff y x).1 e) refl
row-includes x (y ∷ ys) (inr row) = ground (arith, row-includes x ys row)

-- A list with a member keeps one.
distinct-some : (x : String) (xs : List String) → IsRow x xs → 0 < length (distinct xs)
unfolding distinct
distinct-some x [] row = absurd row
distinct-some x (y ∷ ys) row = elim (Bool-cases (includes y ys)) [
  | inl e ↦ rw e (distinct-some y ys (includes-row y ys e))
  | inr e ↦ rw e (omega arith)
]

some-distinct : (xs : List String) → 0 < length (distinct xs) → (x : String) × IsRow x xs
unfolding distinct
some-distinct [] h = absurd (omega arith)
some-distinct (x ∷ xs) h = (x, inl refl)

other : (x y : String) (xs : List String) → includes x xs ≡ false → IsRow y xs → str_eq x y ≡ false
other x y xs e row = elim (Bool-cases (str_eq x y)) [
  | inl same ↦
      absurd
        (not_both (row-includes x xs (subst (λ z. IsRow z xs) (sym ((eq_iff x y).0 same)) row)) e)
  | inr differ ↦ differ
]
  where
    not_both : {b : Bool} → b ≡ true → b ≡ false → ⊥
    not_both h k = cc

-- Two different members after the first one, if that is a member again.
later : (x : String) (xs : List String) → IsRow x xs → Differ (x ∷ xs) → Differ xs
later x xs again (p, q, hp, hq, differ) = (p, q, moved hp, moved hq, differ)
  where
    moved : {y : String} → (x ≡ y) ⊎ IsRow y xs → IsRow y xs
    moved (inl e) = subst (λ z. IsRow z xs) e again
    moved (inr row) = row

second : (x : String) (xs : List String) → Differ (x ∷ xs) → (y : String) × IsRow y xs
second x xs (p, q, inl e, inl k, differ) = absurd (ground (arith, eq_iff p q, sym e ∙ k, differ))
second x xs (p, q, inr row, hq, differ) = (p, row)
second x xs (p, q, inl e, inr row, differ) = (q, row)

pub distinct-Differ : (xs : List String) → 1 < length (distinct xs) → Differ xs
unfolding distinct
distinct-Differ [] h = absurd (omega arith)
distinct-Differ (x ∷ xs) h = elim (Bool-cases (includes x xs)) [
  | inl e ↦
      let (p, q, hp, hq, differ) = distinct-Differ xs (rw e at h) in (p, q, inr hp, inr hq, differ)
  | inr e ↦
      let (y, row) = some-distinct xs (omega (arith, rw e at h)) in
      (x, y, inl refl, inr row, other x y xs e row)
]

pub Differ-distinct : (xs : List String) → Differ xs → 1 < length (distinct xs)
unfolding distinct
Differ-distinct [] (p, q, hp, hq, differ) = absurd hp
Differ-distinct (x ∷ xs) d = elim (Bool-cases (includes x xs)) [
  | inl e ↦ rw e (Differ-distinct xs (later x xs (includes-row x xs e) d))
  | inr e ↦ let (y, row) = second x xs d in rw e (omega (arith, distinct-some y xs row))
]
